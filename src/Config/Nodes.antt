-- ===== src/Config/Nodes.antt =====
-- The check of a block's nodes (src/config.rs, `reject_unknown_nodes`).
use mtack.Base.{
  ◌≡◌, refl, sym, subst, ◌↔◌, true, false, List, [], ◌∷◌, Text, if◌then◌else◌, All, Bool-cases, inl,
  inr, arith,
}
use mtack.Base.Results.{ok}
use mtack.Config.Kdl.{Kdl}
use mtack.Config.Fields.{Context, contains}
use mtack.Config.Distinct.{Distinct, Fresh, Fresh-seen, Fresh-unseen, Fresh-nil}
use mtack.Config.Parse.{reject_unknown, reject_unknown_nodes, names_of}

-- The names that may come once.
abbrev pub once : List Text → List Text → List Text
once repeated [] = []
once repeated (name ∷ names) =
    if contains name repeated then once repeated names else name ∷ once repeated names

abbrev pub Known : List Text → List Text → Type 0
Known known names = All (λ name. contains name known ≡ true) names

-- Of a list of names that starts with one that may be repeated, or with one that may not.
once-true :
    (P : List Text → Type 0) (repeated : List Text) (name : Text) (names : List Text)
    → contains name repeated ≡ true
    → P (once repeated names) ↔ P (once repeated (name ∷ names))
once-true P repeated name names e =
    let eq : once repeated names ≡ once repeated (name ∷ names) = ground (arith, e) in
    (subst P eq, subst P (sym eq))

once-false :
    (P : List Text → Type 0) (repeated : List Text) (name : Text) (names : List Text)
    → contains name repeated ≡ false
    → P (name ∷ once repeated names) ↔ P (once repeated (name ∷ names))
once-false P repeated name names e =
    let eq : name ∷ once repeated names ≡ once repeated (name ∷ names) = ground (arith, e) in
    (subst P eq, subst P (sym eq))

-- What the names that may come once have to be, after those seen.
abbrev New : List Text → List Text → Type 0
New seen names = Fresh seen names × Distinct names

reject_unknown_sound :
    (known repeated : List Text) (context : Context) (seen names : List Text)
    → reject_unknown known repeated context seen names ≡ ok tt
    → Known known names × New seen (once repeated names)
unfolding reject_unknown
reject_unknown_sound known repeated context seen [] h = (tt, (tt, tt))
reject_unknown_sound known repeated context seen (name ∷ names) h =
    elim (Bool-cases (contains name repeated)) [
      | inl e ↦
          let (k, new) =
            reject_unknown_sound known repeated context seen names (ground (arith, e, h)) in
          ((ground (arith, h), k), (once-true (New seen) repeated name names e).0 new)
      | inr e ↦
          let (k, (f, d)) =
            reject_unknown_sound known repeated context (name ∷ seen) names
              (ground (arith, e, h)) in
          let (old, others) = Fresh-seen name seen (once repeated names) f in
          (
            (ground (arith, h), k),
            (once-false (New seen) repeated name names e).0
                ((ground (arith, e, h), old), (others, d)),
          )
    ]

reject_unknown_complete :
    (known repeated : List Text) (context : Context) (seen names : List Text)
    → Known known names
    → New seen (once repeated names)
    → reject_unknown known repeated context seen names ≡ ok tt
unfolding reject_unknown
reject_unknown_complete known repeated context seen [] k new = refl
reject_unknown_complete known repeated context seen (name ∷ names) (is, k) new =
    elim (Bool-cases (contains name repeated)) [
      | inl e ↦
          let rest =
            reject_unknown_complete known repeated context seen names k
              ((once-true (New seen) repeated name names e).1 new) in
          ground (arith, e, is, rest)
      | inr e ↦
          let ((unseen, fresh), (others, d)) =
            (once-false (New seen) repeated name names e).1 new in
          let rest =
            reject_unknown_complete known repeated context (name ∷ seen) names k
              (Fresh-unseen name seen (once repeated names) fresh others, d) in
          ground (arith, e, is, unseen, rest)
    ]

module _ (kdl : Kdl) where
  -- The nodes of a block are accepted exactly when each has a known name and no two of them have the same name, unless
  -- it is one that may be repeated.
  reject_unknown_nodes_iff :
      (nodes : List kdl.Node) (known repeated : List Text) (context : Context)
      → (reject_unknown_nodes kdl nodes known repeated context ≡ ok tt)
        ↔ (Known known (names_of kdl nodes) × Distinct (once repeated (names_of kdl nodes)))
  unfolding reject_unknown_nodes
  reject_unknown_nodes_iff nodes known repeated context = (
    λ h.
        let (k, (f, d)) = reject_unknown_sound known repeated context [] (names_of kdl nodes) h in
        (k, d),
    λ (k, d).
        reject_unknown_complete known repeated context [] (names_of kdl nodes) k
          (Fresh-nil (once repeated (names_of kdl nodes)), d),
  )
