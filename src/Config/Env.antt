-- ===== src/Config/Env.antt =====
-- The variables of a process, read against the block that gives them (src/config.rs, `parse_env`).
use mtack.Base.{
  ◌≡◌, subst, ◌↔◌, false, List, [], ◌∷◌, Option, none, some, Text, map, Bool-cases, Option-cases,
  inl, inr, arith,
}
use mtack.Base.Panic.{◌>>=◌}
use mtack.Base.Results.{ok, Result-cases, Ensures, ok-Ensures, Ensures-any, ok_or}
use mtack.Base.Utf8.{codes}
use mtack.Config.Kdl.{Kdl}
use mtack.Config.Fields.{contains, env_no_block}
use mtack.Config.Distinct.{Distinct, Fresh, Fresh-seen, Fresh-unseen, Fresh-nil}
use mtack.Config.Parse.{env_of, env_at, parse_env, names_of}

module _ (kdl : Kdl) where
  -- A variable's name and value; `none` where the value is no text.
  abbrev pub variable : kdl.Node → Option (Text × Text)
  variable child = do v ← kdl.first child; val ← kdl.as_string v; some (kdl.node_name child, val)

  abbrev pub variables : List kdl.Node → Option (List (Text × Text))
  variables [] = some []
  variables (child ∷ children) = do v ← variable child; vs ← variables children; some (v ∷ vs)

  -- What the first variable of a block is, where the block is read.
  env_of-cons :
      (seen : List Text) (child : kdl.Node) (children : List kdl.Node) (vars : List (Text × Text))
      → env_of kdl seen (child ∷ children) ≡ ok vars
      → (v : Text × Text) × (rest : List (Text × Text)) × (vars ≡ v ∷ rest)
        × (variable child ≡ some v)
        × (contains (kdl.node_name child) seen ≡ false)
        × (env_of kdl (kdl.node_name child ∷ seen) children ≡ ok rest)
  unfolding env_of
  env_of-cons seen child children vars h =
      let name = kdl.node_name child in
      elim (Bool-cases (contains name seen)) [
        | inl e ↦ ground (arith, e, h)
        | inr e ↦ elim (Option-cases (kdl.first child)) [
          | inl e' ↦ ground (arith, e, e', h)
          | inr (v, first) ↦ elim (Option-cases (kdl.as_string v)) [
            | inl e' ↦ ground (arith, e, first, e', h)
            | inr (val, text) ↦ elim (Result-cases (env_of kdl (name ∷ seen) children)) [
              | inl (problem, e') ↦ ground (arith, e, first, text, e', h)
              | inr (rest, later) ↦ (
                (name, val),
                rest,
                ground (arith, e, first, text, later, h),
                ground (arith, first, text),
                e,
                later,
              )
            ]
          ]
        ]
      ]

  env_of_sound :
      (seen : List Text) (nodes : List kdl.Node) (vars : List (Text × Text))
      → env_of kdl seen nodes ≡ ok vars
      → Fresh seen (names_of kdl nodes)
        × Distinct (names_of kdl nodes)
        × (variables nodes ≡ some vars)
  unfolding env_of
  env_of_sound seen [] vars h = (tt, tt, ground arith)
  env_of_sound seen (child ∷ children) vars h =
      let (v, rest, eq, is, new, later) = env_of-cons seen child children vars h in
      let (fresh, distinct, are) = env_of_sound (kdl.node_name child ∷ seen) children rest later in
      let (old, others) = Fresh-seen (kdl.node_name child) seen (names_of kdl children) fresh in
      ((new, old), (others, distinct), ground (arith, eq, is, are))

  env_of_complete :
      (seen : List Text) (nodes : List kdl.Node) (vars : List (Text × Text))
      → Fresh seen (names_of kdl nodes)
      → Distinct (names_of kdl nodes)
      → variables nodes ≡ some vars
      → env_of kdl seen nodes ≡ ok vars
  unfolding env_of
  env_of_complete seen [] vars f d h = ground arith
  env_of_complete seen (child ∷ children) vars (new, fresh) (others, distinct) h =
      elim (Option-cases (variables children)) [
        | inl e ↦ ground (arith, e, h)
        | inr (rest, e) ↦
            let later =
              env_of_complete (kdl.node_name child ∷ seen) children rest
                (Fresh-unseen (kdl.node_name child) seen (names_of kdl children) fresh others)
                distinct e in
            ground (arith, new, later, e, h)
      ]

  -- Where a process has an `env` node with a block, its variables are read exactly when no two of them have the same
  -- name and each has a text for its value, and are then these names and values in their order.
  parse_env_iff :
      (doc : kdl.Document) (node : kdl.Node) (block : kdl.Document) (vars : List (Text × Text))
      → kdl.get doc (codes "env") ≡ some node
      → kdl.children node ≡ some block
      → (parse_env kdl doc ≡ ok vars)
        ↔ (Distinct (names_of kdl (kdl.nodes block)) × (variables (kdl.nodes block) ≡ some vars))
  unfolding parse_env env_at
  parse_env_iff doc node block vars e₁ e₂ = (
    λ h.
        let (f, d, are) = env_of_sound [] (kdl.nodes block) vars (ground (arith, e₁, e₂, h)) in
        (d, are),
    λ (distinct, are).
        let read =
          env_of_complete [] (kdl.nodes block) vars (Fresh-nil (names_of kdl (kdl.nodes block)))
            distinct are in
        ground (arith, e₁, e₂, read),
  )

  variables-names :
      (nodes : List kdl.Node) (vars : List (Text × Text))
      → variables nodes ≡ some vars
      → names_of kdl nodes ≡ map (λ v. v.0) vars
  variables-names [] vars h = ground arith
  variables-names (child ∷ children) vars h = elim (Option-cases (variables children)) [
    | inl e ↦ ground (arith, e, h)
    | inr (rest, e) ↦ ground (arith, e, h, variables-names children rest e)
  ]

  env_at-Distinct :
      (node : Option kdl.Node) → Ensures (λ env. Distinct (map (λ v. v.0) env)) (env_at kdl node)
  unfolding env_at Ensures
  env_at-Distinct none = tt
  env_at-Distinct (some node) =
      Ensures-any (λ env. Distinct (map (λ v. v.0) env)) (ok_or (kdl.children node) env_no_block) _
        λ block.
          ok-Ensures (λ env. Distinct (map (λ v. v.0) env)) (env_of kdl [] (kdl.nodes block))
            λ vars h.
              let (f, d, are) = env_of_sound [] (kdl.nodes block) vars h in
              subst Distinct (variables-names (kdl.nodes block) vars are) d

  pub parse_env-Distinct :
      (doc : kdl.Document) → Ensures (λ env. Distinct (map (λ v. v.0) env)) (parse_env kdl doc)
  unfolding parse_env
  parse_env-Distinct doc = env_at-Distinct (kdl.get doc (codes "env"))
