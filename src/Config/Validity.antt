-- ===== src/Config/Validity.antt =====
-- What every configuration that is read satisfies (src/config.rs, `parse` and `parse_proc`).
use mtack.Base.{
  ℕ, zero, suc, ◌≤◌, ◌≡◌, refl, ◌∙◌, get_or, false, List, [], ◌∷◌, Option, none, some, Text,
  if◌then◌else◌, All, is_empty, usize_max, map, leb, if-cases, tests, arith,
}
use mtack.Base.Results.{ok, err, Ensures, Ensures-chain, Ensures-any, Ensures-ok, ok-Ensures, ok_or}
use mtack.Base.Utf8.{codes}
use mtack.Config.Kdl.{Kdl, ℤ, pos, negsuc}
use mtack.Config.Types.{Config, ProcConfig}
use mtack.Config.Fields.{
  contains, top_level, invalid_document, no_name, empty_name, no_body, in_proc, duplicate_proc,
  unfocus_key_of, not_positive, unfocus_not_string, positive_at, unfocus_key_at, parse_bool_field,
  positive, parse_positive_int, parse_nonneg_int, parse_unfocus_key,
}
use mtack.Config.Distinct.{Distinct, Fresh, Fresh-seen}
use mtack.Config.Keys.{IsKey, unfocus_key_of_iff}
use mtack.Config.Env.{parse_env-Distinct}
use mtack.Config.Parse.{
  parse, parse_document, parse_proc, procs_of, proc_of, at_least_one, default_scrollback,
  known_global_nodes, reject_unknown_nodes, known_proc_nodes, parse_command, parse_env, proc_nodes,
}

-- Of a number of lines, where it is given.
abbrev pub IsScrollback : Option ℕ → Type 0
IsScrollback none = Unit
IsScrollback (some n) = (1 ≤ n) × (n ≤ usize_max)

unfoldable pub IsValidProc : ProcConfig → Type 0
IsValidProc p =
    (is_empty p.name ≡ false)
    × IsScrollback p.scrollback
    × IsKey p.unfocus_key
    × Distinct (map (λ v. v.0) p.env)

unfoldable pub IsValid : Config → Type 0
unfolding IsValidProc
IsValid c =
    (is_empty c.procs ≡ false)
    × (1 ≤ c.scrollback)
    × (c.scrollback ≤ usize_max)
    × Distinct (map (λ p. p.name) c.procs)
    × All IsValidProc c.procs

positive-IsScrollback : (name : Text) (z : ℤ) → Ensures IsScrollback (positive name z)
unfolding positive Ensures
positive-IsScrollback name (pos zero) = tt
positive-IsScrollback name (pos (suc n)) =
    if-cases (Ensures IsScrollback) (leb (suc n) usize_max) _ _
      (λ e. (omega arith, omega (tests, e))) (λ e. tt)
positive-IsScrollback name (negsuc n) = tt

module _ (kdl : Kdl) where
  positive_at-IsScrollback :
      (name : Text) (node : Option kdl.Node) → Ensures IsScrollback (positive_at kdl name node)
  unfolding positive_at Ensures
  positive_at-IsScrollback name none = tt
  positive_at-IsScrollback name (some node) =
      Ensures-any IsScrollback (ok_or (kdl.first node) (not_positive name)) _ λ v.
        Ensures-any IsScrollback (ok_or (kdl.as_integer v) (not_positive name)) _
          (positive-IsScrollback name)

  unfocus_key_at-IsKey : (node : Option kdl.Node) → Ensures IsKey (unfocus_key_at kdl node)
  unfolding unfocus_key_at Ensures IsKey
  unfocus_key_at-IsKey none = tt
  unfocus_key_at-IsKey (some node) =
      Ensures-any IsKey (ok_or (kdl.first node) unfocus_not_string) _ λ v.
        Ensures-any IsKey (ok_or (kdl.as_string v) unfocus_not_string) _
          λ val. ok-Ensures IsKey (unfocus_key_of val) λ k e. ((unfocus_key_of_iff val k).0 e).1

  proc_of-IsValidProc :
      (home shell : Option Text) (name : Text) (children : kdl.Document)
      → is_empty name ≡ false
      → Ensures IsValidProc (proc_of kdl home shell name children)
  unfolding proc_of IsValidProc Ensures parse_unfocus_key parse_positive_int
  proc_of-IsValidProc home shell name children h =
      Ensures-any IsValidProc (parse_command kdl shell children name) _ λ command.
        Ensures-chain (λ env. Distinct (map (λ v. v.0) env)) IsValidProc (parse_env kdl children) _
          (parse_env-Distinct kdl children)
          λ env distinct.
            Ensures-any IsValidProc (parse_bool_field kdl children (codes "autostart")) _
              λ autostart.
                Ensures-any IsValidProc (parse_bool_field kdl children (codes "autorestart")) _
                  λ autorestart.
                    Ensures-chain IsKey IsValidProc (parse_unfocus_key kdl children) _
                      (unfocus_key_at-IsKey (kdl.get children (codes "unfocus-key")))
                      λ key is_key.
                        Ensures-chain IsScrollback IsValidProc
                          (parse_positive_int kdl children (codes "scrollback")) _
                          (positive_at-IsScrollback (codes "scrollback")
                            (kdl.get children (codes "scrollback")))
                          λ scrollback fits. (h, fits, is_key, distinct)

  parse_proc-IsValidProc :
      (home shell : Option Text) (node : kdl.Node)
      → Ensures IsValidProc (parse_proc kdl home shell node)
  unfolding parse_proc Ensures
  parse_proc-IsValidProc home shell node =
      Ensures-any IsValidProc (ok_or (kdl.first node) no_name) _ λ v.
        Ensures-any IsValidProc (ok_or (kdl.as_string v) no_name) _ λ name.
          Ensures-chain (λ named. is_empty named ≡ false) IsValidProc
            (if is_empty name then err empty_name else ok name) _
            (if-cases (Ensures (λ named. is_empty named ≡ false)) (is_empty name) _ _ (λ e. tt)
              (λ e. e))
            λ named nonempty.
              Ensures-any IsValidProc (ok_or (kdl.children node) (no_body named)) _ λ children.
                Ensures-any IsValidProc
                  (reject_unknown_nodes kdl (kdl.nodes children) known_proc_nodes []
                    (in_proc named))
                  _ λ checked. proc_of-IsValidProc home shell named children nonempty

  -- What the loop gives, from the names seen and the nodes that are left.
  abbrev AreValid : List Text → List kdl.Node → List ProcConfig → Type 0
  AreValid seen nodes procs =
      (is_empty procs ≡ is_empty nodes)
      × Fresh seen (map (λ p. p.name) procs)
      × Distinct (map (λ p. p.name) procs)
      × All IsValidProc procs

  procs_of-AreValid :
      (home shell : Option Text) (seen : List Text) (nodes : List kdl.Node)
      → Ensures (AreValid seen nodes) (procs_of kdl home shell seen nodes)
  unfolding procs_of Ensures
  procs_of-AreValid home shell seen [] = (refl, tt, tt, tt)
  procs_of-AreValid home shell seen (node ∷ nodes) =
      let P = AreValid seen (node ∷ nodes) in
      Ensures-chain IsValidProc P (parse_proc kdl home shell node) _
        (parse_proc-IsValidProc home shell node)
        λ proc valid.
          Ensures-chain (λ named. (contains named.name seen ≡ false) × IsValidProc named) P
            (if contains proc.name seen then err (duplicate_proc proc.name) else ok proc) _
            (if-cases (Ensures (λ named. (contains named.name seen ≡ false) × IsValidProc named))
              (contains proc.name seen) _ _ (λ e. tt) (λ e. (e, valid)))
            λ named (new, is_valid).
              Ensures-chain (AreValid (named.name ∷ seen) nodes) P
                (procs_of kdl home shell (named.name ∷ seen) nodes) _
                (procs_of-AreValid home shell (named.name ∷ seen) nodes)
                λ rest (e, fresh, distinct, valids).
                  let (old, others) = Fresh-seen named.name seen (map (λ p. p.name) rest) fresh in
                  (refl, (new, old), (others, distinct), (is_valid, valids))

  at_least_one-nonempty :
      (nodes : List kdl.Node) → Ensures (λ found. is_empty found ≡ false) (at_least_one kdl nodes)
  unfolding at_least_one Ensures
  at_least_one-nonempty [] = tt
  at_least_one-nonempty (node ∷ nodes) = refl

  get_or-IsScrollback :
      (n : Option ℕ)
      → IsScrollback n
      → (1 ≤ get_or n default_scrollback) × (get_or n default_scrollback ≤ usize_max)
  get_or-IsScrollback none h = (omega arith, omega arith)
  get_or-IsScrollback (some n) h = h

  parse_document-IsValid :
      (home shell : Option Text) (doc : kdl.Document)
      → Ensures IsValid (parse_document kdl home shell doc)
  unfolding parse_document Ensures IsValid parse_positive_int
  parse_document-IsValid home shell doc =
      Ensures-any IsValid
        (reject_unknown_nodes kdl (kdl.nodes doc) known_global_nodes (codes "proc" ∷ []) top_level)
        _
        λ checked.
          Ensures-chain IsScrollback IsValid (parse_positive_int kdl doc (codes "scrollback")) _
            (positive_at-IsScrollback (codes "scrollback") (kdl.get doc (codes "scrollback")))
            λ scrollback fits.
              Ensures-any IsValid (parse_nonneg_int kdl doc (codes "shutdown-timeout")) _ λ timeout.
                Ensures-chain (λ found. is_empty found ≡ false) IsValid
                  (at_least_one kdl (proc_nodes kdl (kdl.nodes doc))) _
                  (at_least_one-nonempty (proc_nodes kdl (kdl.nodes doc)))
                  λ found nonempty.
                    Ensures-chain (AreValid [] found) IsValid (procs_of kdl home shell [] found) _
                      (procs_of-AreValid home shell [] found)
                      λ procs (e, fresh, distinct, valids).
                        let (least, most) = get_or-IsScrollback scrollback fits in
                        (e ∙ nonempty, least, most, distinct, valids)

  -- A configuration that is read has at least one process, no two of them with the same name, no name empty, no two
  -- variables of one process with the same name, every number of lines that is kept is from 1 to the largest usize, and every
  -- unfocus key with Ctrl has a lowercase ASCII letter.
  pub parse-IsValid :
      (home shell : Option Text) (input : Text) (c : Config)
      → parse kdl home shell input ≡ ok c
      → IsValid c
  unfolding parse
  parse-IsValid home shell input c h =
      Ensures-ok IsValid (parse kdl home shell input) c
        (Ensures-any IsValid (ok_or (kdl.read input) invalid_document) _
          (parse_document-IsValid home shell))
        h
