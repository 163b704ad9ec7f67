-- ===== src/Config/Find.antt =====
-- The search for the configuration file (src/config.rs, `find_config_file`). A directory is the list of
-- its components, the innermost first: `[]` is the root, which has no parent.
use mtack.Base.{
  ◌≡◌, subst, ◌↔◌, ◌⊎◌, inl, inr, Bool, true, false, List, [], ◌∷◌, Option, none, some, Text,
  if◌then◌else◌, Option-cases, arith,
}
use mtack.Base.Utf8.{codes}

abbrev pub config_filenames : List Text
config_filenames = codes "mtack.kdl" ∷ codes ".mtack.kdl" ∷ []

-- `is_file` is the file system: whether a name is that of a file in a directory.
module _ (is_file : List Text → Text → Bool) where
  -- The inner loop.
  unfoldable pub candidate : List Text → List Text → Option Text
  candidate dir [] = none
  candidate dir (name ∷ names) =
      let rest = candidate dir names in if is_file dir name then some name else rest

  found_in : List Text → Option Text → Option (List Text × Text) → Option (List Text × Text)
  found_in dir (some name) rest = some (dir, name)
  found_in dir none rest = rest

  -- The outer loop; `none` is the error.
  unfoldable pub find_config_file : List Text → Option (List Text × Text)
  unfolding found_in
  find_config_file [] = found_in [] (candidate [] config_filenames) none
  find_config_file (last ∷ parent) =
      let rest = find_config_file parent in
      found_in (last ∷ parent) (candidate (last ∷ parent) config_filenames) rest

  -- A directory that holds neither of the two names.
  abbrev pub HoldsNone : List Text → Type 0
  HoldsNone dir =
      (is_file dir (codes "mtack.kdl") ≡ false) × (is_file dir (codes ".mtack.kdl") ≡ false)

  -- The name under which a directory holds a configuration: the one without a dot goes first.
  abbrev pub Holds : List Text → Text → Type 0
  Holds dir name =
      ((name ≡ codes "mtack.kdl") × (is_file dir (codes "mtack.kdl") ≡ true))
      ⊎ ((name ≡ codes ".mtack.kdl")
          × (is_file dir (codes "mtack.kdl") ≡ false)
          × (is_file dir (codes ".mtack.kdl") ≡ true))

  -- A directory at or above another, and no directory from that one up to it, itself left out, holds a
  -- configuration file.
  pub data Nearest : List Text → List Text → Type 0 where
    here : {dir : List Text} → Nearest dir dir
    above :
        {last : Text} {parent dir : List Text}
        → HoldsNone (last ∷ parent)
        → Nearest parent dir
        → Nearest (last ∷ parent) dir

  candidate-HoldsNone : (dir : List Text) → (candidate dir config_filenames ≡ none) ↔ HoldsNone dir
  unfolding candidate
  candidate-HoldsNone dir = (λ h. ground (arith, h), λ h. ground (arith, h))

  candidate-Holds :
      (dir : List Text) (name : Text)
      → (candidate dir config_filenames ≡ some name) ↔ Holds dir name
  unfolding candidate
  candidate-Holds dir name = (λ h. ground (arith, h), λ h. ground (arith, h))

  find_sound :
      (start dir : List Text) (name : Text)
      → find_config_file start ≡ some (dir, name)
      → Nearest start dir × Holds dir name
  unfolding find_config_file
  find_sound [] dir name h = elim (Option-cases (candidate [] config_filenames)) [
    | inl e ↦ ground (arith, e, h)
    | inr (found, e) ↦
        let d : [] ≡ dir = ground (arith, e, h) in
        subst (λ to. Nearest [] to × Holds to name) d
          (here, (candidate-Holds [] name).0 (ground (arith, e, h)))
  ]
  find_sound (last ∷ parent) dir name h =
      elim (Option-cases (candidate (last ∷ parent) config_filenames)) [
        | inl e ↦
            let (up, found) = find_sound parent dir name (ground (arith, e, h)) in
            (above ((candidate-HoldsNone (last ∷ parent)).0 e) up, found)
        | inr (found, e) ↦
            let d : last ∷ parent ≡ dir = ground (arith, e, h) in
            subst (λ to. Nearest (last ∷ parent) to × Holds to name) d
              (here, (candidate-Holds (last ∷ parent) name).0 (ground (arith, e, h)))
      ]

  found-at :
      (start : List Text) (name : Text)
      → candidate start config_filenames ≡ some name
      → find_config_file start ≡ some (start, name)
  unfolding find_config_file
  found-at [] name e = ground (arith, e)
  found-at (last ∷ parent) name e = ground (arith, e)

  find_complete :
      (start dir : List Text) (name : Text)
      → Nearest start dir
      → Holds dir name
      → find_config_file start ≡ some (dir, name)
  unfolding find_config_file
  find_complete start _ name here e = found-at start name ((candidate-Holds start name).1 e)
  find_complete (last ∷ parent) dir name (above none_here up) e =
      ground (
        arith,
        (candidate-HoldsNone (last ∷ parent)).1 none_here,
        find_complete parent dir name up e,
      )

  -- A configuration is found exactly in the nearest directory, from the first one up, that holds a file mtack.kdl or
  -- .mtack.kdl, under the first of these two names that it holds.
  pub find_config_file_iff :
      (start dir : List Text) (name : Text)
      → (find_config_file start ≡ some (dir, name)) ↔ (Nearest start dir × Holds dir name)
  find_config_file_iff start dir name =
      (find_sound start dir name, λ (up, e). find_complete start dir name up e)
