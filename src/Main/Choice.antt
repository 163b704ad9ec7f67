-- ===== src/Main/Choice.antt =====
-- Which configuration a command is about (src/main.rs, `main` and `only_running_config`).
use mtack.Base.{
  ◌≡◌, ◌⊎◌, inl, inr, refl, Bool, true, false, List, [], ◌∷◌, ◌++◌, Option, none, some, Text,
  if◌then◌else◌, arith, if-cases,
}
use mtack.Base.Results.{
  Result, ok, err, ok_or, Ensures, Ensures-chain, Ensures-any, Ensures-ok, ok-Ensures,
}
use mtack.Base.Utf8.{codes}
use mtack.Server.Listing.{DirError}
use mtack.Main.{
  Cmd, Files, Failure, Target, not_absolute, has_no_parent, reaches_running, only_running_config,
  chosen_config, target, checked_dir, only_one, resolved,
}

module _ (named : Option Text) (command : Option Cmd) (found : Option (Option Text))
    (listed : List Text) where
  -- The one that is named; else the one that the search finds; else, for a command that reaches a running server, that of
  -- the only one there is. The flag says whether hints have to name it.
  pub data Chosen : Text → Bool → Type 0 where
    by_name : {path : Text} → named ≡ some path → Chosen path true
    by_search : {path : Text} → named ≡ none → found ≡ some (some path) → Chosen path false
    by_server :
        {path : Text}
        → named ≡ none
        → found ≡ some none
        → reaches_running command ≡ true
        → listed ≡ path ∷ []
        → Chosen path true

only_one_iff : (listed : List Text) (path : Text) → only_one listed ≡ ok path → listed ≡ path ∷ []
unfolding only_one
only_one_iff [] path e = cc
only_one_iff (c ∷ []) path e = ground (arith, e)
only_one_iff (c ∷ d ∷ ds) path e = cc

only_running_config_sound :
    (runtime : Result DirError (Unit {0})) (listed : List Text) (path : Text)
    → only_running_config runtime listed ≡ ok path
    → listed ≡ path ∷ []
unfolding only_running_config
only_running_config_sound (ok dir) listed path e = only_one_iff listed path e
only_running_config_sound (err problem) listed path e = cc

module _ (named : Option Text) (command : Option Cmd) (found : Option (Option Text))
    (runtime : Result DirError (Unit {0})) (listed : List Text) where
  abbrev IsChosen : Text × Bool → Type 0
  IsChosen (path, explicit) = Chosen named command found listed path explicit

chosen_config-IsChosen :
    (named : Option Text) (command : Option Cmd) (found : Option (Option Text))
    (runtime : Result DirError (Unit {0})) (listed : List Text)
    → Ensures
        (IsChosen named command found runtime listed)
        (chosen_config named command found runtime listed)
unfolding chosen_config Ensures
chosen_config-IsChosen (some path) command found runtime listed = by_name refl
chosen_config-IsChosen none command none runtime listed = tt
chosen_config-IsChosen none command (some (some path)) runtime listed = by_search refl refl
chosen_config-IsChosen none command (some none) runtime listed =
    if-cases (Ensures (IsChosen none command (some none) runtime listed)) (reaches_running command)
      _ _
      (λ reaches.
        Ensures-chain (λ path. listed ≡ path ∷ [])
          (IsChosen none command (some none) runtime listed) (only_running_config runtime listed) _
          (ok-Ensures (λ path. listed ≡ path ∷ []) (only_running_config runtime listed)
            (only_running_config_sound runtime listed))
          (λ path one. by_server refl refl reaches one))
      (λ e. tt)

module _ (files : Files) (command : Option Cmd) where
  -- The path under which the server of a configuration is known.
  abbrev pub IsKey : Text → Text → Type 0
  IsKey path key =
      (files.canonicalize path ≡ some key)
      ⊎ ((reaches_running command ≡ true)
          × (files.canonicalize path ≡ none)
          × (files.absolute path ≡ some key))

module _ (files : Files) where
  abbrev pub IsBeside : Text → Text → Type 0
  IsBeside path dir =
      (absolute : Text) × (files.absolute path ≡ some absolute) × (files.parent absolute ≡ some dir)

ok_or-Ensures :
    {A : Type 0} (P : A → Type 0) (o : Option A) (problem : Failure)
    → ((a : A) → o ≡ some a → P a)
    → Ensures P (ok_or o problem)
unfolding Ensures
ok_or-Ensures P none problem h = tt
ok_or-Ensures P (some a) problem h = h a refl

resolved_sound :
    (files : Files) (reaches : Bool) (path : Text) (canonical : Option Text)
    → Ensures
        (λ key.
          (canonical ≡ some key)
          ⊎ ((reaches ≡ true) × (canonical ≡ none) × (files.absolute path ≡ some key)))
        (resolved files reaches path canonical)
unfolding resolved Ensures
resolved_sound files reaches path (some canonical) = inl refl
resolved_sound files true path none =
    ok_or-Ensures
      (λ key.
        (none ≡ some key) ⊎ ((true ≡ true) × (none ≡ none) × (files.absolute path ≡ some key)))
      (files.absolute path) not_absolute (λ key e. inr (refl, refl, e))
resolved_sound files false path none = tt

Ensures-made : {A : Type 0} (P : A → Type 0) (a : A) → P a → Ensures {E = Failure} P (ok a)
unfolding Ensures
Ensures-made P a p = p

abbrev pub flag_of : Bool → Text → Text
flag_of explicit key = if explicit then codes " -c " ++ key else []

abbrev made : Text → Text → Bool → Target
made key dir explicit = record {
  config_path = key;
  config_dir = dir;
  config_flag = flag_of explicit key;
}

module _ (files : Files) (named : Option Text) (command : Option Cmd) (found : Option (Option Text))
    (runtime : Result DirError (Unit {0})) (listed : List Text) where
  abbrev pub IsTarget : Target → Type 0
  IsTarget to =
      (path : Text) × (explicit : Bool) × Chosen named command found listed path explicit
      × IsKey files command path to.config_path
      × IsBeside files path to.config_dir
      × (to.config_flag ≡ flag_of explicit to.config_path)

  target-IsTarget : Ensures IsTarget (target files named command found runtime listed)
  unfolding target
  target-IsTarget =
      Ensures-chain (IsChosen named command found runtime listed) IsTarget
        (chosen_config named command found runtime listed) _
        (chosen_config-IsChosen named command found runtime listed)
        (λ chosen c.
          Ensures-chain (λ a. files.absolute chosen.0 ≡ some a) IsTarget
            (ok_or (files.absolute chosen.0) not_absolute) _
            (ok_or-Ensures (λ a. files.absolute chosen.0 ≡ some a) (files.absolute chosen.0)
              not_absolute (λ a e. e))
            (λ a at.
              Ensures-chain (λ d. files.parent a ≡ some d) IsTarget
                (ok_or (files.parent a) has_no_parent) _
                (ok_or-Ensures (λ d. files.parent a ≡ some d) (files.parent a) has_no_parent
                  (λ d e. e))
                (λ d beside.
                  Ensures-chain (IsKey files command chosen.0) IsTarget _ _
                    (resolved_sound files (reaches_running command) chosen.0
                      (files.canonicalize chosen.0))
                    (λ key k.
                      Ensures-any IsTarget (checked_dir runtime) (λ u. ok (made key d chosen.1))
                        (λ u.
                          Ensures-made IsTarget (made key d chosen.1)
                            (chosen.0, chosen.1, c, k, (a, at, beside), refl))))))

-- A command is about the configuration that is named; without one, about the one that the search from the working
-- directory finds; and only where it finds none, and the command is attach or down, about that of the one running server.
-- Its processes run beside that path as it stands, the server is known by the path resolved, or for attach and down by the
-- absolute one if there is no such file, and the hints name it unless the search found it.
pub target_sound :
    (files : Files) (named : Option Text) (command : Option Cmd) (found : Option (Option Text))
    (runtime : Result DirError (Unit {0})) (listed : List Text) (to : Target)
    → target files named command found runtime listed ≡ ok to
    → IsTarget files named command found runtime listed to
target_sound files named command found runtime listed to e =
    Ensures-ok (IsTarget files named command found runtime listed) _ to
      (target-IsTarget files named command found runtime listed) e
