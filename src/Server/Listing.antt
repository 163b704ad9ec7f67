-- ===== src/Server/Listing.antt =====
-- The directory of the servers' files and the servers that are running (src/server.rs, `runtime_dir` and `list_running`).
-- The file system and the sockets are arguments.
use mathlib.Core.List.{Memᴰ}
use mathlib.Core.List.Memᴰ.{head, tail, cases_cons}
use mtack.Base.{
  ℕ, ◌%◌, ◌≡◌, ◌⊎◌, ◌↔◌, inl, inr, ◌∙◌, subst, sym, ap, Bool, true, false, ◌&&◌, List, [], ◌∷◌,
  Option, none, some, Text, Bytes, if◌then◌else◌, text_eq, arith, ◌==◌, if-cases,
}
use mtack.Base.Results.{Result, ok, err}
use mtack.Base.Utf8.{codes}
use mtack.Config.Distinct.{text_eq_sound, text_eq_refl}

pub record Metadata : Type 0 where
  pub is_dir : Bool
  pub uid : ℕ
  pub mode : ℕ

pub data DirError : Type 0 where
  not_created no_metadata not_private : DirError

-- `meta.mode() & 0o077 != 0` is in the last six bits.
abbrev pub is_private : ℕ → Metadata → Bool
is_private uid meta = meta.is_dir && meta.uid == uid && meta.mode % 64 == 0

-- `created` says whether the directory is there after the call that creates it, `meta` is what `lstat` gives.
unfoldable pub runtime_dir : ℕ → Bool → Option Metadata → Result DirError (Unit {0})
runtime_dir uid false meta = err not_created
runtime_dir uid true none = err no_metadata
runtime_dir uid true (some meta) = if is_private uid meta then ok tt else err not_private

-- A path in the directory: the name of the file up to its last dot, and what stands behind it.
pub record FilePath : Type 0 where
  pub stem : Text
  pub extension : Option Text

abbrev pub with_extension : Text → FilePath → FilePath
with_extension e path = record path { extension = some e }

-- `before` is the order of paths.
module _ (before : Bytes → Bytes → Bool) where
  unfoldable pub insert : Bytes → List Bytes → List Bytes
  insert p [] = p ∷ []
  insert p (q ∷ qs) = let rest = insert p qs in if before p q then p ∷ q ∷ qs else q ∷ rest

  unfoldable pub sort : List Bytes → List Bytes
  unfolding insert
  sort [] = []
  sort (p ∷ ps) = insert p (sort ps)

module _ (connects : FilePath → Bool) (read : FilePath → Option Bytes) where
  config_of : FilePath → Option Text → Option Bytes
  config_of socket none = none
  config_of socket (some e) =
      if text_eq e (codes "sock") && connects socket
      then read (with_extension (codes "lock") socket)
      else none

  -- The closure; `none` is an entry that cannot be read.
  unfoldable pub running : Option FilePath → Option Bytes
  unfolding config_of
  running none = none
  running (some socket) = config_of socket socket.extension

  add : Option Bytes → List Bytes → List Bytes
  add none rest = rest
  add (some config) rest = config ∷ rest

  unfoldable pub all_running : List (Option FilePath) → List Bytes
  unfolding add
  all_running [] = []
  all_running (entry ∷ entries) = add (running entry) (all_running entries)

module _ (before : Bytes → Bytes → Bool) (connects : FilePath → Bool)
    (read : FilePath → Option Bytes) where
  -- `entries` is `none` if the directory cannot be read.
  unfoldable pub list_running : Option (List (Option FilePath)) → List Bytes
  unfolding sort all_running
  list_running none = []
  list_running (some entries) = sort before (all_running connects read entries)

  -- A server listens on a socket of the directory, and the lock beside it says which configuration it runs.
  pub data Serves (entries : List (Option FilePath)) (config : Bytes) : Type 0 where
    serves :
        (stem : Text)
        → Memᴰ (some record { stem = stem; extension = some (codes "sock") }) entries
        → connects (record { stem = stem; extension = some (codes "sock") }) ≡ true
        → read (record { stem = stem; extension = some (codes "lock") }) ≡ some config
        → Serves entries config

insert_sound :
    (before : Bytes → Bytes → Bool) (c p : Bytes) (qs : List Bytes)
    → Memᴰ c (insert before p qs)
    → Memᴰ c (p ∷ qs)
unfolding insert
insert_sound before c p [] = λ m. m
insert_sound before c p (q ∷ qs) =
    if-cases (λ l. Memᴰ c l → Memᴰ c (p ∷ q ∷ qs)) (before p q) _ _ (λ e m. m)
      (λ e m. elim (cases_cons m) [
        | inl here ↦ tail (head here)
        | inr there ↦ elim (cases_cons (insert_sound before c p qs there)) [
          | inl same ↦ head same
          | inr later ↦ tail (tail later)
        ]
      ])

insert_complete :
    (before : Bytes → Bytes → Bool) (c p : Bytes) (qs : List Bytes)
    → Memᴰ c (p ∷ qs)
    → Memᴰ c (insert before p qs)
unfolding insert
insert_complete before c p [] = λ m. m
insert_complete before c p (q ∷ qs) =
    if-cases (λ l. Memᴰ c (p ∷ q ∷ qs) → Memᴰ c l) (before p q) _ _ (λ e m. m)
      (λ e m. elim (cases_cons m) [
        | inl same ↦ tail (insert_complete before c p qs (head same))
        | inr later ↦ elim (cases_cons later) [
          | inl here ↦ head here
          | inr there ↦ tail (insert_complete before c p qs (tail there))
        ]
      ])

mem-sort :
    (before : Bytes → Bytes → Bool) (c : Bytes) (ps : List Bytes)
    → Memᴰ c (sort before ps) ↔ Memᴰ c ps
unfolding sort
mem-sort before c [] = (λ m. m, λ m. m)
mem-sort before c (p ∷ ps) = (
  λ m. elim (cases_cons (insert_sound before c p (sort before ps) m)) [
    | inl same ↦ head same
    | inr later ↦ tail ((mem-sort before c ps).0 later)
  ],
  λ m. insert_complete before c p (sort before ps) (elim (cases_cons m) [
    | inl same ↦ head same
    | inr later ↦ tail ((mem-sort before c ps).1 later)
  ]),
)

module _ (before : Bytes → Bytes → Bool) (connects : FilePath → Bool)
    (read : FilePath → Option Bytes) where
  config_of-Serves :
      (stem : Text) (extension : Option Text) (entries : List (Option FilePath)) (c : Bytes)
      → config_of connects read (record { stem = stem; extension = extension }) extension ≡ some c
      → Serves before connects read
          (some (record { stem = stem; extension = extension }) ∷ entries)
          c
  unfolding config_of
  config_of-Serves stem none entries c e = cc
  config_of-Serves stem (some ext) entries c e =
      let is_sock : text_eq ext (codes "sock") ≡ true = ground (arith, e) in
      let sock = text_eq_sound ext (codes "sock") is_sock in
      let at_sock =
        subst
          (λ x.
            config_of connects read (record { stem = stem; extension = some x }) (some x) ≡ some c)
          sock e in
      serves stem (head (sym (ap (λ x. some (record { stem = stem; extension = some x })) sock)))
        (ground (arith, at_sock)) (ground (arith, at_sock))

  running-Serves :
      (entry : Option FilePath) (entries : List (Option FilePath)) (c : Bytes)
      → running connects read entry ≡ some c
      → Serves before connects read (entry ∷ entries) c
  unfolding running
  running-Serves none entries c e = cc
  running-Serves (some socket) entries c e =
      config_of-Serves socket.stem socket.extension entries c e

  tail-Serves :
      (entry : Option FilePath) (entries : List (Option FilePath)) (c : Bytes)
      → Serves before connects read entries c
      → Serves before connects read (entry ∷ entries) c
  tail-Serves entry entries c (serves stem m up lock) = serves stem (tail m) up lock

  mem-add :
      (r : Option Bytes) (rest : List Bytes) (c : Bytes)
      → Memᴰ c (add connects read r rest) ↔ ((r ≡ some c) ⊎ Memᴰ c rest)
  unfolding add
  mem-add none rest c = (inr, λ s. elim s [ inl e ↦ cc | inr m ↦ m ])
  mem-add (some config) rest c = (
    λ m. elim (cases_cons m) [ inl same ↦ inl (ap some (sym same)) | inr later ↦ inr later ],
    λ s. elim s [ inl e ↦ head (ground (arith, e)) | inr later ↦ tail later ],
  )

  all_running_sound :
      (entries : List (Option FilePath)) (c : Bytes)
      → Memᴰ c (all_running connects read entries)
      → Serves before connects read entries c
  unfolding all_running
  all_running_sound [] c m = elim m [ ]
  all_running_sound (entry ∷ entries) c m =
      elim ((mem-add (running connects read entry) (all_running connects read entries) c).0 m) [
        | inl e ↦ running-Serves entry entries c e
        | inr later ↦ tail-Serves entry entries c (all_running_sound entries c later)
      ]

  running_sock :
      (stem : Text) (c : Bytes)
      → connects (record { stem = stem; extension = some (codes "sock") }) ≡ true
      → read (record { stem = stem; extension = some (codes "lock") }) ≡ some c
      → running connects read (some (record { stem = stem; extension = some (codes "sock") }))
        ≡ some c
  unfolding running config_of
  running_sock stem c up lock = ground (arith, up, lock, text_eq_refl (codes "sock"))

  all_running_complete :
      (entries : List (Option FilePath)) (stem : Text) (c : Bytes)
      → Memᴰ (some record { stem = stem; extension = some (codes "sock") }) entries
      → connects (record { stem = stem; extension = some (codes "sock") }) ≡ true
      → read (record { stem = stem; extension = some (codes "lock") }) ≡ some c
      → Memᴰ c (all_running connects read entries)
  unfolding all_running
  all_running_complete [] stem c m up lock = elim m [ ]
  all_running_complete (entry ∷ entries) stem c m up lock =
      (mem-add (running connects read entry) (all_running connects read entries) c).1
        (elim (cases_cons m) [
          | inl same ↦ inl (ap (running connects read) (sym same) ∙ running_sock stem c up lock)
          | inr later ↦ inr (all_running_complete entries stem c later up lock)
        ])

  -- Where the directory can be read, a configuration is listed exactly when a server accepts connections on a socket
  -- of the directory and the lock with the same name names this configuration.
  pub list_running_iff :
      (entries : List (Option FilePath)) (config : Bytes)
      → Memᴰ config (list_running before connects read (some entries))
        ↔ Serves before connects read entries config
  unfolding list_running
  list_running_iff entries config = (
    λ m.
        all_running_sound entries config
          ((mem-sort before config (all_running connects read entries)).0 m),
    λ s. elim s [
      | serves stem m up lock ↦
          (mem-sort before config (all_running connects read entries)).1
            (all_running_complete entries stem config m up lock)
    ],
  )
