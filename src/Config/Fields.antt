-- ===== src/Config/Fields.antt =====
-- The single fields of a configuration (src/config.rs): numbers, booleans, the unfocus key, paths.
use mtack.Base.{
  ℕ, zero, suc, Bool, true, false, ◌&&◌, List, [], ◌∷◌, ◌++◌, Option, none, some, Text, leb, ◌==◌,
  if◌then◌else◌, any, usize_max, text_eq,
}
use mtack.Base.Results.{Result, ok, err, ◌>>=◌, ok_or}
use mtack.Base.Utf8.{codes}
use mtack.Input.{UnfocusKey, esc_key, char_key, ctrl_key}
use mtack.Config.Kdl.{Kdl, ℤ, pos, negsuc}

-- Where a node stands: at the top level, or in the process with this name.
pub data Context : Type 0 where
  top_level : Context
  in_proc : Text → Context

-- One constructor for each message.
pub data ConfigError : Type 0 where
  invalid_document no_procs no_name empty_name : ConfigError
  unknown_node duplicate_node : Text → Context → ConfigError
  not_positive not_nonnegative too_large not_boolean : Text → ConfigError
  duplicate_proc no_body both_commands no_command : Text → ConfigError
  empty_cmd cmd_not_strings shell_not_string empty_shell : Text → ConfigError
  env_no_block : ConfigError
  duplicate_env env_not_string : Text → ConfigError
  unfocus_not_string unfocus_not_ctrl unfocus_not_key : ConfigError

abbrev pub contains : Text → List Text → Bool
contains name names = any (text_eq name) names

abbrev u64_max : ℕ
u64_max = usize_max

-- `val <= 0` and `val < 0`; the conversion fails above the largest value.
unfoldable pub positive : Text → ℤ → Result ConfigError (Option ℕ)
positive name (pos zero) = err (not_positive name)
positive name (pos (suc n)) =
    if leb (suc n) usize_max then ok (some (suc n)) else err (too_large name)
positive name (negsuc n) = err (not_positive name)

unfoldable pub nonnegative : Text → ℤ → Result ConfigError (Option ℕ)
nonnegative name (pos n) = if leb n u64_max then ok (some n) else err (too_large name)
nonnegative name (negsuc n) = err (not_nonnegative name)

abbrev pub strip_prefix : Text → Text → Option Text
strip_prefix [] text = some text
strip_prefix (p ∷ ps) [] = none
strip_prefix (p ∷ ps) (c ∷ cs) = if p == c then strip_prefix ps cs else none

abbrev pub is_ascii_lowercase : ℕ → Bool
is_ascii_lowercase c = leb b'a' c && leb c b'z'

unfoldable pub ctrl_of : Text → Result ConfigError UnfocusKey
ctrl_of (c ∷ []) = if is_ascii_lowercase c then ok (ctrl_key c) else err unfocus_not_ctrl
ctrl_of _ = err unfocus_not_ctrl

unfoldable pub char_of : Text → Result ConfigError UnfocusKey
char_of (c ∷ []) = ok (char_key c)
char_of _ = err unfocus_not_key

unfoldable pub unfocus_key_of : Text → Result ConfigError UnfocusKey
unfolding ctrl_of char_of text_eq
unfocus_key_of text =
    if text_eq text (codes "esc")
    then ok esc_key
    else elim (strip_prefix (codes "ctrl-") text) [ some rest ↦ ctrl_of rest | none ↦ char_of text ]

-- `Path::join`: an absolute path replaces the one that it is joined to.
abbrev ends_in_slash : Text → Bool
ends_in_slash [] = true
ends_in_slash (c ∷ []) = c == b'/'
ends_in_slash (c ∷ d ∷ cs) = ends_in_slash (d ∷ cs)

abbrev is_absolute : Text → Bool
is_absolute [] = false
is_absolute (c ∷ cs) = c == b'/'

unfoldable pub join : Text → Text → Text
join base path =
    if is_absolute path
    then path
    else if ends_in_slash base
    then base ++ path
    else base ++ (b'/' ∷ path)

-- `home` is the variable HOME.
unfoldable pub expand_tilde : Option Text → Text → Text
unfolding join text_eq
expand_tilde none path = path
expand_tilde (some home) path =
    if text_eq path (codes "~")
    then home
    else elim (strip_prefix (codes "~/") path) [ some rest ↦ join home rest | none ↦ path ]

module _ (kdl : Kdl) where
  unfoldable pub positive_at : Text → Option kdl.Node → Result ConfigError (Option ℕ)
  positive_at name none = ok none
  positive_at name (some node) = do
    v ← ok_or (kdl.first node) (not_positive name)
    val ← ok_or (kdl.as_integer v) (not_positive name)
    positive name val

  unfoldable pub parse_positive_int : kdl.Document → Text → Result ConfigError (Option ℕ)
  parse_positive_int doc name = positive_at name (kdl.get doc name)

  unfoldable pub nonnegative_at : Text → Option kdl.Node → Result ConfigError (Option ℕ)
  nonnegative_at name none = ok none
  nonnegative_at name (some node) = do
    v ← ok_or (kdl.first node) (not_nonnegative name)
    val ← ok_or (kdl.as_integer v) (not_nonnegative name)
    nonnegative name val

  unfoldable pub parse_nonneg_int : kdl.Document → Text → Result ConfigError (Option ℕ)
  parse_nonneg_int doc name = nonnegative_at name (kdl.get doc name)

  unfoldable pub parse_bool_field : kdl.Document → Text → Result ConfigError (Option Bool)
  parse_bool_field doc name = elim (kdl.get doc name) [
    | none ↦ ok none
    | some node ↦
        (ok_or (kdl.first node) (not_boolean name) >>= λ v.
        ok_or (kdl.as_bool v) (not_boolean name) >>= λ b. ok (some b))
  ]

  unfoldable pub unfocus_key_at : Option kdl.Node → Result ConfigError UnfocusKey
  unfocus_key_at none = ok esc_key
  unfocus_key_at (some node) = do
    v ← ok_or (kdl.first node) unfocus_not_string
    val ← ok_or (kdl.as_string v) unfocus_not_string
    unfocus_key_of val

  unfoldable pub parse_unfocus_key : kdl.Document → Result ConfigError UnfocusKey
  parse_unfocus_key doc = unfocus_key_at (kdl.get doc (codes "unfocus-key"))
