-- ===== src/Config/Keys.antt =====
-- The `unfocus-key` field, read against how such a key is written (src/config.rs, `parse_unfocus_key`).
use mtack.Base.{
  ℕ, ◌≡◌, refl, sym, ap, ◌∙◌, subst, ◌↔◌, inl, inr, true, [], ◌∷◌, ◌++◌, some, Text, Option-cases,
  Bool-cases, text_eq, arith,
}
use mtack.Base.Results.{ok}
use mtack.Base.Utf8.{codes}
use mtack.Input.{UnfocusKey, esc_key, char_key, ctrl_key}
use mtack.Config.Distinct.{text_eq_sound}
use mtack.Config.Fields.{unfocus_key_of, strip_prefix, is_ascii_lowercase, ctrl_of, char_of}

-- How a key is written in a configuration.
unfoldable pub written : UnfocusKey → Text
written esc_key = codes "esc"
written (char_key c) = c ∷ []
written (ctrl_key c) = codes "ctrl-" ++ (c ∷ [])

unfoldable pub IsKey : UnfocusKey → Type 0
IsKey (ctrl_key c) = is_ascii_lowercase c ≡ true
IsKey _ = Unit

strip_prefix_sound : (p t rest : Text) → strip_prefix p t ≡ some rest → t ≡ p ++ rest
strip_prefix_sound [] t rest h = ground arith
strip_prefix_sound (c ∷ p) [] rest h = cc
strip_prefix_sound (c ∷ p) (d ∷ t) rest h = ground (arith, strip_prefix_sound p t rest)

ctrl_of_sound :
    (t : Text) (k : UnfocusKey)
    → ctrl_of t ≡ ok k
    → (c : ℕ) × (k ≡ ctrl_key c) × (t ≡ c ∷ []) × (is_ascii_lowercase c ≡ true)
unfolding ctrl_of
ctrl_of_sound [] k h = ground arith
ctrl_of_sound (c ∷ []) k h = (c, ground arith, refl, ground arith)
ctrl_of_sound (c ∷ d ∷ t) k h = ground arith

char_of_sound :
    (t : Text) (k : UnfocusKey) → char_of t ≡ ok k → (c : ℕ) × (k ≡ char_key c) × (t ≡ c ∷ [])
unfolding char_of
char_of_sound [] k h = ground arith
char_of_sound (c ∷ []) k h = (c, ground arith, refl)
char_of_sound (c ∷ d ∷ t) k h = ground arith

unfocus_key_of_sound :
    (t : Text) (k : UnfocusKey) → unfocus_key_of t ≡ ok k → (t ≡ written k) × IsKey k
unfolding unfocus_key_of written IsKey
unfocus_key_of_sound t k h = elim (Bool-cases (text_eq t (codes "esc"))) [
  | inl e ↦
      let at : esc_key ≡ k = ground (arith, e, h) in
      subst (λ to. (t ≡ written to) × IsKey to) at (text_eq_sound t (codes "esc") e, tt)
  | inr e ↦ elim (Option-cases (strip_prefix (codes "ctrl-") t)) [
    | inl none_left ↦
        let (c, is, single) = char_of_sound t k (ground (arith, e, none_left, h)) in
        subst (λ to. (t ≡ written to) × IsKey to) (sym is) (single, tt)
    | inr (rest, left) ↦
        let (c, is, single, lower) = ctrl_of_sound rest k (ground (arith, e, left, h)) in
        subst (λ to. (t ≡ written to) × IsKey to) (sym is)
          (strip_prefix_sound (codes "ctrl-") t rest left ∙ ap (◌++◌ (codes "ctrl-")) single, lower)
  ]
]

unfocus_key_of-written : (k : UnfocusKey) → IsKey k → unfocus_key_of (written k) ≡ ok k
unfolding unfocus_key_of written IsKey ctrl_of char_of text_eq
unfocus_key_of-written esc_key h = refl
unfocus_key_of-written (char_key c) h = ground arith
unfocus_key_of-written (ctrl_key c) h = ground arith

-- A text is read as an unfocus key exactly when it is that key as it is written and the key, where it is one with
-- Ctrl, has a lowercase ASCII letter.
pub unfocus_key_of_iff :
    (t : Text) (k : UnfocusKey) → (unfocus_key_of t ≡ ok k) ↔ ((t ≡ written k) × IsKey k)
unfocus_key_of_iff t k = (
  unfocus_key_of_sound t k,
  λ (e, h). subst (λ from. unfocus_key_of from ≡ ok k) (sym e) (unfocus_key_of-written k h),
)
