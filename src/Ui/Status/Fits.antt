-- ===== src/Ui/Status/Fits.antt =====
-- How wide the status bar's row is (src/ui/status.rs).
use mtack.Base.{
  ℕ, ◌+◌, ◌≤◌, ◌≡◌, refl, ap, ◌∙◌, subst, Bool, true, List, [], ◌∷◌, ◌++◌, some, Text,
  if◌then◌else◌, ltb, length, All, arith, Bool-cases, Option-cases, inl, inr,
}
use mtack.Base.Utf8.{codes, utf8}
use mtack.Ui.Style.{Span, spans_width, raw}
use mtack.Ui.Width.{WidthLaws, is_ascii, spans_width-append, spans_width-text_of}
use mtack.Ui.Hints.{styled_keys}
use mtack.Ui.Hints.Keys.{text_of-styled_keys}
use mtack.Ui.Status.{byte_len, build_hint, try_push_hint, push_hints}

pub byte_len-ascii : (t : Text) → is_ascii t ≡ true → byte_len t ≡ length t
unfolding utf8
byte_len-ascii [] h = refl
byte_len-ascii (c ∷ t) h = ground (arith, byte_len-ascii t)

abbrev pub prefix_width : Bool → ℕ
prefix_width has_prefix = if has_prefix then 2 else 0

module _ {width : Text → ℕ} (laws : WidthLaws width) where
  styled_keys-width :
      (key : Text) → is_ascii key ≡ true → spans_width width (styled_keys key) ≡ length key
  styled_keys-width key h =
      let e = text_of-styled_keys key in
      spans_width-text_of laws (styled_keys key) (ap is_ascii e ∙ h) ∙ ap length e

  build_hint-width :
      (has_prefix : Bool) (key desc : Text)
      → is_ascii key ≡ true
      → is_ascii desc ≡ true
      → spans_width width (build_hint has_prefix key desc)
        ≡ prefix_width has_prefix + length key + 1 + length desc
  unfolding build_hint
  build_hint-width has_prefix key desc h k =
      let keys = styled_keys-width key h in
      let both = spans_width-append width (styled_keys key) (raw (codes " " ++ desc) ∷ []) in
      let last = laws.ascii (codes " " ++ desc) k in
      let first = laws.ascii (codes "  ") refl in grind arith

  -- The counter is the width of what is drawn, and keeps below the limit.
  abbrev pub IsWithin : ℕ → List Span × ℕ → Type 0
  IsWithin limit (spans, w) = (spans_width width spans ≡ w) × (w ≤ limit)

  pub try_push_hint-IsWithin :
      (limit max_width : ℕ) (drawn more : List Span × ℕ) (key desc : Text)
      → max_width ≤ limit
      → is_ascii key ≡ true
      → is_ascii desc ≡ true
      → IsWithin limit drawn
      → try_push_hint max_width drawn key desc ≡ some more
      → IsWithin limit more
  unfolding try_push_hint
  try_push_hint-IsWithin limit max_width (spans, w) more key desc m h k (e, le) eq =
      let added : ℕ = prefix_width (ltb 0 w) + byte_len key + 1 + byte_len desc in
      let drawn_width = build_hint-width (ltb 0 w) key desc h k in
      let both = spans_width-append width spans (build_hint (ltb 0 w) key desc) in
      let key_len = byte_len-ascii key h in
      let desc_len = byte_len-ascii desc k in
      elim (Bool-cases (ltb max_width (w + added))) [
        | inl over ↦ ground (arith, over, eq)
        | inr fits ↦
            let at : (spans ++ build_hint (ltb 0 w) key desc, w + added) ≡ more =
              ground (arith, fits, eq) in
            subst (IsWithin limit) at (omega arith, ground (arith, fits, m))
      ]

  pub push_hints-IsWithin :
      (limit max_width : ℕ) (hs : List (Text × Text)) (drawn : List Span × ℕ)
      → max_width ≤ limit
      → All (λ h. (is_ascii h.0 ≡ true) × (is_ascii h.1 ≡ true)) hs
      → IsWithin limit drawn
      → IsWithin limit (push_hints max_width hs drawn)
  unfolding push_hints
  push_hints-IsWithin limit max_width [] drawn m a w = w
  push_hints-IsWithin limit max_width ((key, desc) ∷ hs) drawn m ((h, k), a) w =
      elim (Option-cases (try_push_hint max_width drawn key desc)) [
        | inl e ↦
            let same : drawn ≡ push_hints max_width ((key, desc) ∷ hs) drawn = ground (arith, e) in
            subst (IsWithin limit) same w
        | inr (more, e) ↦
            let next : push_hints max_width hs more
                ≡ push_hints max_width ((key, desc) ∷ hs) drawn =
              ground (arith, e) in
            subst (IsWithin limit) next (
              push_hints-IsWithin limit max_width hs more m a
                (try_push_hint-IsWithin limit max_width drawn more key desc m h k w e))
      ]
