-- ===== src/Ui/Status/Fill.antt =====
-- The row of the status bar against the width of the screen (src/ui/status.rs, `StatusBar::render`).
use mtack.Base.{
  ℕ, ◌+◌, ◌-◌, ◌≤◌, ◌≡◌, refl, subst, Bool, true, false, ◌&&◌, ◌||◌, List, [], ◌∷◌, ◌++◌, Option,
  none, some, Text, String, if◌then◌else◌, if-cases, ltb, max, All, arith,
}
use mtack.Base.Utf8.{codes}
use mtack.Input.{Mode, normal, focused, search_mode, confirm_quit, quitting}
use mtack.Process.Types.{State}
use mtack.Ui.Style.{Span, spans_width, raw}
use mtack.Ui.Width.{WidthLaws, is_ascii, spans_width-append}
use mtack.Ui.Hints.{KeyHint, normal_hints, focused_hints, ShowWhen}
use mtack.Ui.Status.{StatusBar, shown_hint, shown_bar, shown_hints, cons_some, try_push_hint}
use mtack.Ui.Status.Line.{
  badges, searching, hints_after, bar_hints, focus_badge, confirm_row, search_row, quitting_row,
  normal_row, focused_row, left_in, left_spans, right_spans, fill_spans, gap_of, join_spans, render,
}
use mtack.Ui.Status.Fits.{IsWithin, push_hints-IsWithin, try_push_hint-IsWithin}

abbrev AreAscii : List (Text × Text) → Type 0
AreAscii hs = All (λ h. (is_ascii h.0 ≡ true) × (is_ascii h.1 ≡ true)) hs

-- The text of the hint in the bar, where it has one, and its description are of printable ASCII.
abbrev IsAsciiBar : Text → Option (String × ShowWhen) → Type 0
IsAsciiBar desc none = Unit
IsAsciiBar desc (some (keys, when)) = (is_ascii (codes keys) ≡ true) × (is_ascii desc ≡ true)

abbrev HasAscii : KeyHint → Type 0
HasAscii h = IsAsciiBar (codes h.desc) h.bar

normal_hints-HasAscii : All HasAscii normal_hints
unfolding normal_hints
normal_hints-HasAscii = ground arith

cons_some-AreAscii :
    (o : Option (Text × Text)) (hs : List (Text × Text))
    → ((h : Text × Text) → o ≡ some h → (is_ascii h.0 ≡ true) × (is_ascii h.1 ≡ true))
    → AreAscii hs
    → AreAscii (cons_some o hs)
unfolding cons_some
cons_some-AreAscii none hs h a = a
cons_some-AreAscii (some h) hs f a = (f h refl, a)

shown_bar-ascii :
    (state : State) (scrolled : Bool) (desc : Text) (bar : Option (String × ShowWhen))
    (shown : Text × Text)
    → IsAsciiBar desc bar
    → shown_bar state scrolled desc bar ≡ some shown
    → (is_ascii shown.0 ≡ true) × (is_ascii shown.1 ≡ true)
unfolding shown_bar
shown_bar-ascii state scrolled desc none shown a e = cc
shown_bar-ascii state scrolled desc (some (keys, when)) shown (h, k) e =
    let at : (codes keys, desc) ≡ shown = ground (arith, e) in
    subst (λ s. (is_ascii s.0 ≡ true) × (is_ascii s.1 ≡ true)) at (h, k)

shown_hint-ascii :
    (state : State) (scrolled right : Bool) (h : KeyHint) (shown : Text × Text)
    → HasAscii h
    → shown_hint state scrolled right h ≡ some shown
    → (is_ascii shown.0 ≡ true) × (is_ascii shown.1 ≡ true)
unfolding shown_hint
shown_hint-ascii state scrolled right h shown a e =
    shown_bar-ascii state scrolled (codes h.desc) h.bar shown a (ground (arith, e))

shown_hints-AreAscii :
    (state : State) (scrolled right : Bool) (hs : List KeyHint)
    → All HasAscii hs
    → AreAscii (shown_hints state scrolled right hs)
unfolding shown_hints
shown_hints-AreAscii state scrolled right [] a = tt
shown_hints-AreAscii state scrolled right (h ∷ hs) (a, as') =
    cons_some-AreAscii (shown_hint state scrolled right h) (shown_hints state scrolled right hs)
      (λ shown e. shown_hint-ascii state scrolled right h shown a e)
      (shown_hints-AreAscii state scrolled right hs as')

-- What the bar shows in a mode whatever the width of the screen.
abbrev pub always : StatusBar → Mode → List Span
always bar confirm_quit = confirm_row
always bar search_mode = search_row bar.search
always bar normal = badges bar
always bar focused = focus_badge
always bar quitting = quitting_row bar.remaining_count

module _ {width : Text → ℕ} (laws : WidthLaws width) where
  hints_after-within :
      (limit max_width : ℕ) (hs : List (Text × Text)) (drawn : List Span × ℕ)
      (more : Option (List Span × ℕ))
      → max_width ≤ limit
      → AreAscii hs
      → IsWithin laws limit drawn
      → ((next : List Span × ℕ) → more ≡ some next → IsWithin laws limit next)
      → spans_width width (hints_after max_width hs drawn more) ≤ limit
  unfolding hints_after
  hints_after-within limit max_width hs drawn none m a (e, le) f = omega arith
  hints_after-within limit max_width hs drawn (some next) m a w f =
      let (e, le) = push_hints-IsWithin laws limit max_width hs next m a (f next refl) in
      omega arith

  normal_row-within :
      (max_width : ℕ) (bar : StatusBar)
      → spans_width width (normal_row width max_width bar)
        ≤ max max_width (spans_width width (badges bar))
  unfolding normal_row
  normal_row-within max_width bar =
      let limit : ℕ = max max_width (spans_width width (badges bar)) in
      let drawn : List Span × ℕ = (badges bar, spans_width width (badges bar)) in
      let start : IsWithin laws limit drawn = (refl, omega arith) in
      let fits : max_width ≤ limit = omega arith in
      hints_after-within limit max_width
        (shown_hints bar.process_state bar.scrolled_back false normal_hints) drawn
        (if searching bar || bar.scrolled_back
          then try_push_hint max_width drawn (codes "esc") (codes "clear")
          else some drawn)
        fits
        (shown_hints-AreAscii bar.process_state bar.scrolled_back false normal_hints
          normal_hints-HasAscii)
        start
        (if-cases (λ more. (next : List Span × ℕ) → more ≡ some next → IsWithin laws limit next)
          (searching bar || bar.scrolled_back) _ _
          (λ b next e.
            try_push_hint-IsWithin laws limit max_width drawn next (codes "esc") (codes "clear")
              fits refl refl start e)
          (λ b next e.
            let at : drawn ≡ next = ground (arith, e) in subst (IsWithin laws limit) at start))

  focused_row-within :
      (max_width : ℕ)
      → spans_width width (focused_row width max_width)
        ≤ max max_width (spans_width width focus_badge)
  unfolding focused_row
  focused_row-within max_width =
      let limit : ℕ = max max_width (spans_width width focus_badge) in
      let (e, le) =
        push_hints-IsWithin laws limit max_width (bar_hints focused_hints)
          (focus_badge, spans_width width focus_badge) (omega arith) ((refl, refl), tt)
          (refl, omega arith) in
      omega arith

  gap_spans-width :
      (gap : Bool)
      → spans_width width (if gap then raw (codes "  ") ∷ [] else []) ≡ (if gap then 2 else 0)
  gap_spans-width true = omega (arith, laws.ascii (codes "  ") refl)
  gap_spans-width false = refl

  fill_spans-width :
      (available : ℕ) (right : List Span)
      → spans_width width (fill_spans width available right) ≡ available
  fill_spans-width available right =
      let filled = laws.rule (available - spans_width width right) in
      let whole = laws.rule available in
      if-cases (λ ss. spans_width width ss ≡ available)
        (ltb 0 (spans_width width right) && ltb (spans_width width right) available) _ _
        (λ e. ground (arith, e, filled)) (λ e. omega arith)

  join_spans-width :
      (max_width : ℕ) (left right : List Span)
      → spans_width width (join_spans width max_width left right) ≡ (
          if ltb (spans_width width left + gap_of width left) max_width
          then max_width
          else spans_width width left)
  unfolding join_spans
  join_spans-width max_width left right =
      let available : ℕ = max_width - (spans_width width left + gap_of width left) in
      let space : List Span = if ltb 0 (gap_of width left) then raw (codes "  ") ∷ [] else [] in
      let mid = fill_spans width available right in
      let a = spans_width-append width left (space ++ mid) in
      let b = spans_width-append width space mid in
      let c = gap_spans-width (ltb 0 (gap_of width left)) in
      let d = fill_spans-width available right in
      let whole : spans_width width (left ++ (space ++ mid))
          ≡ spans_width width left + gap_of width left + available =
        ground (arith, a, b, c, d) in
      if-cases
        (λ ss. spans_width width ss ≡ (
          if ltb (spans_width width left + gap_of width left) max_width
          then max_width
          else spans_width width left))
        (ltb 0 available) _ _ (λ e. ground (arith, e, whole)) (λ e. ground (arith, e))

  left_in-within :
      (max_width : ℕ) (bar : StatusBar) (mode : Mode)
      → spans_width width (left_in width max_width bar mode)
        ≤ max max_width (spans_width width (always bar mode))
  unfolding left_in
  left_in-within max_width bar confirm_quit = omega arith
  left_in-within max_width bar search_mode = omega arith
  left_in-within max_width bar normal = normal_row-within max_width bar
  left_in-within max_width bar focused = focused_row-within max_width
  left_in-within max_width bar quitting = omega arith

  -- Where the row that the bar shows on the left leaves more than a gap of two columns, or more than none if it is empty, the
  -- whole row is exactly as wide as the screen; where it does not, the row is what stands on the left. `width` keeps what
  -- unicode-width says of printable ASCII and of the line.
  pub render-width :
      (max_width : ℕ) (bar : StatusBar)
      → let left = left_spans width max_width bar in
        spans_width width (render width max_width bar) ≡ (
          if ltb (spans_width width left + gap_of width left) max_width
          then max_width
          else spans_width width left)
  unfolding render
  render-width max_width bar =
      join_spans-width max_width (left_spans width max_width bar) (right_spans bar)

  -- The row of the status bar is no wider than the screen, or than what it shows whatever the width: in normal and in
  -- focus mode its badges, so hints never run over the edge.
  pub render-within :
      (max_width : ℕ) (bar : StatusBar)
      → spans_width width (render width max_width bar)
        ≤ max max_width (spans_width width (always bar bar.mode))
  unfolding left_spans
  render-within max_width bar =
      let left = left_spans width max_width bar in
      let e = render-width max_width bar in
      let le = left_in-within max_width bar bar.mode in ground (arith, e, le)
