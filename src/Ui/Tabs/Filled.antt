-- ===== src/Ui/Tabs/Filled.antt =====
-- The tab bar's row against the width of the screen (src/ui/tabs.rs, `TabBar::render`).
use mtack.Base.{
  ℕ, ◌+◌, ◌-◌, ◌≤◌, ◌<◌, ◌≡◌, ◌⊎◌, refl, ap, ◌∙◌, sym, Bool, List, [], ◌∷◌, ◌++◌, Text,
  if◌then◌else◌, if-cases, ltb, take, drop, length, length-map, map, arith, inl, inr,
}
use mtack.Base.Utf8.{codes}
use mtack.Ui.Style.{Span, raw, rule, spans_width}
use mtack.Ui.Width.{WidthLaws, spans_width-append}
use mtack.Ui.Tabs.{Tab, tab_width, sum, span_width, right_cost, visible_range}
use mtack.Ui.Tabs.Sums.{width_at, span-right}
use mtack.Ui.Tabs.Range.{needed, visible_range-IsBest}
use mtack.Ui.Tabs.Row.{right_mark, spans_before, fill, render}
use mtack.Ui.Tabs.Drawn.{AreNarrow, spans_before-width, right_mark-width}

-- One tab alone needs at most the two marks beside its width.
needed-one :
    (widths : List ℕ) (selected : ℕ)
    → needed widths selected (selected + 1) ≤ width_at widths selected + 4
needed-one widths selected =
    let one = span-right widths selected selected (omega arith) in
    let none : span_width widths selected selected ≡ 0 =
      ap (λ n. sum (take n (drop selected widths))) {x = selected - selected} {y = 0}
        (omega arith) in
    ground (arith, one, none)

Fits-needed :
    (widths : List ℕ) (area selected first last : ℕ)
    → width_at widths selected + 4 ≤ area
    → (needed widths first last ≤ area) ⊎ ((first ≡ selected) × (last ≡ selected + 1))
    → needed widths first last ≤ area
Fits-needed widths area selected first last h (inl fits) = fits
Fits-needed widths area selected first last h (inr (e, e')) =
    let one = needed-one widths selected in
    let same : needed widths first last ≡ needed widths selected (selected + 1) =
      ap (λ f. needed widths f last) e ∙ ap (needed widths selected) e' in
    omega arith

module _ {width : Text → ℕ} (laws : WidthLaws width) where
  fill-width :
      (area : ℕ) (spans : List Span)
      → spans_width width spans ≤ area
      → (spans_width width (fill width area spans) ≤ area)
        × (area ≤ spans_width width (fill width area spans) + 1)
  unfolding fill
  fill-width area spans h =
      let remaining : ℕ = area - (spans_width width spans + 1) in
      let line : List Span =
        if ltb 0 remaining then raw (codes " ") ∷ rule remaining ∷ [] else [] in
      let both = spans_width-append width spans line in
      let space = laws.ascii (codes " ") refl in
      let ruled = laws.rule remaining in
      let rest : spans_width width line ≡ (if ltb 0 remaining then 1 + remaining else 0) =
        if-cases (λ b. spans_width width b ≡ (if ltb 0 remaining then 1 + remaining else 0))
          (ltb 0 remaining) _ _ (λ e. ground (arith, e, space, ruled)) (λ e. ground (arith, e)) in
      (ground (arith, both, rest), ground (arith, both, rest))

  -- The row of the tab bar is as wide as the screen, but for at most one column. The selected tab must be there and fit with two
  -- marks, the widths of all tabs and the two marks add up to less than 65536, each name is narrower than that by four,
  -- and `width` keeps what unicode-width says of the symbols of the bar.
  pub tab_bar_fills :
      (tabs : List Tab) (selected : ℕ) (focused : Bool) (area : ℕ)
      → selected < length tabs
      → sum (map (tab_width width) tabs) + 4 < 65536
      → AreNarrow width tabs
      → width_at (map (tab_width width) tabs) selected + 4 ≤ area
      → (spans_width width (render width tabs selected focused area) ≤ area)
        × (area ≤ spans_width width (render width tabs selected focused area) + 1)
  unfolding render
  tab_bar_fills tabs selected focused area h small a fits =
      let widths = map (tab_width width) tabs in
      let first = (visible_range widths selected area).0 in
      let last = (visible_range widths selected area).1 in
      let same = length-map tabs (tab_width width) in
      let best = visible_range-IsBest widths area small selected (omega (arith, same)) in
      let shown = spans_before tabs selected focused first last in
      let need = Fits-needed widths area selected first last fits best.1 in
      let tabs_width = spans_before-width laws tabs selected focused first last a in
      let mark = right_mark-width laws (length tabs) last in
      let cost : right_cost (length tabs) last ≡ right_cost (length widths) last =
        ap (λ n. right_cost n last) (sym same) in
      let both = spans_width-append width shown (right_mark (length tabs) last) in
      fill-width area (shown ++ right_mark (length tabs) last) (omega arith)
