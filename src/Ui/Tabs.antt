-- ===== src/Ui/Tabs.antt =====
-- The tab bar (src/ui/tabs.rs): which tabs are shown, which tab stands at a column, and the row of
-- spans. Sums of u16 wrap, as they do in a release build.
pub mod Sums
pub mod Range
pub mod Columns
pub mod Row
pub mod Drawn
pub mod Filled
use mtack.Base.{
  ℕ, zero, suc, ◌+◌, ◌-◌, Bool, true, false, ◌&&◌, ◌||◌, List, [], ◌∷◌, Option, none, some, Text,
  u16, is_empty, ltb, leb, if◌then◌else◌, length, take, drop, get_elem?, get_or, map,
}
use mtack.Base.Utf8.{codes}
use mtack.Process.Types.{State}

pub record Tab : Type 0 where
  pub name : Text
  pub state : State

unfoldable pub indicator : Text
indicator = codes "● "

abbrev pub overflow_width : ℕ
overflow_width = 2

-- `width` is the display width of a text.
unfoldable pub tab_width : (Text → ℕ) → Tab → ℕ
tab_width width tab = u16 (2 + u16 (width indicator) + u16 (width tab.name))

abbrev pub sum : List ℕ → ℕ
sum [] = 0
sum (x ∷ xs) = x + sum xs

-- The width of the tabs from `first` up to `last`.
abbrev pub span_width : List ℕ → ℕ → ℕ → ℕ
span_width widths first last = sum (take (last - first) (drop first widths))

abbrev pub left_cost : ℕ → ℕ
left_cost first = if ltb 0 first then overflow_width else 0

abbrev pub right_cost : ℕ → ℕ → ℕ
right_cost n last = if ltb last n then overflow_width else 0

-- Whether one more tab on the right, or on the left, fits.
abbrev pub right_fits : List ℕ → ℕ → ℕ → ℕ → Bool
right_fits widths area first last =
    leb
      (u16 (
        u16 (span_width widths first last)
        + get_or (get_elem? widths last) 0
        + left_cost first
        + right_cost (length widths) (last + 1)))
      area

abbrev pub left_fits : List ℕ → ℕ → ℕ → ℕ → Bool
left_fits widths area first last =
    leb
      (u16 (
        u16 (span_width widths first last)
        + get_or (get_elem? widths (first - 1)) 0
        + left_cost (first - 1)
        + right_cost (length widths) last))
      area

unfoldable pub grows_right : List ℕ → ℕ → ℕ → ℕ → Bool
grows_right widths area first last = ltb last (length widths) && right_fits widths area first last

unfoldable pub grows_left : List ℕ → ℕ → ℕ → ℕ → Bool
grows_left widths area first last = ltb 0 first && left_fits widths area first last

-- The loop on fuel: right, then left, until neither fits.
unfoldable pub expand : ℕ → List ℕ → ℕ → ℕ → ℕ → ℕ × ℕ
expand zero widths area first last = (first, last)
expand (suc fuel) widths area first last =
    let right = grows_right widths area first last in
    let last' : ℕ = if right then last + 1 else last in
    let left = grows_left widths area first last' in
    let first' : ℕ = if left then first - 1 else first in
    let rest = expand fuel widths area first' last' in
    if right || left then rest else (first', last')

unfoldable pub visible_range : List ℕ → ℕ → ℕ → ℕ × ℕ
unfolding expand
visible_range widths selected area =
    if leb (u16 (sum widths)) area || is_empty widths
    then (0, length widths)
    else expand (suc (length widths)) widths area selected (selected + 1)

-- The loop over the visible tabs: `i` is the index, `x` the column where its tab begins.
unfoldable pub index_from : List ℕ → ℕ → ℕ → ℕ → Option ℕ
index_from [] i x col = none
index_from (w ∷ ws) i x col =
    let rest = index_from ws (suc i) (u16 (x + w)) col in
    if leb x col && ltb col (u16 (x + w)) then some i else rest

unfoldable pub tab_index_at_col : (Text → ℕ) → List Tab → ℕ → ℕ → ℕ → Option ℕ
unfolding visible_range index_from
tab_index_at_col width tabs selected area col =
    let widths = map (tab_width width) tabs in
    let (first, last) = visible_range widths selected area in
    index_from (take (last - first) (drop first widths)) first (left_cost first) col
