-- ===== src/Ui/Tabs/Drawn.antt =====
-- The tab bar as it is drawn against the tab that a click selects (src/ui/tabs.rs).
use mtack.Base.{
  ℕ, suc, zero, ◌+◌, ◌-◌, ◌≤◌, ◌<◌, ◌≡◌, ◌↔◌, refl, ap, ◌∙◌, sym, Bool, true, false, List, [], ◌∷◌,
  ◌++◌, some, Text, if◌then◌else◌, ◌==◌, length, take, drop, map, All, arith,
}
use mtack.Base.Utf8.{codes}
use mtack.Ui.Style.{Span, Color, spans_width}
use mtack.Ui.Width.{WidthLaws, spans_width-append}
use mtack.Ui.Tabs.{
  Tab, indicator, tab_width, sum, left_cost, right_cost, visible_range, tab_index_at_col,
}
use mtack.Ui.Tabs.Columns.{column_of, tab_index_at_col_iff}
use mtack.Ui.Tabs.Row.{
  edge_span, active_spans, other_spans, tab_spans, tabs_from, active_color, left_mark, right_mark,
  spans_before,
}

map-drop : (f : Tab → ℕ) (n : ℕ) (tabs : List Tab) → drop n (map f tabs) ≡ map f (drop n tabs)
map-drop f zero tabs = refl
map-drop f (suc n) [] = refl
map-drop f (suc n) (t ∷ ts) = map-drop f n ts

map-take : (f : Tab → ℕ) (n : ℕ) (tabs : List Tab) → take n (map f tabs) ≡ map f (take n tabs)
map-take f zero tabs = refl
map-take f (suc n) [] = refl
map-take f (suc n) (t ∷ ts) = ap (◌∷◌ (f t)) (map-take f n ts)

-- The widths of the names are far from wrapping a u16.
abbrev pub AreNarrow : (Text → ℕ) → List Tab → Type 0
AreNarrow width tabs = All (λ t. width t.name + 4 < 65536) tabs

All-drop : (P : Tab → Type 0) (n : ℕ) (tabs : List Tab) → All P tabs → All P (drop n tabs)
All-drop P zero tabs a = a
All-drop P (suc n) [] a = a
All-drop P (suc n) (t ∷ ts) (p, a) = All-drop P n ts a

All-take : (P : Tab → Type 0) (n : ℕ) (tabs : List Tab) → All P tabs → All P (take n tabs)
All-take P zero tabs a = tt
All-take P (suc n) [] a = a
All-take P (suc n) (t ∷ ts) (p, a) = (p, All-take P n ts a)

module _ {width : Text → ℕ} (laws : WidthLaws width) where
  edge_span-width :
      (active_bg : Color) (bracket : Text) (at_edge is_active : Bool)
      → width bracket ≡ 1
      → width (edge_span active_bg bracket at_edge is_active).content ≡ 1
  unfolding edge_span
  edge_span-width active_bg bracket true true h = h
  edge_span-width active_bg bracket true false h = h
  edge_span-width active_bg bracket false true h = h
  edge_span-width active_bg bracket false false h = laws.ascii (codes " ") refl

  body-width :
      (is_active : Bool) (active_bg : Color) (tab : Tab) (edge : Span)
      → width edge.content ≡ 1
      → spans_width width
          ((if is_active then active_spans active_bg tab else other_spans tab) ++ (edge ∷ []))
        ≡ 3 + width tab.name
  unfolding active_spans other_spans indicator
  body-width true active_bg tab edge h = omega (arith, h, laws.indicator)
  body-width false active_bg tab edge h = omega (arith, h, laws.indicator)

  tab_spans-width :
      (active_bg : Color) (selected count i : ℕ) (tab : Tab)
      → width tab.name + 4 < 65536
      → spans_width width (tab_spans active_bg selected count i tab) ≡ tab_width width tab
  unfolding tab_spans tab_width indicator
  tab_spans-width active_bg selected count i tab h =
      let l = edge_span-width active_bg (0xe0b6 ∷ []) (i == 0) (i == selected) laws.left_bracket in
      let r =
        edge_span-width active_bg (0xe0b4 ∷ []) (i == count - 1) (i == selected)
          laws.right_bracket in
      let body =
        body-width (i == selected) active_bg tab
          (edge_span active_bg (0xe0b4 ∷ []) (i == count - 1) (i == selected)) r in
      omega (arith, laws.indicator, l, body, h)

  tabs_from-width :
      (active_bg : Color) (selected count i : ℕ) (tabs : List Tab)
      → AreNarrow width tabs
      → spans_width width (tabs_from active_bg selected count i tabs)
        ≡ sum (map (tab_width width) tabs)
  unfolding tabs_from
  tabs_from-width active_bg selected count i [] a = refl
  tabs_from-width active_bg selected count i (t ∷ ts) (h, a) =
      let one = tab_spans-width active_bg selected count i t h in
      let rest = tabs_from-width active_bg selected count (suc i) ts a in
      let both =
        spans_width-append width (tab_spans active_bg selected count i t)
          (tabs_from active_bg selected count (suc i) ts) in
      omega arith

  left_mark-width : (first : ℕ) → spans_width width (left_mark first) ≡ left_cost first
  left_mark-width first = ground (arith, laws.left_bracket, laws.ellipsis)

  pub right_mark-width :
      (count last : ℕ) → spans_width width (right_mark count last) ≡ right_cost count last
  right_mark-width count last = ground (arith, laws.right_bracket, laws.ellipsis)

  -- The tabs are drawn where the columns are counted.
  pub spans_before-width :
      (tabs : List Tab) (selected : ℕ) (focused : Bool) (first j : ℕ)
      → AreNarrow width tabs
      → spans_width width (spans_before tabs selected focused first j)
        ≡ column_of (map (tab_width width) tabs) first j
  unfolding spans_before
  spans_before-width tabs selected focused first j a =
      let f = tab_width width in
      let shown = take (j - first) (drop first tabs) in
      let active_bg = active_color focused in
      let count = length tabs in
      let narrow =
        All-take (λ t. width t.name + 4 < 65536) (j - first) (drop first tabs)
          (All-drop (λ t. width t.name + 4 < 65536) first tabs a) in
      let total = tabs_from-width active_bg selected count first shown narrow in
      let mark = left_mark-width first in
      let both =
        spans_width-append width (left_mark first)
          (tabs_from active_bg selected count first shown) in
      let same : map f shown ≡ take (j - first) (drop first (map f tabs)) = sym (
        ap (take (j - first)) (map-drop f first tabs) ∙ map-take f (j - first) (drop first tabs)) in
      let sums = ap sum same in omega arith

  -- A click on the tab bar selects a tab exactly if it falls on the columns where that tab is drawn, with its edges: behind
  -- the spans before it and before those that follow. The selected tab must be there, the widths of all tabs and the two marks add up
  -- to less than 65536, each name is narrower than that by four, and `width` keeps what unicode-width says of the
  -- symbols of the bar.
  pub tab_index_at_col-drawn :
      (tabs : List Tab) (selected : ℕ) (focused : Bool) (area col j : ℕ)
      → selected < length tabs
      → sum (map (tab_width width) tabs) + 4 < 65536
      → AreNarrow width tabs
      → let (first, last) = visible_range (map (tab_width width) tabs) selected area in
        (tab_index_at_col width tabs selected area col ≡ some j) ↔ (
          (first ≤ j)
          × (j < last)
          × (spans_width width (spans_before tabs selected focused first j) ≤ col)
          × (col < spans_width width (spans_before tabs selected focused first (j + 1))))
  tab_index_at_col-drawn tabs selected focused area col j h small a =
      let widths = map (tab_width width) tabs in
      let first = (visible_range widths selected area).0 in
      let here = spans_before-width tabs selected focused first j a in
      let next = spans_before-width tabs selected focused first (j + 1) a in
      let (to, from) = tab_index_at_col_iff width tabs selected area col j h small in
      (
        λ e. let (x, y, lo, hi) = to e in (x, y, omega arith, omega arith),
        λ (x, y, lo, hi). from (x, y, omega arith, omega arith),
      )
