-- ===== src/Ui/Help/Panel.antt =====
-- What the help panel draws (src/ui/help.rs, `HelpPanel::render`): lines, each with its area. The layout of ratatui is a
-- parameter.
use mtack.Base.{
  ℕ, suc, ◌+◌, ◌-◌, ◌/◌, ◌≤◌, ◌<◌, ◌≡◌, refl, ap, ◌∙◌, subst, false, List, [], ◌∷◌, ◌++◌, String,
  arith, u16, ltb, leb, if◌then◌else◌, length, map, get_elem?, get_or, ◌==◌, All,
}
use mtack.Base.Utf8.{codes, replicate}
use mtack.Ui.Style.{Span, styled, raw, fg_style, yellow, dark_gray}
use mtack.Ui.Hints.{KeyHint, styled_keys}
use mtack.Ui.Viewport.{Rect}
use mtack.Ui.Help.{columns, column_width, total_width, help_height, help_height_shows, HasRows}

abbrev pub Drawn : Type 0
Drawn = List Span × Rect

-- `Layout::horizontal` of three columns of the given widths with gaps between them.
abbrev pub Columns : Type 0
Columns = ℕ → ℕ → ℕ → Rect → Rect × Rect × Rect

unfoldable pub hint_row : KeyHint → List Span
hint_row h =
    raw (codes "  ") ∷ (styled_keys (codes h.keys) ++ (raw (codes " " ++ codes h.desc) ∷ []))

-- The loop over the hints of a column, from the one with the number `i` on.
unfoldable pub render_hints : Rect → ℕ → List KeyHint → List Drawn
render_hints area i [] = []
render_hints area i (h ∷ hs) =
    let rest = render_hints area (suc i) hs in
    let y = u16 (area.y + 1 + u16 i) in
    if leb (u16 (area.y + area.height)) y
    then []
    else (hint_row h, record area { y = y; height = 1 }) ∷ rest

abbrev pub header_row : String → List Span
header_row header = styled (codes "  " ++ codes header) (fg_style yellow) ∷ []

unfoldable pub render_column : Rect → String → List KeyHint → List Drawn
render_column area header hints =
    if area.height == 0 then [] else (header_row header, area) ∷ render_hints area 0 hints

unfoldable pub render_columns : List Rect → List (String × List KeyHint) → List Drawn
render_columns (area ∷ areas) ((header, hints) ∷ cs) =
    render_column area header hints ++ render_columns areas cs
render_columns _ _ = []

abbrev pub border : Rect → Drawn
border area =
    (styled (replicate area.width 9472) (fg_style dark_gray) ∷ [], record area { height = 1 })

abbrev message : Rect → Drawn
message area = (
  styled (codes "resize for help") (fg_style dark_gray) ∷ [],
  record { x = u16 (area.x + (area.width - 15) / 2); y = u16 (area.y + 1); width = 15; height = 1 },
)

abbrev pub width_at : ℕ → ℕ
width_at i = get_or (get_elem? (map column_width columns) i) 0

abbrev pub content_area : Rect → Rect
content_area area = record area { y = u16 (area.y + 1); height = area.height - 2 }

abbrev pub areas_of : Rect × Rect × Rect → List Rect
areas_of (left, mid, right) = left ∷ mid ∷ right ∷ []

unfoldable pub render : Columns → Rect → List Drawn
render layout area =
    if area.height == 0
    then []
    else if (area.height - 2) == 0
    then border area ∷ []
    else if ltb area.width total_width
    then border area ∷ message area ∷ []
    else border area
      ∷ render_columns
          (areas_of (layout (width_at 0) (width_at 1) (width_at 2) (content_area area))) columns

-- Every hint has a row, below that of the one before it.
unfoldable pub rows_from : Rect → ℕ → List KeyHint → List Drawn
rows_from area y [] = []
rows_from area y (h ∷ hs) =
    (hint_row h, record area { y = y; height = 1 }) ∷ rows_from area (suc y) hs

-- Every column has its header in the first row of its area, and all its hints below.
unfoldable pub all_rows : List Rect → List (String × List KeyHint) → List Drawn
all_rows (area ∷ areas) ((header, hints) ∷ cs) =
    ((header_row header, area) ∷ rows_from area (area.y + 1) hints) ++ all_rows areas cs
all_rows _ _ = []

render_hints-rows_from :
    (area : Rect) (i : ℕ) (hints : List KeyHint)
    → area.y + area.height < 65536
    → 1 + i + length hints ≤ area.height
    → render_hints area i hints ≡ rows_from area (area.y + 1 + i) hints
unfolding render_hints rows_from
render_hints-rows_from area i [] small room = refl
render_hints-rows_from area i (h ∷ hs) small room =
    let rest = render_hints-rows_from area (suc i) hs small (omega arith) in ground (arith, rest)

-- An area with the rows of another.
abbrev pub HasRowsOf : Rect → Rect → Type 0
HasRowsOf area r = (r.y ≡ area.y) × (r.height ≡ area.height)

render_column-rows_from :
    (area r : Rect) (header : String) (hints : List KeyHint)
    → area.y + area.height < 65536
    → length hints + 1 ≤ area.height
    → HasRowsOf area r
    → render_column r header hints ≡ (header_row header, r) ∷ rows_from r (r.y + 1) hints
unfolding render_column
render_column-rows_from area r header hints small room (y, height) =
    let rows = render_hints-rows_from r 0 hints (omega arith) (omega arith) in ground (arith, rows)

render_columns-all_rows :
    (area : Rect) (areas : List Rect) (cs : List (String × List KeyHint))
    → area.y + area.height < 65536
    → All (HasRowsOf area) areas
    → HasRows (area.height + 3) cs
    → render_columns areas cs ≡ all_rows areas cs
unfolding render_columns all_rows
render_columns-all_rows area [] cs small kept room = refl
render_columns-all_rows area (r ∷ rs) [] small kept room = refl
render_columns-all_rows area (r ∷ rs) ((header, hints) ∷ cs) small (k, ks) (h, hs) =
    let first = render_column-rows_from area r header hints small (omega arith) k in
    let rest = render_columns-all_rows area rs cs small ks hs in
    ap (λ l. l ++ render_columns rs cs) first
    ∙ ap (λ l. ((header_row header, r) ∷ rows_from r (r.y + 1) hints) ++ l) rest

-- What ratatui says of a horizontal layout: it keeps the rows.
abbrev pub KeepsRows : Columns → Type 0
KeepsRows layout = (a b c : ℕ) (area : Rect) → All (HasRowsOf area) (areas_of (layout a b c area))

total_width_least : (width : ℕ) → 57 ≤ width → ltb width total_width ≡ false
unfolding total_width
total_width_least width wide = ground arith

help_height_least : (width : ℕ) → 4 ≤ help_height width
unfolding help_height
help_height_least width = ground arith

-- From a width of 57 columns on, the help panel draws every hint of every column in a row of its own, below the header of
-- the column and in the order of the hints. The panel has all rows of `help_height` but the status bar's, its last row has
-- a number below 65536, and ratatui splits an area into columns of the same rows.
pub render-all_rows :
    (layout : Columns) (keeps : KeepsRows layout) (area : Rect)
    → 57 ≤ area.width
    → area.height + 1 ≡ help_height area.width
    → area.y + area.height < 65536
    → render layout area
      ≡ border area
        ∷ all_rows
            (areas_of (layout (width_at 0) (width_at 1) (width_at 2) (content_area area)))
            columns
unfolding render
render-all_rows layout keeps area wide high small =
    let shows = (help_height_shows area.width).0 wide in
    let least = help_height_least area.width in
    let high' : help_height area.width ≡ (area.height - 2) + 3 = omega arith in
    let drawn =
      render_columns-all_rows (content_area area)
        (areas_of (layout (width_at 0) (width_at 1) (width_at 2) (content_area area))) columns
        (omega arith) (keeps (width_at 0) (width_at 1) (width_at 2) (content_area area))
        (subst (λ n. HasRows n columns) high' shows) in
    let narrow = total_width_least area.width wide in ground (arith, drawn, narrow)
