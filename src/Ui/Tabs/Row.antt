-- ===== src/Ui/Tabs/Row.antt =====
-- The row of the tab bar as it is drawn (src/ui/tabs.rs, `TabBar::render`).
use mtack.Base.{
  ℕ, suc, ◌+◌, ◌-◌, Bool, true, false, List, [], ◌∷◌, ◌++◌, some, Text, if◌then◌else◌, ltb, ◌==◌,
  length, take, drop, map,
}
use mtack.Base.Utf8.{codes}
use mtack.Process.Types.{State, stopped, running, stopping, failed}
use mtack.Ui.Style.{
  Span, Style, Color, black, white, gray, dark_gray, red, green, yellow, indexed, plain, styled,
  raw, on, fg_style, rule, spans_width,
}
use mtack.Ui.Tabs.{Tab, indicator, tab_width, visible_range}

abbrev container_color : Color
container_color = indexed 236

abbrev ellipsis : Text
ellipsis = 0x2026 ∷ []

abbrev left_bracket : Text
left_bracket = 0xe0b6 ∷ []

abbrev right_bracket : Text
right_bracket = 0xe0b4 ∷ []

abbrev container_bg : Style
container_bg = record plain { bg = some container_color }

unfoldable pub indicator_color : State → Color
indicator_color running = green
indicator_color stopping = yellow
indicator_color stopped = dark_gray
indicator_color failed = red

-- A number of its own for each color, to compare them.
abbrev color_number : Color → ℕ
color_number black = 0
color_number white = 1
color_number gray = 2
color_number dark_gray = 3
color_number red = 4
color_number green = 5
color_number yellow = 6
color_number (indexed n) = 7 + n

-- A bracket at the edge of the container or of the active tab, a space elsewhere.
unfoldable pub edge_span : Color → Text → Bool → Bool → Span
edge_span active_bg bracket true true = styled bracket (fg_style active_bg)
edge_span active_bg bracket true false = styled bracket (fg_style container_color)
edge_span active_bg bracket false true = styled bracket (on active_bg container_color)
edge_span active_bg bracket false false = styled (codes " ") container_bg

unfoldable pub active_spans : Color → Tab → List Span
unfolding indicator_color
active_spans active_bg tab =
    let base : Style = record plain { fg = some black; bg = some active_bg; bold = true } in
    let dot_color = indicator_color tab.state in
    let dot : Color =
      if color_number dot_color == color_number active_bg then black else dot_color in
    styled indicator (record base { fg = some dot }) ∷ styled tab.name base ∷ []

unfoldable pub other_spans : Tab → List Span
unfolding indicator_color
other_spans tab =
    styled indicator (on (indicator_color tab.state) container_color)
    ∷ styled tab.name (on gray container_color)
    ∷ []

-- One tab, of `count` tabs, with its edges.
unfoldable pub tab_spans : Color → ℕ → ℕ → ℕ → Tab → List Span
tab_spans active_bg selected count i tab =
    let is_active = i == selected in
    edge_span active_bg left_bracket (i == 0) is_active
    ∷ ((if is_active then active_spans active_bg tab else other_spans tab)
        ++ (edge_span active_bg right_bracket (i == count - 1) is_active ∷ []))

-- The loop over tabs, the first of which has the index `i`.
unfoldable pub tabs_from : Color → ℕ → ℕ → ℕ → List Tab → List Span
tabs_from active_bg selected count i [] = []
tabs_from active_bg selected count i (tab ∷ tabs) =
    tab_spans active_bg selected count i tab ++ tabs_from active_bg selected count (suc i) tabs

abbrev pub left_mark : ℕ → List Span
left_mark first =
    if ltb 0 first
    then styled left_bracket (fg_style container_color)
      ∷ styled ellipsis (on gray container_color)
      ∷ []
    else []

abbrev pub right_mark : ℕ → ℕ → List Span
right_mark count last =
    if ltb last count
    then styled ellipsis (on gray container_color)
      ∷ styled right_bracket (fg_style container_color)
      ∷ []
    else []

abbrev pub active_color : Bool → Color
active_color focused = if focused then green else white

-- The spans from the left edge up to the tab at an index.
unfoldable pub spans_before : List Tab → ℕ → Bool → ℕ → ℕ → List Span
spans_before tabs selected focused first j =
    left_mark first
    ++ tabs_from (active_color focused) selected (length tabs) first
        (take (j - first) (drop first tabs))

-- What is left of the row is filled with a line, behind a space.
unfoldable pub fill : (Text → ℕ) → ℕ → List Span → List Span
fill width area spans =
    let remaining : ℕ = area - (spans_width width spans + 1) in
    spans ++ (if ltb 0 remaining then raw (codes " ") ∷ rule remaining ∷ [] else [])

unfoldable pub render : (Text → ℕ) → List Tab → ℕ → Bool → ℕ → List Span
unfolding fill spans_before
render width tabs selected focused area =
    let (first, last) = visible_range (map (tab_width width) tabs) selected area in
    fill width area (spans_before tabs selected focused first last ++ right_mark (length tabs) last)
