-- ===== src/Tests/Bars.antt =====
-- The bars at the top and at the bottom on concrete inputs (src/ui/tabs.rs, src/ui/status.rs).
use mtack.Base.{
  ℕ, zero, suc, ◌+◌, ◌≤◌, ◌<◌, ◌≡◌, ◌↔◌, refl, ap, true, false, some, max, length, map, arith,
}
use mtack.Base.Utf8.{codes, replicate}
use mtack.Input.{normal}
use mtack.Process.Types.{running}
use mtack.App.State.{empty_search}
use mtack.Ui.Style.{spans_width}
use mtack.Ui.Width.{WidthLaws}
use mtack.Ui.Tabs.{indicator, tab_width, visible_range, tab_index_at_col}
use mtack.Ui.Tabs.Row
use mtack.Ui.Tabs.Drawn.{AreNarrow, tab_index_at_col-drawn}
use mtack.Ui.Tabs.Filled.{tab_bar_fills}
use mtack.Ui.Status.{StatusBar}
use mtack.Ui.Status.Line.{badges, left_spans, gap_of}
use mtack.Ui.Status.Line as Status
use mtack.Ui.Status.Fill.{render-within}
use mtack.Tests.Screens.{tabs, tabs_small}

length-replicate : (n c : ℕ) → length (replicate n c) ≡ n
length-replicate zero c = refl
length-replicate (suc n) c = ap suc (length-replicate n c)

-- One column for each character.
columns : WidthLaws length
columns = record {
  ascii = λ t h. refl;
  rule = λ n. length-replicate n 9472;
  indicator = refl;
  ellipsis = refl;
  left_bracket = refl;
  right_bracket = refl;
}

tabs-AreNarrow : AreNarrow length tabs
tabs-AreNarrow = (omega arith, (omega arith, (omega arith, tt)))

tab_index_at_col-drawn_example :
    let (first, last) = visible_range (map (tab_width length) tabs) 1 20 in
    (tab_index_at_col length tabs 1 20 8 ≡ some 1) ↔ (
      (first ≤ 1)
      × (1 < last)
      × (spans_width length (Row.spans_before tabs 1 true first 1) ≤ 8)
      × (8 < spans_width length (Row.spans_before tabs 1 true first 2)))
tab_index_at_col-drawn_example =
    tab_index_at_col-drawn columns tabs 1 true 20 8 1 (omega arith) tabs_small tabs-AreNarrow

tab_bar_fills_example :
    (spans_width length (Row.render length tabs 1 true 20) ≤ 20)
    × (20 ≤ spans_width length (Row.render length tabs 1 true 20) + 1)
unfolding tab_width indicator
tab_bar_fills_example =
    tab_bar_fills columns tabs 1 true 20 (omega arith) tabs_small tabs-AreNarrow (omega arith)

-- A scrolled terminal with a query that matches nothing.
abbrev bar : StatusBar
bar = record {
  mode = normal;
  search = record empty_search { query = codes "err" };
  remaining_count = 1;
  scrolled_back = true;
  alternate_screen = false;
  process_state = running;
}

render-within_example :
    spans_width length (Status.render length 30 bar) ≤ max 30 (spans_width length (badges bar))
render-within_example = render-within columns 30 bar
