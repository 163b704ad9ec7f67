-- ===== src/Ui/Frame.antt =====
-- The layout of a frame (src/ui/mod.rs). The layout of ratatui and what its widgets put into the buffer are
-- parameters: a frame is the list of widgets, each with its area.
pub mod Size
use mtack.Base.{
  ℕ, ◌+◌, ◌-◌, ◌≤◌, ◌≡◌, Bool, true, false, List, [], ◌∷◌, ◌++◌, Option, none, some, if◌then◌else◌,
  map, get_elem?,
}
use mtack.Vt100.{Vt100}
use mtack.Input.{Mode, focused}
use mtack.Terminal.Defs.{VisibleMatchSpan}
use mtack.Process.Types.{Process}
use mtack.Process.Ops.{state}
use mtack.App.State.{App}
use mtack.Ui.Tabs.{Tab}
use mtack.Ui.Help.{help_height}
use mtack.Ui.Status.{StatusBar}
use mtack.Ui.Status as Status
use mtack.Ui.Viewport.{Rect}

-- `thirds b` is `Layout::vertical` of one row, at least one, and `b` rows; `halves` that of at least one row and one.
pub record Layout : Type 0 where
  pub thirds : ℕ → Rect → Rect × Rect × Rect
  pub halves : Rect → Rect × Rect

abbrev is_focused : Mode → Bool
is_focused mode = elim mode [ focused ↦ true | _ ↦ false ]

module _ (vt : Vt100) where
  pub data Widget : Type 0 where
    tab_bar : List Tab → ℕ → Bool → Widget
    viewport : Process vt → Bool → List VisibleMatchSpan → Widget
    help_panel : Widget
    status_bar : StatusBar → Widget

module _ {vt : Vt100} where
  abbrev pub bottom_height : App vt → Rect → ℕ
  bottom_height app area = if app.show_help then help_height area.width else 1

  abbrev pub viewport_area : Layout → App vt → Rect → Rect
  viewport_area layout app area = (layout.thirds (bottom_height app area) area).1

  abbrev tab_of : Process vt → Tab
  tab_of p = record { name = p.config.name; state = state p }

  viewport_widget :
      Bool → List VisibleMatchSpan → Rect → Option (Process vt) → List (Widget vt × Rect)
  viewport_widget is_focus matches area none = []
  viewport_widget is_focus matches area (some p) = (viewport p is_focus matches, area) ∷ []

  bottom_widgets : Layout → Bool → StatusBar → Rect → List (Widget vt × Rect)
  bottom_widgets layout true status area =
      let (help_area, status_area) = layout.halves area in
      (help_panel, help_area) ∷ (status_bar status, status_area) ∷ []
  bottom_widgets layout false status area = (status_bar status, area) ∷ []

  unfoldable pub render : Layout → App vt → List VisibleMatchSpan → Rect → List (Widget vt × Rect)
  unfolding viewport_widget bottom_widgets Status.new
  render layout app matches area =
      let (tab_area, middle, bottom_area) = layout.thirds (bottom_height app area) area in
      (tab_bar (map tab_of app.processes) app.selected (is_focused app.mode), tab_area)
      ∷ (viewport_widget (is_focused app.mode) matches middle (get_elem? app.processes app.selected)
          ++ bottom_widgets layout app.show_help (Status.new app) bottom_area)
