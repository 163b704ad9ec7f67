-- ===== src/Ui/Frame/Size.antt =====
-- The terminals against the area in which they are drawn (src/ui/mod.rs; src/app.rs, `resize_processes`).
use mtack.Base.{
  ℕ, ◌+◌, ◌-◌, ◌≤◌, ◌≡◌, ap, ◌∙◌, max, some, arith, get_elem?, get_elem?-map, if◌then◌else◌,
}
use mtack.Vt100.{Vt100}
use mtack.Process.Types.{Process}
use mtack.Terminal.Defs.{size}
use mtack.Terminal.Defs as Terminal
use mtack.Process.Ops as Process
use mtack.App.State.{App, viewport_rows, resize_processes}
use mtack.Ui.Help.{help_height}
use mtack.Ui.Viewport.{Rect}
use mtack.Ui.Frame.{Layout, bottom_height, viewport_area}

-- What ratatui says of a layout that has room for all constraints.
pub record LayoutLaws (layout : Layout) : Type 0 where
  pub thirds-middle :
      (b : ℕ) (area : Rect)
      → 2 + b ≤ area.height
      → ((layout.thirds b area).1.height ≡ area.height - (1 + b))
        × ((layout.thirds b area).1.width ≡ area.width)

-- What vt100 says of a size that has a row and a column.
abbrev pub Resizes : Vt100 → Type 0
Resizes vt =
    (rows cols : ℕ) (p : vt.Parser)
    → 1 ≤ rows
    → 1 ≤ cols
    → vt.dimensions (vt.set_dimensions rows cols p) ≡ (rows, cols)

module _ {vt : Vt100} (resizes : Resizes vt) {layout : Layout} (laws : LayoutLaws layout) where
  -- After the processes are resized, the terminal of each has exactly the rows and columns of the area in which the
  -- selected one is drawn. The frame has the size of the client's terminal, which has a column at least and room for the tab
  -- bar, one row and what is at the bottom. The crate vt100 takes on such sizes, and ratatui divides such frames as asked.
  pub resize_processes-viewport_area :
      (app : App vt) (area : Rect) (i : ℕ) (p : Process vt)
      → area.width ≡ app.terminal_cols
      → area.height ≡ app.terminal_rows
      → 1 ≤ area.width
      → 2 + bottom_height app area ≤ area.height
      → get_elem? app.processes i ≡ some p
      → (q : Process vt) × (get_elem? (resize_processes app).processes i ≡ some q)
        × (size q.terminal
            ≡ ((viewport_area layout app area).height, (viewport_area layout app area).width))
  unfolding resize_processes Process.resize Terminal.resize
  resize_processes-viewport_area app area i p w h least room at =
      let (rows, cols) = laws.thirds-middle (bottom_height app area) area room in
      let bottom : bottom_height app area
          ≡ (if app.show_help then help_height app.terminal_cols else 1) =
        ap (λ n. if app.show_help then help_height n else 1) w in
      let one : max (viewport_rows app) 1 ≡ (viewport_area layout app area).height = omega arith in
      let other : max app.terminal_cols 1 ≡ (viewport_area layout app area).width = omega arith in
      let taken =
        resizes (max (viewport_rows app) 1) (max app.terminal_cols 1) p.terminal.parser
          (omega arith) (omega arith) in
      (
        Process.resize (viewport_rows app) app.terminal_cols p,
        get_elem?-map app.processes i (Process.resize (viewport_rows app) app.terminal_cols) p at,
        taken
            ∙ ap (λ n. (n, max app.terminal_cols 1)) one
            ∙ ap (λ n. ((viewport_area layout app area).height, n)) other,
      )
