-- ===== src/Tests/Panels.antt =====
-- The help panel on a concrete area (src/ui/help.rs).
use mtack.Base.{◌+◌, ◌≡◌, ◌∷◌, refl, arith}
use mtack.Ui.Viewport.{Rect}
use mtack.Ui.Help.{help_height}
use mtack.Ui.Help as Help
use mtack.Ui.Help.Panel as Panel
use mtack.Ui.Help.Panel.{
  Columns, border, all_rows, areas_of, width_at, content_area, render-all_rows,
}

abbrev panel_area : Rect
panel_area = record { x = 0; y = 12; width = 80; height = 11 }

-- The columns from the left edge on, with gaps of two.
abbrev from_left : Columns
from_left a b c area = (
  record area { width = a },
  record area { x = area.x + a + 2; width = b },
  record area { x = area.x + a + 2 + b + 2; width = c },
)

panel_high : 12 ≡ help_height 80
unfolding help_height
panel_high = ground arith

render-all_rows_example :
    Panel.render from_left panel_area
    ≡ border panel_area
      ∷ all_rows
          (areas_of (from_left (width_at 0) (width_at 1) (width_at 2) (content_area panel_area)))
          Help.columns
render-all_rows_example =
    render-all_rows from_left (λ a b c area. ((refl, refl), ((refl, refl), ((refl, refl), tt))))
      panel_area (omega arith) panel_high (omega arith)
