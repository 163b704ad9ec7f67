-- ===== src/Ui/Viewport.antt =====
-- The matches in the view of a process (src/ui/viewport.rs); the screen itself is drawn by the crate tui-term.
use mtack.Base.{
  ℕ, zero, suc, ◌+◌, ◌-◌, ◌<◌, Bool, ◌&&◌, List, [], ◌∷◌, ◌++◌, u16, min, if◌then◌else◌, ltb, All,
  if-cases, arith,
}
use mtack.Terminal.Defs.{VisibleMatchSpan}

pub record Rect : Type 0 where
  pub x : ℕ
  pub y : ℕ
  pub width : ℕ
  pub height : ℕ

abbrev pub u16_max : ℕ
u16_max = 65535

-- A cell is highlighted if it is in the area.
abbrev is_inside : Rect → ℕ → ℕ → Bool
is_inside area x y = ltb x (u16 (area.x + area.width)) && ltb y (u16 (area.y + area.height))

-- The loop over `count` columns of a match, from column `c` on.
unfoldable pub match_cells : Rect → ℕ → ℕ → ℕ → List (ℕ × ℕ)
match_cells area row c zero = []
match_cells area row c (suc count) =
    let x = u16 (area.x + c) in
    let y = u16 (area.y + row) in
    let rest = match_cells area row (suc c) count in
    if is_inside area x y then (x, y) ∷ rest else rest

-- The cells whose style is set; the end of a match is a saturating sum.
unfoldable pub highlighted : Rect → List VisibleMatchSpan → List (ℕ × ℕ)
highlighted area [] = []
highlighted area (m ∷ ms) =
    match_cells area m.row m.col (min (m.col + m.len) u16_max - m.col) ++ highlighted area ms

abbrev InArea : Rect → ℕ × ℕ → Type 0
InArea area (x, y) = (x < area.x + area.width) × (y < area.y + area.height)

match_cells-InArea :
    (area : Rect) (row c count : ℕ) → All (InArea area) (match_cells area row c count)
unfolding match_cells
match_cells-InArea area row c zero = tt
match_cells-InArea area row c (suc count) =
    let rest = match_cells-InArea area row (suc c) count in
    if-cases (All (InArea area)) (is_inside area (u16 (area.x + c)) (u16 (area.y + row))) _ _
      (λ e. ((ground (arith, e), ground (arith, e)), rest)) (λ e. rest)

All-join : {A : Type 0} (P : A → Type 0) (xs ys : List A) → All P xs → All P ys → All P (xs ++ ys)
All-join P [] ys ps qs = qs
All-join P (x ∷ xs) ys (p, ps) qs = (p, All-join P xs ys ps qs)

-- No cell outside the area is styled, whatever matches there are.
highlighted_inside :
    (area : Rect) (ms : List VisibleMatchSpan) → All (InArea area) (highlighted area ms)
unfolding highlighted
highlighted_inside area [] = tt
highlighted_inside area (m ∷ ms) =
    All-join (InArea area) (match_cells area m.row m.col (min (m.col + m.len) u16_max - m.col)) _
      (match_cells-InArea area m.row m.col (min (m.col + m.len) u16_max - m.col))
      (highlighted_inside area ms)
