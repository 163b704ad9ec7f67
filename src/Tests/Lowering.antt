-- ===== src/Tests/Lowering.antt =====
-- A case conversion that makes some texts longer, as that of Rust does, and a screen that it does not make longer.
use mtack.Base.{
  ℕ, zero, suc, ◌+◌, ◌≡◌, ◌≢◌, List, [], ◌∷◌, Option, Text, arith, length, All, ◌==◌, if◌then◌else◌,
  if-cases, subst, refl,
}
use mtack.Vt100.{Cell}
use mtack.Terminal.Search.{row_text_with_columns, columns_from, first_char, is_continuation}
use mtack.App.Total.Searches.{Scrolled, as_is, scrolled, IsShort}
use mtack.Tests.Machine.{Machine, vt, line_cell, char_cell}
use mtack.Tests.Terminals.{printed, lower_char}

-- U+0130 becomes two characters.
abbrev pub expand : Text → Text
expand [] = []
expand (c ∷ cs) = let rest = expand cs in if c == 304 then 105 ∷ 775 ∷ rest else lower_char c ∷ rest

abbrev IsPlain : ℕ → Type 0
IsPlain c = c ≢ 304

length-expand : (text : Text) → All IsPlain text → length (expand text) ≡ length text
length-expand [] h = refl
length-expand (c ∷ cs) (p, ps) = ground (arith, p, length-expand cs ps)

abbrev IsPlainCell : Option Cell → Type 0
IsPlainCell cell = IsPlain (first_char cell)

char_cell-IsPlainCell :
    (text : Text) (col : ℕ) → All IsPlain text → IsPlainCell (char_cell text col)
unfolding first_char
char_cell-IsPlainCell [] col h = omega arith
char_cell-IsPlainCell (c ∷ cs) zero (p, ps) = p
char_cell-IsPlainCell (c ∷ cs) (suc col) (p, ps) = char_cell-IsPlainCell cs col ps

abbrev cell_in : List Text → ℕ → ℕ → Option Cell
cell_in lines k col = line_cell k col (record printed { lines = lines })

cell_in-IsPlainCell :
    (lines : List Text) (k col : ℕ) → All (All IsPlain) lines → IsPlainCell (cell_in lines k col)
unfolding first_char
cell_in-IsPlainCell [] k col h = omega arith
cell_in-IsPlainCell (text ∷ texts) zero col (p, ps) = char_cell-IsPlainCell text col p
cell_in-IsPlainCell (text ∷ texts) (suc k) col (p, ps) = cell_in-IsPlainCell texts k col ps

columns_from-IsPlain :
    (cell : ℕ → Option Cell) (n col : ℕ)
    → ((c : ℕ) → IsPlainCell (cell c))
    → All IsPlain (columns_from cell n col).0
unfolding columns_from
columns_from-IsPlain cell zero col h = tt
columns_from-IsPlain cell (suc n) col h =
    let rest = columns_from-IsPlain cell n (suc col) h in
    if-cases (λ (r : Text × List ℕ). All IsPlain r.0) (is_continuation (cell col)) _ _ (λ e. rest)
      (λ e. (h col, rest))

same_lines : (q : Machine) → Scrolled vt printed q → printed.lines ≡ q.lines
same_lines _ as_is = refl
same_lines _ (scrolled {q = q} n at) = same_lines q at

lines_lem : All (All IsPlain) printed.lines
lines_lem = ground arith

pub printed-IsShort : IsShort vt expand printed
unfolding row_text_with_columns
printed-IsShort q at row =
    let plain =
      columns_from-IsPlain (λ col. vt.cell row col q) (vt.dimensions q).1 0
        (λ c.
          cell_in-IsPlainCell q.lines (q.above + row) c
            (subst (All (All IsPlain)) (same_lines q at) lines_lem)) in
    omega (arith, length-expand (row_text_with_columns vt q row).0 plain)
