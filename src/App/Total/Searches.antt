-- ===== src/App/Total/Searches.antt =====
-- The searches of a terminal's rows do not panic (src/terminal.rs), where lowering the case makes no row longer.
use mtack.Base.{ℕ, zero, suc, ◌+◌, ◌≤◌, ◌≡◌, refl, true, Text, arith, length, is_some, u16}
use mtack.Vt100.{Vt100}
use mtack.Terminal.Defs.{Terminal, size}
use mtack.Terminal.Search.{
  visible_rows, all_rows, find_visible_matches, find_all_matches, screen_row, offset_for_row,
  row_text_with_columns, row_spans,
}
use mtack.Terminal.Matches.Spans.{row_spans_total}

module _ (vt : Vt100) where
  -- A screen scrolled to wherever a search reads it.
  pub data Scrolled (p : vt.Parser) : vt.Parser → Type 0 where
    as_is : Scrolled p p
    scrolled : {q : vt.Parser} (n : ℕ) → Scrolled p q → Scrolled p (vt.set_offset n q)

-- Lowering the case makes no row's text longer, wherever the screen is scrolled to.
abbrev pub IsShort : (vt : Vt100) → (Text → Text) → vt.Parser → Type 0
IsShort vt lower p =
    (q : vt.Parser)
    → Scrolled vt p q
    → (row : ℕ)
    → length (lower (row_text_with_columns vt q row).0) ≤ length (row_text_with_columns vt q row).0

module _ (vt : Vt100) (lower : Text → Text) (p : vt.Parser) (short : IsShort vt lower p) where
  row_total :
      (q : vt.Parser) (query : Text) (cols row : ℕ)
      → Scrolled vt p q
      → is_some (row_spans lower query cols (row_text_with_columns vt q row)) ≡ true
  unfolding row_text_with_columns
  row_total q query cols row at =
      row_spans_total lower query cols (λ col. vt.cell row col q) (vt.dimensions q).1
        (short q at row)

  visible_rows_total :
      (query : Text) (n row : ℕ) → is_some (visible_rows vt lower p query n row) ≡ true
  unfolding visible_rows
  visible_rows_total query zero row = refl
  visible_rows_total query (suc n) row =
      ground (
        arith,
        row_total p query (vt.dimensions p).1 row as_is,
        visible_rows_total query n (suc row),
      )

  all_rows_total :
      (q : vt.Parser) (query : Text) (cols actual n k : ℕ)
      → Scrolled vt p q
      → is_some (all_rows vt lower q query cols actual n k) ≡ true
  unfolding all_rows
  all_rows_total q query cols actual zero k at = refl
  all_rows_total q query cols actual (suc n) k at =
      let q' = vt.set_offset (offset_for_row actual k) q in
      let at' = scrolled (offset_for_row actual k) at in
      ground (
        arith,
        row_total q' query cols (u16 (screen_row actual k)) at',
        all_rows_total q' query cols actual n (suc k) at',
      )

module _ {vt : Vt100} (lower : Text → Text) where
  pub find_visible_matches_total :
      (t : Terminal vt) (query : Text)
      → IsShort vt lower t.parser
      → is_some (find_visible_matches lower t query) ≡ true
  unfolding find_visible_matches
  find_visible_matches_total t query short =
      ground (arith, visible_rows_total vt lower t.parser short (lower query) (size t).0 0)

  pub find_all_matches_total :
      (t : Terminal vt) (query : Text)
      → IsShort vt lower t.parser
      → is_some (find_all_matches lower t query) ≡ true
  unfolding find_all_matches
  find_all_matches_total t query short =
      let top = vt.set_offset t.scrollback_len t.parser in
      ground (
        arith,
        all_rows_total vt lower t.parser short top (lower query) (vt.dimensions top).1
            (vt.offset top) (vt.offset top + (size t).0) 0 (scrolled t.scrollback_len as_is),
      )
