-- ===== src/Terminal/Search.antt =====
-- The search in a terminal's rows (src/terminal.rs). Byte offsets into a text are given as the
-- number of characters before them, which is what the code turns them into.
use mtack.Base.{
  ℕ, zero, suc, ◌+◌, ◌-◌, Bool, true, false, not, ◌&&◌, List, [], ◌∷◌, ◌++◌, Option, none, some,
  Text, is_empty, u16, ◌==◌, if◌then◌else◌, length, get_elem?, text_eq, map,
}
use mtack.Base.Panic.{◌>>=◌}
use mtack.Vt100.{Vt100, Cell}
use mtack.Terminal.Defs.{Terminal, MatchSpan, VisibleMatchSpan, set_scrollback, scrollback, size}

unfoldable pub starts_with : Text → Text → Bool
starts_with [] text = true
starts_with (q ∷ qs) [] = false
starts_with (q ∷ qs) (c ∷ cs) = q == c && starts_with qs cs

-- `str::match_indices`: the places of the matches from left to right, which do not overlap. `skip`
-- is what is left of the last match.
unfoldable pub indices_from : Text → ℕ → ℕ → Text → List ℕ
indices_from query skip pos [] = []
indices_from query (suc skip) pos (c ∷ cs) = indices_from query skip (suc pos) cs
indices_from query zero pos (c ∷ cs) =
    let hit = starts_with query (c ∷ cs) in
    let rest = indices_from query (if hit then length query - 1 else 0) (suc pos) cs in
    if hit then pos ∷ rest else rest

unfoldable pub match_indices : Text → Text → List ℕ
unfolding indices_from starts_with
match_indices query text = indices_from query 0 0 text

-- `none` is the panic of the index `char_to_col[char_start]`.
unfoldable pub match_display_span : ℕ → ℕ → List ℕ → ℕ → Option (ℕ × ℕ)
match_display_span char_start query_chars char_to_col cols =
    let char_end = char_start + query_chars in
    do
      start_col ← get_elem? char_to_col char_start
      some (
        start_col,
        elim (get_elem? char_to_col char_end) [ none ↦ cols | some end_col ↦ end_col ] - start_col,
      )

unfoldable pub spans_of : List ℕ → ℕ → List ℕ → ℕ → Option (List (ℕ × ℕ))
unfolding match_display_span
spans_of [] query_chars char_to_col cols = some []
spans_of (i ∷ is) query_chars char_to_col cols = do
  span ← match_display_span i query_chars char_to_col cols
  rest ← spans_of is query_chars char_to_col cols
  some (span ∷ rest)

unfoldable pub first_char : Option Cell → ℕ
first_char none = b' '
first_char (some cell) = elim cell.contents [ [] ↦ b' ' | c ∷ cs ↦ c ]

unfoldable pub is_continuation : Option Cell → Bool
is_continuation none = false
is_continuation (some cell) = cell.is_wide_continuation

-- `n` columns are left, from `col` on.
unfoldable pub columns_from : (ℕ → Option Cell) → ℕ → ℕ → Text × List ℕ
columns_from cell zero col = ([], [])
columns_from cell (suc n) col =
    let (text, cols) = columns_from cell n (suc col) in
    if is_continuation (cell col) then (text, cols) else (first_char (cell col) ∷ text, col ∷ cols)

module _ (vt : Vt100) where
  unfoldable pub row_text_with_columns : vt.Parser → ℕ → Text × List ℕ
  unfolding columns_from is_continuation first_char
  row_text_with_columns p row = columns_from (λ col. vt.cell row col p) (vt.dimensions p).1 0

-- The spans of one row's matches.
unfoldable pub row_spans : (Text → Text) → Text → ℕ → Text × List ℕ → Option (List (ℕ × ℕ))
unfolding spans_of match_indices
row_spans lower query_lower cols (text, char_to_col) =
    spans_of (match_indices query_lower (lower text)) (length query_lower) char_to_col cols

-- The row of the screen, and the scroll position, at which the code reads an absolute row.
abbrev pub offset_for_row : ℕ → ℕ → ℕ
offset_for_row actual_scrollback abs_row = actual_scrollback - abs_row

abbrev pub screen_row : ℕ → ℕ → ℕ
screen_row actual_scrollback abs_row =
    abs_row - (actual_scrollback - offset_for_row actual_scrollback abs_row)

module _ (vt : Vt100) (lower : Text → Text) where
  unfoldable pub visible_rows : vt.Parser → Text → ℕ → ℕ → Option (List VisibleMatchSpan)
  unfolding row_spans row_text_with_columns
  visible_rows p query_lower zero row = some []
  visible_rows p query_lower (suc n) row = do
    spans ← row_spans lower query_lower (vt.dimensions p).1 (row_text_with_columns vt p row)
    rest ← visible_rows p query_lower n (suc row)
    some (map (λ s. record { row = row; col = u16 s.0; len = u16 s.1 }) spans ++ rest)

  unfoldable pub all_rows : vt.Parser → Text → ℕ → ℕ → ℕ → ℕ → Option (List MatchSpan × vt.Parser)
  unfolding row_spans row_text_with_columns
  all_rows p query_lower cols actual zero abs_row = some ([], p)
  all_rows p query_lower cols actual (suc n) abs_row =
      let p' = vt.set_offset (offset_for_row actual abs_row) p in
      do
        spans ←
            row_spans lower query_lower cols
              (row_text_with_columns vt p' (u16 (screen_row actual abs_row)))
        (rest, last) ← all_rows p' query_lower cols actual n (suc abs_row)
        some (map (λ s. record { row = abs_row; col = s.0; len = s.1 }) spans ++ rest, last)

module _ {vt : Vt100} (lower : Text → Text) where
  unfoldable pub find_visible_matches :
      Terminal vt → Text → Option (List VisibleMatchSpan × Terminal vt)
  unfolding visible_rows
  find_visible_matches t query =
      if is_empty query
      then some ([], t)
      else if not t.search_dirty
          && text_eq t.cached_visible_query query
          && t.cached_visible_scrollback == scrollback t
      then some (t.cached_visible_matches, t)
      else (visible_rows vt lower t.parser (lower query) (size t).0 0 >>= λ matches. some (
        matches,
        record t {
          cached_visible_query = query;
          cached_visible_scrollback = scrollback t;
          cached_visible_matches = matches;
          search_dirty = false;
        },
      ))

  unfoldable pub find_all_matches : Terminal vt → Text → Option ((List MatchSpan × ℕ) × Terminal vt)
  unfolding all_rows
  find_all_matches t query =
      if is_empty query
      then some (([], 0), t)
      else if not t.search_dirty && text_eq t.cached_all_query query
      then some ((t.cached_all_matches, t.cached_all_total_rows), t)
      else (let top = set_scrollback t.scrollback_len t in
          let actual = scrollback top in
          let total_rows = actual + (size t).0 in
          do
            (matches, p) ←
                all_rows vt lower top.parser (lower query) (size top).1 actual total_rows 0
            some (
              (matches, total_rows),
              record t {
                parser = vt.set_offset (scrollback t) p;
                cached_all_query = query;
                cached_all_matches = matches;
                cached_all_total_rows = total_rows;
                search_dirty = false;
              },
            ))
