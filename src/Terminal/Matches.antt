-- ===== src/Terminal/Matches.antt =====
-- The search (src/terminal.rs): it reads each line once, in order, and puts the scroll position back;
-- when it panics, and when its caches are stale.
pub mod Places
pub mod Spans
pub mod Cache
use mtack.Base.{
  ℕ, zero, suc, ◌+◌, ◌-◌, ◌*◌, ◌^◌, ◌≤◌, ◌<◌, ◌≡◌, refl, sym, ap, ◌∙◌, Bool, true, false, List, [],
  ◌∷◌, ◌++◌, Option, none, some, Text, arith, length, get_elem?, map, u16, is_empty,
}
use mtack.Base.Panic.{◌>>=◌}
use mathlib.Core.Path.{fun_ext}
use mtack.Vt100.{Vt100, Cell, Laws}
use mtack.Terminal.Defs.{Terminal, MatchSpan, set_scrollback, scrollback, size}
use mtack.Terminal.Search.{
  columns_from, row_text_with_columns, row_spans, offset_for_row, screen_row, all_rows,
  find_all_matches,
}
use mtack.Terminal.Scroll.{IsWellFormed}

abbrev paired {ℓ κ} : {A : Type ℓ} {P : Type κ} → Option A → P → Option (A × P)
paired none q = none
paired (some a) q = some (a, q)

abbrev pub spans_at : ℕ → List (ℕ × ℕ) → List MatchSpan
spans_at k = map (λ s. record { row = k; col = s.0; len = s.1 })

-- The matches of a row in front of those of the rows below it.
abbrev pub join : ℕ → Option (List (ℕ × ℕ)) → Option (List MatchSpan) → Option (List MatchSpan)
join k none m = none
join k (some spans) none = none
join k (some spans) (some rest) = some (spans_at k spans ++ rest)

abbrev join_paired {κ} :
    {P : Type κ}
    → ℕ
    → Option (List (ℕ × ℕ))
    → Option (List MatchSpan × P)
    → Option (List MatchSpan × P)
join_paired k r m = r >>= λ spans. m >>= λ x. some (spans_at k spans ++ x.0, x.1)

join_paired_lem {κ} :
    {P : Type κ} (k : ℕ) (r : Option (List (ℕ × ℕ))) (m : Option (List MatchSpan)) (q : P)
    → join_paired k r (paired m q) ≡ paired (join k r m) q
join_paired_lem k none m q = refl
join_paired_lem k (some spans) none q = refl
join_paired_lem k (some spans) (some rest) q = refl

-- What a search answers and what it leaves behind, from the matches that it found.
abbrev pub answer :
    {vt : Vt100}
    → Terminal vt
    → Text
    → ℕ
    → Option (List MatchSpan)
    → Option ((List MatchSpan × ℕ) × Terminal vt)
answer t query total none = none
answer t query total (some matches) = some (
  (matches, total),
  record t {
    cached_all_query = query;
    cached_all_matches = matches;
    cached_all_total_rows = total;
    search_dirty = false;
  },
)

module _ (vt : Vt100) (laws : Laws vt) (lower : Text → Text) where
  -- The matches in the lines from `k` on, `n` of them, with no scrolling: the specification.
  abbrev pub line_matches : vt.Parser → Text → ℕ → ℕ → ℕ → Option (List MatchSpan)
  line_matches p query_lower cols zero k = some []
  line_matches p query_lower cols (suc n) k =
      join k (row_spans lower query_lower cols (columns_from (λ col. laws.line k col p) cols 0))
        (line_matches p query_lower cols n (suc k))

  -- The parser as the loop over the rows leaves it.
  abbrev after_rows : vt.Parser → ℕ → ℕ → ℕ → vt.Parser
  after_rows p actual zero k = p
  after_rows p actual (suc n) k =
      after_rows (vt.set_offset (offset_for_row actual k) p) actual n (suc k)

  set-after_rows :
      (m : ℕ) (p : vt.Parser) (actual n k : ℕ)
      → vt.set_offset m (after_rows p actual n k) ≡ vt.set_offset m p
  set-after_rows m p actual zero k = refl
  set-after_rows m p actual (suc n) k =
      set-after_rows m (vt.set_offset (offset_for_row actual k) p) actual n (suc k)
      ∙ laws.set-set m (offset_for_row actual k) p

  -- The scroll position that the code takes for an absolute row shows just that line there.
  cell_at_row :
      (p : vt.Parser) (k c : ℕ)
      → (vt.dimensions p).0 < 2 ^ 16
      → 0 < (vt.dimensions p).0
      → k < laws.history p + (vt.dimensions p).0
      → vt.cell
          (u16 (screen_row (laws.history p) k))
          c
          (vt.set_offset (offset_for_row (laws.history p) k) p)
        ≡ laws.line k c p
  cell_at_row p k c small pos h =
      let n = offset_for_row (laws.history p) k in
      let p' = vt.set_offset n p in
      laws.cell-line (u16 (screen_row (laws.history p) k)) c p'
        (omega (arith, ap (λ s. s.0) (laws.dimensions-set n p)))
      ∙ (ap (λ j. laws.line j c p') (omega (arith, laws.history-set n p, laws.offset-set n p))
          ∙ laws.line-set n k c p)

  row_at :
      (base : vt.Parser) (cols k : ℕ)
      → (vt.dimensions base).1 ≡ cols
      → (vt.dimensions base).0 < 2 ^ 16
      → 0 < (vt.dimensions base).0
      → k < laws.history base + (vt.dimensions base).0
      → row_text_with_columns vt
          (vt.set_offset (offset_for_row (laws.history base) k) base)
          (u16 (screen_row (laws.history base) k))
        ≡ columns_from (λ col. laws.line k col base) cols 0
  unfolding row_text_with_columns
  row_at base cols k d small pos h =
      ap (λ cell. columns_from cell (vt.dimensions p').1 0)
        (fun_ext (λ c. cell_at_row base k c small pos h))
      ∙ ap (λ n. columns_from (λ col. laws.line k col base) n 0)
          (ap (λ s. s.1) (laws.dimensions-set (offset_for_row (laws.history base) k) base) ∙ d)
    where
      p' : vt.Parser
      p' = vt.set_offset (offset_for_row (laws.history base) k) base

  -- The loop over the rows, begun at any scroll position of the parser `base`.
  all_rows_lem :
      (base p : vt.Parser) (query_lower : Text) (cols n k : ℕ)
      → ((m : ℕ) → vt.set_offset m p ≡ vt.set_offset m base)
      → (vt.dimensions base).1 ≡ cols
      → (vt.dimensions base).0 < 2 ^ 16
      → 0 < (vt.dimensions base).0
      → k + n ≤ laws.history base + (vt.dimensions base).0
      → all_rows vt lower p query_lower cols (laws.history base) n k
        ≡ paired (line_matches base query_lower cols n k) (after_rows p (laws.history base) n k)
  unfolding all_rows
  all_rows_lem base p query_lower cols zero k same d small pos h = refl
  all_rows_lem base p query_lower cols (suc n) k same d small pos h =
      rw
        (all_rows_lem base (vt.set_offset (offset_for_row (laws.history base) k) p) query_lower cols
          n (suc k) (λ m. laws.set-set m (offset_for_row (laws.history base) k) p ∙ same m) d small
          pos (omega arith))
        (ap
            (λ r. join_paired k (row_spans lower query_lower cols r) (
              paired (line_matches base query_lower cols n (suc k))
                (after_rows p (laws.history base) (suc n) k)))
            (ap (λ q. row_text_with_columns vt q (u16 (screen_row (laws.history base) k)))
                (same (offset_for_row (laws.history base) k))
              ∙ row_at base cols k d small pos (omega arith))
          ∙ join_paired_lem k
              (row_spans lower query_lower cols (columns_from (λ col. laws.line k col base) cols 0))
              (line_matches base query_lower cols n (suc k))
              (after_rows p (laws.history base) (suc n) k))

  abbrev finish :
      Terminal vt
      → Text
      → ℕ
      → List MatchSpan × vt.Parser
      → Option ((List MatchSpan × ℕ) × Terminal vt)
  finish t query total (matches, p) = some (
    (matches, total),
    record t {
      parser = vt.set_offset (scrollback t) p;
      cached_all_query = query;
      cached_all_matches = matches;
      cached_all_total_rows = total;
      search_dirty = false;
    },
  )

  finish_lem :
      (t : Terminal vt) (query : Text) (total : ℕ) (m : Option (List MatchSpan)) (p : vt.Parser)
      → vt.set_offset (scrollback t) p ≡ t.parser
      → (paired m p >>= finish t query total) ≡ answer t query total m
  finish_lem t query total none p e = refl
  finish_lem t query total (some matches) p e = rw e

  -- A search for a query that is not empty, with the caches dirty, on a well-formed terminal of 1 to
  -- 65535 rows, finds the matches of every line, scrollback and screen, each line read once and in
  -- order; and it leaves the parser, with its scroll position, as it was.
  pub find_all_matches_lem :
      (t : Terminal vt) (query : Text)
      → IsWellFormed laws t
      → is_empty query ≡ false
      → t.search_dirty ≡ true
      → (size t).0 < 2 ^ 16
      → 0 < (size t).0
      → find_all_matches lower t query
        ≡ answer t query
            (laws.history t.parser + (size t).0)
            (line_matches t.parser (lower query) (size t).1 (laws.history t.parser + (size t).0) 0)
  unfolding find_all_matches
  find_all_matches_lem t query w q dirty small pos =
      let len = t.scrollback_len in
      let reached : vt.offset (vt.set_offset len t.parser) ≡ laws.history t.parser =
        omega (arith, laws.offset-set len t.parser, laws.history-le t.parser) in
      rw (q, dirty, reached, laws.dimensions-set len t.parser)
        (rw
          (all_rows_lem t.parser (vt.set_offset len t.parser) (lower query) (size t).1
            (laws.history t.parser + (size t).0) 0 (λ m. laws.set-set m len t.parser) refl small pos
            (omega arith))
          (finish_lem t query (laws.history t.parser + (size t).0) _ _ (
            set-after_rows (scrollback t) (vt.set_offset len t.parser) (laws.history t.parser)
              (laws.history t.parser + (size t).0) 0
            ∙ (laws.set-set (scrollback t) len t.parser ∙ laws.set_self t.parser))))
