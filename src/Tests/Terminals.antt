-- ===== src/Tests/Terminals.antt =====
-- Terminals on concrete inputs (src/terminal.rs).
use mtack.Base.{
  ℕ, zero, suc, ◌+◌, ◌≤◌, ◌<◌, ◌≡◌, refl, true, false, [], ◌∷◌, Option, some, Text, arith, All, all,
  ltb, is_some, map, if◌then◌else◌,
}
use mtack.Vt100.{Cell}
use mtack.Base.Utf8.{codes}
use mtack.Terminal.Defs.{Terminal, size, process, scroll_to_row}
use mtack.Terminal.Search.{
  find_all_matches, find_visible_matches, row_spans, columns_from, match_indices, is_continuation,
  first_char,
}
use mtack.Terminal.Scroll.{top_line, cell-process, scroll_to_row_visible}
use mtack.Terminal.Matches.{answer, line_matches, find_all_matches_lem}
use mtack.Terminal.Matches.Places.{IsMatch}
use mtack.Terminal.Matches.Spans.{InRow, row_spans-InRow, is_some-row_spans}
use mtack.Terminal.Matches.Cache.{find_all_matches_stale}
use mtack.Tests.Machine.{Machine, vt, laws}

-- The ASCII letters in lower case.
abbrev pub lower_char : ℕ → ℕ
lower_char c = if ltb 64 c then (if ltb c 91 then c + 32 else c) else c

abbrev pub lower : Text → Text
lower = map lower_char

-- A terminal of two rows and eight columns whose history can hold four lines, of which it has three.
abbrev pub printed : Machine
printed = record {
  lines = codes "one" ∷ codes "Two" ∷ codes "twofold" ∷ codes "four" ∷ codes "two two" ∷ [];
  above = 2;
  below = 1;
  room = 1;
  size = (2, 8);
  is_alternate = false;
}

abbrev pub shown : Terminal vt
shown = record {
  parser = printed;
  scrollback_len = 4;
  search_dirty = true;
  cached_all_query = [];
  cached_all_matches = [];
  cached_all_total_rows = 0;
  cached_visible_query = [];
  cached_visible_scrollback = 0;
  cached_visible_matches = [];
}

found :
    find_all_matches lower shown (codes "TWO")
    ≡ answer shown (codes "TWO") 5 (
        some (
          record { row = 1; col = 0; len = 3 }
          ∷ record { row = 2; col = 0; len = 3 }
          ∷ record { row = 4; col = 0; len = 3 }
          ∷ record { row = 4; col = 4; len = 3 }
          ∷ []))
unfolding find_all_matches
found = refl

find_all_matches_lem_example :
    find_all_matches lower shown (codes "TWO")
    ≡ answer shown (codes "TWO") (laws.history printed + (size shown).0) (
        line_matches vt laws lower printed
          (lower (codes "TWO"))
          (size shown).1
          (laws.history printed + (size shown).0)
          0)
find_all_matches_lem_example =
    find_all_matches_lem vt laws lower shown (codes "TWO") refl refl refl (omega arith)
      (omega arith)

-- The history is full, and the view stands two lines above the bottom.
abbrev full : Terminal vt
full = record shown {
  parser = record printed { above = 1; below = 2; room = 0 };
  scrollback_len = 3;
}

-- One line more, and the oldest one is dropped.
abbrev overflowed : Machine
overflowed = vt.feed (codes "five") full.parser

full-stay :
    (k col : ℕ)
    → k + 1 < laws.history full.parser
    → laws.line k col overflowed ≡ laws.line (k + 1) col full.parser
full-stay zero col h = refl
full-stay (suc zero) col h = refl
full-stay (suc (suc k)) col h = let no : ⊥ = omega arith in absurd no

cell-process_example : vt.cell 0 2 (process (codes "five") full).parser ≡ vt.cell 1 2 full.parser
cell-process_example =
    cell-process laws (codes "five") full 1 refl refl (omega arith) full-stay 0 2 (omega arith)
      (omega arith)

scroll_to_row_visible_example :
    (top_line laws (scroll_to_row 1 shown) ≤ 1)
    × (1 < top_line laws (scroll_to_row 1 shown) + (size (scroll_to_row 1 shown)).0)
scroll_to_row_visible_example =
    scroll_to_row_visible laws shown 1 refl refl (omega arith) (omega arith)

abbrev alternate : Terminal vt
alternate = record shown { parser = record printed { is_alternate = true } }

abbrev last_line : ℕ → Option Cell
last_line col = laws.line 4 col printed

is_some-row_spans_example :
    is_some (row_spans lower (codes "two") 8 (codes "two two", 0 ∷ 1 ∷ []))
    ≡ all (λ i. ltb i 2) (match_indices (codes "two") (lower (codes "two two")))
is_some-row_spans_example = is_some-row_spans lower (codes "two") (codes "two two") 8 (0 ∷ 1 ∷ [])

two_spans :
    row_spans lower (codes "two") 7 (columns_from last_line 7 0) ≡ some ((0, 3) ∷ (4, 3) ∷ [])
unfolding row_spans columns_from is_continuation first_char
two_spans = refl

row_spans-InRow_example :
    All (InRow 7) ((0, 3) ∷ (4, 3) ∷ [])
    × All
        (IsMatch
          (codes "two")
          (lower (columns_from last_line 7 0).0)
          (columns_from last_line 7 0).1)
        ((0, 3) ∷ (4, 3) ∷ [])
row_spans-InRow_example =
    row_spans-InRow lower (codes "two") 7 last_line ((0, 3) ∷ (4, 3) ∷ []) (omega arith) two_spans

abbrev searched : Terminal vt
searched = record shown { search_dirty = false; cached_all_query = codes "two" }

abbrev redrawn : Terminal vt
redrawn = record (process (codes "two") searched) {
  search_dirty = false;
  cached_visible_query = codes "two";
  cached_visible_scrollback = 2;
  cached_visible_matches = record { row = 0; col = 0; len = 3 } ∷ [];
}

highlighted :
    find_visible_matches lower (process (codes "two") searched) (codes "two")
    ≡ some (record { row = 0; col = 0; len = 3 } ∷ [], redrawn)
unfolding find_visible_matches process
highlighted = refl

find_all_matches_stale_example :
    find_all_matches lower redrawn (codes "two") ≡ some (([], 0), redrawn)
find_all_matches_stale_example =
    find_all_matches_stale lower searched redrawn (codes "two") (codes "two")
      (record { row = 0; col = 0; len = 3 } ∷ []) refl refl highlighted
