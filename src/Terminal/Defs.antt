-- ===== src/Terminal/Defs.antt =====
-- The state of a terminal, output, size and scrolling (src/terminal.rs).
use mtack.Base.{
  ℕ, ◌+◌, ◌-◌, ◌/◌, Bool, true, List, [], ◌∷◌, ◌++◌, Text, Bytes, min, max, ltb, if◌then◌else◌,
  length, usize_max,
}
use mtack.Base.Utf8.{codes, utf8, replicate, flat_map}
use mtack.Vt100.{Vt100}

pub record MatchSpan : Type 0 where
  pub row : ℕ
  pub col : ℕ
  pub len : ℕ

pub record VisibleMatchSpan : Type 0 where
  pub row : ℕ
  pub col : ℕ
  pub len : ℕ

pub record Terminal (vt : Vt100) : Type 0 where
  pub parser : vt.Parser
  pub scrollback_len : ℕ
  pub search_dirty : Bool
  pub cached_all_query : Text
  pub cached_all_matches : List MatchSpan
  pub cached_all_total_rows : ℕ
  pub cached_visible_query : Text
  pub cached_visible_scrollback : ℕ
  pub cached_visible_matches : List VisibleMatchSpan

unfoldable pub new : (vt : Vt100) → ℕ → ℕ → ℕ → Terminal vt
new vt rows cols scrollback_len = record {
  parser = vt.create rows cols scrollback_len;
  scrollback_len = scrollback_len;
  search_dirty = true;
  cached_all_query = [];
  cached_all_matches = [];
  cached_all_total_rows = 0;
  cached_visible_query = [];
  cached_visible_scrollback = usize_max;
  cached_visible_matches = [];
}

abbrev banner : Text → ℕ → Text
banner label cols =
    let prefix = codes "── " ++ label ++ codes " " in
    13
    ∷ 10
    ∷ 27
    ∷ (codes "[90m"
        ++ (prefix
            ++ (replicate (cols - length prefix) 9472 ++ (27 ∷ (codes "[0m" ++ (13 ∷ 10 ∷ []))))))

-- The signed `max - abs_row + rows / 2`, clamped between 0 and `max`.
abbrev pub centered : ℕ → ℕ → ℕ → ℕ
centered max_sb abs_row rows = min ((max_sb + rows / 2) - abs_row) max_sb

module _ {vt : Vt100} where
  abbrev pub set_scrollback : ℕ → Terminal vt → Terminal vt
  set_scrollback n t = record t { parser = vt.set_offset n t.parser }

  abbrev pub scrollback : Terminal vt → ℕ
  scrollback t = vt.offset t.parser

  abbrev pub is_scrolled_back : Terminal vt → Bool
  is_scrolled_back t = ltb 0 (vt.offset t.parser)

  abbrev pub size : Terminal vt → ℕ × ℕ
  size t = vt.dimensions t.parser

  abbrev pub is_alternate_screen : Terminal vt → Bool
  is_alternate_screen t = vt.alternate t.parser

  -- Scrolls as far as it goes, reads the position, and scrolls back.
  unfoldable pub max_scrollback : Terminal vt → ℕ × Terminal vt
  max_scrollback t =
      let top = set_scrollback t.scrollback_len t in
      (scrollback top, set_scrollback (scrollback t) top)

  unfoldable pub total_rows : Terminal vt → ℕ × Terminal vt
  unfolding max_scrollback
  total_rows t = let (max_sb, t') = max_scrollback t in (max_sb + (size t').0, t')

  unfoldable pub process : Bytes → Terminal vt → Terminal vt
  unfolding max_scrollback
  process bytes t =
      let sb = scrollback t in
      let (max_before, t1) = max_scrollback t in
      let scrolled = record t1 { parser = vt.feed bytes t1.parser; search_dirty = true } in
      let (max_after, t2) = max_scrollback scrolled in
      if ltb 0 sb
      then set_scrollback (sb + (max_after - max_before)) t2
      else record t { parser = vt.feed bytes t.parser; search_dirty = true }

  unfoldable pub inject_banner : Text → Terminal vt → Terminal vt
  inject_banner label t = record t {
    parser = vt.feed (flat_map utf8 (banner label (size t).1)) t.parser;
    search_dirty = true;
  }

  unfoldable pub resize : ℕ → ℕ → Terminal vt → Terminal vt
  resize rows cols t = record t {
    parser = vt.set_dimensions (max rows 1) (max cols 1) t.parser;
    search_dirty = true;
  }

  -- `saturating_add`, and `saturating_sub`, which is `-` on ℕ.
  unfoldable pub scroll_up : ℕ → Terminal vt → Terminal vt
  scroll_up lines t =
      if is_alternate_screen t then t else set_scrollback (min (scrollback t + lines) usize_max) t

  unfoldable pub scroll_down : ℕ → Terminal vt → Terminal vt
  scroll_down lines t = if is_alternate_screen t then t else set_scrollback (scrollback t - lines) t

  unfoldable pub scroll_to_bottom : Terminal vt → Terminal vt
  scroll_to_bottom t = set_scrollback 0 t

  unfoldable pub scroll_to_top : Terminal vt → Terminal vt
  scroll_to_top t = if is_alternate_screen t then t else set_scrollback t.scrollback_len t

  unfoldable pub scroll_to_row : ℕ → Terminal vt → Terminal vt
  unfolding max_scrollback
  scroll_to_row abs_row t =
      let rows = (size t).0 in
      let (max_sb, t1) = max_scrollback t in
      if is_alternate_screen t then t else set_scrollback (centered max_sb abs_row rows) t1
