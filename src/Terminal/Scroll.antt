-- ===== src/Terminal/Scroll.antt =====
-- Scrolling (src/terminal.rs) over any vt100 that keeps its documented laws.
use mtack.Base.{
  ℕ, ◌+◌, ◌-◌, ◌≤◌, ◌<◌, ◌≡◌, ◌∙◌, ap, sym, true, false, Bytes, Text, arith, min, usize_max,
}
use mtack.Vt100.{Vt100, Laws}
use mtack.Terminal.Defs.{
  Terminal, new, set_scrollback, scrollback, is_scrolled_back, size, is_alternate_screen,
  max_scrollback, process, inject_banner, resize, scroll_up, scroll_down, scroll_to_bottom,
  scroll_to_top, centered, scroll_to_row,
}

module _ {vt : Vt100} (laws : Laws vt) where
  -- The limit that the terminal scrolls by is the one its parser was created with.
  abbrev pub IsWellFormed : Terminal vt → Type 0
  IsWellFormed t = laws.limit t.parser ≡ t.scrollback_len

  abbrev pub history_of : Terminal vt → ℕ
  history_of t = laws.history t.parser

  -- The place of the topmost visible line, counted from the oldest line.
  abbrev pub top_line : Terminal vt → ℕ
  top_line t = history_of t - scrollback t

module _ {vt : Vt100} (laws : Laws vt) where
  open laws use {
    history, limit, offset-set, history-set, limit-set, dimensions-set, alternate-set, set-set,
    set_self, history-le, offset-le, limit-create, dimensions-feed, limit-feed, limit-dimensions,
  }

  -- Measuring the scrollback gives its length and leaves the terminal as it was.
  pub max_scrollback_lem :
      (t : Terminal vt) → IsWellFormed laws t → max_scrollback t ≡ (history t.parser, t)
  unfolding max_scrollback
  max_scrollback_lem t w = ground (
    arith,
    offset-set t.scrollback_len t.parser,
    history-le t.parser,
    set-set (scrollback t) t.scrollback_len t.parser,
    set_self t.parser,
  )

  pub new-IsWellFormed : (rows cols n : ℕ) → IsWellFormed laws (new vt rows cols n)
  unfolding new
  new-IsWellFormed rows cols n = limit-create rows cols n

  process_scrolled :
      (bytes : Bytes) (t : Terminal vt)
      → IsWellFormed laws t
      → is_scrolled_back t ≡ true
      → process bytes t ≡ record t {
        parser =
            vt.set_offset
              (scrollback t + (history (vt.feed bytes t.parser) - history t.parser))
              (vt.feed bytes t.parser);
        search_dirty = true;
      }
  unfolding process
  process_scrolled bytes t w h =
      let t' = record t { parser = vt.feed bytes t.parser; search_dirty = true } in
      let w' : IsWellFormed laws t' = limit-feed bytes t.parser ∙ w in
      ground (arith, h, max_scrollback_lem t w, max_scrollback_lem t' w')

  -- Output that arrives while the user is scrolled back leaves the view at the same place of the history, which is the same
  -- content as long as no line falls off its end: where it drops its oldest lines, what a row of the view shows is what as many
  -- rows further down showed before, of the rows that showed history. The terminal is well-formed, and the output leaves the
  -- history no shorter and the lines that stay in it as they are.
  pub cell-process :
      (bytes : Bytes) (t : Terminal vt) (dropped : ℕ)
      → IsWellFormed laws t
      → is_scrolled_back t ≡ true
      → history_of laws t ≤ history (vt.feed bytes t.parser)
      → ((k col : ℕ)
          → k + dropped < history_of laws t
          → laws.line k col (vt.feed bytes t.parser) ≡ laws.line (k + dropped) col t.parser)
      → (row col : ℕ) → row + dropped < scrollback t
      → row + dropped < (size t).0
      → vt.cell row col (process bytes t).parser ≡ vt.cell (row + dropped) col t.parser
  cell-process bytes t dropped w h grows stay row col shown inside =
      let fed = vt.feed bytes t.parser in
      let n = scrollback t + (history fed - history t.parser) in
      let k = (history t.parser - scrollback t) + row in
      let place : history (vt.set_offset n fed) - vt.offset (vt.set_offset n fed) + row ≡ k =
        omega (arith, offset-set n fed, history-set n fed, offset-le t.parser) in
      let before : k + dropped ≡ history t.parser - scrollback t + (row + dropped) = omega arith in
      ap (λ u. vt.cell row col u.parser) (process_scrolled bytes t w h)
      ∙ laws.cell-line row col (vt.set_offset n fed)
          (ground (arith, dimensions-set n fed, dimensions-feed bytes t.parser))
      ∙ laws.line-set n (history (vt.set_offset n fed) - vt.offset (vt.set_offset n fed) + row) col
          fed
      ∙ ap (λ i. laws.line i col fed) place
      ∙ stay k col (omega (arith, offset-le t.parser))
      ∙ ap (λ i. laws.line i col t.parser) before
      ∙ sym (laws.cell-line (row + dropped) col t.parser inside)

  -- At the bottom the view follows the output as vt100 has it.
  pub process_at_bottom :
      (bytes : Bytes) (t : Terminal vt)
      → IsWellFormed laws t
      → is_scrolled_back t ≡ false
      → process bytes t ≡ record t { parser = vt.feed bytes t.parser; search_dirty = true }
  unfolding process
  process_at_bottom bytes t w h = ground (arith, max_scrollback_lem t w)

  -- Scrolling down undoes scrolling up by as much, where the history reaches that far and the
  -- position stays within a usize.
  pub scroll_down-scroll_up :
      (n : ℕ) (t : Terminal vt)
      → scrollback t + n ≤ history_of laws t
      → scrollback t + n ≤ usize_max
      → scroll_down n (scroll_up n t) ≡ t
  unfolding scroll_down scroll_up
  scroll_down-scroll_up n t h u = ground (
    arith,
    offset-set (scrollback t + n) t.parser,
    alternate-set (scrollback t + n) t.parser,
    set-set (scrollback t) (scrollback t + n) t.parser,
    set_self t.parser,
  )

  -- Off the alternate screen and on a well-formed terminal with at least one row, scrolling to a row
  -- of the history or the screen brings it on screen: it stands between the topmost visible line and
  -- the last one. Rows are counted from the oldest line.
  pub scroll_to_row_visible :
      (t : Terminal vt) (row : ℕ)
      → IsWellFormed laws t
      → is_alternate_screen t ≡ false
      → 0 < (size t).0
      → row < history_of laws t + (size t).0
      → (top_line laws (scroll_to_row row t) ≤ row)
        × (row < top_line laws (scroll_to_row row t) + (size (scroll_to_row row t)).0)
  unfolding scroll_to_row
  scroll_to_row_visible t row w alt pos h =
      let n = centered (history t.parser) row (size t).0 in
      ground (
        arith,
        max_scrollback_lem t w,
        offset-set n t.parser,
        history-set n t.parser,
        dimensions-set n t.parser,
      )

  -- On the alternate screen no scroll command does anything, except the one to the bottom.
  pub scroll_alternate :
      (t : Terminal vt) (n : ℕ)
      → is_alternate_screen t ≡ true
      → (scroll_up n t ≡ t)
        × (scroll_down n t ≡ t)
        × (scroll_to_top t ≡ t)
        × (scroll_to_row n t ≡ t)
        × (is_scrolled_back (scroll_to_bottom t) ≡ false)
  unfolding scroll_up scroll_down scroll_to_top scroll_to_row scroll_to_bottom
  scroll_alternate t n alt = ground (arith, offset-set 0 t.parser)

  -- From anywhere, the scroll commands end where they say: the top line is the oldest one, or the
  -- view is at the bottom.
  pub scroll_to_ends :
      (t : Terminal vt)
      → IsWellFormed laws t
      → is_alternate_screen t ≡ false
      → (top_line laws (scroll_to_top t) ≡ 0) × (is_scrolled_back (scroll_to_bottom t) ≡ false)
  unfolding scroll_to_top scroll_to_bottom
  scroll_to_ends t w alt = ground (
    arith,
    offset-set t.scrollback_len t.parser,
    history-set t.scrollback_len t.parser,
    history-le t.parser,
    offset-set 0 t.parser,
  )

  pub set_scrollback-IsWellFormed :
      (n : ℕ) (t : Terminal vt) → IsWellFormed laws t → IsWellFormed laws (set_scrollback n t)
  set_scrollback-IsWellFormed n t w = limit-set n t.parser ∙ w

  pub process-IsWellFormed :
      (bytes : Bytes) (t : Terminal vt) → IsWellFormed laws t → IsWellFormed laws (process bytes t)
  unfolding process
  process-IsWellFormed bytes t w =
      let fed = vt.feed bytes t.parser in
      let t' = record t { parser = fed; search_dirty = true } in
      let w' : IsWellFormed laws t' = limit-feed bytes t.parser ∙ w in
      ground (
        arith,
        max_scrollback_lem t w,
        max_scrollback_lem t' w',
        limit-set (scrollback t + (history fed - history t.parser)) fed,
      )

  -- Every other operation keeps the limit, too.
  pub ops-IsWellFormed :
      (t : Terminal vt)
      → IsWellFormed laws t
      → (n m : ℕ) (label : Text)
      → IsWellFormed laws (inject_banner label t)
        × IsWellFormed laws (resize n m t)
        × IsWellFormed laws (scroll_up n t)
        × IsWellFormed laws (scroll_down n t)
        × IsWellFormed laws (scroll_to_bottom t)
        × IsWellFormed laws (scroll_to_top t)
        × IsWellFormed laws (scroll_to_row n t)
  unfolding inject_banner resize scroll_up scroll_down scroll_to_bottom scroll_to_top scroll_to_row
  ops-IsWellFormed t w n m label = (
    limit-feed _ t.parser ∙ w,
    limit-dimensions _ _ t.parser ∙ w,
    ground (arith, limit-set (min (scrollback t + n) usize_max) t.parser),
    ground (arith, limit-set (scrollback t - n) t.parser),
    limit-set 0 t.parser ∙ w,
    ground (arith, limit-set t.scrollback_len t.parser),
    ground (
      arith,
      max_scrollback_lem t w,
      limit-set (centered (history t.parser) n (size t).0) t.parser,
    ),
  )
