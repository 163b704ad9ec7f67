-- ===== src/App/Search.antt =====
-- The search commands of the App (src/app.rs).
use mtack.Base.{
  ℕ, suc, ◌+◌, ◌-◌, ◌/◌, Bool, not, ◌&&◌, List, [], ◌∷◌, Option, none, some, Text, ltb, leb,
  if◌then◌else◌, length, get_elem?, modify, is_empty, get_or,
}
use mtack.Base.Panic.{◌>>=◌}
use mtack.Vt100.{Vt100}
use mtack.Input.{normal}
use mtack.Terminal.Defs.{MatchSpan, Terminal}
use mtack.Terminal.Defs as Terminal
use mtack.Terminal.Search.{find_all_matches}
use mtack.Process.Types.{Process}
use mtack.App.State.{App, SearchState, selected_process, update_selected, on_terminal}

pub data SearchDirection : Type 0 where
  forward backward : SearchDirection

-- `Iterator::position` and `rposition`: the first, or the last, index where the test passes.
unfoldable pub position : (MatchSpan → Bool) → ℕ → List MatchSpan → Option ℕ
position test i [] = none
position test i (m ∷ ms) = let rest = position test (suc i) ms in if test m then some i else rest

abbrev pub or_else : Option ℕ → Option ℕ → Option ℕ
or_else none b = b
or_else (some a) b = some a

unfoldable pub rposition : (MatchSpan → Bool) → ℕ → List MatchSpan → Option ℕ
rposition test i [] = none
rposition test i (m ∷ ms) = or_else (rposition test (suc i) ms) (if test m then some i else none)

-- The match to jump to: the last one at or above the row behind the last visible one, or the last.
unfoldable pub nearest : List MatchSpan → ℕ → ℕ → ℕ → ℕ
unfolding rposition
nearest matches total_rows rows scrollback =
    let visible_top = total_rows - (rows + scrollback) in
    let visible_bottom = visible_top + rows in
    get_or (rposition (λ m. leb m.row visible_bottom) 0 matches) (length matches - 1)

abbrev pub visible_center : ℕ → ℕ → ℕ → ℕ
visible_center total_rows scrollback rows = total_rows - (scrollback + rows / 2)

unfoldable pub next_index : SearchDirection → List MatchSpan → ℕ → Option ℕ
unfolding position rposition
next_index forward matches center = position (λ m. ltb center m.row) 0 matches
next_index backward matches center = rposition (λ m. ltb m.row center) 0 matches

unfoldable pub fill_placeholder : SearchState → SearchState
fill_placeholder s =
    if is_empty s.query && not (is_empty s.last_query) then record s { query = s.last_query } else s

remember : SearchState → SearchState
remember s = if is_empty s.query then s else record s { last_query = s.query }

module _ {vt : Vt100} where
  -- Makes the match at an index the current one and scrolls to it.
  abbrev pub jump : ℕ → App vt → Option (App vt)
  jump i app = do
    m ← get_elem? app.search.matches i
    update_selected (on_terminal (Terminal.scroll_to_row m.row))
        (record app { search = record (app.search) { current = some i } })

  -- The selected process's terminal, as a search or a measurement leaves it.
  abbrev pub with_terminal : Terminal vt → App vt → App vt
  with_terminal t app = record app {
    processes = modify app.selected (λ q. record q { terminal = t }) app.processes;
  }

  abbrev pub with_matches : List MatchSpan → App vt → App vt
  with_matches matches app = record app { search = record (app.search) { matches = matches } }

  -- The matches of the whole terminal, and the jump to one of them.
  unfoldable pub collect : (Text → Text) → App vt → Option (App vt)
  unfolding nearest
  collect lower app = do
    p ← selected_process app
    ((matches, total_rows), t) ← find_all_matches lower p.terminal app.search.query
    let found = with_matches matches (with_terminal t app)
    if is_empty matches
        then some found
        else jump (nearest matches total_rows (Terminal.size t).0 (Terminal.scrollback t)) found

  unfoldable pub search_accept : (Text → Text) → App vt → Option (App vt)
  unfolding fill_placeholder collect remember
  search_accept lower app =
      let filled = record app { search = fill_placeholder app.search } in
      do
        p ← selected_process app
        searched ←
            (if Terminal.is_alternate_screen p.terminal then some filled else collect lower filled)
        some (record searched { search = remember searched.search; mode = normal })

  unfoldable pub navigate_in : SearchDirection → App vt → Process vt → Option (App vt)
  unfolding next_index
  navigate_in direction app p =
      let (total_rows, t) = Terminal.total_rows p.terminal in
      let measured = with_terminal t app in
      elim (next_index direction app.search.matches
        (visible_center total_rows (Terminal.scrollback t) (Terminal.size t).0)) [
          | none ↦ some measured
          | some i ↦ jump i measured
        ]

  unfoldable pub search_navigate : SearchDirection → App vt → Option (App vt)
  unfolding navigate_in
  search_navigate direction app =
      if is_empty app.search.matches
      then some app
      else (selected_process app >>= λ p.
          if Terminal.is_alternate_screen p.terminal then some app else navigate_in direction app p)
