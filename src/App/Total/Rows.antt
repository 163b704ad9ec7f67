-- ===== src/App/Total/Rows.antt =====
-- The searches of all rows, and the commands built on them, give a result (src/terminal.rs, src/app.rs).
use mtack.Base.{
  ℕ, ◌-◌, ◌<◌, ◌≡◌, refl, ap, Bool, true, false, List, [], ◌∷◌, Option, none, some, Text, arith,
  length, get_elem?, length-modify, if◌then◌else◌, is_some, is_empty, get_elem?-bound, get_elem?-lt,
  if-cases, get_or,
}
use mtack.Base.Panic.{◌>>=◌}
use mtack.Vt100.{Vt100}
use mtack.Terminal.Defs.{Terminal, MatchSpan, is_alternate_screen, scrollback, size, scroll_to_row}
use mtack.Terminal.Defs as Terminal
use mtack.Terminal.Search.{find_all_matches}
use mtack.App.Total.Searches.{IsShort, find_all_matches_total}
use mtack.Process.Types.{Process}
use mtack.App.State.{App, selected_process, update_selected, on_terminal}
use mtack.App.Search.{
  SearchDirection, forward, backward, nearest, jump, collect, navigate_in, with_terminal,
  with_matches, next_index, search_accept, search_navigate, fill_placeholder,
}
use mtack.App.Navigate.{IsLast, IsFirst, next_index_lem, rposition-IsLast}

-- There was no panic, and the selected process is there.
abbrev pub IsSafe : {vt : Vt100} → Option (App vt) → Type 0
IsSafe none = ⊥
IsSafe (some app) = app.selected < length app.processes

pub is_some-get_elem? {ℓ} :
    {A : Type ℓ} (xs : List A) (i : ℕ) → i < length xs → is_some (get_elem? xs i) ≡ true
is_some-get_elem? xs i h = ap is_some (get_elem?-lt xs i h).1

last-lt :
    (test : MatchSpan → Bool) (matches : List MatchSpan) (o : Option ℕ)
    → is_empty matches ≡ false
    → IsLast test matches o
    → get_or o (length matches - 1) < length matches
last-lt test [] o e h = cc
last-lt test (m ∷ ms) none e h = omega arith
last-lt test (m ∷ ms) (some j) e (none_behind, (x, found, passes)) =
    get_elem?-bound (m ∷ ms) j x found

nearest-lt :
    (matches : List MatchSpan) (total rows offset : ℕ)
    → is_empty matches ≡ false
    → nearest matches total rows offset < length matches
unfolding nearest
nearest-lt matches total rows offset h = last-lt _ matches _ h (rposition-IsLast _ matches)

-- A search step goes to a match that there is.
abbrev pub Below : ℕ → Option ℕ → Type 0
Below n none = Unit {0}
Below n (some i) = i < n

first-Below :
    (test : MatchSpan → Bool) (matches : List MatchSpan) (o : Option ℕ)
    → IsFirst test matches o
    → Below (length matches) o
first-Below test matches none h = tt
first-Below test matches (some j) (none_ahead, (x, found, passes)) =
    get_elem?-bound matches j x found

last-Below :
    (test : MatchSpan → Bool) (matches : List MatchSpan) (o : Option ℕ)
    → IsLast test matches o
    → Below (length matches) o
last-Below test matches none h = tt
last-Below test matches (some j) (none_behind, (x, found, passes)) =
    get_elem?-bound matches j x found

next_index-Below :
    (direction : SearchDirection) (matches : List MatchSpan) (center : ℕ)
    → Below (length matches) (next_index direction matches center)
next_index-Below forward matches center = first-Below _ matches _ (next_index_lem matches center).0
next_index-Below backward matches center = last-Below _ matches _ (next_index_lem matches center).1

-- So it is on the screen of the selected process.
abbrev pub HasShortRows : {vt : Vt100} → (Text → Text) → App vt → Type 0
HasShortRows {vt} lower app =
    (p : Process vt) → selected_process app ≡ some p → IsShort vt lower p.terminal.parser

module _ {vt : Vt100} where
  pub update_selected-IsSafe :
      (f : Process vt → Process vt) (app : App vt)
      → app.selected < length app.processes
      → IsSafe (update_selected f app)
  update_selected-IsSafe f app v = ground (arith, length-modify app.selected f app.processes)

  pub bind-IsSafe {ℓ} :
      {A : Type ℓ} (o : Option A) (f : A → Option (App vt))
      → is_some o ≡ true
      → ((a : A) → o ≡ some a → IsSafe (f a))
      → IsSafe (o >>= f)
  bind-IsSafe none f h k = cc
  bind-IsSafe (some a) f h k = k a refl

  pub chain-IsSafe :
      (o : Option (App vt)) (f : App vt → Option (App vt))
      → IsSafe o
      → ((a : App vt) → a.selected < length a.processes → IsSafe (f a))
      → IsSafe (o >>= f)
  chain-IsSafe none f h k = h
  chain-IsSafe (some a) f h k = k a h

  pub then-IsSafe :
      (o : Option (App vt)) (f : App vt → App vt)
      → IsSafe o
      → ((a : App vt) → a.selected < length a.processes → (f a).selected < length (f a).processes)
      → IsSafe (o >>= λ a. some (f a))
  then-IsSafe none f h k = h
  then-IsSafe (some a) f h k = k a h

  jump-IsSafe :
      (i : ℕ) (app : App vt)
      → i < length app.search.matches
      → app.selected < length app.processes
      → IsSafe (jump i app)
  jump-IsSafe i app h v =
      bind-IsSafe (get_elem? app.search.matches i) _ (is_some-get_elem? app.search.matches i h)
        (λ m e. update_selected-IsSafe (on_terminal (scroll_to_row m.row)) _ v)

  with_terminal-IsSafe :
      (t : Terminal vt) (app : App vt)
      → app.selected < length app.processes
      → app.selected < length (with_terminal t app).processes
  with_terminal-IsSafe t app v = omega (
    arith,
    length-modify app.selected (λ (q : Process vt). record q { terminal = t }) app.processes,
  )

  collect-IsSafe :
      (lower : Text → Text) (app : App vt)
      → HasShortRows lower app
      → app.selected < length app.processes
      → IsSafe (collect lower app)
  unfolding collect
  collect-IsSafe lower app short v =
      bind-IsSafe (selected_process app) _ (is_some-get_elem? app.processes app.selected v) (λ p e.
        bind-IsSafe (find_all_matches lower p.terminal app.search.query) _
          (find_all_matches_total lower p.terminal app.search.query (short p e))
          (λ ((matches, total), t) f.
            let found = with_matches matches (with_terminal t app) in
            if-cases IsSafe (is_empty matches) (some found)
              (jump (nearest matches total (size t).0 (scrollback t)) found)
              (λ e. with_terminal-IsSafe t app v)
              (λ e.
                jump-IsSafe _ found (nearest-lt matches total _ _ e)
                  (with_terminal-IsSafe t app v))))

  pub search_accept-IsSafe :
      (lower : Text → Text) (app : App vt)
      → HasShortRows lower app
      → app.selected < length app.processes
      → IsSafe (search_accept lower app)
  unfolding search_accept
  search_accept-IsSafe lower app short v =
      let filled = record app { search = fill_placeholder app.search } in
      bind-IsSafe (selected_process app) _ (is_some-get_elem? app.processes app.selected v) (λ p q.
        then-IsSafe (if is_alternate_screen p.terminal then some filled else collect lower filled) _
          (if-cases IsSafe (is_alternate_screen p.terminal) (some filled) (collect lower filled)
            (λ e. v) (λ e. collect-IsSafe lower filled short v))
          (λ a h. h))

  move-IsSafe :
      (o : Option ℕ) (app : App vt)
      → Below (length app.search.matches) o
      → app.selected < length app.processes
      → IsSafe (elim o [ none ↦ some app | some i ↦ jump i app ])
  move-IsSafe none app b v = v
  move-IsSafe (some i) app b v = jump-IsSafe i app b v

  navigate_in-IsSafe :
      (direction : SearchDirection) (app : App vt) (p : Process vt)
      → app.selected < length app.processes
      → IsSafe (navigate_in direction app p)
  unfolding navigate_in
  navigate_in-IsSafe direction app p v =
      let (total, t) = Terminal.total_rows p.terminal in
      move-IsSafe _ (with_terminal t app) (next_index-Below direction app.search.matches _)
        (with_terminal-IsSafe t app v)

  pub search_navigate-IsSafe :
      (direction : SearchDirection) (app : App vt)
      → app.selected < length app.processes
      → IsSafe (search_navigate direction app)
  unfolding search_navigate
  search_navigate-IsSafe direction app v =
      if-cases IsSafe (is_empty app.search.matches) (some app) _ (λ e. v)
        (λ e.
          bind-IsSafe (selected_process app) _ (is_some-get_elem? app.processes app.selected v)
            (λ p q.
              if-cases IsSafe (is_alternate_screen p.terminal) (some app)
                (navigate_in direction app p) (λ f. v) (λ f. navigate_in-IsSafe direction app p v)))
