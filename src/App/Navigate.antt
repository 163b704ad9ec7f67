-- ===== src/App/Navigate.antt =====
-- Stepping through the matches (src/app.rs).
use mtack.Base.{
  ℕ, suc, ◌+◌, ◌/◌, ◌%◌, ◌≤◌, ◌≡◌, refl, sym, Bool, true, false, List, [], ◌∷◌, Option, none, some,
  arith, ltb, get_elem?, any, take, drop, if-cases, subst, if◌then◌else◌,
}
use mtack.Vt100.{Vt100, Laws}
use mtack.Terminal.Defs.{
  Terminal, MatchSpan, scrollback, size, is_alternate_screen, scroll_to_row, total_rows, centered,
}
use mtack.Terminal.Scroll.{IsWellFormed, ops-IsWellFormed, history_of, max_scrollback_lem}
use mtack.App.Search.{position, rposition, or_else, next_index, forward, backward, visible_center}

-- The first match for which a test passes stands at the index, or there is none.
abbrev pub IsFirst : (MatchSpan → Bool) → List MatchSpan → Option ℕ → Type 0
IsFirst test ms none = any test ms ≡ false
IsFirst test ms (some j) =
    (any test (take j ms) ≡ false) × ((m : MatchSpan) × (get_elem? ms j ≡ some m) × (test m ≡ true))

-- The last such match.
abbrev pub IsLast : (MatchSpan → Bool) → List MatchSpan → Option ℕ → Type 0
IsLast test ms none = any test ms ≡ false
IsLast test ms (some j) =
    (any test (drop (suc j) ms) ≡ false)
    × ((m : MatchSpan) × (get_elem? ms j ≡ some m) × (test m ≡ true))

-- An index counted from `base`.
abbrev plus : ℕ → Option ℕ → Option ℕ
plus base none = none
plus base (some j) = some (base + j)

position_base :
    (test : MatchSpan → Bool) (base : ℕ) (ms : List MatchSpan)
    → position test base ms ≡ plus base (position test 0 ms)
unfolding position
position_base test base [] = refl
position_base test base (m ∷ ms) =
    ground (arith, position_base test (suc base) ms, position_base test 1 ms)

rposition_base :
    (test : MatchSpan → Bool) (base : ℕ) (ms : List MatchSpan)
    → rposition test base ms ≡ plus base (rposition test 0 ms)
unfolding rposition
rposition_base test base [] = refl
rposition_base test base (m ∷ ms) =
    ground (arith, rposition_base test (suc base) ms, rposition_base test 1 ms)

-- The same index in a list with one match more at its head.
abbrev next : Option ℕ → Option ℕ
next none = none
next (some j) = some (suc j)

IsFirst-cons :
    (test : MatchSpan → Bool) (m : MatchSpan) (ms : List MatchSpan) (o : Option ℕ)
    → IsFirst test ms o
    → IsFirst test (m ∷ ms) (if test m then some 0 else next o)
IsFirst-cons test m ms none h =
    if-cases (IsFirst test (m ∷ ms)) (test m) (some 0) none (λ e. (refl, (m, refl, e)))
      (λ e. ground arith)
IsFirst-cons test m ms (some j) h =
    if-cases (IsFirst test (m ∷ ms)) (test m) (some 0) (some (suc j)) (λ e. (refl, (m, refl, e)))
      (λ e. (ground (arith, h.0), h.1))

pub position-IsFirst :
    (test : MatchSpan → Bool) (ms : List MatchSpan) → IsFirst test ms (position test 0 ms)
unfolding position
position-IsFirst test [] = refl
position-IsFirst test (m ∷ ms) =
    let e : position test 0 (m ∷ ms) ≡ (if test m then some 0 else next (position test 0 ms)) =
      ground (arith, position_base test 1 ms) in
    subst (IsFirst test (m ∷ ms)) (sym e)
      (IsFirst-cons test m ms (position test 0 ms) (position-IsFirst test ms))

IsLast-cons :
    (test : MatchSpan → Bool) (m : MatchSpan) (ms : List MatchSpan) (o : Option ℕ)
    → IsLast test ms o
    → IsLast test (m ∷ ms) (or_else (next o) (if test m then some 0 else none))
IsLast-cons test m ms none h =
    if-cases (IsLast test (m ∷ ms)) (test m) (some 0) none (λ e. (h, (m, refl, e)))
      (λ e. ground arith)
IsLast-cons test m ms (some j) h = h

pub rposition-IsLast :
    (test : MatchSpan → Bool) (ms : List MatchSpan) → IsLast test ms (rposition test 0 ms)
unfolding rposition
rposition-IsLast test [] = refl
rposition-IsLast test (m ∷ ms) =
    let e : rposition test 0 (m ∷ ms)
        ≡ or_else (next (rposition test 0 ms)) (if test m then some 0 else none) =
      ground (arith, rposition_base test 1 ms) in
    subst (IsLast test (m ∷ ms)) (sym e)
      (IsLast-cons test m ms (rposition test 0 ms) (rposition-IsLast test ms))

module _ {vt : Vt100} (laws : Laws vt) where
  -- Off the alternate screen and on a well-formed terminal, after a scroll to a row that can be
  -- centred, the row that the next search step starts from is that row if the screen has an even
  -- number of rows, and the row below it if it has an odd number.
  pub visible_center-scroll_to_row :
      (t : Terminal vt) (row : ℕ)
      → IsWellFormed laws t
      → is_alternate_screen t ≡ false
      → (size t).0 / 2 ≤ row
      → row ≤ history_of laws t + (size t).0 / 2
      → let t' = scroll_to_row row t in
        visible_center (total_rows t').0 (scrollback t') (size t').0 ≡ row + (size t).0 % 2
  unfolding scroll_to_row total_rows
  visible_center-scroll_to_row t row w alt low high =
      let w' = (ops-IsWellFormed laws t w row 0 []).6 in
      let n = centered (laws.history t.parser) row (size t).0 in
      ground (
        arith,
        max_scrollback_lem laws t w,
        laws.offset-set n t.parser,
        laws.history-set n t.parser,
        laws.dimensions-set n t.parser,
        max_scrollback_lem laws (scroll_to_row row t) w',
      )

-- A search step forward goes to the first match below the row in the middle of the view, a step
-- backward to the last match above it; and there is no step only if there is no such match.
pub next_index_lem :
    (matches : List MatchSpan) (center : ℕ)
    → IsFirst (λ m. ltb center m.row) matches (next_index forward matches center)
      × IsLast (λ m. ltb m.row center) matches (next_index backward matches center)
unfolding next_index
next_index_lem matches center = (
  position-IsFirst (λ m. ltb center m.row) matches,
  rposition-IsLast (λ m. ltb m.row center) matches,
)
