-- ===== src/Terminal/Matches/Spans.antt =====
-- Where the matches of one row stand, and when the code panics on it (src/terminal.rs).
use mtack.Base.{
  ℕ, zero, suc, ◌+◌, ◌-◌, ◌≤◌, ◌<◌, ◌≡◌, refl, ◌∙◌, true, List, [], ◌∷◌, Option, some, Text, arith,
  length, get_elem?, All, if◌then◌else◌, is_some, ltb, all, Option-cases, inl, inr,
}
use mtack.Vt100.{Cell}
use mtack.Terminal.Matches.Places.{IsMatch, row_spans-IsMatch}
use mtack.Terminal.Search.{
  starts_with, indices_from, match_indices, match_display_span, spans_of, row_spans, columns_from,
}

is_some-get_elem? : (xs : List ℕ) (i : ℕ) → is_some (get_elem? xs i) ≡ ltb i (length xs)
is_some-get_elem? [] i = ground arith
is_some-get_elem? (x ∷ xs) zero = ground arith
is_some-get_elem? (x ∷ xs) (suc i) = ground (arith, is_some-get_elem? xs i)

is_some-spans_of :
    (is : List ℕ) (q : ℕ) (columns : List ℕ) (cols : ℕ)
    → is_some (spans_of is q columns cols) ≡ all (λ i. ltb i (length columns)) is
unfolding spans_of match_display_span
is_some-spans_of [] q columns cols = refl
is_some-spans_of (i ∷ is) q columns cols =
    ground (arith, is_some-get_elem? columns i, is_some-spans_of is q columns cols)

-- The search of a row does without a panic exactly if every match in the lowered text begins at a
-- character that the row itself has.
pub is_some-row_spans :
    (lower : Text → Text) (query_lower text : Text) (cols : ℕ) (char_to_col : List ℕ)
    → is_some (row_spans lower query_lower cols (text, char_to_col))
      ≡ all (λ i. ltb i (length char_to_col)) (match_indices query_lower (lower text))
unfolding row_spans
is_some-row_spans lower query_lower text cols char_to_col =
    is_some-spans_of (match_indices query_lower (lower text)) (length query_lower) char_to_col cols

indices_from-below :
    (query : Text) (skip pos n : ℕ) (text : Text)
    → pos + length text ≤ n
    → all (λ i. ltb i n) (indices_from query skip pos text) ≡ true
unfolding indices_from
indices_from-below query skip pos n [] h = refl
indices_from-below query (suc skip) pos n (c ∷ cs) h =
    indices_from-below query skip (suc pos) n cs (omega arith)
indices_from-below query zero pos n (c ∷ cs) h = ground (
  arith,
  indices_from-below query (if starts_with query (c ∷ cs) then length query - 1 else 0) (suc pos) n
      cs,
)

columns_from-lengths :
    (cell : ℕ → Option Cell) (n col : ℕ)
    → length (columns_from cell n col).0 ≡ length (columns_from cell n col).1
unfolding columns_from
columns_from-lengths cell zero col = refl
columns_from-lengths cell (suc n) col = ground (arith, columns_from-lengths cell n (suc col))

-- The search of a row of the screen does not panic where lowering the case makes the row's text no longer.
pub row_spans_total :
    (lower : Text → Text) (query_lower : Text) (cols : ℕ) (cell : ℕ → Option Cell) (n : ℕ)
    → length (lower (columns_from cell n 0).0) ≤ length (columns_from cell n 0).0
    → is_some (row_spans lower query_lower cols (columns_from cell n 0)) ≡ true
unfolding match_indices
row_spans_total lower query_lower cols cell n short =
    let (text, columns) = columns_from cell n 0 in
    is_some-row_spans lower query_lower text cols columns
    ∙ indices_from-below query_lower 0 0 (length columns) (lower text)
        (omega (arith, short, columns_from-lengths cell n 0))

-- Columns that rise from `lo` on and stay below `hi`.
abbrev Rising : ℕ → ℕ → List ℕ → Type 0
Rising lo hi [] = Unit {0}
Rising lo hi (x ∷ xs) = (lo ≤ x) × (x < hi) × Rising (suc x) hi xs

Rising-mono : (k lo hi : ℕ) (xs : List ℕ) → k ≤ lo → Rising lo hi xs → Rising k hi xs
Rising-mono k lo hi [] h r = tt
Rising-mono k lo hi (x ∷ xs) h r = (omega arith, r.1, r.2)

columns_from-Rising :
    (cell : ℕ → Option Cell) (n col hi : ℕ)
    → col + n ≤ hi
    → Rising col hi (columns_from cell n col).1
unfolding columns_from
columns_from-Rising cell zero col hi h = tt
columns_from-Rising cell (suc n) col hi h =
    let rest = columns_from-Rising cell n (suc col) hi (omega arith) in
    ground (
      arith,
      rest,
      Rising-mono col (suc col) hi (columns_from cell n (suc col)).1 (omega arith) rest,
    )

Rising-bounds :
    (lo hi : ℕ) (xs : List ℕ) (i x : ℕ)
    → Rising lo hi xs
    → get_elem? xs i ≡ some x
    → (lo ≤ x) × (x < hi)
Rising-bounds lo hi [] i x r e = cc
Rising-bounds lo hi (y ∷ ys) zero x r e = ground arith
Rising-bounds lo hi (y ∷ ys) (suc i) x r e = ground (arith, Rising-bounds (suc y) hi ys i x r.2 e)

Rising-lt :
    (lo hi : ℕ) (xs : List ℕ) (i j x y : ℕ)
    → Rising lo hi xs
    → i < j
    → get_elem? xs i ≡ some x
    → get_elem? xs j ≡ some y
    → x < y
Rising-lt lo hi [] i j x y r l e f = cc
Rising-lt lo hi (z ∷ zs) i zero x y r l e f = absurd (omega arith)
Rising-lt lo hi (z ∷ zs) zero (suc j) x y r l e f =
    ground (arith, Rising-bounds (suc z) hi zs j y r.2 f)
Rising-lt lo hi (z ∷ zs) (suc i) (suc j) x y r l e f =
    Rising-lt (suc z) hi zs i j x y r.2 (omega arith) e f

abbrev pub InRow : ℕ → ℕ × ℕ → Type 0
InRow cols span = (0 < span.1) × (span.0 + span.1 ≤ cols)

span-InRow :
    (lo : ℕ) (i q : ℕ) (columns : List ℕ) (cols : ℕ) (span : ℕ × ℕ)
    → Rising lo cols columns
    → 0 < q
    → match_display_span i q columns cols ≡ some span
    → InRow cols span
unfolding match_display_span
span-InRow lo i q columns cols span r pos h = elim (Option-cases (get_elem? columns i)) [
  | inl e ↦ cc (rw e at h)
  | inr (x, e) ↦ elim (Option-cases (get_elem? columns (i + q))) [
    | inl f ↦ ground (arith, Rising-bounds lo cols columns i x r e)
    | inr (y, f) ↦ ground (
      arith,
      Rising-lt lo cols columns i (i + q) x y r (omega arith) e f,
      Rising-bounds lo cols columns (i + q) y r f,
    )
  ]
]

spans_of-InRow :
    (is : List ℕ) (q : ℕ) (columns : List ℕ) (cols : ℕ) (spans : List (ℕ × ℕ))
    → Rising 0 cols columns
    → 0 < q
    → spans_of is q columns cols ≡ some spans
    → All (InRow cols) spans
unfolding spans_of
spans_of-InRow [] q columns cols spans r pos h = ground arith
spans_of-InRow (i ∷ is) q columns cols spans r pos h =
    elim (Option-cases (match_display_span i q columns cols)) [
      | inl e ↦ cc (rw e at h)
      | inr (span, e) ↦ elim (Option-cases (spans_of is q columns cols)) [
        | inl f ↦ ground arith
        | inr (rest, f) ↦
            let same : spans ≡ span ∷ rest = ground arith in
            rw same (
              span-InRow 0 i q columns cols span r pos e,
              spans_of-InRow is q columns cols rest r pos f,
            )
      ]
    ]

-- Every match of a query that is not empty lies in its row, if the search of the row does not panic:
-- it covers at least one column and ends before the right edge, wide characters and clipped ends
-- included. And it begins at the column of a character at which the query, lowered, stands in the lowered text of the row.
pub row_spans-InRow :
    (lower : Text → Text) (query_lower : Text) (cols : ℕ) (cell : ℕ → Option Cell)
    (spans : List (ℕ × ℕ))
    → 0 < length query_lower
    → row_spans lower query_lower cols (columns_from cell cols 0) ≡ some spans
    → All (InRow cols) spans
      × All
          (IsMatch query_lower (lower (columns_from cell cols 0).0) (columns_from cell cols 0).1)
          spans
unfolding row_spans
row_spans-InRow lower query_lower cols cell spans pos h =
    let (text, columns) = columns_from cell cols 0 in
    (
      spans_of-InRow (match_indices query_lower (lower text)) (length query_lower) columns cols
          spans (columns_from-Rising cell cols 0 cols (omega arith)) pos h,
      row_spans-IsMatch lower query_lower text cols columns spans h,
    )
