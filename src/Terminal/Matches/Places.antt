-- ===== src/Terminal/Matches/Places.antt =====
-- Where the matches of one row are found (src/terminal.rs): in the lowered text, at the columns of its characters.
use mathlib.Core.List.{append_assoc}
use mtack.Base.{
  ℕ, zero, suc, ◌-◌, ◌≡◌, refl, ap, sym, ◌∙◌, true, List, [], ◌∷◌, ◌++◌, some, Text, arith, length,
  get_elem?, All, Option-cases, inl, inr, if-cases, if◌then◌else◌,
}
use mtack.Terminal.Search.{
  starts_with, indices_from, match_indices, match_display_span, spans_of, row_spans,
}

-- A text stands in another behind a number of characters.
abbrev pub OccursAt : Text → Text → ℕ → Type 0
OccursAt query whole i =
    (before : Text) × (after : Text) × (whole ≡ before ++ (query ++ after)) × (length before ≡ i)

-- A span begins at the column of a character at which the query stands in the lowered text.
abbrev pub IsMatch : Text → Text → List ℕ → ℕ × ℕ → Type 0
IsMatch query lowered columns span =
    (i : ℕ) × OccursAt query lowered i × (get_elem? columns i ≡ some span.0)

starts_with_sound :
    (query text : Text) → starts_with query text ≡ true → (after : Text) × (text ≡ query ++ after)
unfolding starts_with
starts_with_sound [] text h = (text, refl)
starts_with_sound (q ∷ qs) [] h = cc
starts_with_sound (q ∷ qs) (c ∷ cs) h =
    let (after, e) = starts_with_sound qs cs (ground arith) in (after, ground (arith, h, e))

length-snoc : (xs : Text) (x : ℕ) → length (xs ++ (x ∷ [])) ≡ suc (length xs)
length-snoc [] x = refl
length-snoc (y ∷ ys) x = ap suc (length-snoc ys x)

indices_from-OccursAt :
    (query : Text) (skip pos : ℕ) (text whole before : Text)
    → whole ≡ before ++ text
    → length before ≡ pos
    → All (OccursAt query whole) (indices_from query skip pos text)
unfolding indices_from
indices_from-OccursAt query skip pos [] whole before e l = tt
indices_from-OccursAt query (suc skip) pos (c ∷ cs) whole before e l =
    indices_from-OccursAt query skip (suc pos) cs whole (before ++ (c ∷ []))
      (e ∙ sym (append_assoc before (c ∷ []) cs)) (length-snoc before c ∙ ap suc l)
indices_from-OccursAt query zero pos (c ∷ cs) whole before e l =
    let rest =
      indices_from-OccursAt query (if starts_with query (c ∷ cs) then length query - 1 else 0)
        (suc pos) cs whole (before ++ (c ∷ [])) (e ∙ sym (append_assoc before (c ∷ []) cs))
        (length-snoc before c ∙ ap suc l) in
    if-cases (All (OccursAt query whole)) (starts_with query (c ∷ cs)) _ _
      (λ hit.
        let (after, same) = starts_with_sound query (c ∷ cs) hit in
        ((before, after, e ∙ ap (◌++◌ before) same, l), rest))
      (λ miss. rest)

start_of :
    (i q : ℕ) (columns : List ℕ) (cols : ℕ) (span : ℕ × ℕ)
    → match_display_span i q columns cols ≡ some span
    → get_elem? columns i ≡ some span.0
unfolding match_display_span
start_of i q columns cols span h = elim (Option-cases (get_elem? columns i)) [
  | inl e ↦ cc (rw e at h)
  | inr (x, e) ↦ ground (arith, e, h)
]

spans_of-IsMatch :
    (query lowered : Text) (is : List ℕ) (q : ℕ) (columns : List ℕ) (cols : ℕ)
    (spans : List (ℕ × ℕ))
    → All (OccursAt query lowered) is
    → spans_of is q columns cols ≡ some spans
    → All (IsMatch query lowered columns) spans
unfolding spans_of
spans_of-IsMatch query lowered [] q columns cols spans o h = ground arith
spans_of-IsMatch query lowered (i ∷ is) q columns cols spans (o, os) h =
    elim (Option-cases (match_display_span i q columns cols)) [
      | inl e ↦ cc (rw e at h)
      | inr (span, e) ↦ elim (Option-cases (spans_of is q columns cols)) [
        | inl f ↦ ground arith
        | inr (rest, f) ↦
            let same : spans ≡ span ∷ rest = ground arith in
            rw same (
              (i, o, start_of i q columns cols span e),
              spans_of-IsMatch query lowered is q columns cols rest os f,
            )
      ]
    ]

pub row_spans-IsMatch :
    (lower : Text → Text) (query_lower text : Text) (cols : ℕ) (columns : List ℕ)
    (spans : List (ℕ × ℕ))
    → row_spans lower query_lower cols (text, columns) ≡ some spans
    → All (IsMatch query_lower (lower text) columns) spans
unfolding row_spans match_indices
row_spans-IsMatch lower query_lower text cols columns spans h =
    spans_of-IsMatch query_lower (lower text) (match_indices query_lower (lower text))
      (length query_lower) columns cols spans
      (indices_from-OccursAt query_lower 0 0 (lower text) (lower text) [] refl refl) h
