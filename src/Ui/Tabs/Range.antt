-- ===== src/Ui/Tabs/Range.antt =====
-- The visible tabs (src/ui/tabs.rs): the selected tab is among them, they fit, and no more would.
use mtack.Base.{
  ℕ, zero, suc, ◌+◌, ◌-◌, ◌≤◌, ◌<◌, ◌≡◌, refl, ap, ◌⊎◌, inl, inr, Bool, true, false, ◌&&◌, List,
  arith, ltb, leb, length, Bool-cases, tests,
}
use mtack.Ui.Tabs.Sums.{span-right, span-left, span-le-sum}
use mtack.Ui.Tabs.{
  sum, span_width, left_cost, right_cost, right_fits, left_fits, grows_right, grows_left, expand,
  visible_range,
}

-- The columns that the tabs from `first` to `last` need, with the marks for hidden ones.
abbrev pub needed : List ℕ → ℕ → ℕ → ℕ
needed widths first last =
    span_width widths first last + left_cost first + right_cost (length widths) last

abbrev pub Covers : List ℕ → ℕ → ℕ × ℕ → Type 0
Covers widths selected (first, last) =
    (first ≤ selected) × (selected < last) × (last ≤ length widths)

left_cost-le : (first : ℕ) → left_cost first ≤ 2
left_cost-le first = ground arith

right_cost-le : (n last : ℕ) → right_cost n last ≤ 2
right_cost-le n last = ground arith

-- What a test that a tab is hidden, at `x < y`, and that `n` columns fit says of its answer.
abbrev Decides : ℕ → ℕ → ℕ → ℕ → Bool → Type 0
Decides x y n area true = (x < y) × (n ≤ area)
Decides x y n area false = x < y → area < n

test-Decides : (x y n area : ℕ) → Decides x y n area (ltb x y && leb n area)
test-Decides x y n area = elim (Bool-cases (ltb x y)) [
  | inl p ↦ rw p (elim (Bool-cases (leb n area)) [
    | inl q ↦ rw q (omega tests)
    | inr q ↦ rw q (λ h. ground arith)
  ])
  | inr p ↦ rw p (λ h. ground arith)
]

module _ (widths : List ℕ) (area : ℕ) (small : sum widths + 4 < 65536) where
  right_fits_lem :
      (first last : ℕ)
      → first ≤ last
      → right_fits widths area first last ≡ leb (needed widths first (last + 1)) area
  right_fits_lem first last h =
      ap (λ n. leb n area)
        (omega (
          arith,
          span-right widths first last h,
          span-le-sum widths first (last + 1),
          left_cost-le first,
          right_cost-le (length widths) (last + 1),
        ))

  left_fits_lem :
      (first last : ℕ)
      → 0 < first
      → first ≤ last
      → last ≤ length widths
      → left_fits widths area first last ≡ leb (needed widths (first - 1) last) area
  left_fits_lem first last p h l =
      ap (λ n. leb n area)
        (omega (
          arith,
          span-left widths (first - 1) last (omega arith) (omega arith),
          ap (λ k. span_width widths k last) {x = first - 1 + 1} {y = first} (omega arith),
          span-le-sum widths (first - 1) last,
          left_cost-le (first - 1),
          right_cost-le (length widths) last,
        ))

  right_step :
      (first last : ℕ)
      → first ≤ last
      → Decides last
          (length widths)
          (needed widths first (last + 1))
          area
          (grows_right widths area first last)
  unfolding grows_right
  right_step first last h =
      rw (right_fits_lem first last h)
        (test-Decides last (length widths) (needed widths first (last + 1)) area)

  left_step :
      (first last : ℕ)
      → first ≤ last
      → last ≤ length widths
      → Decides 0 first (needed widths (first - 1) last) area (grows_left widths area first last)
  unfolding grows_left
  left_step zero last h l = λ p. omega arith
  left_step (suc k) last h l =
      rw (left_fits_lem (suc k) last (omega arith) h l)
        (test-Decides 0 (suc k) (needed widths (suc k - 1) last) area)

  -- The tabs fit with their marks, unless the selected one alone does not.
  abbrev pub Fits : ℕ → ℕ × ℕ → Type 0
  Fits selected (first, last) =
      (needed widths first last ≤ area) ⊎ ((first ≡ selected) × (last ≡ selected + 1))

  -- No further tab fits, on either side.
  abbrev pub IsMaximal : ℕ × ℕ → Type 0
  IsMaximal (first, last) =
      (last < length widths → area < needed widths first (last + 1))
      × (0 < first → area < needed widths (first - 1) last)

  abbrev IsGood : ℕ → ℕ × ℕ → Type 0
  IsGood selected range = Covers widths selected range × Fits selected range

  grow_right :
      (selected first last : ℕ)
      → IsGood selected (first, last)
      → grows_right widths area first last ≡ true
      → IsGood selected (first, last + 1)
  grow_right selected first last g r =
      let R : Decides last (length widths) (needed widths first (last + 1)) area true =
        rw r at (right_step first last (omega arith)) in
      (omega arith, inl R.1)

  grow_left :
      (selected first last : ℕ)
      → IsGood selected (first, last)
      → grows_left widths area first last ≡ true
      → IsGood selected (first - 1, last)
  grow_left selected first last g r =
      let L : Decides 0 first (needed widths (first - 1) last) area true =
        rw r at (left_step first last (omega arith) (omega arith)) in
      (omega arith, inl L.1)

  stuck-IsMaximal :
      (selected first last : ℕ)
      → Covers widths selected (first, last)
      → grows_right widths area first last ≡ false
      → grows_left widths area first last ≡ false
      → IsMaximal (first, last)
  stuck-IsMaximal selected first last c r l = (
    rw r at (right_step first last (omega arith)),
    rw l at (left_step first last (omega arith) (omega arith)),
  )

  grows_left_pos : (first last : ℕ) → grows_left widths area first last ≡ true → 0 < first
  unfolding grows_left
  grows_left_pos first last h = ground arith

  abbrev IsBest : ℕ → ℕ × ℕ → Type 0
  IsBest selected range = Covers widths selected range × Fits selected range × IsMaximal range

  expand-IsBest :
      (fuel selected first last : ℕ)
      → IsGood selected (first, last)
      → first + (length widths - last) < fuel
      → IsBest selected (expand fuel widths area first last)
  unfolding expand
  expand-IsBest zero selected first last g m = absurd (omega arith)
  expand-IsBest (suc fuel) selected first last g m =
      elim (Bool-cases (grows_right widths area first last)) [
        | inl r ↦
            let g' = grow_right selected first last g r in
            elim (Bool-cases (grows_left widths area first (last + 1))) [
              | inl l ↦
                  let pos = grows_left_pos first (last + 1) l in
                  rw (r, l)
                    (expand-IsBest fuel selected (first - 1) (last + 1)
                      (grow_left selected first (last + 1) g' l) (omega arith))
              | inr l ↦ rw (r, l) (expand-IsBest fuel selected first (last + 1) g' (omega arith))
            ]
        | inr r ↦ elim (Bool-cases (grows_left widths area first last)) [
          | inl l ↦
              let pos = grows_left_pos first last l in
              rw (r, l)
                (expand-IsBest fuel selected (first - 1) last (grow_left selected first last g l)
                  (omega arith))
          | inr l ↦ rw (r, l) (g.0, g.1, stuck-IsMaximal selected first last g.0 r l)
        ]
      ]

  all-IsBest :
      (selected : ℕ)
      → selected < length widths
      → sum widths ≤ area
      → IsBest selected (0, length widths)
  all-IsBest selected h fits = (
    omega arith,
    inl (ground (arith, span-le-sum widths 0 (length widths))),
    (λ l. absurd (omega arith), λ l. absurd (omega arith)),
  )

  -- The visible tabs are the best choice: the selected tab is among them, they fit with the marks
  -- for hidden tabs (unless the selected tab alone is shown and is too wide), and no further tab
  -- would fit on either side. The selected tab must be there, and the widths with the two marks add
  -- up to less than 65536. The fuel of the loop suffices for this.
  pub visible_range-IsBest :
      (selected : ℕ)
      → selected < length widths
      → IsBest selected (visible_range widths selected area)
  unfolding visible_range
  visible_range-IsBest selected h = elim (Bool-cases (leb (sum widths) area)) [
    | inl fits ↦
        let e : visible_range widths selected area ≡ (0, length widths) = ground arith in
        rw e (all-IsBest selected h (omega tests))
    | inr wide ↦
        let e : visible_range widths selected area
            ≡ expand (suc (length widths)) widths area selected (selected + 1) =
          ground arith in
        rw e (
          expand-IsBest (suc (length widths)) selected selected (selected + 1)
            (omega arith, inr (refl, refl)) (omega arith))
  ]
