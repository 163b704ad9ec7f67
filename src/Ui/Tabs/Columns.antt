-- ===== src/Ui/Tabs/Columns.antt =====
-- The tab at a column (src/ui/tabs.rs): a click hits a tab exactly within its columns.
use mtack.Base.{
  length-drop, ℕ, zero, suc, ◌+◌, ◌-◌, ◌≤◌, ◌<◌, ◌≡◌, ◌↔◌, refl, ap, ◌∙◌, sym, length-map, List, [],
  ◌∷◌, some, Text, arith, length, take, drop, map, length-take, Bool-cases, inl, inr, leb, ltb,
  ◌&&◌, u16,
}
use mtack.Ui.Tabs.{
  Tab, tab_width, sum, span_width, left_cost, visible_range, index_from, tab_index_at_col,
}
use mtack.Ui.Tabs.Range.{visible_range-IsBest}
use mtack.Ui.Tabs.Sums.{span-le-sum}

index_from_complete :
    (ws : List ℕ) (i x col k : ℕ)
    → x + sum ws < 65536
    → k < length ws
    → x + sum (take k ws) ≤ col
    → col < x + sum (take (suc k) ws)
    → index_from ws i x col ≡ some (i + k)
unfolding index_from
index_from_complete [] i x col k s h lo hi = elim h [ ]
index_from_complete (w ∷ ws) i x col zero s h lo hi = ground arith
index_from_complete (w ∷ ws) i x col (suc k) s h lo hi =
    ground (arith, index_from_complete ws (suc i) (x + w) col k)

index_from_sound :
    (ws : List ℕ) (i x col j : ℕ)
    → x + sum ws < 65536
    → index_from ws i x col ≡ some j
    → (k : ℕ) × (j ≡ i + k)
      × (k < length ws)
      × (x + sum (take k ws) ≤ col)
      × (col < x + sum (take (suc k) ws))
unfolding index_from
index_from_sound [] i x col j s h = cc
index_from_sound (w ∷ ws) i x col j s h = elim (Bool-cases (leb x col && ltb col (u16 (x + w)))) [
  | inl hit ↦ (0, ground arith, ground arith, ground arith, ground arith)
  | inr miss ↦
      let narrow : u16 (x + w) ≡ x + w = omega arith in
      let (k, e, l, lo, hi) =
        index_from_sound ws (suc i) (x + w) col j (omega arith) (ground arith) in
      (suc k, omega arith, omega arith, omega arith, omega arith)
]

take-take : (xs : List ℕ) (k n : ℕ) → k ≤ n → take k (take n xs) ≡ take k xs
take-take xs zero n h = refl
take-take xs (suc k) zero h = elim h [ ]
take-take [] (suc k) (suc n) h = refl
take-take (x ∷ xs) (suc k) (suc n) h = ap (◌∷◌ x) (take-take xs k n (omega arith))

-- The column where a visible tab begins.
abbrev pub column_of : List ℕ → ℕ → ℕ → ℕ
column_of widths first i = left_cost first + span_width widths first i

left_cost-le : (first : ℕ) → left_cost first ≤ 2
left_cost-le first = ground arith

module _ (widths : List ℕ) (first last : ℕ) (ordered : first ≤ last) (within : last ≤ length widths)
    (small : sum widths + 4 < 65536) where
  shown_length : length (take (last - first) (drop first widths)) ≡ last - first
  shown_length =
      omega (arith, length-take (last - first) (drop first widths), length-drop first widths)

  shown_sum :
      (k : ℕ)
      → k ≤ last - first
      → sum (take k (take (last - first) (drop first widths))) ≡ span_width widths first (first + k)
  shown_sum k h =
      ap sum (take-take (drop first widths) k (last - first) h)
      ∙ ap (λ n. sum (take n (drop first widths))) {x = k} {y = first + k - first} (omega arith)

  pub index_shown :
      (col j : ℕ)
      → (index_from (take (last - first) (drop first widths)) first (left_cost first) col ≡ some j)
        ↔ ((first ≤ j)
            × (j < last)
            × (column_of widths first j ≤ col)
            × (col < column_of widths first (j + 1)))
  index_shown col j =
      let shown = take (last - first) (drop first widths) in
      let total = span-le-sum widths first last in
      let mark = left_cost-le first in
      (
        λ h.
            let (k, e, l, lo, hi) =
              index_from_sound shown first (left_cost first) col j (omega arith) h in
            let k_lt : k < last - first = omega (arith, shown_length) in
            let at : span_width widths first j ≡ sum (take k shown) =
              ap (span_width widths first) e ∙ sym (shown_sum k (omega arith)) in
            let next : span_width widths first (j + 1) ≡ sum (take (suc k) shown) =
              ap (span_width widths first) {x = j + 1} {y = first + suc k} (omega arith)
              ∙ sym (shown_sum (suc k) (omega arith)) in
            (omega arith, omega arith, omega arith, omega arith),
        λ (a, b, lo, hi).
            let k : ℕ = j - first in
            let at : span_width widths first j ≡ sum (take k shown) =
              ap (span_width widths first) {x = j} {y = first + k} (omega arith)
              ∙ sym (shown_sum k (omega arith)) in
            let next : span_width widths first (j + 1) ≡ sum (take (suc k) shown) =
              ap (span_width widths first) {x = j + 1} {y = first + suc k} (omega arith)
              ∙ sym (shown_sum (suc k) (omega arith)) in
            index_from_complete shown first (left_cost first) col k (omega arith)
              (omega (arith, shown_length)) (omega arith) (omega arith)
            ∙ ap some (omega arith),
      )

-- A click on the tab bar selects a tab exactly if it falls into the columns where that tab is shown:
-- those of visible tabs, behind the mark for hidden tabs on the left, one after another. The
-- selected tab must be there, and the widths of all tabs and the two marks add up to less than
-- 65536.
pub tab_index_at_col_iff :
    (width : Text → ℕ) (tabs : List Tab) (selected area col j : ℕ)
    → selected < length tabs
    → sum (map (tab_width width) tabs) + 4 < 65536
    → let widths = map (tab_width width) tabs in
      let (first, last) = visible_range widths selected area in
      (tab_index_at_col width tabs selected area col ≡ some j) ↔ (
        (first ≤ j)
        × (j < last)
        × (column_of widths first j ≤ col)
        × (col < column_of widths first (j + 1)))
unfolding tab_index_at_col
tab_index_at_col_iff width tabs selected area col j h small =
    let widths = map (tab_width width) tabs in
    let best =
      visible_range-IsBest widths area small selected
        (omega (arith, length-map tabs (tab_width width))) in
    index_shown widths (visible_range widths selected area).0 (visible_range widths selected area).1
      (omega arith) (omega arith) small col j
