-- ===== src/Ui/Tabs/Sums.antt =====
-- Sums of the widths of neighbouring tabs.
use mtack.Base.{
  ℕ, zero, suc, ◌+◌, ◌-◌, ◌≤◌, ◌<◌, ◌≡◌, refl, ap, ◌∙◌, List, [], ◌∷◌, arith, length, take, drop,
  get_elem?, get_or,
}
use mtack.Ui.Tabs.{sum, span_width}

-- The width of the tab at an index.
abbrev pub width_at : List ℕ → ℕ → ℕ
width_at ws i = get_or (get_elem? ws i) 0

sum-take-suc : (ws : List ℕ) (n : ℕ) → sum (take (suc n) ws) ≡ sum (take n ws) + width_at ws n
sum-take-suc [] zero = omega arith
sum-take-suc [] (suc n) = omega arith
sum-take-suc (w ∷ ws) zero = omega arith
sum-take-suc (w ∷ ws) (suc n) = omega (arith, sum-take-suc ws n)

pub get_elem?-drop : (ws : List ℕ) (f n : ℕ) → width_at (drop f ws) n ≡ width_at ws (f + n)
get_elem?-drop ws zero n = ap (width_at ws) (omega arith)
get_elem?-drop [] (suc f) n = ground arith
get_elem?-drop (w ∷ ws) (suc f) n =
    get_elem?-drop ws f n ∙ ap (width_at (w ∷ ws)) {x = suc (f + n)} {y = suc f + n} (omega arith)

drop-cons : (ws : List ℕ) (k : ℕ) → k < length ws → drop k ws ≡ width_at ws k ∷ drop (suc k) ws
drop-cons [] k h = elim h [ ]
drop-cons (w ∷ ws) zero h = refl
drop-cons (w ∷ ws) (suc k) h = drop-cons ws k (omega arith)

pub span-right :
    (ws : List ℕ) (first last : ℕ)
    → first ≤ last
    → span_width ws first (last + 1) ≡ span_width ws first last + width_at ws last
span-right ws first last h =
    ap (λ n. sum (take n (drop first ws))) {x = last + 1 - first} {y = suc (last - first)}
      (omega arith)
    ∙ (sum-take-suc (drop first ws) (last - first)
        ∙ ap (λ w. span_width ws first last + w)
            (get_elem?-drop ws first (last - first) ∙ ap (width_at ws) (omega arith)))

pub span-left :
    (ws : List ℕ) (first last : ℕ)
    → first < last
    → first < length ws
    → span_width ws first last ≡ width_at ws first + span_width ws (first + 1) last
span-left ws first last h l =
    ap (λ xs. sum (take (last - first) xs)) (drop-cons ws first l)
    ∙ (ap (λ n. sum (take n (width_at ws first ∷ drop (suc first) ws))) {x = last - first}
          {y = suc (last - suc first)} (omega arith)
        ∙ ap (λ k. width_at ws first + sum (take (last - k) (drop k ws))) {x = suc first}
            {y = first + 1} (omega arith))

sum-take-le : (ws : List ℕ) (n : ℕ) → sum (take n ws) ≤ sum ws
sum-take-le ws zero = omega arith
sum-take-le [] (suc n) = omega arith
sum-take-le (w ∷ ws) (suc n) = omega (arith, sum-take-le ws n)

sum-drop-le : (ws : List ℕ) (n : ℕ) → sum (drop n ws) ≤ sum ws
sum-drop-le ws zero = omega arith
sum-drop-le [] (suc n) = omega arith
sum-drop-le (w ∷ ws) (suc n) = omega (arith, sum-drop-le ws n)

pub span-le-sum : (ws : List ℕ) (first last : ℕ) → span_width ws first last ≤ sum ws
span-le-sum ws first last =
    omega (arith, sum-take-le (drop first ws) (last - first), sum-drop-le ws first)
