-- ===== src/Base/Lists.antt =====
-- Lists measured and indexed by native numbers, under the library's names.
use Prim.Native.Nat.{ℕ, zero, suc, ◌+◌, ◌-◌, ◌<◌, min}
use mathlib.Core.Path.{◌≡◌, refl, ap, subst}
use mathlib.Core.Bool.{Bool, true, false, ◌&&◌, ◌||◌}
use mathlib.Core.List.{List, [], ◌∷◌, ◌++◌, map}
use mathlib.Core.Option.{Option, none, some}
use native.Mathlib.Omega.{arith}

module _ {ℓ} {A : Type ℓ} where
  abbrev pub length : List A → ℕ
  length [] = 0
  length (x ∷ xs) = suc (length xs)

  abbrev pub get_elem? : List A → ℕ → Option A
  get_elem? [] i = none
  get_elem? (x ∷ xs) zero = some x
  get_elem? (x ∷ xs) (suc i) = get_elem? xs i

  abbrev pub take : ℕ → List A → List A
  take zero xs = []
  take (suc n) [] = []
  take (suc n) (x ∷ xs) = x ∷ take n xs

  abbrev pub drop : ℕ → List A → List A
  drop zero xs = xs
  drop (suc n) [] = []
  drop (suc n) (x ∷ xs) = drop n xs

  -- `Iterator::all` and `Iterator::any`.
  abbrev pub all : (A → Bool) → List A → Bool
  all p [] = true
  all p (x ∷ xs) = p x && all p xs

  abbrev pub any : (A → Bool) → List A → Bool
  any p [] = false
  any p (x ∷ xs) = p x || any p xs

  -- A change of the element at an index; out of bounds nothing changes.
  abbrev pub modify : ℕ → (A → A) → List A → List A
  modify i f [] = []
  modify zero f (x ∷ xs) = f x ∷ xs
  modify (suc i) f (x ∷ xs) = x ∷ modify i f xs

  abbrev pub All {κ} : (A → Type κ) → List A → Type κ
  All P [] = Unit
  All P (x ∷ xs) = P x × All P xs

module _ {ℓ} {A : Type ℓ} where
  pub length-append : (xs ys : List A) → length (xs ++ ys) ≡ length xs + length ys
  length-append [] ys = omega arith
  length-append (x ∷ xs) ys = omega (arith, length-append xs ys)

  pub length-modify : (i : ℕ) (f : A → A) (xs : List A) → length (modify i f xs) ≡ length xs
  length-modify i f [] = refl
  length-modify zero f (x ∷ xs) = refl
  length-modify (suc i) f (x ∷ xs) = ap suc (length-modify i f xs)

  pub take-length-append : (xs ys : List A) → take (length xs) (xs ++ ys) ≡ xs
  take-length-append [] ys = refl
  take-length-append (x ∷ xs) ys = ap (◌∷◌ x) (take-length-append xs ys)

  pub length-take : (n : ℕ) (xs : List A) → length (take n xs) ≡ min n (length xs)
  length-take zero xs = omega arith
  length-take (suc n) [] = omega arith
  length-take (suc n) (x ∷ xs) = omega (arith, length-take n xs)

  pub length-drop : (n : ℕ) (xs : List A) → length (drop n xs) ≡ length xs - n
  length-drop zero xs = omega arith
  length-drop (suc n) [] = omega arith
  length-drop (suc n) (x ∷ xs) = omega (arith, length-drop n xs)

  pub drop-length-append : (xs ys : List A) → drop (length xs) (xs ++ ys) ≡ ys
  drop-length-append [] ys = refl
  drop-length-append (x ∷ xs) ys = drop-length-append xs ys

  pub length-map {κ} : {B : Type κ} (xs : List A) (f : A → B) → length (map f xs) ≡ length xs
  length-map [] f = refl
  length-map (x ∷ xs) f = ap suc (length-map xs f)

  pub get_elem?-map {κ} :
      {B : Type κ} (xs : List A) (i : ℕ) (f : A → B) (x : A)
      → get_elem? xs i ≡ some x
      → get_elem? (map f xs) i ≡ some (f x)
  get_elem?-map [] i f x h = cc
  get_elem?-map (y ∷ ys) zero f x h = ground arith
  get_elem?-map (y ∷ ys) (suc i) f x h = get_elem?-map ys i f x h

  pub get_elem?-modify :
      (xs : List A) (i : ℕ) (f : A → A) (x : A)
      → get_elem? xs i ≡ some x
      → get_elem? (modify i f xs) i ≡ some (f x)
  get_elem?-modify [] i f x h = cc
  get_elem?-modify (y ∷ ys) zero f x h = ground arith
  get_elem?-modify (y ∷ ys) (suc i) f x h = get_elem?-modify ys i f x h

  -- A test that fails at an index does not hold of all elements.
  pub all-get_elem? :
      (p : A → Bool) (xs : List A) (i : ℕ) (x : A)
      → get_elem? xs i ≡ some x
      → p x ≡ false
      → all p xs ≡ false
  all-get_elem? p [] i x h e = cc
  all-get_elem? p (y ∷ ys) zero x h e = ground arith
  all-get_elem? p (y ∷ ys) (suc i) x h e = ground (arith, all-get_elem? p ys i x h e)

  pub All-map {κ κ' κ''} :
      {B : Type κ'} (P : A → Type κ) (Q : B → Type κ'') (f : A → B) (xs : List A)
      → ((x : A) → P x → Q (f x))
      → All P xs
      → All Q (map f xs)
  All-map P Q f [] h ps = tt
  All-map P Q f (x ∷ xs) h (p, ps) = (h x p, All-map P Q f xs h ps)

  pub All-modify {κ} :
      (P : A → Type κ) (i : ℕ) (f : A → A) (xs : List A)
      → ((x : A) → P x → P (f x))
      → All P xs
      → All P (modify i f xs)
  All-modify P i f [] h ps = tt
  All-modify P zero f (x ∷ xs) h (p, ps) = (h x p, ps)
  All-modify P (suc i) f (x ∷ xs) h (p, ps) = (p, All-modify P i f xs h ps)

  pub get_elem?-All {κ} :
      (P : A → Type κ) (xs : List A) (i : ℕ) (x : A) → All P xs → get_elem? xs i ≡ some x → P x
  get_elem?-All P [] i x ps h = cc
  get_elem?-All P (y ∷ ys) zero x (p, ps) h = let e : y ≡ x = ground arith in subst P e p
  get_elem?-All P (y ∷ ys) (suc i) x (p, ps) h = get_elem?-All P ys i x ps h

  pub All-map-total {κ κ'} :
      {B : Type κ'} (Q : B → Type κ) (f : A → B) (xs : List A)
      → ((x : A) → Q (f x))
      → All Q (map f xs)
  All-map-total Q f [] h = tt
  All-map-total Q f (x ∷ xs) h = (h x, All-map-total Q f xs h)

  pub get_elem?-lt : (xs : List A) (i : ℕ) → i < length xs → (x : A) × (get_elem? xs i ≡ some x)
  get_elem?-lt [] i h = ground arith
  get_elem?-lt (x ∷ xs) zero h = (x, refl)
  get_elem?-lt (x ∷ xs) (suc i) h = get_elem?-lt xs i (omega (arith, h))

  pub get_elem?-bound : (xs : List A) (i : ℕ) (x : A) → get_elem? xs i ≡ some x → i < length xs
  get_elem?-bound [] i x h = cc
  get_elem?-bound (y ∷ ys) zero x h = omega arith
  get_elem?-bound (y ∷ ys) (suc i) x h = omega (arith, get_elem?-bound ys i x h)
