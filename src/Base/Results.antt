-- ===== src/Base/Results.antt =====
-- `Result` with an error type of the program's own, its `?` as the bind of a `do` block, and `ok_or`.
use mathlib.Core.Option.{Option, none, some}
use mathlib.Core.Path.{◌≡◌, refl, subst}
use native.Mathlib.Omega.{arith}
use mathlib.Core.Logic.{◌⊎◌, inl, inr}

pub data Result {ℓ} (E : Type 0) (A : Type ℓ) : Type ℓ where
  ok : A → Result E A
  err : E → Result E A

abbrev pub ok_or {ℓ} : {E : Type 0} {A : Type ℓ} → Option A → E → Result E A
ok_or (some a) problem = ok a
ok_or none problem = err problem

infixl 5 ◌>>=◌
abbrev pub ◌>>=◌ {ℓ κ} :
    {E : Type 0} {A : Type ℓ} {B : Type κ} → Result E A → (A → Result E B) → Result E B
err problem >>= next = err problem
ok a >>= next = next a

-- To split on a computed result and keep the equation.
pub Result-cases {ℓ} :
    {E : Type 0} {A : Type ℓ} (r : Result E A)
    → ((problem : E) × (r ≡ err problem)) ⊎ ((a : A) × (r ≡ ok a))
Result-cases (ok a) = inr (a, refl)
Result-cases (err problem) = inl (problem, refl)

-- A result that, where it is not an error, has a property.
unfoldable pub Ensures {ℓ κ} : {E : Type 0} {A : Type ℓ} → (A → Type κ) → Result E A → Type κ
Ensures P (ok a) = P a
Ensures P (err problem) = Unit

pub Ensures-chain {ℓ κ ν μ} :
    {E : Type 0} {A : Type ℓ} {B : Type κ} (Q : A → Type ν) (P : B → Type μ) (first : Result E A)
    (next : A → Result E B)
    → Ensures Q first
    → ((a : A) → Q a → Ensures P (next a))
    → Ensures P (first >>= next)
unfolding Ensures
Ensures-chain Q P (ok a) next q rest = rest a q
Ensures-chain Q P (err problem) next q rest = tt

pub Ensures-any {ℓ κ μ} :
    {E : Type 0} {A : Type ℓ} {B : Type κ} (P : B → Type μ) (first : Result E A)
    (next : A → Result E B)
    → ((a : A) → Ensures P (next a))
    → Ensures P (first >>= next)
unfolding Ensures
Ensures-any P (ok a) next rest = rest a
Ensures-any P (err problem) next rest = tt

pub Ensures-ok {ℓ κ} :
    {E : Type 0} {A : Type ℓ} (P : A → Type κ) (r : Result E A) (a : A)
    → Ensures P r
    → r ≡ ok a
    → P a
unfolding Ensures
Ensures-ok P (ok b) a p h = let e : b ≡ a = ground (arith, h) in subst P e p
Ensures-ok P (err problem) a p h = cc

pub ok-Ensures {ℓ κ} :
    {E : Type 0} {A : Type ℓ} (P : A → Type κ) (r : Result E A)
    → ((a : A) → r ≡ ok a → P a)
    → Ensures P r
unfolding Ensures
ok-Ensures P (ok a) h = h a refl
ok-Ensures P (err problem) h = tt
