-- ===== src/Config/Distinct.antt =====
-- The sets of names that the configuration's loops keep against duplicates (src/config.rs).
use mtack.Base.{
  ◌≡◌, refl, ◌≢◌, true, false, List, [], ◌∷◌, Text, All, text_eq, Bool-cases, inl, inr, arith,
}
use mtack.Config.Fields.{contains}

-- No two of the names are equal.
abbrev pub Distinct : List Text → Type 0
Distinct [] = Unit
Distinct (x ∷ xs) = All (λ y. y ≢ x) xs × Distinct xs

-- None of the names has been seen.
abbrev pub Fresh : List Text → List Text → Type 0
Fresh seen names = All (λ name. contains name seen ≡ false) names

pub text_eq_sound : (s t : Text) → text_eq s t ≡ true → s ≡ t
unfolding text_eq
text_eq_sound [] [] h = refl
text_eq_sound [] (y ∷ ys) h = cc
text_eq_sound (x ∷ xs) [] h = cc
text_eq_sound (x ∷ xs) (y ∷ ys) h = ground (arith, text_eq_sound xs ys)

pub text_eq_refl : (t : Text) → text_eq t t ≡ true
unfolding text_eq
text_eq_refl [] = refl
text_eq_refl (c ∷ cs) = ground (arith, text_eq_refl cs)

text_eq-false : (s t : Text) → text_eq s t ≡ false → s ≢ t
text_eq-false s t h e = ground (arith, h, e, text_eq_refl t)

text_eq-ne : (s t : Text) → s ≢ t → text_eq s t ≡ false
text_eq-ne s t ne = elim (Bool-cases (text_eq s t)) [
  | inl e ↦ absurd (ne (text_eq_sound s t e))
  | inr e ↦ e
]

-- What is fresh after a name was seen is fresh before it, and none of it is that name; and the other way.
pub Fresh-seen :
    (x : Text) (seen names : List Text)
    → Fresh (x ∷ seen) names
    → Fresh seen names × All (λ y. y ≢ x) names
Fresh-seen x seen [] h = (tt, tt)
Fresh-seen x seen (y ∷ ys) (h, hs) =
    let (fresh, others) = Fresh-seen x seen ys hs in
    ((ground (arith, h), fresh), (text_eq-false y x (ground (arith, h)), others))

pub Fresh-unseen :
    (x : Text) (seen names : List Text)
    → Fresh seen names
    → All (λ y. y ≢ x) names
    → Fresh (x ∷ seen) names
Fresh-unseen x seen [] h o = tt
Fresh-unseen x seen (y ∷ ys) (h, hs) (o, os) =
    (ground (arith, h, text_eq-ne y x o), Fresh-unseen x seen ys hs os)

pub Fresh-nil : (names : List Text) → Fresh [] names
Fresh-nil [] = tt
Fresh-nil (x ∷ xs) = (refl, Fresh-nil xs)
