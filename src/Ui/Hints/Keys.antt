-- ===== src/Ui/Hints/Keys.antt =====
-- The keys of a hint as they are drawn (src/ui/hints.rs).
use mtack.Base.{
  ◌≡◌, ◌≢◌, refl, ap, ◌∙◌, sym, List, [], ◌∷◌, ◌++◌, Text, arith, ◌==◌, Bool-cases, inl, inr,
}
use mathlib.Core.List.{append_assoc, append-nil}
use mtack.Ui.Style.{Span}
use mtack.Ui.Hints.{split, key_spans, styled_keys}

abbrev pub text_of : List Span → Text
text_of [] = []
text_of (s ∷ ss) = s.content ++ text_of ss

-- The parts joined by slashes.
abbrev slashed : List Text → Text
slashed [] = []
slashed (k ∷ []) = k
slashed (k ∷ l ∷ ks) = k ++ (b'/' ∷ slashed (l ∷ ks))

text_of-key_spans : (ks : List Text) → text_of (key_spans ks) ≡ slashed ks
unfolding key_spans
text_of-key_spans [] = refl
text_of-key_spans (k ∷ []) = append-nil k
text_of-key_spans (k ∷ l ∷ ks) = ap (λ t. k ++ (b'/' ∷ t)) (text_of-key_spans (l ∷ ks))

split-ne-nil : (acc cs : Text) → split acc cs ≢ []
unfolding split
split-ne-nil acc [] e = cc
split-ne-nil acc (c ∷ cs) e = elim (Bool-cases (c == b'/')) [
  | inl slash ↦ cc (rw slash at e)
  | inr other ↦ split-ne-nil (acc ++ c ∷ []) cs (rw other at e)
]

slashed-cons :
    (acc : Text) (ks : List Text) → ks ≢ [] → slashed (acc ∷ ks) ≡ acc ++ (b'/' ∷ slashed ks)
slashed-cons acc [] n = absurd (n refl)
slashed-cons acc (k ∷ ks) n = refl

slashed-split : (acc cs : Text) → slashed (split acc cs) ≡ acc ++ cs
unfolding split
slashed-split acc [] = sym (append-nil acc)
slashed-split acc (c ∷ cs) = elim (Bool-cases (c == b'/')) [
  | inl slash ↦
      rw slash
        (slashed-cons acc (split [] cs) (split-ne-nil [] cs) ∙ ground (arith, slashed-split [] cs))
  | inr other ↦ rw other (slashed-split (acc ++ c ∷ []) cs ∙ append_assoc acc (c ∷ []) cs)
]

-- Drawing the keys of a hint in bold and the slashes between them plain changes no character of the
-- text.
pub text_of-styled_keys : (keys : Text) → text_of (styled_keys keys) ≡ keys
unfolding styled_keys
text_of-styled_keys keys =
    ground (arith, append-nil keys, text_of-key_spans (split [] keys), slashed-split [] keys)
