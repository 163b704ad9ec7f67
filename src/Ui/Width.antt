-- ===== src/Ui/Width.antt =====
-- The display width of texts, which the crate unicode-width measures, for the texts that src/ui draws.
use mtack.Base.{
  ℕ, ◌+◌, ◌≡◌, refl, Bool, true, ◌&&◌, List, [], ◌∷◌, ◌++◌, Text, all, leb, length, length-append,
  arith,
}
use mtack.Base.Utf8.{codes, replicate}
use mtack.Ui.Style.{Span, spans_width}
use mtack.Ui.Hints.Keys.{text_of}

abbrev pub is_printable : ℕ → Bool
is_printable c = leb 32 c && leb c 126

-- Every character of the text is of printable ASCII.
abbrev pub is_ascii : Text → Bool
is_ascii t = all is_printable t

-- What the crate's tables say of printable ASCII, of the line's character, and of the tab bar's symbols.
pub record WidthLaws (width : Text → ℕ) : Type 0 where
  pub ascii : (t : Text) → is_ascii t ≡ true → width t ≡ length t
  pub rule : (n : ℕ) → width (replicate n 9472) ≡ n
  pub indicator : width (codes "● ") ≡ 2
  pub ellipsis : width (0x2026 ∷ []) ≡ 1
  pub left_bracket : width (0xe0b6 ∷ []) ≡ 1
  pub right_bracket : width (0xe0b4 ∷ []) ≡ 1

pub spans_width-append :
    (width : Text → ℕ) (ss ts : List Span)
    → spans_width width (ss ++ ts) ≡ spans_width width ss + spans_width width ts
spans_width-append width [] ts = omega arith
spans_width-append width (s ∷ ss) ts = omega (arith, spans_width-append width ss ts)

pub is_ascii-append :
    (s t : Text) → is_ascii s ≡ true → is_ascii t ≡ true → is_ascii (s ++ t) ≡ true
is_ascii-append [] t h k = k
is_ascii-append (c ∷ s) t h k = ground (arith, is_ascii-append s t)

is_ascii-left : (s t : Text) → is_ascii (s ++ t) ≡ true → is_ascii s ≡ true
is_ascii-left [] t h = refl
is_ascii-left (c ∷ s) t h = ground (arith, is_ascii-left s t)

is_ascii-right : (s t : Text) → is_ascii (s ++ t) ≡ true → is_ascii t ≡ true
is_ascii-right [] t h = h
is_ascii-right (c ∷ s) t h = is_ascii-right s t (ground (arith, h))

-- Where the whole text of the spans is of printable ASCII, their width is its length.
pub spans_width-text_of :
    {width : Text → ℕ} (laws : WidthLaws width) (ss : List Span)
    → is_ascii (text_of ss) ≡ true
    → spans_width width ss ≡ length (text_of ss)
spans_width-text_of laws [] h = refl
spans_width-text_of laws (s ∷ ss) h =
    let first = laws.ascii s.content (is_ascii-left s.content (text_of ss) h) in
    let rest = spans_width-text_of laws ss (is_ascii-right s.content (text_of ss) h) in
    omega (arith, length-append s.content (text_of ss))
