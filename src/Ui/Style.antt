-- ===== src/Ui/Style.antt =====
-- The styles and spans of ratatui that src/ui puts together, and the display width of a text, which
-- the crate unicode-width measures.
use mtack.Base.{ℕ, ◌+◌, Bool, false, List, [], ◌∷◌, Option, none, some, Text}
use mtack.Base.Utf8.{replicate}

pub data Color : Type 0 where
  black white gray dark_gray red green yellow : Color
  indexed : ℕ → Color

pub record Style : Type 0 where
  pub fg : Option Color
  pub bg : Option Color
  pub bold : Bool
  pub dim : Bool

pub record Span : Type 0 where
  pub content : Text
  pub style : Style

abbrev pub plain : Style
plain = record { fg = none; bg = none; bold = false; dim = false }

abbrev pub fg_style : Color → Style
fg_style c = record plain { fg = some c }

abbrev pub styled : Text → Style → Span
styled text style = record { content = text; style = style }

abbrev pub raw : Text → Span
raw text = styled text plain

-- Of a foreground and a background.
abbrev pub on : Color → Color → Style
on fg bg = record plain { fg = some fg; bg = some bg }

-- `"─".repeat(n)`, dim.
abbrev pub rule : ℕ → Span
rule n = styled (replicate n 9472) (record plain { dim = Bool.true })

-- What `Span::width` adds up to in a row; `width` is the display width of a text.
abbrev pub spans_width : (Text → ℕ) → List Span → ℕ
spans_width width [] = 0
spans_width width (s ∷ ss) = width s.content + spans_width width ss
