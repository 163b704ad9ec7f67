-- ===== src/Vt100.antt =====
-- The crate vt100, a parameter of the model: its parser with the screen, and what its
-- documentation says of the scrollback. src/terminal.rs wraps it.
use mtack.Base.{ℕ, ◌+◌, ◌-◌, ◌≤◌, ◌<◌, ◌≡◌, Bool, Option, Text, Bytes, min}

-- A cell: its contents, and whether it is the second half of a wide character.
pub record Cell : Type 0 where
  pub contents : Text
  pub is_wide_continuation : Bool

pub record Vt100 : Type 1 where
  pub Parser : Type 0
  pub create : ℕ → ℕ → ℕ → Parser
  pub feed : Bytes → Parser → Parser
  pub offset : Parser → ℕ
  pub set_offset : ℕ → Parser → Parser
  pub dimensions : Parser → ℕ × ℕ
  pub set_dimensions : ℕ → ℕ → Parser → Parser
  pub alternate : Parser → Bool
  pub cell : ℕ → ℕ → Parser → Option Cell

-- `history` is the number of lines above the screen, `line` the row of cells at a position counted
-- from the oldest line. The offset is clamped to the history, which never passes the limit that the
-- parser was created with; a change of the offset changes nothing else. Output leaves the size alone.
pub record Laws (vt : Vt100) : Type 0 where
  pub history : vt.Parser → ℕ
  pub limit : vt.Parser → ℕ
  pub line : ℕ → ℕ → vt.Parser → Option Cell
  pub offset-set : (n : ℕ) (p : vt.Parser) → vt.offset (vt.set_offset n p) ≡ min n (history p)
  pub history-set : (n : ℕ) (p : vt.Parser) → history (vt.set_offset n p) ≡ history p
  pub limit-set : (n : ℕ) (p : vt.Parser) → limit (vt.set_offset n p) ≡ limit p
  pub line-set : (n k c : ℕ) (p : vt.Parser) → line k c (vt.set_offset n p) ≡ line k c p
  pub dimensions-set : (n : ℕ) (p : vt.Parser) → vt.dimensions (vt.set_offset n p) ≡ vt.dimensions p
  pub alternate-set : (n : ℕ) (p : vt.Parser) → vt.alternate (vt.set_offset n p) ≡ vt.alternate p
  pub set-set : (m n : ℕ) (p : vt.Parser) → vt.set_offset m (vt.set_offset n p) ≡ vt.set_offset m p
  pub set_self : (p : vt.Parser) → vt.set_offset (vt.offset p) p ≡ p
  pub history-le : (p : vt.Parser) → history p ≤ limit p
  pub offset-le : (p : vt.Parser) → vt.offset p ≤ history p
  pub limit-create : (r c n : ℕ) → limit (vt.create r c n) ≡ n
  pub limit-feed : (bytes : Bytes) (p : vt.Parser) → limit (vt.feed bytes p) ≡ limit p
  pub dimensions-feed :
      (bytes : Bytes) (p : vt.Parser) → vt.dimensions (vt.feed bytes p) ≡ vt.dimensions p
  pub limit-dimensions : (r c : ℕ) (p : vt.Parser) → limit (vt.set_dimensions r c p) ≡ limit p
  pub cell-line :
      (r c : ℕ) (p : vt.Parser)
      → r < (vt.dimensions p).0
      → vt.cell r c p ≡ line (history p - vt.offset p + r) c p
