-- ===== src/Key.antt =====
-- The events of crossterm, as far as src/input.rs and src/app.rs read them: the key codes named there,
-- every other code under `other`, and the modifier bits.
use mtack.Base.{ℕ, Bool, true, false, not, ◌&&◌, ◌==◌}

pub data KeyCode : Type 0 where
  enter esc tab back_tab backspace left right up down page_up page_down home end : KeyCode
  char : ℕ → KeyCode
  other : ℕ → KeyCode

-- A set of modifiers; `others` is the bits of all but the two that the program names.
pub record KeyModifiers : Type 0 where
  pub shift : Bool
  pub control : Bool
  pub others : ℕ

-- `extra` is the kind and the state of the event, which the program only passes on.
pub record KeyEvent : Type 0 where
  pub code : KeyCode
  pub modifiers : KeyModifiers
  pub extra : ℕ

abbrev pub no_modifiers : KeyModifiers
no_modifiers = record { shift = false; control = false; others = 0 }

-- `is_empty`, `== SHIFT`, `== CONTROL` and `- SHIFT` on a set of modifiers.
abbrev pub no_mods : KeyModifiers → Bool
no_mods m = not m.shift && not m.control && m.others == 0

abbrev pub is_shift : KeyModifiers → Bool
is_shift m = m.shift && not m.control && m.others == 0

abbrev pub is_control : KeyModifiers → Bool
is_control m = not m.shift && m.control && m.others == 0

abbrev pub without_shift : KeyModifiers → KeyModifiers
without_shift m = record m { shift = false }

-- `key.code == KeyCode::Char(c)`.
abbrev pub is_char : ℕ → KeyCode → Bool
is_char c (char d) = d == c
is_char c _ = false

abbrev pub is_esc : KeyCode → Bool
is_esc esc = true
is_esc _ = false

pub data MouseKind : Type 0 where
  wheel_up wheel_down left_down : MouseKind
  other_mouse : ℕ → MouseKind

-- The terminal events of crossterm; `other_event` is a paste.
pub data CtEvent : Type 0 where
  key_event : KeyEvent → CtEvent
  mouse_event : MouseKind → ℕ → ℕ → CtEvent
  focus_gained focus_lost : CtEvent
  resize_event : ℕ → ℕ → CtEvent
  other_event : ℕ → CtEvent
