-- ===== src/Tests/Machine.antt =====
-- A terminal emulator that keeps the laws that the development takes from vt100: it prints each chunk
-- of output as a line of its own.
use mtack.Base.{
  ℕ, zero, suc, ◌+◌, ◌-◌, ◌≡◌, refl, ap, Bool, false, List, [], ◌∷◌, ◌++◌, Option, some, Text,
  Bytes, arith, min, get_elem?, drop,
}
use mtack.Base.Panic.{◌>>=◌}
use mtack.Vt100.{Cell, Vt100, Laws}

-- `above` lines stand above the view, `below` lines of the history under its top, and `room` lines are
-- left of the limit.
pub record Machine : Type 0 where
  pub lines : List Text
  pub above : ℕ
  pub below : ℕ
  pub room : ℕ
  pub size : ℕ × ℕ
  pub is_alternate : Bool

abbrev place : ℕ → Machine → Machine
place n m = record m {
  below = min n (m.above + m.below);
  above = (m.above + m.below) - min n (m.above + m.below);
}

abbrev pub char_cell : Text → ℕ → Option Cell
char_cell text col =
    get_elem? text col >>= λ c. some (record { contents = c ∷ []; is_wide_continuation = false })

abbrev pub line_cell : ℕ → ℕ → Machine → Option Cell
line_cell row col m = get_elem? m.lines row >>= λ text. char_cell text col

abbrev print : ℕ → Bytes → Machine → Machine
print zero bytes m = record m { lines = drop 1 (m.lines ++ (bytes ∷ [])) }
print (suc room) bytes m = record m {
  lines = m.lines ++ (bytes ∷ []);
  above = suc m.above;
  room = room;
}

abbrev pub vt : Vt100
vt = record {
  Parser = Machine;
  create = λ rows cols limit. record {
    lines = [];
    above = 0;
    below = 0;
    room = limit;
    size = (rows, cols);
    is_alternate = false;
  };
  feed = λ bytes m. print m.room bytes m;
  offset = λ m. m.below;
  set_offset = place;
  dimensions = λ m. m.size;
  set_dimensions = λ rows cols m. record m { size = (rows, cols) };
  alternate = λ m. m.is_alternate;
  cell = λ row col m. line_cell (m.above + row) col m;
}

abbrev limit_of : Machine → ℕ
limit_of m = m.above + m.below + m.room

pub limit-print :
    (room : ℕ) (bytes : Bytes) (m : Machine)
    → m.room ≡ room
    → limit_of (print room bytes m) ≡ limit_of m
limit-print zero bytes m e = refl
limit-print (suc room) bytes m e = ground arith

pub size-print : (room : ℕ) (bytes : Bytes) (m : Machine) → (print room bytes m).size ≡ m.size
size-print zero bytes m = refl
size-print (suc room) bytes m = refl

pub place-place : (i n : ℕ) (m : Machine) → place i (place n m) ≡ place i m
place-place i n m = ground arith

pub place_self : (m : Machine) → place m.below m ≡ m
place_self m = ground arith

abbrev pub laws : Laws vt
laws = record {
  history = λ m. m.above + m.below;
  limit = limit_of;
  line = line_cell;
  offset-set = λ n m. refl;
  history-set = λ n m. omega arith;
  limit-set = λ n m. omega arith;
  line-set = λ n k c m. refl;
  dimensions-set = λ n m. refl;
  alternate-set = λ n m. refl;
  set-set = place-place;
  set_self = place_self;
  history-le = λ m. omega arith;
  offset-le = λ m. omega arith;
  limit-create = λ r c n. omega arith;
  limit-feed = λ bytes m. limit-print m.room bytes m refl;
  dimensions-feed = λ bytes m. size-print m.room bytes m;
  limit-dimensions = λ r c m. refl;
  cell-line = λ r c m h.
      ap (λ k. line_cell k c m) {x = m.above + r} {y = m.above + m.below - m.below + r}
        (omega arith);
}
