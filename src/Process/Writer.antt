-- ===== src/Process/Writer.antt =====
-- The task that feeds queued input to the PTY (`write_input` in src/process.rs). How much a write takes
-- is up to the operating system.
pub mod Order
use mtack.Base.{
  ℕ, zero, suc, ◌≡◌, refl, sym, ap, ◌∙◌, true, List, [], ◌∷◌, ◌++◌, Bytes, arith, take, drop,
  is_empty, Option, none, some, Bool, Bool-cases, inl, inr, if◌then◌else◌, if-cases,
}
use mtack.Base.Utf8.{flat_map}
use mathlib.Core.List.{append_assoc, append-nil}

-- What comes of a write: some bytes are taken (none is the end of the terminal), or an error.
pub data Wrote : Type 0 where
  took : ℕ → Wrote
  interrupted failed : Wrote

-- The App queues a message, wants a size, or drops both channels as it leaves the running process; the
-- task receives a message, sees that the size channel changed, or a write of the task ends.
pub data WriterEvent : Type 0 where
  queues : Bytes → WriterEvent
  wants : ℕ × ℕ → WriterEvent
  closes receives changes : WriterEvent
  writes : Wrote → WriterEvent

-- `written` is what the terminal has taken, in order; `wanted` is the size that the task has not yet
-- seen, `size` the last one that it asked the PTY for; `has_returned` once the task has ended.
pub record Writer : Type 0 where
  pub queue : List Bytes
  pub pending : Bytes
  pub written : Bytes
  pub wanted : Option (ℕ × ℕ)
  pub size : Option (ℕ × ℕ)
  pub is_closed : Bool
  pub has_returned : Bool

-- `recv` gives what is queued even where the channel is closed.
receive : List Bytes → Writer → Writer
receive [] w = record w { has_returned = w.is_closed }
receive (m ∷ ms) w = record w { queue = ms; pending = m }

-- `changed` is an error only where the channel is closed and the last size has been seen.
resize_pty : Option (ℕ × ℕ) → Writer → Writer
resize_pty none w = record w { has_returned = w.is_closed }
resize_pty (some size) w = record w { wanted = none; size = some size }

finish_write : Wrote → Writer → Writer
finish_write (took zero) w = record w { pending = [] }
finish_write (took (suc n)) w = record w {
  pending = drop (suc n) w.pending;
  written = w.written ++ take (suc n) w.pending;
}
finish_write interrupted w = w
finish_write failed w = record w { pending = [] }

-- A message is received only where nothing is pending, and a write ends only where something is.
task_step : Writer → WriterEvent → Writer
unfolding receive resize_pty finish_write
task_step w receives = if is_empty w.pending then receive w.queue w else w
task_step w changes = resize_pty w.wanted w
task_step w (writes result) = if is_empty w.pending then w else finish_write result w
task_step w _ = w

-- Into a closed channel nothing is sent, and a task that has returned does nothing more.
unfoldable pub writer_step : Writer → WriterEvent → Writer
unfolding task_step
writer_step w (queues bytes) =
    if w.is_closed then w else record w { queue = w.queue ++ (bytes ∷ []) }
writer_step w (wants size) = if w.is_closed then w else record w { wanted = some size }
writer_step w closes = record w { is_closed = true }
writer_step w e = if w.has_returned then w else task_step w e

abbrev pub writer_run : Writer → List WriterEvent → Writer
writer_run w [] = w
writer_run w (e ∷ es) = writer_run (writer_step w e) es
