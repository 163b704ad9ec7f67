-- ===== src/Server.antt =====
-- The server's side of a client (src/server.rs): the outbox of frames and goodbyes. The writer task
-- takes the messages from its front; ratatui's frame is the bytes that it rendered.
pub mod Delivery
pub mod Listing
pub mod Socket
pub mod Connection
use mtack.Base.{
  ℕ, ◌-◌, Bool, true, false, List, [], ◌∷◌, ◌++◌, Option, none, some, Bytes, ltb, if◌then◌else◌,
  length, any, not,
}
use mtack.Protocol.{ServerMsg, output, detached, exited}

abbrev pub output_queue_size : ℕ
output_queue_size = 2

-- The messages that wait, oldest first; `is_closed` once the writer task has ended.
pub record Outbox : Type 0 where
  pub queue : List ServerMsg
  pub is_closed : Bool

-- A client with the size of its terminal.
pub record Client : Type 0 where
  pub outbox : Outbox
  pub cols : ℕ
  pub rows : ℕ

pub data Drawn : Type 0 where
  sent busy disconnected : Drawn
  -- The branch that the code marks as unreachable.
  unreachable : Drawn

pub data SendResult : Type 0 where
  accepted full closed : SendResult

unfoldable pub new_client : ℕ → ℕ → Client
new_client cols rows = record {
  outbox = record { queue = []; is_closed = false };
  cols = cols;
  rows = rows;
}

unfoldable pub resize_client : ℕ → ℕ → Client → Client
resize_client cols rows c = record c { cols = cols; rows = rows }

unfoldable pub capacity : Outbox → ℕ
capacity o = output_queue_size - length o.queue

unfoldable pub try_send : ServerMsg → Outbox → Outbox × SendResult
unfolding capacity
try_send msg o =
    if o.is_closed
    then (o, closed)
    else if ltb 0 (capacity o)
    then (record o { queue = o.queue ++ (msg ∷ []) }, accepted)
    else (o, full)

abbrev drawn_of : SendResult → Drawn
drawn_of accepted = sent
drawn_of closed = disconnected
drawn_of full = unreachable

-- `frame` is what the rendering would give; a busy client is not rendered for.
unfoldable pub draw : Bytes → Client → Client × Drawn
unfolding try_send
draw frame c =
    let (outbox, result) = try_send (output frame) c.outbox in
    if ltb (capacity c.outbox) output_queue_size
    then (c, busy)
    else (record c { outbox = outbox }, drawn_of result)

-- The goodbye goes behind what waits; the client is left to its writer task.
unfoldable pub say_goodbye : ServerMsg → Client → Outbox
unfolding try_send
say_goodbye msg c = (try_send msg c.outbox).0

abbrev pub detach_client : Client → Outbox
detach_client c = say_goodbye detached c

abbrev pub exit_client : Client → Outbox
exit_client c = say_goodbye exited c

abbrev pub is_finished : Outbox → Bool
is_finished o = elim o.queue [ [] ↦ true | m ∷ ms ↦ o.is_closed ]

-- The writer task sends the oldest message; `none` for an empty queue.
unfoldable pub deliver : Outbox → Option (ServerMsg × Outbox)
deliver o = elim o.queue [ [] ↦ none | m ∷ ms ↦ some (m, record o { queue = ms }) ]
