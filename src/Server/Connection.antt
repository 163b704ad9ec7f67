-- ===== src/Server/Connection.antt =====
-- One connection to the server (src/server.rs, `handle_connection`): the hello, then messages until the stream ends. The
-- stream is the bytes that the client sends before it hangs up.
pub mod Session
use mtack.Base.{
  ℕ, zero, suc, ◌+◌, ◌-◌, ◌*◌, ◌≤◌, ◌<◌, ◌≡◌, refl, Bool, true, false, List, [], ◌∷◌, ◌++◌, Option,
  none, some, Bytes, if◌then◌else◌, length, drop, length-drop, leb, ltb, arith, tests, Bool-cases,
  inl, inr,
}
use mtack.Base.Results.{Result, ok, err, Result-cases}
use mtack.Protocol.{
  IoError, Hello, attach, quit, ClientMsg, Terminput, read_hello, read_client_msg, read_frame,
  read_payload, read_exact, read_u8, read_u32, client_msg_of,
}

-- What a connection comes to: a client that attaches, with the messages that reach the App; one that comes after the App
-- has ended, and is told so; a request to quit; or nothing.
pub data Connection : Type 0 where
  attached : ℕ → ℕ → List ClientMsg → Connection
  too_late quits closed : Connection

cons_message : ClientMsg → Option (List ClientMsg) → Option (List ClientMsg)
cons_message m none = none
cons_message m (some ms) = some (m ∷ ms)

-- A message goes to the App, unless the App has replaced the client, after `replaced` messages.
forward : Option ClientMsg → ℕ → (ℕ → Option (List ClientMsg)) → Option (List ClientMsg)
unfolding cons_message
forward none replaced rest = rest replaced
forward (some m) zero rest = some []
forward (some m) (suc replaced) rest = cons_message m (rest replaced)

module _ (t : Terminput) where
  -- The loop over messages, on fuel; `none` is out of fuel.
  unfoldable pub read_messages : ℕ → Bytes → ℕ → Option (List ClientMsg)
  unfolding forward
  read_messages zero stream replaced = none
  read_messages (suc fuel) stream replaced = elim (read_client_msg t stream) [
    | err e ↦ some []
    | ok r ↦ forward r.0 replaced (read_messages fuel r.1)
  ]

  attach_with : ℕ → ℕ → Option (List ClientMsg) → Option Connection
  attach_with cols rows none = none
  attach_with cols rows (some ms) = some (attached cols rows ms)

  greet : Bool → ℕ → Hello × Bytes → Option Connection
  unfolding attach_with
  greet app_runs replaced (attach cols rows, stream) =
      if app_runs
      then attach_with cols rows (read_messages (suc (length stream)) stream replaced)
      else some too_late
  greet app_runs replaced (quit, stream) = some quits

  -- `app_runs` says whether the App still takes events.
  unfoldable pub handle_connection : Bool → ℕ → Bytes → Option Connection
  unfolding greet
  handle_connection app_runs replaced stream = elim (read_hello stream) [
    | err e ↦ some closed
    | ok r ↦ greet app_runs replaced r
  ]
