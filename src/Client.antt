-- ===== src/Client.antt =====
-- The client program (src/client.rs): starting a server, attaching to it, and the messages in both directions. What the
-- operating system answers is an argument of each function.
pub mod Attach
pub mod Start
use mtack.Base.{
  ℕ, zero, suc, ◌+◌, Bool, true, false, not, ◌&&◌, ◌||◌, List, [], ◌∷◌, ◌++◌, Option, none, some,
  Text, Bytes, if◌then◌else◌, length, leb, ◌==◌, text_eq,
}
use mtack.Base.Results.{Result, ok, err}
use mtack.Base.Utf8.{codes}
use mtack.Key.{CtEvent}
use mtack.Config.Types.{Config}
use mtack.Config.Fields.{ConfigError}
use mtack.Protocol.{
  ClientMsg, ServerMsg, output, detached, exited, Terminput, from_event, write_client_msg,
  read_server_msg,
}

abbrev pub ready : Text
ready = codes "ready"

abbrev pub busy : Text
busy = codes "busy"

pub data Up : Type 0 where
  started already_running : Up

pub data UpError : Type 0 where
  bad_config : ConfigError → UpError
  no_log no_exe not_spawned not_read never_reachable failed_to_start : UpError

-- The server still runs; it shut down normally; it said no goodbye.
pub data AttachEnd : Type 0 where
  is_detached is_exited is_lost : AttachEnd

-- `char::is_whitespace`.
abbrev is_whitespace : ℕ → Bool
is_whitespace c =
    leb 9 c && leb c 13
    || c == 32
    || c == 0x85
    || c == 0xa0
    || c == 0x1680
    || leb 0x2000 c && leb c 0x200a
    || c == 0x2028
    || c == 0x2029
    || c == 0x202f
    || c == 0x205f
    || c == 0x3000

cons_trimmed : ℕ → Text → Text
cons_trimmed c [] = if is_whitespace c then [] else c ∷ []
cons_trimmed c (d ∷ ds) = c ∷ d ∷ ds

unfoldable pub trim_end : Text → Text
unfolding cons_trimmed
trim_end [] = []
trim_end (c ∷ cs) = cons_trimmed c (trim_end cs)

-- Up to `tries` attempts to connect; the first one has the number `attempt`.
unfoldable pub becomes_reachable : (ℕ → Bool) → ℕ → ℕ → Bool
becomes_reachable connects zero attempt = false
becomes_reachable connects (suc tries) attempt =
    let rest = becomes_reachable connects tries (suc attempt) in
    if connects attempt then true else rest

-- `connects` says which attempts to connect to the socket succeed, `line` is what the server that was started
-- writes first.
unfoldable pub after_start : (ℕ → Bool) → Text → Result UpError Up
unfolding becomes_reachable text_eq trim_end
after_start connects line =
    if text_eq (trim_end line) ready
    then ok started
    else if text_eq (trim_end line) busy
    then (if becomes_reachable connects 40 1 then ok already_running else err never_reachable)
    else err failed_to_start

-- What the operating system answers as the server is started: whether the log opens, the program finds
-- itself and spawns, and the line that is read, if it is.
pub record Launch : Type 0 where
  pub opens_log : Bool
  pub finds_exe : Bool
  pub spawns : Bool
  pub line : Option Text

abbrev read_start : (ℕ → Bool) → Option Text → Result UpError Up
read_start connects none = err not_read
read_start connects (some line) = after_start connects line

unfoldable pub launched : (ℕ → Bool) → Launch → Result UpError Up
launched connects l =
    if not l.opens_log
    then err no_log
    else if not l.finds_exe
    then err no_exe
    else if not l.spawns
    then err not_spawned
    else read_start connects l.line

abbrev checked : Result ConfigError Config → Result UpError Up → Result UpError Up
checked (err e) rest = err (bad_config e)
checked (ok config) rest = rest

-- `config` is what loading the configuration gives.
unfoldable pub up : (ℕ → Bool) → Result ConfigError Config → Launch → Result UpError Up
unfolding launched
up connects config l =
    if connects 0 then ok already_running else checked config (launched connects l)

-- The bytes that go out for a terminal's events: the task that copies them ends at the first that it cannot write.
module _ (t : Terminput) where
  unfoldable pub send_input : List CtEvent → Bytes
  send_input [] = []
  send_input (ev ∷ evs) =
      let rest = send_input evs in
      elim (from_event t ev) [
        | none ↦ rest
        | some m ↦ elim (write_client_msg t m) [ ok bytes ↦ bytes ++ rest | err e ↦ [] ]
      ]

-- The loop over the server's messages, on fuel: how the attachment ends, and what the terminal was sent. `writable` is the
-- number of frames that the terminal takes, `signal` the number of messages after which SIGTERM comes, if it does. `none` is
-- out of fuel.
shown : Bytes → Option (AttachEnd × Bytes) → Option (AttachEnd × Bytes)
shown bytes none = none
shown bytes (some (end, later)) = some (end, bytes ++ later)

receive_msg : ServerMsg → ℕ → (ℕ → Option (AttachEnd × Bytes)) → Option (AttachEnd × Bytes)
unfolding shown
receive_msg (output bytes) zero rest = some (is_detached, [])
receive_msg (output bytes) (suc writable) rest = shown bytes (rest writable)
receive_msg detached writable rest = some (is_detached, [])
receive_msg exited writable rest = some (is_exited, [])

pred_option : Option ℕ → Option ℕ
pred_option none = none
pred_option (some zero) = some zero
pred_option (some (suc n)) = some n

is_zero : Option ℕ → Bool
is_zero (some zero) = true
is_zero _ = false

unfoldable pub receive_output : ℕ → Bytes → ℕ → Option ℕ → Option (AttachEnd × Bytes)
unfolding receive_msg pred_option is_zero
receive_output zero stream writable signal = none
receive_output (suc fuel) stream writable signal = elim (is_zero signal) [
  | true ↦ some (is_detached, [])
  | false ↦ elim (read_server_msg stream) [
    | err e ↦ some (is_lost, [])
    | ok r ↦ receive_msg r.0 writable (λ w. receive_output fuel r.1 w (pred_option signal))
  ]
]

-- One more than the length of the stream is fuel enough.
unfoldable pub attach_output : Bytes → ℕ → Option ℕ → Option (AttachEnd × Bytes)
unfolding receive_output
attach_output stream writable signal = receive_output (suc (length stream)) stream writable signal
