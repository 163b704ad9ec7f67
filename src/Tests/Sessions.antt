-- ===== src/Tests/Sessions.antt =====
-- Attachments and starts on concrete inputs (src/client.rs, src/server.rs, src/main.rs).
use mtack.Base.{
  ◌↔◌, ℕ, ◌≤◌, ◌≡◌, refl, Bool, true, List, [], ◌∷◌, ◌++◌, none, some, Bytes, arith, length, ltb,
  text_eq,
}
use mtack.Base.Results.{ok}
use mtack.Key.{CtEvent, focus_gained, focus_lost, resize_event}
use mtack.Config.Types.{Config}
use mtack.Protocol.{write_frame, write_server_msg, encode_event, decode_event, from_event}
use mtack.Server.Connection.{Connection, attached, handle_connection}
use mtack.Server.Connection.Session.{AreDecoded, handle_connection-ends}
use mtack.Client.{
  is_exited, send_input, attach_output, already_running, started, Launch, launched, up, after_start,
  trim_end, becomes_reachable,
}
use mtack.Client.Attach.{
  messages_of, handle_connection-send_input, says_exited, session_bytes,
  attach_output-session_bytes,
}
use mtack.Client.Start.{
  serve, Serving, held, with_line, Launches, GetsReady, IsBusy, Reached, up-serve,
}
use mtack.Tests.Streams.{terminput, fits_buffer, attach_hello}

handle_connection-ends_example :
    (c : Connection) × (handle_connection terminput true 3 (b'q' ∷ 0 ∷ 0 ∷ 0 ∷ 0 ∷ []) ≡ some c)
handle_connection-ends_example = handle_connection-ends terminput true 3 (b'q' ∷ 0 ∷ 0 ∷ 0 ∷ 0 ∷ [])

abbrev typed : List CtEvent
typed = focus_gained ∷ resize_event 100 30 ∷ focus_lost ∷ []

typed-AreDecoded : AreDecoded terminput (messages_of terminput typed)
unfolding messages_of from_event encode_event decode_event
typed-AreDecoded = (
  (λ ev e payload h. ground arith),
  ((λ ev e payload h. cc), ((λ ev e payload h. ground arith), tt)),
)

typed-length : length (messages_of terminput typed) ≤ 5
unfolding messages_of from_event encode_event
typed-length = omega arith

handle_connection-send_input_example :
    handle_connection terminput true 5
      ((b'a' ∷ 0 ∷ 0 ∷ 0 ∷ 4 ∷ 0 ∷ 80 ∷ 0 ∷ 24 ∷ []) ++ send_input terminput typed)
    ≡ some (attached 80 24 (messages_of terminput typed))
handle_connection-send_input_example =
    handle_connection-send_input terminput fits_buffer 80 24 5 typed
      (b'a' ∷ 0 ∷ 0 ∷ 0 ∷ 4 ∷ 0 ∷ 80 ∷ 0 ∷ 24 ∷ []) typed-AreDecoded attach_hello typed-length

abbrev frames : List Bytes
frames = (104 ∷ []) ∷ (105 ∷ 10 ∷ []) ∷ []

abbrev sent : Bytes
sent = b'o' ∷ 0 ∷ 0 ∷ 0 ∷ 1 ∷ 104 ∷ b'o' ∷ 0 ∷ 0 ∷ 0 ∷ 2 ∷ 105 ∷ 10 ∷ b'x' ∷ 0 ∷ 0 ∷ 0 ∷ 0 ∷ []

sent_lem : session_bytes frames says_exited ≡ ok sent
unfolding session_bytes write_server_msg write_frame
sent_lem = refl

attach_output-session_bytes_example :
    attach_output sent 9 none ≡ some (is_exited, 104 ∷ 105 ∷ 10 ∷ [])
attach_output-session_bytes_example =
    attach_output-session_bytes frames says_exited sent 9 (omega arith, (omega arith, tt)) sent_lem
      (omega arith)

-- A server answers from the fourth attempt on.
abbrev connects : ℕ → Bool
connects n = ltb 2 n

abbrev small_config : Config
small_config = record { scrollback = 10; shutdown_timeout = 0; procs = [] }

abbrev launch : Launch
launch = record { opens_log = true; finds_exe = true; spawns = true; line = none }

-- Another server holds the lock.
abbrev late : Serving
late = record {
  gets_session = true;
  bound = held;
  creates_log = true;
  config = ok small_config;
  writes = true;
}

waits : up connects (ok small_config) (with_line launch true late) ≡ ok already_running
unfolding up launched serve after_start trim_end becomes_reachable text_eq
waits = refl

up-serve_example :
    ((up connects (ok small_config) (with_line launch true late) ≡ ok started)
      ↔ (Launches (ok small_config) launch true × GetsReady late))
    × ((up connects (ok small_config) (with_line launch true late) ≡ ok already_running)
        ↔ (Launches (ok small_config) launch true × IsBusy late × Reached connects 40 1))
up-serve_example = up-serve connects (ok small_config) launch true late refl
