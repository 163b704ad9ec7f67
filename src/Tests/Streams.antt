-- ===== src/Tests/Streams.antt =====
-- Messages on concrete inputs (src/protocol.rs, src/server.rs).
use mtack.Base.{
  ℕ, ◌≤◌, ◌≡◌, refl, List, [], ◌∷◌, ◌++◌, Option, none, some, Bytes, arith, length, ◌==◌,
  if◌then◌else◌,
}
use mtack.Base.Results.{Result, ok, err}
use mtack.Key.{CtEvent, focus_gained, focus_lost, other_event}
use mtack.Protocol.{
  Terminput, attach, event, output, detached, invalid_data, IoError, max_frame_len, write_frame,
  encode_size, encode_event, decode_event, write_hello, from_event, write_client_msg,
  write_server_msg,
}
use mtack.Protocol.Messages.{FitsBuffer, Decoded}
use mtack.Server.{new_client, say_goodbye}
use mtack.Server.Delivery.{
  draws, resizes, delivers, ClientOp, all_received, all_rendered, client_run, goodbye_in_order,
}

-- A terminput that knows the focus events, and one more that crossterm does not.
abbrev number_of : CtEvent → Option ℕ
number_of focus_gained = some 1
number_of focus_lost = some 2
number_of (other_event n) = some 3
number_of _ = none

abbrev event_of : ℕ → Option CtEvent
event_of n = if n == 1 then some focus_gained else if n == 2 then some focus_lost else none

abbrev parse : Bytes → Result IoError (Option ℕ)
parse [] = ok none
parse (n ∷ ns) = ok (some n)

abbrev pub terminput : Terminput
terminput = record {
  Event = ℕ;
  to_terminput = number_of;
  to_crossterm = event_of;
  encode = λ space n. ok (n ∷ []);
  parse_from = parse;
}

pub fits_buffer : FitsBuffer terminput
unfolding encode_event
fits_buffer ev payload h = ground arith

hi_frame : write_frame b'o' (104 ∷ 105 ∷ []) ≡ ok (b'o' ∷ 0 ∷ 0 ∷ 0 ∷ 2 ∷ 104 ∷ 105 ∷ [])
unfolding write_frame
hi_frame = refl

pub attach_hello : write_hello (attach 80 24) ≡ ok (b'a' ∷ 0 ∷ 0 ∷ 0 ∷ 4 ∷ 0 ∷ 80 ∷ 0 ∷ 24 ∷ [])
unfolding write_hello write_frame encode_size
attach_hello = refl

hi_output : write_server_msg (output (104 ∷ 105 ∷ [])) ≡ ok (b'o' ∷ 0 ∷ 0 ∷ 0 ∷ 2 ∷ 104 ∷ 105 ∷ [])
unfolding write_server_msg write_frame
hi_output = refl

short_output :
    (payload : Bytes) → output (104 ∷ 105 ∷ []) ≡ output payload → length payload ≤ max_frame_len
short_output payload e = ground arith

focus_msg : write_client_msg terminput (event focus_gained) ≡ ok (b'e' ∷ 0 ∷ 0 ∷ 0 ∷ 1 ∷ 1 ∷ [])
unfolding write_client_msg write_frame encode_event
focus_msg = refl

focus-Decoded : (ev : CtEvent) → event focus_gained ≡ event ev → Decoded terminput ev (ok ev)
unfolding encode_event decode_event
focus-Decoded ev e payload h = ground arith

other_msg : write_client_msg terminput (event (other_event 0)) ≡ ok (b'e' ∷ 0 ∷ 0 ∷ 0 ∷ 1 ∷ 3 ∷ [])
unfolding write_client_msg write_frame encode_event
other_msg = refl

other-Decoded : Decoded terminput (other_event 0) (err (invalid_data "unsupported event"))
unfolding encode_event decode_event
other-Decoded payload h = ground arith

focus_passes : from_event terminput focus_lost ≡ some (event focus_lost)
unfolding from_event encode_event
focus_passes = refl

abbrev client_ops : List ClientOp
client_ops = draws (1 ∷ []) ∷ draws (2 ∷ []) ∷ delivers ∷ resizes 100 30 ∷ draws (3 ∷ []) ∷ []

goodbye_in_order_example :
    all_received (new_client 80 24) client_ops
      ++ (say_goodbye detached (client_run (new_client 80 24) client_ops)).queue
    ≡ all_rendered (new_client 80 24) client_ops ++ detached ∷ []
goodbye_in_order_example = goodbye_in_order 80 24 client_ops detached
