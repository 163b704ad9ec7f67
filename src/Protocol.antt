-- ===== src/Protocol.antt =====
-- The wire format between client and server (src/protocol.rs). A writer is the bytes that it gives,
-- a reader takes bytes from the front of the stream. Errors of the socket itself are not modelled.
pub mod Frames
pub mod Messages
use mtack.Base.{
  ℕ, ◌+◌, ◌*◌, ◌/◌, ◌%◌, ◌^◌, ◌≤◌, ◌≡◌, Bool, List, [], ◌∷◌, ◌++◌, Option, none, some, Bytes,
  String, leb, ltb, ◌==◌, if◌then◌else◌, length, take, drop,
}
use mtack.Base.Results.{Result, ok, err, ◌>>=◌, ok_or}
use mtack.Key.{CtEvent, resize_event}

pub data IoError : Type 0 where
  unexpected_eof : IoError
  invalid_data : String → IoError

abbrev pub invalid {ℓ} : {A : Type ℓ} → String → Result IoError A
invalid msg = err (invalid_data msg)

abbrev pub max_frame_len : ℕ
max_frame_len = 16 * 1024 * 1024

abbrev pub tag_attach : ℕ
tag_attach = b'a'

abbrev pub tag_quit : ℕ
tag_quit = b'q'

abbrev pub tag_event : ℕ
tag_event = b'e'

abbrev pub tag_resize : ℕ
tag_resize = b'r'

abbrev pub tag_output : ℕ
tag_output = b'o'

abbrev pub tag_detached : ℕ
tag_detached = b'd'

abbrev pub tag_exited : ℕ
tag_exited = b'x'

pub data Hello : Type 0 where
  attach : ℕ → ℕ → Hello
  quit : Hello

pub data ClientMsg : Type 0 where
  event : CtEvent → ClientMsg
  resize : ℕ → ℕ → ClientMsg

pub data ServerMsg : Type 0 where
  output : Bytes → ServerMsg
  detached exited : ServerMsg

abbrev pub Reader : Type 0 → Type 0
Reader A = Bytes → Result IoError (A × Bytes)

-- `u32::to_be_bytes` in front of the payload, behind the tag.
unfoldable pub write_frame : ℕ → Bytes → Result IoError Bytes
write_frame tag payload =
    let len = length payload in
    if ltb len (2 ^ 32)
    then ok
        (tag ∷ (len / 2 ^ 24) ∷ (len / 2 ^ 16 % 256) ∷ (len / 2 ^ 8 % 256) ∷ (len % 256) ∷ payload)
    else invalid "frame too large"

pub read_u8 : Reader ℕ
read_u8 [] = err unexpected_eof
read_u8 (b ∷ bs) = ok (b, bs)

pub read_u32 : Reader ℕ
read_u32 (a ∷ b ∷ c ∷ d ∷ bs) = ok (a * 2 ^ 24 + b * 2 ^ 16 + c * 2 ^ 8 + d, bs)
read_u32 _ = err unexpected_eof

pub read_exact : ℕ → Reader Bytes
read_exact n bs = if leb n (length bs) then ok (take n bs, drop n bs) else err unexpected_eof

pub read_payload : ℕ → ℕ → Reader (ℕ × Bytes)
unfolding read_exact
read_payload tag len bs =
    if ltb max_frame_len len
    then invalid "frame too large"
    else (read_exact len bs >>= λ r. ok ((tag, r.0), r.1))

pub read_frame : Reader (ℕ × Bytes)
unfolding read_u8 read_u32
read_frame bs = do (tag, bs) ← read_u8 bs; (len, bs) ← read_u32 bs; read_payload tag len bs

unfoldable pub encode_size : ℕ → ℕ → Bytes
encode_size cols rows = (cols / 256) ∷ (cols % 256) ∷ (rows / 256) ∷ (rows % 256) ∷ []

pub decode_size : Bytes → Result IoError (ℕ × ℕ)
decode_size (c0 ∷ c1 ∷ r0 ∷ r1 ∷ []) = ok (c0 * 256 + c1, r0 * 256 + r1)
decode_size _ = invalid "bad size"

-- The crates terminput and terminput-crossterm: conversions between the two event types, and the
-- escape sequences. `encode` is given the size of the buffer that it may fill.
pub record Terminput : Type 1 where
  pub Event : Type 0
  pub to_terminput : CtEvent → Option Event
  pub to_crossterm : Event → Option CtEvent
  pub encode : ℕ → Event → Result IoError Bytes
  pub parse_from : Bytes → Result IoError (Option Event)

module _ (t : Terminput) where
  unfoldable pub encode_event : CtEvent → Result IoError Bytes
  encode_event ev = do
    e ← ok_or (t.to_terminput ev) (invalid_data "unsupported event")
    t.encode 64 e

  unfoldable pub decode_event : Bytes → Result IoError CtEvent
  decode_event payload = do
    parsed ← t.parse_from payload
    e ← ok_or parsed (invalid_data "incomplete event")
    ok_or (t.to_crossterm e) (invalid_data "unsupported event")

unfoldable pub write_hello : Hello → Result IoError Bytes
write_hello (attach cols rows) = write_frame tag_attach (encode_size cols rows)
write_hello quit = write_frame tag_quit []

pub hello_of : ℕ → Bytes → Result IoError Hello
hello_of tag payload =
    if tag == tag_attach
    then (decode_size payload >>= λ s. ok (attach s.0 s.1))
    else if tag == tag_quit
    then ok quit
    else invalid "unexpected hello"

pub read_hello : Reader Hello
unfolding hello_of
read_hello bs = do ((tag, payload), bs) ← read_frame bs; h ← hello_of tag payload; ok (h, bs)

abbrev as_option {ℓ} : {A : Type ℓ} → Result IoError A → Option A
as_option (ok a) = some a
as_option (err e) = none

module _ (t : Terminput) where
  event_or_none : CtEvent → Option ClientMsg
  event_or_none ev = elim (encode_event t ev) [ ok bytes ↦ some (event ev) | err e ↦ none ]

  -- The events that the wire format cannot carry give `none`.
  unfoldable pub from_event : CtEvent → Option ClientMsg
  unfolding event_or_none
  from_event (resize_event cols rows) = some (resize cols rows)
  from_event ev = event_or_none ev

  unfoldable pub write_client_msg : ClientMsg → Result IoError Bytes
  write_client_msg (event ev) = encode_event t ev >>= write_frame tag_event
  write_client_msg (resize cols rows) = write_frame tag_resize (encode_size cols rows)

  pub client_msg_of : ℕ → Bytes → Result IoError (Option ClientMsg)
  client_msg_of tag payload =
      if tag == tag_event
      then ok (as_option (decode_event t payload >>= λ ev. ok (event ev)))
      else if tag == tag_resize
      then (decode_size payload >>= λ s. ok (some (resize s.0 s.1)))
      else invalid "unexpected client message"

  -- `none` for an event that does not decode.
  pub read_client_msg : Reader (Option ClientMsg)
  unfolding client_msg_of
  read_client_msg bs = do
    ((tag, payload), bs) ← read_frame bs
    m ← client_msg_of tag payload
    ok (m, bs)

unfoldable pub write_server_msg : ServerMsg → Result IoError Bytes
write_server_msg (output bytes) = write_frame tag_output bytes
write_server_msg detached = write_frame tag_detached []
write_server_msg exited = write_frame tag_exited []

pub server_msg_of : ℕ → Bytes → Result IoError ServerMsg
server_msg_of tag payload =
    if tag == tag_output
    then ok (output payload)
    else if tag == tag_detached
    then ok detached
    else if tag == tag_exited
    then ok exited
    else invalid "unexpected server message"

pub read_server_msg : Reader ServerMsg
unfolding server_msg_of
read_server_msg bs = do
  ((tag, payload), bs) ← read_frame bs
  m ← server_msg_of tag payload
  ok (m, bs)
