-- ===== src/Protocol/Messages.antt =====
-- Messages (src/protocol.rs): each message that is written is read back as itself, and what the
-- other side cannot read costs one frame at most.
use mtack.Base.{
  ℕ, ◌≤◌, ◌<◌, ◌≡◌, refl, [], ◌++◌, Bytes, Option, inl, inr, none, some, arith, length,
}
use mtack.Base.Results.{Result, ok, err, ◌>>=◌, Result-cases}
use mtack.Key.{CtEvent, resize_event}
use mtack.Protocol.{
  IoError, unexpected_eof, read_u8, Hello, attach, quit, ClientMsg, event, resize, ServerMsg,
  output, detached, exited, max_frame_len, write_frame, read_frame, encode_size, Terminput,
  encode_event, decode_event, write_hello, read_hello, event_or_none, from_event, write_client_msg,
  read_client_msg, write_server_msg, read_server_msg, tag_attach, tag_quit, tag_event, tag_resize,
  tag_output, tag_detached, tag_exited,
}
use mtack.Protocol.Frames.{
  read_frame-write_frame, read_frame-length, write_frame_total, decode_size-encode_size,
}

length-encode_size : (cols rows : ℕ) → length (encode_size cols rows) ≤ max_frame_len
unfolding encode_size
length-encode_size cols rows = omega arith

-- The first message of a connection is read back as it was written, and nothing beyond it is taken.
pub read_hello-write_hello :
    (h : Hello) (rest : Bytes) {bytes : Bytes}
    → write_hello h ≡ ok bytes
    → read_hello (bytes ++ rest) ≡ ok (h, rest)
unfolding write_hello read_hello
read_hello-write_hello (attach cols rows) rest {bytes} w = ground (
  arith,
  read_frame-write_frame tag_attach (encode_size cols rows) rest {bytes = bytes}
      (length-encode_size cols rows) w,
  decode_size-encode_size cols rows,
)
read_hello-write_hello quit rest {bytes} w =
    ground (arith, read_frame-write_frame tag_quit [] rest {bytes = bytes} (omega arith) w)

-- What the server sends is read back by the client as it was written; a rendered frame must keep
-- within 16 MiB.
pub read_server_msg-write_server_msg :
    (bytes rest : Bytes) (m : ServerMsg)
    → ((payload : Bytes) → m ≡ output payload → length payload ≤ max_frame_len)
    → write_server_msg m ≡ ok bytes
    → read_server_msg (bytes ++ rest) ≡ ok (m, rest)
unfolding write_server_msg read_server_msg
read_server_msg-write_server_msg bytes rest (output payload) h w =
    ground
      (arith, read_frame-write_frame tag_output payload rest {bytes = bytes} (h payload refl) w)
read_server_msg-write_server_msg bytes rest detached h w =
    ground (arith, read_frame-write_frame tag_detached [] rest {bytes = bytes} (omega arith) w)
read_server_msg-write_server_msg bytes rest exited h w =
    ground (arith, read_frame-write_frame tag_exited [] rest {bytes = bytes} (omega arith) w)

module _ (t : Terminput) where
  -- The encoder of terminput keeps within the buffer that it is given.
  abbrev pub FitsBuffer : Type 0
  FitsBuffer =
      (ev : CtEvent) (payload : Bytes) → encode_event t ev ≡ ok payload → length payload ≤ 64

  -- What the decoder makes of the bytes that stand for an event.
  abbrev pub Decoded : CtEvent → Result IoError CtEvent → Type 0
  Decoded ev r = (payload : Bytes) → encode_event t ev ≡ ok payload → decode_event t payload ≡ r

module _ (t : Terminput) (fits : FitsBuffer t) where
  event_frame :
      (ev : CtEvent) (rest : Bytes) {bytes : Bytes}
      → write_client_msg t (event ev) ≡ ok bytes
      → (payload : Bytes) × (encode_event t ev ≡ ok payload)
        × (read_frame (bytes ++ rest) ≡ ok ((tag_event, payload), rest))
  unfolding write_client_msg
  event_frame ev rest {bytes} w = go (encode_event t ev) refl w
    where
      go :
          (r : Result IoError Bytes)
          → encode_event t ev ≡ r
          → (r >>= write_frame tag_event) ≡ ok bytes
          → (payload : Bytes) × (encode_event t ev ≡ ok payload)
            × (read_frame (bytes ++ rest) ≡ ok ((tag_event, payload), rest))
      go (err e) p q = cc
      go (ok payload) p q = (
        payload,
        p,
        read_frame-write_frame tag_event payload rest (omega (arith, fits ev payload p)) q,
      )

  -- A client message arrives as it was sent, if the encoder keeps within its buffer: a new size
  -- always, and an event if the decoder of terminput gives it back from its encoding.
  pub read_client_msg-write_client_msg :
      (m : ClientMsg) (rest : Bytes) {bytes : Bytes}
      → ((ev : CtEvent) → m ≡ event ev → Decoded t ev (ok ev))
      → write_client_msg t m ≡ ok bytes
      → read_client_msg t (bytes ++ rest) ≡ ok (some m, rest)
  unfolding read_client_msg
  read_client_msg-write_client_msg (event ev) rest h w =
      let (payload, p, q) = event_frame ev rest w in ground (arith, q, h ev refl payload p)
  read_client_msg-write_client_msg (resize cols rows) rest {bytes} h w = ground (
    arith,
    read_frame-write_frame tag_resize (encode_size cols rows) rest {bytes = bytes}
        (length-encode_size cols rows) (unfold write_client_msg in w),
    decode_size-encode_size cols rows,
  )

  -- An event that the server cannot decode is skipped: its frame is consumed, the messages behind it
  -- are untouched, and the connection is kept. The encoder keeps within its buffer.
  pub read_client_msg_undecodable :
      (ev : CtEvent) (e : IoError) (rest : Bytes) {bytes : Bytes}
      → Decoded t ev (err e)
      → write_client_msg t (event ev) ≡ ok bytes
      → read_client_msg t (bytes ++ rest) ≡ ok (none, rest)
  unfolding read_client_msg
  read_client_msg_undecodable ev e rest h w =
      let (payload, p, q) = event_frame ev rest w in ground (arith, q, h payload p)

  sendable_writes :
      (ev : CtEvent) (m : ClientMsg)
      → event_or_none t ev ≡ some m
      → (bytes : Bytes) × (write_client_msg t m ≡ ok bytes)
  unfolding event_or_none write_client_msg
  sendable_writes ev m h = go (encode_event t ev) refl h
    where
      go :
          (r : Result IoError Bytes)
          → encode_event t ev ≡ r
          → elim r [ ok bytes ↦ some (event ev) | err e ↦ none ] ≡ some m
          → (bytes : Bytes) × (write_client_msg t m ≡ ok bytes)
      go (err e) p q = cc
      go (ok payload) p q =
          let (bytes, w) = write_frame_total tag_event payload (omega (arith, fits ev payload p)) in
          (bytes, ground (arith, p, w))

  -- Whatever `from_event` lets through can be written, if the encoder keeps within its buffer.
  pub from_event_writes :
      (ev : CtEvent) (m : ClientMsg)
      → from_event t ev ≡ some m
      → (bytes : Bytes) × (write_client_msg t m ≡ ok bytes)
  unfolding from_event write_client_msg encode_size
  from_event_writes (resize_event cols rows) m h =
      let (bytes, w) = write_frame_total tag_resize (encode_size cols rows) (omega arith) in
      (bytes, ground (arith, w))
  from_event_writes ev m h = sendable_writes ev m h

pub read_client_msg-length :
    (t : Terminput) (stream : Bytes) (r : Option ClientMsg × Bytes)
    → read_client_msg t stream ≡ ok r
    → length r.1 < length stream
unfolding read_client_msg
read_client_msg-length t stream r h = elim (Result-cases (read_frame stream)) [
  | inl (e, k) ↦ ground (arith, k, h)
  | inr (((tag, payload), rest), k) ↦
      let shorter = read_frame-length stream ((tag, payload), rest) k in
      ground (arith, k, h, shorter)
]

pub read_server_msg-length :
    (stream : Bytes) (r : ServerMsg × Bytes)
    → read_server_msg stream ≡ ok r
    → length r.1 < length stream
unfolding read_server_msg
read_server_msg-length stream r h = elim (Result-cases (read_frame stream)) [
  | inl (e, k) ↦ ground (arith, k, h)
  | inr (((tag, payload), rest), k) ↦
      let shorter = read_frame-length stream ((tag, payload), rest) k in
      ground (arith, k, h, shorter)
]

pub read_client_msg_nil : (t : Terminput) → read_client_msg t [] ≡ err unexpected_eof
unfolding read_client_msg read_frame read_u8
read_client_msg_nil t = refl

pub read_server_msg_nil : read_server_msg [] ≡ err unexpected_eof
unfolding read_server_msg read_frame read_u8
read_server_msg_nil = refl
