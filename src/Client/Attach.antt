-- ===== src/Client/Attach.antt =====
-- An attachment from both ends (src/client.rs, `attach`; src/server.rs): what the user types reaches the App, and what the
-- server sends reaches the terminal, with the right end.
use mtack.Base.{
  ℕ, zero, suc, ◌≤◌, ◌<◌, ◌≡◌, refl, sym, ap, subst, true, List, [], ◌∷◌, ◌++◌, Option, none, some,
  Bytes, length, All, arith, Option-cases, Bool-cases, inl, inr,
}
use mathlib.Core.List.{append-nil}
use mtack.Base.Results.{Result, ok, ◌>>=◌, Result-cases}
use mtack.Key.{CtEvent}
use mtack.Protocol.{
  IoError, attach, ClientMsg, ServerMsg, output, detached, exited, Terminput, from_event,
  write_server_msg, write_hello, read_server_msg, max_frame_len,
}
use mtack.Protocol.Messages.{
  FitsBuffer, from_event_writes, read_server_msg-write_server_msg, read_server_msg-length,
  read_server_msg_nil,
}
use mtack.Server.Connection.{attached, handle_connection}
use mtack.Server.Connection.Session.{write_messages, AreDecoded, handle_connection-write_messages}
use mtack.Client.{
  AttachEnd, is_detached, is_exited, is_lost, send_input, shown, receive_msg, pred_option, is_zero,
  receive_output, attach_output,
}

module _ (t : Terminput) where
  -- The messages for the events that the wire format can carry.
  unfoldable pub messages_of : List CtEvent → List ClientMsg
  messages_of [] = []
  messages_of (ev ∷ evs) = elim (from_event t ev) [
    | none ↦ messages_of evs
    | some m ↦ m ∷ messages_of evs
  ]

  module _ (fits : FitsBuffer t) where
    write_messages-messages_of :
        (evs : List CtEvent) → write_messages t (messages_of evs) ≡ ok (send_input t evs)
    unfolding write_messages messages_of send_input
    write_messages-messages_of [] = refl
    write_messages-messages_of (ev ∷ evs) = elim (Option-cases (from_event t ev)) [
      | inl e ↦ ground (arith, e, write_messages-messages_of evs)
      | inr (m, e) ↦
          let (bytes, w) = from_event_writes t fits ev m e in
          ground (arith, e, w, write_messages-messages_of evs)
    ]

    -- What a user types reaches the App: a client that attaches while the App runs, and is not replaced before its
    -- last message, delivers the messages for all events that the wire format can carry, in their order, if the encoder of
    -- terminput keeps within its buffer and its decoder gives back those events.
    pub handle_connection-send_input :
        (cols rows replaced : ℕ) (evs : List CtEvent) (hello : Bytes)
        → AreDecoded t (messages_of evs)
        → write_hello (attach cols rows) ≡ ok hello
        → length (messages_of evs) ≤ replaced
        → handle_connection t true replaced (hello ++ send_input t evs)
          ≡ some (attached cols rows (messages_of evs))
    handle_connection-send_input cols rows replaced evs hello d h n =
        handle_connection-write_messages t fits cols rows replaced (messages_of evs) hello
          (send_input t evs) d h (write_messages-messages_of evs) n

-- What the server sends last: a goodbye, or nothing where it dies.
pub data Farewell : Type 0 where
  says_detached says_exited silent : Farewell

abbrev pub farewell_bytes : Farewell → Result IoError Bytes
farewell_bytes says_detached = write_server_msg detached
farewell_bytes says_exited = write_server_msg exited
farewell_bytes silent = ok []

abbrev pub end_of : Farewell → AttachEnd
end_of says_detached = is_detached
end_of says_exited = is_exited
end_of silent = is_lost

-- The bytes of a run of frames and what is said last.
unfoldable pub session_bytes : List Bytes → Farewell → Result IoError Bytes
session_bytes [] last = farewell_bytes last
session_bytes (frame ∷ frames) last = do
  first ← write_server_msg (output frame)
  rest ← session_bytes frames last
  ok (first ++ rest)

abbrev pub concat : List Bytes → Bytes
concat [] = []
concat (b ∷ bs) = b ++ concat bs

-- Each frame keeps within 16 MiB.
abbrev pub AreFrames : List Bytes → Type 0
AreFrames frames = All (λ f. length f ≤ max_frame_len) frames

session_bytes-cons :
    (frame : Bytes) (frames : List Bytes) (last : Farewell) (bytes : Bytes)
    → session_bytes (frame ∷ frames) last ≡ ok bytes
    → (first : Bytes) × (rest : Bytes) × (write_server_msg (output frame) ≡ ok first)
      × (session_bytes frames last ≡ ok rest)
      × (bytes ≡ first ++ rest)
unfolding session_bytes
session_bytes-cons frame frames last bytes w =
    elim (Result-cases (write_server_msg (output frame))) [
      | inl (e, k) ↦ ground (arith, k, w)
      | inr (first, k) ↦ elim (Result-cases (session_bytes frames last)) [
        | inl (e, l) ↦ ground (arith, k, l, w)
        | inr (rest, l) ↦ (first, rest, k, l, ground (arith, k, l, w))
      ]
    ]

-- A goodbye alone is read back.
read_goodbye :
    (m : ServerMsg) (bytes : Bytes)
    → ((payload : Bytes) → m ≡ output payload → length payload ≤ max_frame_len)
    → write_server_msg m ≡ ok bytes
    → read_server_msg bytes ≡ ok (m, [])
read_goodbye m bytes h w =
    subst (λ b. read_server_msg b ≡ ok (m, [])) (append-nil bytes)
      (read_server_msg-write_server_msg bytes [] m h w)

receive_farewell :
    (last : Farewell) (bytes : Bytes) (fuel writable : ℕ)
    → farewell_bytes last ≡ ok bytes
    → receive_output (suc fuel) bytes writable none ≡ some (end_of last, [])
unfolding receive_output is_zero pred_option receive_msg
receive_farewell says_detached bytes fuel writable w =
    ground (arith, read_goodbye detached bytes (λ p e. cc) w)
receive_farewell says_exited bytes fuel writable w =
    ground (arith, read_goodbye exited bytes (λ p e. cc) w)
receive_farewell silent bytes fuel writable w =
    let e : [] ≡ bytes = ground (arith, w) in
    subst (λ b. receive_output (suc fuel) b writable none ≡ some (is_lost, [])) e
      (ground (arith, read_server_msg_nil))

session_bytes-nil :
    (last : Farewell) (bytes : Bytes)
    → session_bytes [] last ≡ ok bytes
    → farewell_bytes last ≡ ok bytes
unfolding session_bytes
session_bytes-nil last bytes w = w

receive_frame :
    (frame first rest : Bytes) (fuel writable : ℕ) (end : AttachEnd) (later : Bytes)
    → read_server_msg (first ++ rest) ≡ ok (output frame, rest)
    → receive_output fuel rest writable none ≡ some (end, later)
    → receive_output (suc fuel) (first ++ rest) (suc writable) none ≡ some (end, frame ++ later)
unfolding receive_output is_zero pred_option receive_msg shown
receive_frame frame first rest fuel writable end later h k = ground (arith, h, k)

receive_output-session_bytes :
    (frames : List Bytes) (last : Farewell) (bytes : Bytes) (fuel writable : ℕ)
    → AreFrames frames
    → session_bytes frames last ≡ ok bytes
    → length bytes < fuel
    → length frames ≤ writable
    → receive_output fuel bytes writable none ≡ some (end_of last, concat frames)
receive_output-session_bytes frames last bytes zero writable a w l n = absurd (omega arith)
receive_output-session_bytes [] last bytes (suc fuel) writable a w l n =
    receive_farewell last bytes fuel writable (session_bytes-nil last bytes w)
receive_output-session_bytes (frame ∷ frames) last bytes (suc fuel) zero a w l n =
    absurd (omega arith)
receive_output-session_bytes (frame ∷ frames) last bytes (suc fuel) (suc writable) (small, a) w l
      n =
    let (first, rest, one, more, e) = session_bytes-cons frame frames last bytes w in
    let fits : (payload : Bytes) → output frame ≡ output payload → length payload ≤ max_frame_len =
      λ payload k.
        let same : frame ≡ payload = ground (arith, k) in
        subst (λ p. length p ≤ max_frame_len) same small in
    let read = read_server_msg-write_server_msg first rest (output frame) fits one in
    let shorter = read_server_msg-length (first ++ rest) (output frame, rest) read in
    let same : length bytes ≡ length (first ++ rest) = ap length e in
    let later =
      receive_output-session_bytes frames last rest fuel writable a more (omega arith)
        (omega arith) in
    subst
      (λ b.
        receive_output (suc fuel) b (suc writable) none
        ≡ some (end_of last, frame ++ concat frames))
      (sym e)
      (receive_frame frame first rest fuel writable (end_of last) (concat frames) read later)

-- What the server sends reaches the terminal: where no signal comes and the terminal takes what it is sent, it is sent
-- the frames, in order, and the attachment ends as detached or exited after that goodbye, and as lost where the server says
-- none. A frame must keep within 16 MiB.
pub attach_output-session_bytes :
    (frames : List Bytes) (last : Farewell) (bytes : Bytes) (writable : ℕ)
    → AreFrames frames
    → session_bytes frames last ≡ ok bytes
    → length frames ≤ writable
    → attach_output bytes writable none ≡ some (end_of last, concat frames)
unfolding attach_output
attach_output-session_bytes frames last bytes writable a w n =
    receive_output-session_bytes frames last bytes (suc (length bytes)) writable a w (omega arith) n

receive_msg-ends :
    (m : ServerMsg) (writable : ℕ) (rest : ℕ → Option (AttachEnd × Bytes))
    → ((w : ℕ) → (r : AttachEnd × Bytes) × (rest w ≡ some r))
    → (r : AttachEnd × Bytes) × (receive_msg m writable rest ≡ some r)
unfolding receive_msg shown
receive_msg-ends (output bytes) zero rest h = ((is_detached, []), refl)
receive_msg-ends (output bytes) (suc writable) rest h =
    let ((end, later), e) = h writable in ((end, bytes ++ later), ground (arith, e))
receive_msg-ends detached writable rest h = ((is_detached, []), refl)
receive_msg-ends exited writable rest h = ((is_exited, []), refl)

receive_output-ends :
    (fuel : ℕ) (stream : Bytes) (writable : ℕ) (signal : Option ℕ)
    → length stream < fuel
    → (r : AttachEnd × Bytes) × (receive_output fuel stream writable signal ≡ some r)
unfolding receive_output
receive_output-ends zero stream writable signal h = absurd (omega arith)
receive_output-ends (suc fuel) stream writable signal h = elim (Bool-cases (is_zero signal)) [
  | inl now ↦ ((is_detached, []), ground (arith, now))
  | inr later ↦ elim (Result-cases (read_server_msg stream)) [
    | inl (e, k) ↦ ((is_lost, []), ground (arith, later, k))
    | inr ((m, rest), k) ↦
        let shorter = read_server_msg-length stream (m, rest) k in
        let (r, eq) =
          receive_msg-ends m writable (λ w. receive_output fuel rest w (pred_option signal))
            (λ w. receive_output-ends fuel rest w (pred_option signal) (omega arith)) in
        (r, ground (arith, later, k, eq))
  ]
]

-- Whatever the server sends before it closes the connection, the attachment ends.
pub attach_output-ends :
    (stream : Bytes) (writable : ℕ) (signal : Option ℕ)
    → (r : AttachEnd × Bytes) × (attach_output stream writable signal ≡ some r)
unfolding attach_output
attach_output-ends stream writable signal =
    receive_output-ends (suc (length stream)) stream writable signal (omega arith)
