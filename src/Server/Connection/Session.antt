-- ===== src/Server/Connection/Session.antt =====
-- What a connection delivers (src/server.rs, `handle_connection`): it ends, and the messages of a client arrive.
use mtack.Base.{
  ℕ, zero, suc, ◌≤◌, ◌<◌, ◌≡◌, refl, sym, ap, subst, Bool, true, false, List, [], ◌∷◌, ◌++◌, Option,
  none, some, Bytes, length, All, arith, inl, inr,
}
use mtack.Base.Results.{Result, ok, ◌>>=◌, Result-cases}
use mtack.Key.{CtEvent}
use mtack.Protocol.{
  IoError, Hello, attach, quit, ClientMsg, event, Terminput, read_hello, read_client_msg,
  write_client_msg, write_hello,
}
use mtack.Protocol.Messages.{
  FitsBuffer, Decoded, read_client_msg-length, read_client_msg_nil,
  read_client_msg-write_client_msg, read_hello-write_hello,
}
use mtack.Server.Connection.{
  Connection, attached, too_late, quits, closed, cons_message, forward, read_messages, attach_with,
  greet, handle_connection,
}

-- Several messages, one after another.
unfoldable pub write_messages : Terminput → List ClientMsg → Result IoError Bytes
write_messages t [] = ok []
write_messages t (m ∷ ms) = do
  first ← write_client_msg t m
  rest ← write_messages t ms
  ok (first ++ rest)

forward-ends :
    (m : Option ClientMsg) (replaced : ℕ) (rest : ℕ → Option (List ClientMsg))
    → ((n : ℕ) → (ms : List ClientMsg) × (rest n ≡ some ms))
    → (ms : List ClientMsg) × (forward m replaced rest ≡ some ms)
unfolding forward cons_message
forward-ends none replaced rest h = h replaced
forward-ends (some m) zero rest h = ([], refl)
forward-ends (some m) (suc replaced) rest h =
    let (ms, e) = h replaced in (m ∷ ms, ground (arith, e))

module _ (t : Terminput) where
  -- The loop ends on every stream, as each message takes some of it.
  read_messages-ends :
      (fuel : ℕ) (stream : Bytes) (replaced : ℕ)
      → length stream < fuel
      → (ms : List ClientMsg) × (read_messages t fuel stream replaced ≡ some ms)
  unfolding read_messages
  read_messages-ends zero stream replaced h = absurd (omega arith)
  read_messages-ends (suc fuel) stream replaced h = elim (Result-cases (read_client_msg t stream)) [
    | inl (e, k) ↦ ([], ground (arith, k))
    | inr ((m, rest), k) ↦
        let shorter = read_client_msg-length t stream (m, rest) k in
        let (ms, eq) =
          forward-ends m replaced (read_messages t fuel rest)
            (λ n. read_messages-ends fuel rest n (omega arith)) in
        (ms, ground (arith, k, eq))
  ]

  greet-ends :
      (app_runs : Bool) (replaced : ℕ) (r : Hello × Bytes)
      → (c : Connection) × (greet t app_runs replaced r ≡ some c)
  unfolding greet attach_with
  greet-ends false replaced (attach cols rows, stream) = (too_late, refl)
  greet-ends true replaced (attach cols rows, stream) =
      let (ms, e) = read_messages-ends (suc (length stream)) stream replaced (omega arith) in
      (attached cols rows ms, ground (arith, e))
  greet-ends app_runs replaced (quit, stream) = (quits, refl)

  -- Whatever bytes a client sends before it hangs up, the server's handling of its connection comes to an end.
  pub handle_connection-ends :
      (app_runs : Bool) (replaced : ℕ) (stream : Bytes)
      → (c : Connection) × (handle_connection t app_runs replaced stream ≡ some c)
  unfolding handle_connection
  handle_connection-ends app_runs replaced stream = elim (Result-cases (read_hello stream)) [
    | inl (e, k) ↦ (closed, ground (arith, k))
    | inr (r, k) ↦ let (c, eq) = greet-ends app_runs replaced r in (c, ground (arith, k, eq))
  ]

  -- The decoder of terminput gives back the events among the messages.
  abbrev pub AreDecoded : List ClientMsg → Type 0
  AreDecoded ms = All (λ m. (ev : CtEvent) → m ≡ event ev → Decoded t ev (ok ev)) ms

  module _ (fits : FitsBuffer t) where
    write_messages-nil : (bytes : Bytes) → write_messages t [] ≡ ok bytes → [] ≡ bytes
    unfolding write_messages
    write_messages-nil bytes w = ground (arith, w)

    write_messages-cons :
        (m : ClientMsg) (ms : List ClientMsg) (bytes : Bytes)
        → write_messages t (m ∷ ms) ≡ ok bytes
        → (first : Bytes) × (rest : Bytes) × (write_client_msg t m ≡ ok first)
          × (write_messages t ms ≡ ok rest)
          × (bytes ≡ first ++ rest)
    unfolding write_messages
    write_messages-cons m ms bytes w = elim (Result-cases (write_client_msg t m)) [
      | inl (e, k) ↦ ground (arith, k, w)
      | inr (first, k) ↦ elim (Result-cases (write_messages t ms)) [
        | inl (e, l) ↦ ground (arith, k, l, w)
        | inr (rest, l) ↦ (first, rest, k, l, ground (arith, k, l, w))
      ]
    ]

    read_messages-write_messages :
        (ms : List ClientMsg) (bytes : Bytes) (fuel replaced : ℕ)
        → AreDecoded ms
        → write_messages t ms ≡ ok bytes
        → length bytes < fuel
        → length ms ≤ replaced
        → read_messages t fuel bytes replaced ≡ some ms
    unfolding read_messages forward cons_message
    read_messages-write_messages ms bytes zero replaced d w l n = absurd (omega arith)
    read_messages-write_messages [] bytes (suc fuel) replaced d w l n =
        let e : [] ≡ bytes = write_messages-nil bytes w in
        subst (λ b. read_messages t (suc fuel) b replaced ≡ some []) e
          (ground (arith, read_client_msg_nil t))
    read_messages-write_messages (m ∷ ms) bytes (suc fuel) zero d w l n = absurd (omega arith)
    read_messages-write_messages (m ∷ ms) bytes (suc fuel) (suc replaced) (d, ds) w l n =
        let (first, rest, one, more, e) = write_messages-cons m ms bytes w in
        let read = read_client_msg-write_client_msg t fits m rest {bytes = first} d one in
        let shorter = read_client_msg-length t (first ++ rest) (some m, rest) read in
        let same : length bytes ≡ length (first ++ rest) = ap length e in
        let later =
          read_messages-write_messages ms rest fuel replaced ds more (omega arith) (omega arith) in
        subst (λ b. read_messages t (suc fuel) b (suc replaced) ≡ some (m ∷ ms)) (sym e)
          (ground (arith, read, later))

    -- A client that attaches while the App runs, and is not replaced before all its messages are there, gets them
    -- to the App, all and in their order, if the encoder of terminput keeps within its buffer and the decoder
    -- gives back the events among them.
    pub handle_connection-write_messages :
        (cols rows replaced : ℕ) (ms : List ClientMsg) (hello bytes : Bytes)
        → AreDecoded ms
        → write_hello (attach cols rows) ≡ ok hello
        → write_messages t ms ≡ ok bytes
        → length ms ≤ replaced
        → handle_connection t true replaced (hello ++ bytes) ≡ some (attached cols rows ms)
    unfolding handle_connection greet attach_with
    handle_connection-write_messages cols rows replaced ms hello bytes d h w n =
        let greeted = read_hello-write_hello (attach cols rows) bytes {bytes = hello} h in
        let read =
          read_messages-write_messages ms bytes (suc (length bytes)) replaced d w (omega arith) n in
        ground (arith, greeted, read)
