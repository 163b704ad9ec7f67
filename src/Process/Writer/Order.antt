-- ===== src/Process/Writer/Order.antt =====
-- What the task that feeds input to the PTY keeps (src/process.rs, `write_input`).
use mtack.Base.{
  ℕ, zero, suc, ◌≡◌, refl, sym, ap, ◌∙◌, true, List, [], ◌∷◌, ◌++◌, Bytes, arith, take, drop,
  is_empty, Option, none, some, Bool, Bool-cases, inl, inr, if◌then◌else◌, if-cases,
}
use mtack.Base.Utf8.{flat_map}
use mathlib.Core.List.{append_assoc, append-nil}
use mtack.Process.Writer.{
  Wrote, took, interrupted, failed, WriterEvent, queues, wants, closes, receives, changes, writes,
  Writer, receive, resize_pty, finish_write, task_step, writer_step, writer_run,
}

-- All that is on its way or there: written, pending and queued, in order.
abbrev pub in_order : Writer → Bytes
in_order w = w.written ++ (w.pending ++ flat_map (λ m. m) w.queue)

-- What is queued by a run, from a channel that is closed or not.
abbrev pub queued : Bool → List WriterEvent → Bytes
queued c [] = []
queued c (queues bytes ∷ es) = (if c then [] else bytes) ++ queued c es
queued c (closes ∷ es) = queued true es
queued c (_ ∷ es) = queued c es

-- No write fails.
abbrev pub Succeeds : List WriterEvent → Type 0
Succeeds [] = Unit {0}
Succeeds (writes (took zero) ∷ es) = ⊥
Succeeds (writes failed ∷ es) = ⊥
Succeeds (_ ∷ es) = Succeeds es

Succeeds-tail : (e : WriterEvent) (es : List WriterEvent) → Succeeds (e ∷ es) → Succeeds es
Succeeds-tail (queues bytes) es h = h
Succeeds-tail (wants size) es h = h
Succeeds-tail closes es h = h
Succeeds-tail receives es h = h
Succeeds-tail changes es h = h
Succeeds-tail (writes (took zero)) es h = absurd h
Succeeds-tail (writes (took (suc n))) es h = h
Succeeds-tail (writes interrupted) es h = h
Succeeds-tail (writes failed) es h = absurd h

-- The task ends only behind a closed channel.
abbrev pub EndsLast : Writer → Type 0
EndsLast w = w.has_returned ≡ true → w.is_closed ≡ true

flat_map-snoc :
    (ms : List Bytes) (m : Bytes) → flat_map (λ x. x) (ms ++ (m ∷ [])) ≡ flat_map (λ x. x) ms ++ m
flat_map-snoc [] m = append-nil m
flat_map-snoc (x ∷ ms) m =
    ap (◌++◌ x) (flat_map-snoc ms m) ∙ sym (append_assoc x (flat_map (λ y. y) ms) m)

take-drop : (n : ℕ) (xs : Bytes) → take n xs ++ drop n xs ≡ xs
take-drop zero xs = refl
take-drop (suc n) [] = refl
take-drop (suc n) (x ∷ xs) = ap (◌∷◌ x) (take-drop n xs)

in_order-receive :
    (q : List Bytes) (w : Writer)
    → w.queue ≡ q
    → w.pending ≡ []
    → in_order (receive q w) ≡ in_order w
unfolding receive
in_order-receive [] w e p = refl
in_order-receive (m ∷ ms) w e p = ground (arith, e, p)

took_in_order : (n : ℕ) (w : Writer) → in_order (finish_write (took (suc n)) w) ≡ in_order w
unfolding finish_write
took_in_order n w =
    let rest = flat_map (λ m. m) w.queue in
    append_assoc w.written (take (suc n) w.pending) (drop (suc n) w.pending ++ rest)
    ∙ ap (◌++◌ w.written) (
        sym (append_assoc (take (suc n) w.pending) (drop (suc n) w.pending) rest)
        ∙ ap (λ x. x ++ rest) (take-drop (suc n) w.pending))

queues_in_order :
    (bytes : Bytes) (w : Writer)
    → in_order (record w { queue = w.queue ++ (bytes ∷ []) }) ≡ in_order w ++ bytes
queues_in_order bytes w =
    ap (λ x. w.written ++ (w.pending ++ x)) (flat_map-snoc w.queue bytes)
    ∙ (ap (◌++◌ w.written) (sym (append_assoc w.pending (flat_map (λ m. m) w.queue) bytes))
        ∙ sym (append_assoc w.written (w.pending ++ flat_map (λ m. m) w.queue) bytes))

is_empty-nil : (xs : Bytes) → is_empty xs ≡ true → xs ≡ []
is_empty-nil [] h = refl
is_empty-nil (x ∷ xs) h = cc

-- What a step keeps that neither queues nor closes: all bytes in their order, and the channel.
abbrev Keeps : Writer → Writer → Type 0
Keeps w v = (in_order v ≡ in_order w) × (v.is_closed ≡ w.is_closed)

receive-closed : (q : List Bytes) (w : Writer) → (receive q w).is_closed ≡ w.is_closed
unfolding receive
receive-closed [] w = refl
receive-closed (m ∷ ms) w = refl

resize_pty-Keeps : (o : Option (ℕ × ℕ)) (w : Writer) → Keeps w (resize_pty o w)
unfolding resize_pty
resize_pty-Keeps none w = (refl, refl)
resize_pty-Keeps (some size) w = (refl, refl)

finish_write-Keeps :
    (result : Wrote) (w : Writer) → Succeeds (writes result ∷ []) → Keeps w (finish_write result w)
unfolding finish_write
finish_write-Keeps (took zero) w h = absurd h
finish_write-Keeps (took (suc n)) w h = (took_in_order n w, refl)
finish_write-Keeps interrupted w h = (refl, refl)
finish_write-Keeps failed w h = absurd h

task_step-Keeps : (e : WriterEvent) (w : Writer) → Succeeds (e ∷ []) → Keeps w (task_step w e)
unfolding task_step
task_step-Keeps receives w h =
    if-cases (Keeps w) (is_empty w.pending) (receive w.queue w) w
      (λ e. (in_order-receive w.queue w refl (is_empty-nil w.pending e), receive-closed w.queue w))
      (λ e. (refl, refl))
task_step-Keeps changes w h = resize_pty-Keeps w.wanted w
task_step-Keeps (writes result) w h =
    if-cases (Keeps w) (is_empty w.pending) w (finish_write result w) (λ e. (refl, refl))
      (λ e. finish_write-Keeps result w h)
task_step-Keeps (queues bytes) w h = (refl, refl)
task_step-Keeps (wants size) w h = (refl, refl)
task_step-Keeps closes w h = (refl, refl)

guarded-Keeps : (w v : Writer) → Keeps w v → Keeps w (if w.has_returned then w else v)
guarded-Keeps w v k = if-cases (Keeps w) w.has_returned w v (λ e. (refl, refl)) (λ e. k)

-- A step, and what is queued by the steps behind it, is what is queued by all of them.
abbrev Turn : Writer → WriterEvent → List WriterEvent → Type 0
Turn w e es =
    in_order (writer_step w e) ++ queued (writer_step w e).is_closed es
    ≡ in_order w ++ queued w.is_closed (e ∷ es)

same-Turn :
    (w v : Writer) (es : List WriterEvent)
    → Keeps w v
    → in_order v ++ queued v.is_closed es ≡ in_order w ++ queued w.is_closed es
same-Turn w v es (bytes, c) =
    ap (λ x. x ++ queued v.is_closed es) bytes ∙ ap (λ x. in_order w ++ queued x es) c

queues-Turn : (w : Writer) (bytes : Bytes) (es : List WriterEvent) → Turn w (queues bytes) es
unfolding writer_step
queues-Turn w bytes es = elim (Bool-cases w.is_closed) [
  | inl c ↦ ground (arith, c)
  | inr c ↦
      ground
        (arith, c, queues_in_order bytes w, append_assoc (in_order w) bytes (queued w.is_closed es))
]

turn : (w : Writer) (e : WriterEvent) (es : List WriterEvent) → Succeeds (e ∷ es) → Turn w e es
unfolding writer_step
turn w (queues bytes) es h = queues-Turn w bytes es
turn w (wants size) es h =
    same-Turn w (if w.is_closed then w else record w { wanted = some size }) es (
      if-cases (Keeps w) w.is_closed w (record w { wanted = some size }) (λ e. (refl, refl))
        (λ e. (refl, refl)))
turn w closes es h = refl
turn w receives es h =
    same-Turn w (if w.has_returned then w else task_step w receives) es
      (guarded-Keeps w (task_step w receives) (task_step-Keeps receives w tt))
turn w changes es h =
    same-Turn w (if w.has_returned then w else task_step w changes) es
      (guarded-Keeps w (task_step w changes) (task_step-Keeps changes w tt))
turn w (writes (took zero)) es h = absurd h
turn w (writes (took (suc n))) es h =
    same-Turn w (if w.has_returned then w else task_step w (writes (took (suc n)))) es (
      guarded-Keeps w (task_step w (writes (took (suc n))))
        (task_step-Keeps (writes (took (suc n))) w tt))
turn w (writes interrupted) es h =
    same-Turn w (if w.has_returned then w else task_step w (writes interrupted)) es (
      guarded-Keeps w (task_step w (writes interrupted))
        (task_step-Keeps (writes interrupted) w tt))
turn w (writes failed) es h = absurd h

returned_at_close : (w : Writer) (e : WriterEvent) → EndsLast w → EndsLast (writer_step w e)
unfolding writer_step task_step receive resize_pty finish_write
returned_at_close w e h = ground (arith, h)

-- As long as no write to the terminal fails, no input is lost, doubled or reordered between the queue
-- and the terminal, however the writes are split or interrupted, and also over resizes, the closing of the channels and
-- the end of the task: what the terminal has taken, followed by what is pending and what is queued, is what it was before with
-- all messages queued since behind it. The task returns, and gives up what is pending and queued, only after
-- the process has closed the channels.
pub writer_run-in_order :
    (w : Writer) (es : List WriterEvent)
    → Succeeds es
    → EndsLast w
    → (in_order (writer_run w es) ≡ in_order w ++ queued w.is_closed es)
      × EndsLast (writer_run w es)
writer_run-in_order w [] h last = (sym (append-nil (in_order w)), last)
writer_run-in_order w (e ∷ es) h last =
    let (bytes, end) =
      writer_run-in_order (writer_step w e) es (Succeeds-tail e es h)
        (returned_at_close w e last) in
    (bytes ∙ turn w e es h, end)
