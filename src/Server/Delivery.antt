-- ===== src/Server/Delivery.antt =====
-- What a client is sent (src/server.rs): every frame that was rendered, in order, then the goodbye.
use mtack.Base.{
  ℕ, ◌≤◌, ◌≡◌, ◌≢◌, refl, false, List, [], ◌∷◌, ◌++◌, none, some, Bytes, arith, length,
  length-append, ◌∙◌, ap, sym,
}
use mathlib.Core.List.{append_assoc, append-nil}
use mtack.Protocol.{ServerMsg, output}
use mtack.Server.{Client, sent, unreachable, new_client, resize_client, draw, say_goodbye, deliver}

-- At most one message waits for an attached client.
abbrev pub HasRoom : Client → Type 0
HasRoom c = length c.outbox.queue ≤ 1

-- The App draws, and the writer task delivers, in any order.
pub data ClientOp : Type 0 where
  draws : Bytes → ClientOp
  resizes : ℕ → ℕ → ClientOp
  delivers : ClientOp

abbrev delivered : Client → Client
delivered c = elim (deliver c.outbox) [ none ↦ c | some (m, o) ↦ record c { outbox = o } ]

abbrev pub client_step : Client → ClientOp → Client
client_step c (draws frame) = (draw frame c).0
client_step c (resizes cols rows) = resize_client cols rows c
client_step c delivers = delivered c

-- What the client has received in a step.
abbrev received : Client → ClientOp → List ServerMsg
received c delivers = elim (deliver c.outbox) [ none ↦ [] | some (m, o) ↦ m ∷ [] ]
received c op = []

-- The frames that were rendered in a step: those of a draw that was not busy.
abbrev rendered : Client → ClientOp → List ServerMsg
rendered c (draws frame) = elim (draw frame c).1 [ sent ↦ output frame ∷ [] | _ ↦ [] ]
rendered c op = []

abbrev pub client_run : Client → List ClientOp → Client
client_run c [] = c
client_run c (op ∷ ops) = client_run (client_step c op) ops

abbrev pub all_received : Client → List ClientOp → List ServerMsg
all_received c [] = []
all_received c (op ∷ ops) = received c op ++ all_received (client_step c op) ops

abbrev pub all_rendered : Client → List ClientOp → List ServerMsg
all_rendered c [] = []
all_rendered c (op ∷ ops) = rendered c op ++ all_rendered (client_step c op) ops

client_step-HasRoom : (c : Client) (op : ClientOp) → HasRoom c → HasRoom (client_step c op)
unfolding draw resize_client deliver
client_step-HasRoom c (draws frame) h =
    ground (arith, length-append c.outbox.queue (output frame ∷ []))
client_step-HasRoom c (resizes cols rows) h = ground arith
client_step-HasRoom c delivers h = ground arith

client_run-HasRoom : (c : Client) (ops : List ClientOp) → HasRoom c → HasRoom (client_run c ops)
client_run-HasRoom c [] h = h
client_run-HasRoom c (op ∷ ops) h =
    client_run-HasRoom (client_step c op) ops (client_step-HasRoom c op h)

-- The branch of `draw` that the code calls unreachable is so: a frame is queued only where none
-- waits.
pub draw-ne-unreachable : (frame : Bytes) (c : Client) → (draw frame c).1 ≢ unreachable
unfolding draw
draw-ne-unreachable frame c = ground arith

step_in_order :
    (c : Client) (op : ClientOp)
    → received c op ++ (client_step c op).outbox.queue ≡ c.outbox.queue ++ rendered c op
unfolding draw resize_client deliver
step_in_order c (draws frame) = ground (arith, append-nil c.outbox.queue)
step_in_order c (resizes cols rows) = ground (arith, append-nil c.outbox.queue)
step_in_order c delivers = ground (arith, append-nil c.outbox.queue)

run_in_order :
    (c : Client) (ops : List ClientOp)
    → all_received c ops ++ (client_run c ops).outbox.queue ≡ c.outbox.queue ++ all_rendered c ops
run_in_order c [] = sym (append-nil c.outbox.queue)
run_in_order c (op ∷ ops) =
    append_assoc (received c op) _ _
    ∙ (ap (◌++◌ (received c op)) (run_in_order (client_step c op) ops)
        ∙ (sym (append_assoc (received c op) _ _)
            ∙ (ap (λ q. q ++ all_rendered (client_step c op) ops) (step_in_order c op)
                ∙ append_assoc c.outbox.queue _ _)))

step_keeps_open :
    (c : Client) (op : ClientOp) → (client_step c op).outbox.is_closed ≡ c.outbox.is_closed
unfolding draw resize_client deliver
step_keeps_open c (draws frame) = ground arith
step_keeps_open c (resizes cols rows) = ground arith
step_keeps_open c delivers = ground arith

run_keeps_open :
    (c : Client) (ops : List ClientOp) → (client_run c ops).outbox.is_closed ≡ c.outbox.is_closed
run_keeps_open c [] = refl
run_keeps_open c (op ∷ ops) = run_keeps_open (client_step c op) ops ∙ step_keeps_open c op

goodbye_fits :
    (msg : ServerMsg) (c : Client)
    → HasRoom c
    → c.outbox.is_closed ≡ false
    → (say_goodbye msg c).queue ≡ c.outbox.queue ++ msg ∷ []
unfolding say_goodbye
goodbye_fits msg c h o = ground arith

-- However drawing, resizing and the writer task interleave for a client that reads on, it is sent
-- every rendered frame, in order and none twice, and behind them all the goodbye, for which there is
-- always room.
pub goodbye_in_order :
    (cols rows : ℕ) (ops : List ClientOp) (goodbye : ServerMsg)
    → all_received (new_client cols rows) ops
        ++ (say_goodbye goodbye (client_run (new_client cols rows) ops)).queue
      ≡ all_rendered (new_client cols rows) ops ++ goodbye ∷ []
unfolding new_client
goodbye_in_order cols rows ops goodbye =
    let c = new_client cols rows in
    let last = client_run c ops in
    ap (◌++◌ (all_received c ops))
      (goodbye_fits goodbye last (client_run-HasRoom c ops (omega arith)) (run_keeps_open c ops))
    ∙ (sym (append_assoc (all_received c ops) last.outbox.queue (goodbye ∷ []))
        ∙ ap (λ q. q ++ goodbye ∷ []) (run_in_order c ops))
