-- ===== src/Process/InputQueue.antt =====
-- Input that a process is too slow to read (src/process.rs): what is lost is one clean tail.
use mtack.Base.{
  suc, ◌<◌, ◌≡◌, ◌⊎◌, refl, inl, inr, Bool, true, false, List, [], ◌∷◌, Bytes, arith, length,
  length-append, ◌∙◌, ◌==◌, if◌then◌else◌,
}
use mtack.Vt100.{Vt100}
use mtack.Process.Types.{Lifecycle, is_stopped, is_running, is_stopping, is_failed, Process}
use mtack.Process.Ops.{write, writer_takes}

-- A key is sent, or the writer task takes a message.
pub data InputOp : Type 0 where
  key : Bytes → InputOp
  taken : InputOp

abbrev pub messages_of : Lifecycle → List Bytes
messages_of (is_running r) = r.input.messages
messages_of _ = []

abbrev pub keys : List InputOp → List Bytes
keys [] = []
keys (key bytes ∷ ops) = bytes ∷ keys ops
keys (taken ∷ ops) = keys ops

abbrev pub Prefix : List Bytes → List Bytes → Type 0
Prefix [] ys = Unit {0}
Prefix (x ∷ xs) [] = ⊥
Prefix (x ∷ xs) (y ∷ ys) = (x ≡ y) × Prefix xs ys

abbrev is_closed_in : Lifecycle → Bool
is_closed_in (is_running r) = r.input.is_closed
is_closed_in _ = true

module _ {vt : Vt100} where
  abbrev pub input_step : Process vt → InputOp → Process vt
  input_step p (key bytes) = write p bytes
  input_step p taken = writer_takes p

  abbrev pub pending : Process vt → List Bytes
  pending p = messages_of p.lifecycle

  -- The keys that find their way into the queue, in order.
  abbrev pub accepted : Process vt → List InputOp → List Bytes
  accepted p [] = []
  accepted p (key bytes ∷ ops) =
      let rest = accepted (write p bytes) ops in
      if length (pending (write p bytes)) == suc (length (pending p)) then bytes ∷ rest else rest
  accepted p (taken ∷ ops) = accepted (writer_takes p) ops

  -- The writer does not catch up while input is being dropped.
  abbrev pub StaysBehind : Process vt → List InputOp → Type 0
  StaysBehind p [] = Unit {0}
  StaysBehind p (op ∷ ops) =
      (p.dropping_input ≡ true → 0 < length (pending p)) × StaysBehind (input_step p op) ops

  step_dropping :
      (l : Lifecycle) (p : Process vt) (bytes : Bytes)
      → p.lifecycle ≡ l
      → p.dropping_input ≡ true
      → 0 < length (pending p)
      → write p bytes ≡ p
  unfolding write
  step_dropping (is_running r) p bytes e d h = ground arith
  step_dropping is_stopped p bytes e d h = ground arith
  step_dropping (is_stopping b) p bytes e d h = ground arith
  step_dropping is_failed p bytes e d h = ground arith

  taken_dropping :
      (l : Lifecycle) (p : Process vt)
      → p.lifecycle ≡ l
      → ((writer_takes p).dropping_input ≡ p.dropping_input)
        × (is_closed_in (writer_takes p).lifecycle ≡ is_closed_in p.lifecycle)
  unfolding writer_takes
  taken_dropping (is_running r) p e = ground arith
  taken_dropping _ p e = ground arith

  accepted_dropping :
      (p : Process vt) (ops : List InputOp)
      → p.dropping_input ≡ true
      → StaysBehind p ops
      → accepted p ops ≡ []
  accepted_dropping p [] d h = refl
  accepted_dropping p (key bytes ∷ ops) d h =
      let same = step_dropping p.lifecycle p bytes refl d (h.0 d) in
      rw same (ground (arith, accepted_dropping p ops d (rw same at (h.1))))
  accepted_dropping p (taken ∷ ops) d h =
      accepted_dropping (writer_takes p) ops ((taken_dropping p.lifecycle p refl).0 ∙ d) h.1

  step_closed :
      (l : Lifecycle) (p : Process vt) (bytes : Bytes)
      → p.lifecycle ≡ l
      → is_closed_in l ≡ true
      → (is_closed_in (write p bytes).lifecycle ≡ true)
        × (length (pending (write p bytes)) ≡ length (pending p))
  unfolding write
  step_closed (is_running r) p bytes e c = ground arith
  step_closed _ p bytes e c = ground arith

  accepted_closed :
      (p : Process vt) (ops : List InputOp) → is_closed_in p.lifecycle ≡ true → accepted p ops ≡ []
  accepted_closed p [] c = refl
  accepted_closed p (key bytes ∷ ops) c =
      let s = step_closed p.lifecycle p bytes refl c in
      ground (arith, s, accepted_closed (write p bytes) ops s.0)
  accepted_closed p (taken ∷ ops) c =
      accepted_closed (writer_takes p) ops ((taken_dropping p.lifecycle p refl).1 ∙ c)

  -- What a key does to a process that is not dropping input.
  step_open :
      (l : Lifecycle) (p : Process vt) (bytes : Bytes)
      → p.lifecycle ≡ l
      → p.dropping_input ≡ false
      → (length (pending (write p bytes)) ≡ suc (length (pending p))
          × ((write p bytes).dropping_input ≡ false))
        ⊎ ((length (pending (write p bytes)) ≡ length (pending p))
            × (((write p bytes).dropping_input ≡ true)
                ⊎ (is_closed_in (write p bytes).lifecycle ≡ true)))
  unfolding write
  step_open (is_running r) p bytes e d = ground (arith, length-append r.input.messages (bytes ∷ []))
  step_open is_stopped p bytes e d = ground arith
  step_open (is_stopping b) p bytes e d = ground arith
  step_open is_failed p bytes e d = ground arith

  -- For a process that is not dropping input, and whose writer does not catch up once input is
  -- dropped, the keys that reach the queue are a prefix of what was typed: an overflow loses one
  -- clean tail and leaves no holes.
  pub accepted-Prefix :
      (p : Process vt) (ops : List InputOp)
      → p.dropping_input ≡ false
      → StaysBehind p ops
      → Prefix (accepted p ops) (keys ops)
  accepted-Prefix p [] d h = tt
  accepted-Prefix p (key bytes ∷ ops) d h = elim (step_open p.lifecycle p bytes refl d) [
    | inl (grew, still) ↦ ground (arith, accepted-Prefix (write p bytes) ops still h.1)
    | inr (same, inl drops) ↦ ground (arith, accepted_dropping (write p bytes) ops drops h.1)
    | inr (same, inr closed) ↦ ground (arith, accepted_closed (write p bytes) ops closed)
  ]
  accepted-Prefix p (taken ∷ ops) d h =
      accepted-Prefix (writer_takes p) ops ((taken_dropping p.lifecycle p refl).0 ∙ d) h.1
