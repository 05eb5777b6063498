-- ===== src/Pipeline/Transport/System/Turns.antt =====
-- What a turn of the sender or the receiver in crates/pipeline/src/bounded/transport.rs has found when
-- it ends, and sums of charges.
use datacrate.Common.{
  ℕ, ◌+◌, ◌-◌, ◌≤◌, ◌<◌, ◌≡◌, ◌⊎◌, refl, max, true, false, List, [], ◌∷◌, ◌++◌, Result, ok, err,
  arith, length, append_assoc, leb→le, inl, inr,
}
use datacrate.Pipeline.Transport.{
  Message, State, Control, admitted, received, parked, message, closed, send_turn, recv_turn,
  admission, take_front, count_available, queue_is_empty, enqueue,
}
use datacrate.Pipeline.Transport.System.{charge_of, charges}

abbrev pub sum : List ℕ → ℕ
sum [] = 0
sum (n ∷ ns) = n + sum ns

pub sum-append : (xs ys : List ℕ) → sum (xs ++ ys) ≡ sum xs + sum ys
sum-append [] ys = omega arith
sum-append (x ∷ xs) ys = omega (arith, sum-append xs ys)

module _ {Batch Io : Type 0} where
  pub charges-append :
      (xs ys : List (Message Batch Io)) → charges (xs ++ ys) ≡ charges xs ++ charges ys
  charges-append [] ys = refl
  charges-append (x ∷ xs) ys = rw (charges-append xs ys, append_assoc)

  pub queue_cases : (q : List (Message Batch Io)) → (q ≡ []) ⊎ (queue_is_empty q ≡ false)
  unfolding queue_is_empty
  queue_cases [] = inl refl
  queue_cases (_ ∷ _) = inr refl

  pub take_front-received :
      (s u : State Batch Io) (q : List (Message Batch Io)) (m : Message Batch Io)
      → take_front s q ≡ received m u
      → (rest : List (Message Batch Io)) × (q ≡ m ∷ rest)
        × (u ≡ record s { queue = rest; receiver_waiting = false })
  unfolding take_front
  take_front-received s u [] m e = ground arith
  take_front-received s u (x ∷ q) m e = (q, cc, cc)

  pub take_front_parked :
      (s u : State Batch Io) (q : List (Message Batch Io))
      → take_front s q ≡ parked u
      → (q ≡ []) × (u ≡ record s { receiver_waiting = true })
  unfolding take_front
  take_front_parked s u [] e = ground arith
  take_front_parked s u (x ∷ q) e = cc

  pub recv_received :
      (s u : State Batch Io) (m : Message Batch Io)
      → recv_turn s ≡ received m u
      → take_front s s.queue ≡ received m u
  unfolding recv_turn
  recv_received s u m e = ground arith

  pub recv_parked :
      (s u : State Batch Io) → recv_turn s ≡ parked u → take_front s s.queue ≡ parked u
  unfolding recv_turn
  recv_parked s u e = ground arith

  pub cons_nil : {m : Message Batch Io} {q : List (Message Batch Io)} → m ∷ q ≡ [] → ⊥
  cons_nil e = cc

  pub open_state : (s : State Batch Io) → closed s ≡ false → closed s ≡ true → ⊥
  open_state s f t = cc

  pub message-charge :
      (batch : Result Io Batch) (bytes : ℕ) (sizes : Batch → List ℕ) (c : Control)
      → admission sizes c batch ≡ ok bytes
      → sum (charge_of (message batch bytes)) ≡ bytes
  unfolding admission
  message-charge (ok b) bytes sizes c e = omega arith
  message-charge (err x) bytes sizes c e = ground arith

  module _ (sizes : Batch → List ℕ) (c : Control) where
    available_slots :
        (s : State Batch Io) → count_available c s ≡ true → length s.queue < max 1 c.capacity
    unfolding count_available queue_is_empty
    available_slots s h = elim (queue_cases s.queue) [
      | inl e ↦ rw e (omega arith)
      | inr full ↦ ground arith
    ]

    pub send_admitted :
        (s u : State Batch Io) (batch : Result Io Batch) (bytes : ℕ)
        → send_turn c s batch bytes ≡ admitted u
        → (closed s ≡ false)
          × (bytes ≤ c.limit - s.bytes)
          × (length s.queue < max 1 c.capacity)
          × (u ≡ enqueue s (message batch bytes) bytes)
    unfolding send_turn
    send_admitted s u batch bytes e =
        ground (arith, available_slots s, leb→le bytes (c.limit - s.bytes))
