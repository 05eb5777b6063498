-- ===== src/Pipeline/Transport/System/Guarantees.antt =====
-- What the callers of crates/pipeline/src/bounded/transport.rs rely on, in every reachable state.
use datacrate.Common.{
  ℕ, ◌+◌, ◌-◌, ◌≤◌, ◌<◌, ◌≡◌, ◌⊎◌, refl, sym, ap, ◌∙◌, true, false, List, [], ◌∷◌, ◌++◌, some,
  Result, ok, arith, append-nil, leb, le→leb, Bool-cases, inl, inr,
}
use datacrate.Pipeline.Transport.{
  BatchLease, State, Control, admitted, message, closed, usize_max, send_turn, delivery_turn,
  finished, cancel, drop_sender, drop_receiver, release, admission, grow, count_available,
  queue_is_empty, enqueue,
}
use datacrate.Pipeline.Transport.System.{
  System, charges, Step, Later, now, later, sends, receives, parks, cancels, drops_sender,
  drops_receiver, drops_lease, regrows, Reach,
}
use datacrate.Pipeline.Transport.System.Turns.{
  sum, sum-append, send_admitted, take_front-received, take_front_parked, recv_received,
  recv_parked, cons_nil, open_state, queue_cases,
}
use datacrate.Pipeline.Transport.System.Invariant.{Reach-Inv, grown}

admission-le :
    {Batch Io : Type 0} (sizes : Batch → List ℕ) (c : Control) (batch : Result Io Batch) (bytes : ℕ)
    → admission sizes c batch ≡ ok bytes
    → bytes ≤ c.limit
unfolding admission
admission-le sizes c batch bytes a = ground arith

slot_free :
    {Batch Io : Type 0} (c : Control) (s : State Batch Io)
    → s.queue ≡ []
    → (0 < c.capacity) ⊎ (s.receiver_waiting ≡ true)
    → count_available c s ≡ true
unfolding count_available queue_is_empty
slot_free c s q w = rw q (ground arith)

not_ok :
    {Batch Io : Type 0} (c : Control) (s : State Batch Io)
    → closed s ≡ true
    → delivery_turn c s ≡ finished (ok tt)
    → ⊥
unfolding delivery_turn
not_ok c s cl d = ground arith

delivered_empty :
    {Batch Io : Type 0} (c : Control) (s : State Batch Io)
    → c.capacity ≡ 0
    → closed s ≡ false
    → delivery_turn c s ≡ finished (ok tt)
    → s.queue ≡ []
unfolding delivery_turn queue_is_empty
delivered_empty c s z op d = elim (queue_cases s.queue) [ inl e ↦ e | inr full ↦ ground arith ]

module _ {Batch Io : Type 0} (sizes : Batch → List ℕ) (c : Control) where
  -- Dropping any held lease subtracts a charge that the count contains, so `bytes` never
  -- underflows; and on a budget within `usize` no sum of charges overflows.
  pub release_exact :
      (s : System Batch Io) (before : List ℕ) (n : ℕ) (after : List ℕ)
      → Reach sizes c s
      → c.limit ≤ usize_max
      → s.held ≡ before ++ n ∷ after
      → (n ≤ s.shared.bytes)
        × ((release s.shared (some n)).bytes + n ≡ s.shared.bytes)
        × (s.shared.bytes ≤ usize_max)
  unfolding release
  release_exact s before n after r small e =
      let v = Reach-Inv sizes c r in
      let fits : n ≤ s.shared.bytes =
        omega (arith, v.accounted, ap sum e, sum-append before (n ∷ after)) in
      (fits, omega arith, omega (arith, v.within))

  -- Once the queue is empty and every lease is dropped, no byte is accounted.
  pub drained :
      (s : System Batch Io)
      → Reach sizes c s
      → s.shared.queue ≡ []
      → s.held ≡ []
      → s.shared.bytes ≡ 0
  drained s r q h =
      let v = Reach-Inv sizes c r in
      omega (arith, v.accounted, ap (λ x. sum (charges x)) q, ap sum h)

  -- On a rendezvous channel, a `send` that returns `Ok` has handed over every message sent so far.
  pub rendezvous_delivered :
      (s : System Batch Io)
      → Reach sizes c s
      → c.capacity ≡ 0
      → delivery_turn c s.shared ≡ finished (ok tt)
      → s.taken ≡ s.sent
  rendezvous_delivered s r z d =
      let v = Reach-Inv sizes c r in
      elim (Bool-cases (closed s.shared)) [
        | inl cl ↦ absurd (not_ok c s.shared cl d)
        | inr op ↦ sym (
            v.in_order op
            ∙ ap (◌++◌ s.taken) (delivered_empty c s.shared z op d)
            ∙ append-nil s.taken)
      ]

  -- With nothing queued or held, a batch within the budget is admitted as soon as the count allows.
  pub send_progress :
      (s : System Batch Io) (batch : Result Io Batch) (bytes : ℕ)
      → Reach sizes c s
      → closed s.shared ≡ false
      → s.shared.queue ≡ []
      → s.held ≡ []
      → (0 < c.capacity) ⊎ (s.shared.receiver_waiting ≡ true)
      → admission sizes c batch ≡ ok bytes
      → send_turn c s.shared batch bytes ≡ admitted (enqueue s.shared (message batch bytes) bytes)
  unfolding send_turn
  send_progress s batch bytes r op q h w a =
      let v = Reach-Inv sizes c r in
      let none_yet : s.shared.bytes ≡ 0 = drained s r q h in
      let small : bytes ≤ c.limit = admission-le sizes c batch bytes a in
      let fits : leb bytes (c.limit - s.shared.bytes) ≡ true = le→leb _ _ (omega arith) in
      let room : count_available c s.shared ≡ true = slot_free c s.shared q w in
      rw (op, room, fits, send_turn)

  refused_closed :
      (s u : State Batch Io) (batch : Result Io Batch) (bytes : ℕ)
      → closed s ≡ true
      → send_turn c s batch bytes ≡ admitted u
      → ⊥
  refused_closed s u batch bytes cl e = open_state s (send_admitted sizes c s u batch bytes e).0 cl

  abbrev Quiet : System Batch Io → System Batch Io → Type 0
  Quiet s t =
      (closed t.shared ≡ true) × (t.sent ≡ s.sent) × (t.taken ≡ s.taken) × (t.shared.queue ≡ [])

  grow-closed :
      (s u : State Batch Io) (batch : Batch) (n m bytes : ℕ) (lease : BatchLease Batch)
      → grow sizes c s batch n bytes ≡ (ok lease, u)
      → lease.reservation ≡ some m
      → (closed u ≡ closed s) × (u.queue ≡ s.queue)
  grow-closed s u batch n m bytes lease g r = elim (grown sizes c s u batch n m bytes lease g r) [
    | inl (_, same) ↦ rw same (refl, refl)
    | inr (_, _, same) ↦ rw same (refl, refl)
  ]

  Quiet-Step :
      {s t : System Batch Io}
      → closed s.shared ≡ true
      → s.shared.queue ≡ []
      → Step sizes c s t
      → Quiet s t
  unfolding drop_sender release cancel drop_receiver
  Quiet-Step {s} cl q (sends batch bytes u a e same) =
      absurd (refused_closed s.shared u batch bytes cl e)
  Quiet-Step {s} cl q (receives m u e same) =
      let (rest, full, _) =
        take_front-received s.shared u s.shared.queue m (recv_received s.shared u m e) in
      absurd (cons_nil (sym full ∙ q))
  Quiet-Step {s} cl q (parks u e same) =
      let (_, parked_same) =
        take_front_parked s.shared u s.shared.queue (recv_parked s.shared u e) in
      rw (same, parked_same) (cl, refl, refl, q)
  Quiet-Step {s} cl q (cancels same) = rw same (refl, refl, refl, refl)
  Quiet-Step {s} cl q (drops_sender same) = rw same (cl, refl, refl, q)
  Quiet-Step {s} cl q (drops_receiver same) = rw same (ground arith, refl, refl, refl)
  Quiet-Step {s} cl q (drops_lease before n after e same) = rw same (cl, refl, refl, q)
  Quiet-Step {s} cl q (regrows before n after batch bytes lease m u e g r same) =
      let (k, l) = grow-closed s.shared u batch n m bytes lease g r in
      rw same (k ∙ cl, refl, refl, l ∙ q)

  -- Once cancelled or without its receiver, a reachable channel stays closed and empty, and nothing
  -- more is sent or taken, whatever happens later.
  pub closed_for_good :
      (s t : System Batch Io)
      → Reach sizes c s
      → closed s.shared ≡ true
      → Later sizes c s t
      → (closed t.shared ≡ true) × (t.sent ≡ s.sent) × (t.taken ≡ s.taken) × (t.shared.queue ≡ [])
  closed_for_good s t r cl now = (cl, refl, refl, (Reach-Inv sizes c r).emptied cl)
  closed_for_good s t r cl (later {t = m} l st) =
      let (mc, ms, mt, mq) = closed_for_good s m r cl l in
      let (tc, ts, tt', tq) = Quiet-Step mc mq st in (tc, ts ∙ ms, tt' ∙ mt, tq)
