-- ===== src/Pipeline/Transport/System/Invariant.antt =====
-- What every reachable state of the transport satisfies.
use datacrate.Common.{
  ℕ, ◌+◌, ◌-◌, ◌≤◌, ◌<◌, ◌≡◌, ◌⊎◌, refl, sym, ap, ◌∙◌, max, true, false, List, [], ◌∷◌, ◌++◌, some,
  Result, ok, arith, length, length-append, append_assoc, Bool-cases, inl, inr,
}
use datacrate.Pipeline.Transport.{
  BatchLease, Message, State, Control, admitted, received, parked, message, closed, channel,
  send_turn, recv_turn, cancel, drop_sender, drop_receiver, release, admission, grow, enqueue,
}
use datacrate.Pipeline.Transport.System.{
  System, charge_of, charges, initial, Step, sends, receives, parks, cancels, drops_sender,
  drops_receiver, drops_lease, regrows, Reach, start, reach_on,
}
use datacrate.Pipeline.Transport.System.Turns.{
  sum, sum-append, charges-append, take_front-received, take_front_parked, recv_received,
  recv_parked, cons_nil, open_state, message-charge, send_admitted,
}

module _ {Batch Io : Type 0} where
  -- `bytes` is the charge of every lease that is queued or held, within the budget, and the queue
  -- is within its capacity; until the channel closes, what was sent is what was taken and what is
  -- queued, in order, and once it is closed the queue is empty.
  pub record Inv (c : Control) (s : System Batch Io) : Type 0 where
    pub accounted : s.shared.bytes ≡ sum (charges s.shared.queue) + sum s.held
    pub within : s.shared.bytes ≤ c.limit
    pub below_peak : s.shared.bytes ≤ s.shared.peak
    pub peak_within : s.shared.peak ≤ c.limit
    pub slots : length s.shared.queue ≤ max 1 c.capacity
    pub emptied : closed s.shared ≡ true → s.shared.queue ≡ []
    pub in_order : closed s.shared ≡ false → s.sent ≡ s.taken ++ s.shared.queue
    pub prefix : (rest : List (Message Batch Io)) × (s.sent ≡ s.taken ++ rest)

  initial-Inv : (c : Control) → Inv c initial
  unfolding channel
  initial-Inv c = record {
    accounted = refl;
    within = omega arith;
    below_peak = omega arith;
    peak_within = omega arith;
    slots = omega arith;
    emptied = λ _. refl;
    in_order = λ _. refl;
    prefix = ([], refl);
  }

  module _ (sizes : Batch → List ℕ) (c : Control) where
    sends-Inv :
        (s : System Batch Io) (batch : Result Io Batch) (bytes : ℕ) (u : State Batch Io)
        → Inv c s
        → admission sizes c batch ≡ ok bytes
        → send_turn c s.shared batch bytes ≡ admitted u
        → Inv c (record s { shared = u; sent = s.sent ++ message batch bytes ∷ [] })
    unfolding enqueue
    sends-Inv s batch bytes u v a e =
        let (op, fits, room, same) = send_admitted sizes c s.shared u batch bytes e in
        let m = message batch bytes in
        rw same (record {
          accounted = omega (
            arith,
            v.accounted,
            message-charge batch bytes sizes c a,
            sum-append (charges s.shared.queue) (charge_of m),
            ap sum (charges-append s.shared.queue (m ∷ [])),
            sum-append (charges s.shared.queue) (charge_of m ++ []),
            sum-append (charge_of m) [],
          );
          within = omega (arith, v.within);
          below_peak = omega arith;
          peak_within = omega (arith, v.within, v.peak_within);
          slots = omega (arith, length-append s.shared.queue (m ∷ []));
          emptied = λ cl. absurd (open_state s.shared op cl);
          in_order = λ _. rw (v.in_order op, append_assoc);
          prefix = (s.shared.queue ++ m ∷ [], rw (v.in_order op, append_assoc));
        })

    receives-Inv :
        (s : System Batch Io) (m : Message Batch Io) (u : State Batch Io)
        → Inv c s
        → recv_turn s.shared ≡ received m u
        → Inv c (record s { shared = u; held = charge_of m ++ s.held; taken = s.taken ++ m ∷ [] })
    receives-Inv s m u v e =
        let (rest, q, same) =
          take_front-received s.shared u s.shared.queue m (recv_received s.shared u m e) in
        let op : closed s.shared ≡ false = elim (Bool-cases (closed s.shared)) [
          | inr f ↦ f
          | inl t ↦ absurd (cons_nil (sym q ∙ v.emptied t))
        ] in
        let order : s.sent ≡ (s.taken ++ m ∷ []) ++ rest =
          v.in_order op ∙ ap (◌++◌ s.taken) q ∙ sym (append_assoc s.taken (m ∷ []) rest) in
        rw same (record {
          accounted = omega (
            arith,
            v.accounted,
            ap (λ x. sum (charges x)) q,
            sum-append (charge_of m) (charges rest),
            sum-append (charge_of m) s.held,
          );
          within = v.within;
          below_peak = v.below_peak;
          peak_within = v.peak_within;
          slots = omega (arith, v.slots, ap length q);
          emptied = λ t. absurd (open_state s.shared op t);
          in_order = λ _. order;
          prefix = (rest, order);
        })

    parks-Inv :
        (s : System Batch Io) (u : State Batch Io)
        → Inv c s
        → recv_turn s.shared ≡ parked u
        → Inv c (record s { shared = u })
    parks-Inv s u v e =
        let (q, same) = take_front_parked s.shared u s.shared.queue (recv_parked s.shared u e) in
        rw same (record {
          accounted = v.accounted;
          within = v.within;
          below_peak = v.below_peak;
          peak_within = v.peak_within;
          slots = v.slots;
          emptied = v.emptied;
          in_order = v.in_order;
          prefix = v.prefix;
        })

    cancels-Inv :
        (s : System Batch Io)
        → Inv c s
        → Inv c (record s {
          shared = (cancel s.shared).0;
          held = charges (cancel s.shared).1 ++ s.held;
        })
    unfolding cancel
    cancels-Inv s v = record {
      accounted = omega (arith, v.accounted, sum-append (charges s.shared.queue) s.held);
      within = v.within;
      below_peak = v.below_peak;
      peak_within = v.peak_within;
      slots = omega arith;
      emptied = λ _. refl;
      in_order = λ f. cc;
      prefix = v.prefix;
    }

    drops_receiver-Inv :
        (s : System Batch Io)
        → Inv c s
        → Inv c (record s {
          shared = (drop_receiver s.shared).0;
          held = charges (drop_receiver s.shared).1 ++ s.held;
        })
    unfolding drop_receiver
    drops_receiver-Inv s v = record {
      accounted = omega (arith, v.accounted, sum-append (charges s.shared.queue) s.held);
      within = v.within;
      below_peak = v.below_peak;
      peak_within = v.peak_within;
      slots = omega arith;
      emptied = λ _. refl;
      in_order = λ f. ground arith;
      prefix = v.prefix;
    }

    drops_sender-Inv :
        (s : System Batch Io) → Inv c s → Inv c (record s { shared = drop_sender s.shared })
    unfolding drop_sender
    drops_sender-Inv s v = record {
      accounted = v.accounted;
      within = v.within;
      below_peak = v.below_peak;
      peak_within = v.peak_within;
      slots = v.slots;
      emptied = v.emptied;
      in_order = v.in_order;
      prefix = v.prefix;
    }

    drops_lease-Inv :
        (s : System Batch Io) (before : List ℕ) (n : ℕ) (after : List ℕ)
        → Inv c s
        → s.held ≡ before ++ n ∷ after
        → Inv c (record s { shared = release s.shared (some n); held = before ++ after })
    unfolding release
    drops_lease-Inv s before n after v e = record {
      accounted =
          omega
            (arith, v.accounted, ap sum e, sum-append before (n ∷ after), sum-append before after);
      within = omega (arith, v.within);
      below_peak = omega (arith, v.below_peak);
      peak_within = v.peak_within;
      slots = v.slots;
      emptied = v.emptied;
      in_order = v.in_order;
      prefix = v.prefix;
    }

    pub grown :
        (s u : State Batch Io) (batch : Batch) (n m bytes : ℕ) (lease : BatchLease Batch)
        → grow sizes c s batch n bytes ≡ (ok lease, u)
        → lease.reservation ≡ some m
        → ((m ≡ n) × (u ≡ s))
          ⊎ ((n < m)
              × (m - n ≤ c.limit - s.bytes)
              × (u ≡ record s { bytes = s.bytes + (m - n); peak = max s.peak (s.bytes + (m - n)) }))
    unfolding grow
    grown s u batch n m bytes lease g r = ground arith

    regrows-Inv :
        (s : System Batch Io) (before : List ℕ) (n : ℕ) (after : List ℕ) (batch : Batch) (bytes : ℕ)
        (lease : BatchLease Batch) (m : ℕ) (u : State Batch Io)
        → Inv c s
        → s.held ≡ before ++ n ∷ after
        → grow sizes c s.shared batch n bytes ≡ (ok lease, u)
        → lease.reservation ≡ some m
        → Inv c (record s { shared = u; held = before ++ m ∷ after })
    regrows-Inv s before n after batch bytes lease m u v e g r =
        elim (grown s.shared u batch n m bytes lease g r) [
          | inl (k, same) ↦ rw (same, k, ← e) v
          | inr (lt, fits, same) ↦ rw same (record {
            accounted = omega (
              arith,
              v.accounted,
              ap sum e,
              sum-append before (n ∷ after),
              sum-append before (m ∷ after),
            );
            within = omega (arith, v.within);
            below_peak = omega arith;
            peak_within = omega (arith, v.within, v.peak_within);
            slots = v.slots;
            emptied = v.emptied;
            in_order = v.in_order;
            prefix = v.prefix;
          })
        ]

    Step-Inv : {s t : System Batch Io} → Step sizes c s t → Inv c s → Inv c t
    Step-Inv {s} (sends batch bytes u a e same) v = rw same (sends-Inv s batch bytes u v a e)
    Step-Inv {s} (receives m u e same) v = rw same (receives-Inv s m u v e)
    Step-Inv {s} (parks u e same) v = rw same (parks-Inv s u v e)
    Step-Inv {s} (cancels same) v = rw same (cancels-Inv s v)
    Step-Inv {s} (drops_sender same) v = rw same (drops_sender-Inv s v)
    Step-Inv {s} (drops_receiver same) v = rw same (drops_receiver-Inv s v)
    Step-Inv {s} (drops_lease before n after e same) v =
        rw same (drops_lease-Inv s before n after v e)
    Step-Inv {s} (regrows before n after batch bytes lease m u e g r same) v =
        rw same (regrows-Inv s before n after batch bytes lease m u v e g r)

    -- Every interleaving keeps the books: the byte count is the charge of all queued and held
    -- leases, it and its peak stay within the budget, the queue stays within its capacity (one slot
    -- if the capacity is 0), a closed channel holds nothing, and messages come out in the order in
    -- which they went in.
    pub Reach-Inv : {s : System Batch Io} → Reach sizes c s → Inv c s
    Reach-Inv start = initial-Inv c
    Reach-Inv (reach_on r st) = Step-Inv st (Reach-Inv r)
