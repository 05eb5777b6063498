-- ===== src/Pipeline/Transport/Examples.antt =====
-- Runs of crates/pipeline/src/bounded/transport.rs over batches that are their own column sizes.
use datacrate.Common.{
  ℕ, ◌+◌, ◌≤◌, ◌≡◌, refl, inr, true, false, List, [], ◌∷◌, ◌++◌, some, Result, ok, err, arith, ltb,
  if◌then◌else◌,
}
use datacrate.Pipeline.Error.{byte_charge_overflow, batch_too_large, batch_growth_exceeds_budget}
use datacrate.Pipeline.Transport.{
  BatchLease, State, Control, admitted, message, closed, usize_max, channel, checked_charge, charge,
  admission, send_turn, delivery_turn, recv_turn, release, cancel, transform, enqueue, grow,
}
use datacrate.Pipeline.Transport.System.{
  System, sends, receives, cancels, parks, Reach, start, reach_on, now, later,
}
use datacrate.Pipeline.Transport.System.Invariant.{Inv, Reach-Inv}
use datacrate.Pipeline.Transport.System.Guarantees.{
  release_exact, drained, rendezvous_delivered, send_progress, closed_for_good,
}
use datacrate.Pipeline.Transport.Charge.{checked_charge_lem, kept, transform_accounts}

abbrev Batch : Type 0
Batch = List ℕ

abbrev sizes : Batch → List ℕ
sizes b = b

abbrev budget : Control
budget = record { capacity = 2; limit = 100 }

abbrev rendezvous : Control
rendezvous = record { capacity = 0; limit = 100 }

abbrev small : Result ℕ Batch
small = ok (20 ∷ 10 ∷ [])

abbrev fresh : State Batch ℕ
unfolding channel
fresh = channel

-- One batch of 30 bytes is queued.
abbrev one_queued : System Batch ℕ
unfolding channel enqueue
one_queued = record {
  shared = enqueue channel (message small 30) 30;
  held = [];
  sent = message small 30 ∷ [];
  taken = [];
}

-- It is received.
abbrev one_held : System Batch ℕ
unfolding channel enqueue
one_held = record {
  shared = record (enqueue channel (message small 30) 30) { queue = []; receiver_waiting = false };
  held = 30 ∷ [];
  sent = message small 30 ∷ [];
  taken = message small 30 ∷ [];
}

one_queued-Reach : Reach sizes budget one_queued
unfolding channel enqueue admission send_turn checked_charge
one_queued-Reach =
    reach_on start (sends small 30 (enqueue channel (message small 30) 30) refl refl refl)

one_held-Reach : Reach sizes budget one_held
unfolding channel enqueue recv_turn
one_held-Reach = reach_on one_queued-Reach (receives (message small 30) one_held.shared refl refl)

Reach-Inv_example : Inv budget one_held
Reach-Inv_example = Reach-Inv sizes budget one_held-Reach

release_exact_test :
    (30 ≤ one_held.shared.bytes)
    × ((release one_held.shared (some 30)).bytes + 30 ≡ one_held.shared.bytes)
    × (one_held.shared.bytes ≤ usize_max)
unfolding channel enqueue
release_exact_test = release_exact sizes budget one_held [] 30 [] one_held-Reach (omega arith) refl

-- The receiver of a rendezvous channel waits.
abbrev ready : System Batch ℕ
unfolding channel
ready = record {
  shared = record channel { receiver_waiting = true };
  held = [];
  sent = [];
  taken = [];
}

ready-Reach : Reach sizes rendezvous ready
unfolding channel recv_turn
ready-Reach = reach_on start (parks ready.shared refl refl)

drained_test : ready.shared.bytes ≡ 0
unfolding channel
drained_test = drained sizes rendezvous ready ready-Reach refl refl

send_progress_example :
    send_turn rendezvous ready.shared small 30
    ≡ admitted (enqueue ready.shared (message small 30) 30)
unfolding channel admission checked_charge
send_progress_example =
    send_progress sizes rendezvous ready small 30 ready-Reach refl refl refl (inr refl) refl

abbrev handed : System Batch ℕ
unfolding channel enqueue
handed = record {
  shared = record (enqueue ready.shared (message small 30) 30) {
    queue = [];
    receiver_waiting = false;
  };
  held = 30 ∷ [];
  sent = message small 30 ∷ [];
  taken = message small 30 ∷ [];
}

handed-Reach : Reach sizes rendezvous handed
unfolding channel enqueue admission send_turn checked_charge recv_turn
handed-Reach =
    reach_on
      (reach_on ready-Reach
        (sends small 30 (enqueue ready.shared (message small 30) 30) refl refl refl))
      (receives (message small 30) handed.shared refl refl)

rendezvous_delivered_example : handed.taken ≡ handed.sent
unfolding channel enqueue delivery_turn
rendezvous_delivered_example = rendezvous_delivered sizes rendezvous handed handed-Reach refl refl

abbrev stopped : System Batch ℕ
unfolding channel enqueue cancel
stopped = record one_queued { shared = (cancel one_queued.shared).0; held = 30 ∷ [] }

stopped-Reach : Reach sizes budget stopped
unfolding channel enqueue cancel
stopped-Reach = reach_on one_queued-Reach (cancels refl)

closed_for_good_example :
    (closed stopped.shared ≡ true)
    × (stopped.sent ≡ stopped.sent)
    × (stopped.taken ≡ stopped.taken)
    × (stopped.shared.queue ≡ [])
unfolding channel enqueue cancel
closed_for_good_example =
    closed_for_good sizes budget stopped stopped stopped-Reach refl (later now (cancels refl))

checked_charge_lem_example :
    checked_charge {Io = ℕ} (20 ∷ 10 ∷ [])
    ≡ (if ltb usize_max 30 then err byte_charge_overflow else ok 30)
checked_charge_lem_example = checked_charge_lem {Io = ℕ} (20 ∷ 10 ∷ [])

-- The test `byte_admission_transform_growth_does_not_wait_on_queued_bytes` in small.
abbrev lease : BatchLease Batch
lease = record { batch = 20 ∷ 10 ∷ []; reservation = some 30 }

doubled : Batch → Result ℕ Batch
doubled b = ok (b ++ b)

transform_accounts_example :
    ((transform sizes budget doubled lease one_held.shared).1.bytes + 30
      ≡ one_held.shared.bytes + kept (transform sizes budget doubled lease one_held.shared).0)
    × ((transform sizes budget doubled lease one_held.shared).1.bytes ≤ 100)
    × ((transform sizes budget doubled lease one_held.shared).1.queue ≡ one_held.shared.queue)
unfolding channel enqueue
transform_accounts_example =
    transform_accounts sizes budget doubled lease one_held.shared (omega arith) (omega arith)

transform_grows :
    (transform sizes budget doubled lease one_held.shared).0
    ≡ ok (record { batch = 20 ∷ 10 ∷ 20 ∷ 10 ∷ []; reservation = some 60 })
unfolding channel enqueue transform grow doubled checked_charge charge
transform_grows = refl

over_budget :
    (transform sizes (record budget { limit = 50 }) doubled lease one_held.shared).0
    ≡ err (batch_growth_exceeds_budget 60 50)
unfolding channel enqueue transform grow doubled checked_charge charge
over_budget = refl

too_large : admission sizes (record budget { limit = 20 }) small ≡ err (batch_too_large 30 20)
unfolding admission checked_charge
too_large = refl
