-- ===== src/Pipeline/Transport/System.antt =====
-- Every interleaving of a producer, a consumer, a canceller and lease owners over one control of
-- crates/pipeline/src/bounded/transport.rs, one critical section at a time.
pub mod Turns
pub mod Invariant
pub mod Guarantees
use datacrate.Common.{ℕ, ◌+◌, ◌≡◌, Bool, List, [], ◌∷◌, ◌++◌, Option, none, some, Result, ok, err}
use datacrate.Pipeline.Transport.{
  BatchLease, Message, State, Control, SendTurn, admitted, RecvTurn, received, parked, message,
  channel, send_turn, recv_turn, cancel, drop_sender, drop_receiver, release, admission, grow,
}

-- The shared state; the charges of the leases that have left the queue and are not dropped; and
-- what has gone into the queue and come out by `recv` so far.
pub record System (Batch Io : Type 0) : Type 0 where
  pub shared : State Batch Io
  pub held : List ℕ
  pub sent : List (Message Batch Io)
  pub taken : List (Message Batch Io)

module _ {Batch Io : Type 0} where
  -- The charge that dropping a message gives back.
  abbrev pub charge_of : Message Batch Io → List ℕ
  charge_of (ok lease) = elim lease.reservation [ some n ↦ n ∷ [] | none ↦ [] ]
  charge_of (err _) = []

  abbrev pub charges : List (Message Batch Io) → List ℕ
  charges [] = []
  charges (m ∷ ms) = charge_of m ++ charges ms

  abbrev pub initial : System Batch Io
  unfolding channel
  initial = record { shared = channel; held = []; sent = []; taken = [] }

pub data Step {Batch Io : Type 0} (sizes : Batch → List ℕ) (c : Control) (s t : System Batch Io)
    : Type 0 where
  -- `send` passes its first loop.
  sends :
      (batch : Result Io Batch) (bytes : ℕ) (next : State Batch Io)
      → admission sizes c batch ≡ ok bytes
      → send_turn c s.shared batch bytes ≡ admitted next
      → t ≡ record s { shared = next; sent = s.sent ++ message batch bytes ∷ [] }
      → Step sizes c s t
  -- `recv` takes a message, whose lease its caller then owns.
  receives :
      (m : Message Batch Io) (next : State Batch Io)
      → recv_turn s.shared ≡ received m next
      → t ≡ record s { shared = next; held = charge_of m ++ s.held; taken = s.taken ++ m ∷ [] }
      → Step sizes c s t
  -- `recv` finds nothing and waits.
  parks :
      (next : State Batch Io)
      → recv_turn s.shared ≡ parked next
      → t ≡ record s { shared = next }
      → Step sizes c s t
  -- `Control::cancel` takes the queue, to drop its leases outside the lock.
  cancels :
      t ≡ record s { shared = (cancel s.shared).0; held = charges (cancel s.shared).1 ++ s.held }
      → Step sizes c s t
  drops_sender : t ≡ record s { shared = drop_sender s.shared } → Step sizes c s t
  drops_receiver :
      t ≡ record s {
        shared = (drop_receiver s.shared).0;
        held = charges (drop_receiver s.shared).1 ++ s.held;
      }
      → Step sizes c s t
  -- A lease is dropped; so it is when its transform fails.
  drops_lease :
      (before : List ℕ) (n : ℕ) (after : List ℕ)
      → s.held ≡ before ++ n ∷ after
      → t ≡ record s { shared = release s.shared (some n); held = before ++ after }
      → Step sizes c s t
  -- A transform leaves a lease with another charge.
  regrows :
      (before : List ℕ) (n : ℕ) (after : List ℕ) (batch : Batch) (bytes : ℕ)
      (lease : BatchLease Batch) (m : ℕ) (next : State Batch Io)
      → s.held ≡ before ++ n ∷ after
      → grow sizes c s.shared batch n bytes ≡ (ok lease, next)
      → lease.reservation ≡ some m
      → t ≡ record s { shared = next; held = before ++ m ∷ after }
      → Step sizes c s t

pub data Reach {Batch Io : Type 0} (sizes : Batch → List ℕ) (c : Control)
    : System Batch Io → Type 0 where
  start : Reach sizes c initial
  reach_on : {s t : System Batch Io} → Reach sizes c s → Step sizes c s t → Reach sizes c t

-- The states that follow a given one.
pub data Later {Batch Io : Type 0} (sizes : Batch → List ℕ) (c : Control) (s : System Batch Io)
    : System Batch Io → Type 0 where
  now : Later sizes c s s
  later : {t u : System Batch Io} → Later sizes c s t → Step sizes c t u → Later sizes c s u
