-- ===== src/Pipeline/Transport.antt =====
-- crates/pipeline/src/bounded/transport.rs: the channel with byte reservations. A function here is
-- one critical section, from the lock to its release or to a wait on the condition variable; the
-- `sizes` of a batch stand for `get_array_memory_size` of its columns, which is Arrow's.
pub mod System
pub mod Charge
mod Examples
use datacrate.Common.{
  ℕ, zero, suc, ◌+◌, ◌-◌, ◌^◌, max, Bool, true, false, not, ◌&&◌, ◌||◌, List, [], ◌∷◌, ◌++◌, Option,
  none, some, Result, ok, err, ◌>>=◌, ltb, leb, ◌==◌, if◌then◌else◌, length,
}
use datacrate.Pipeline.Error.{
  PipelineError, batch_too_large, batch_growth_exceeds_budget, byte_charge_overflow, io,
}
use datacrate.Pipeline.Error

-- The largest `usize`, on a 64-bit target.
abbrev pub usize_max : ℕ
usize_max = 2 ^ 64 - 1

-- A lease's charge; `none` is the lease of a channel without a budget.
pub record BatchLease (Batch : Type 0) : Type 0 where
  pub batch : Batch
  pub reservation : Option ℕ

-- `Result<BatchLease, PipelineIoError>`, what the queue holds.
abbrev pub Message : Type 0 → Type 0 → Type 0
Message Batch Io = Result Io (BatchLease Batch)

pub record State (Batch Io : Type 0) : Type 0 where
  pub queue : List (Message Batch Io)
  pub bytes : ℕ
  pub peak : ℕ
  pub receiver_waiting : Bool
  pub receiver_alive : Bool
  pub sender_alive : Bool
  pub cancelled : Bool

-- `Control` without its lock and condition variable.
pub record Control : Type 0 where
  pub capacity : ℕ
  pub limit : ℕ

module _ {Io : Type 0} where
  charge_from : ℕ → List ℕ → Result (PipelineError Io) ℕ
  charge_from sum [] = ok sum
  charge_from sum (n ∷ ns) =
      let rest = charge_from (sum + n) ns in
      if ltb usize_max (sum + n) then err byte_charge_overflow else rest

  -- `try_fold` with `checked_add`
  unfoldable pub checked_charge : List ℕ → Result (PipelineError Io) ℕ
  unfolding charge_from
  checked_charge sizes = charge_from 0 sizes

-- `channel`
unfoldable pub channel : {Batch Io : Type 0} → State Batch Io
channel = record {
  queue = [];
  bytes = 0;
  peak = 0;
  receiver_waiting = false;
  receiver_alive = true;
  sender_alive = true;
  cancelled = false;
}

-- One turn of the first loop of `send`.
pub data SendTurn (Batch Io : Type 0) : Type 0 where
  refused : SendTurn Batch Io
  blocked : SendTurn Batch Io
  admitted : State Batch Io → SendTurn Batch Io

-- One turn of the second loop, which waits for delivery.
pub data DeliveryTurn (Io : Type 0) : Type 0 where
  undelivered : DeliveryTurn Io
  finished : Result (PipelineError Io) (Unit {0}) → DeliveryTurn Io

-- One turn of the loop of `recv`.
pub data RecvTurn (Batch Io : Type 0) : Type 0 where
  recv_cancelled : RecvTurn Batch Io
  received : Message Batch Io → State Batch Io → RecvTurn Batch Io
  ended : RecvTurn Batch Io
  parked : State Batch Io → RecvTurn Batch Io

module _ {Batch Io : Type 0} where
  pub queue_is_empty : List (Message Batch Io) → Bool
  queue_is_empty [] = true
  queue_is_empty (_ ∷ _) = false

  abbrev pub closed : State Batch Io → Bool
  closed s = s.cancelled || not s.receiver_alive

  pub count_available : Control → State Batch Io → Bool
  unfolding queue_is_empty
  count_available c s =
      if c.capacity == 0
      then s.receiver_waiting && queue_is_empty s.queue
      else ltb (length s.queue) c.capacity

  -- `batch.map(|batch| BatchLease { … })`
  abbrev pub message : Result Io Batch → ℕ → Message Batch Io
  message (ok batch) bytes = ok (record { batch = batch; reservation = some bytes })
  message (err e) bytes = err e

  pub enqueue : State Batch Io → Message Batch Io → ℕ → State Batch Io
  enqueue s m bytes = record s {
    queue = s.queue ++ m ∷ [];
    bytes = s.bytes + bytes;
    peak = max s.peak (s.bytes + bytes);
  }

  unfoldable pub send_turn : Control → State Batch Io → Result Io Batch → ℕ → SendTurn Batch Io
  unfolding count_available enqueue
  send_turn c s batch bytes =
      if closed s
      then refused
      else if count_available c s && leb bytes (c.limit - s.bytes)
      then admitted (enqueue s (message batch bytes) bytes)
      else blocked

  unfoldable pub delivery_turn : Control → State Batch Io → DeliveryTurn Io
  unfolding queue_is_empty
  delivery_turn c s =
      if c.capacity == 0 && (not (queue_is_empty s.queue) && (not s.cancelled && s.receiver_alive))
      then undelivered
      else if closed s
      then finished (err Error.cancelled)
      else finished (ok tt)

  -- `pop_front`, and what an empty queue leads to.
  pub take_front : State Batch Io → List (Message Batch Io) → RecvTurn Batch Io
  take_front s (m ∷ rest) = received m (record s { queue = rest; receiver_waiting = false })
  take_front s [] =
      if not s.sender_alive then ended else parked (record s { receiver_waiting = true })

  unfoldable pub recv_turn : State Batch Io → RecvTurn Batch Io
  unfolding take_front
  recv_turn s = if s.cancelled then recv_cancelled else take_front s s.queue

  -- `Control::cancel`: the new state, and the queue that is dropped once the lock is released.
  unfoldable pub cancel : State Batch Io → State Batch Io × List (Message Batch Io)
  cancel s = (record s { cancelled = true; queue = [] }, s.queue)

  unfoldable pub drop_sender : State Batch Io → State Batch Io
  drop_sender s = record s { sender_alive = false }

  unfoldable pub drop_receiver : State Batch Io → State Batch Io × List (Message Batch Io)
  drop_receiver s =
      (record s { receiver_alive = false; receiver_waiting = false; queue = [] }, s.queue)

  -- `Reservation::drop`
  unfoldable pub release : State Batch Io → Option ℕ → State Batch Io
  release s none = s
  release s (some bytes) = record s { bytes = s.bytes - bytes }

  -- `metrics`
  unfoldable pub metrics : State Batch Io → ℕ × ℕ
  metrics s = (s.bytes, s.peak)

  module _ (sizes : Batch → List ℕ) where
    unfoldable pub charge : Batch → Result (PipelineError Io) ℕ
    charge batch = checked_charge (sizes batch)

    charge_message : Result Io Batch → Result (PipelineError Io) ℕ
    unfolding charge
    charge_message (ok batch) = charge batch
    charge_message (err _) = ok 0

    -- What `send` checks before it takes the lock.
    unfoldable pub admission : Control → Result Io Batch → Result (PipelineError Io) ℕ
    unfolding charge_message
    admission c batch = do
      bytes ← charge_message batch
      if ltb c.limit bytes then err (batch_too_large bytes c.limit) else ok bytes

    -- The growth of a reservation from `retained` to `bytes`.
    unfoldable pub grow :
        Control
        → State Batch Io
        → Batch
        → ℕ
        → ℕ
        → Result (PipelineError Io) (BatchLease Batch) × State Batch Io
    grow c s batch retained bytes =
        if ltb retained bytes
        then if ltb (c.limit - s.bytes) (bytes - retained)
          then (
            err (batch_growth_exceeds_budget bytes (retained + (c.limit - s.bytes))),
            release s (some retained),
          )
          else (
            ok (record { batch = batch; reservation = some bytes }),
            record s {
              bytes = s.bytes + (bytes - retained);
              peak = max s.peak (s.bytes + (bytes - retained));
            },
          )
        else (ok (record { batch = batch; reservation = some retained }), s)

    -- The charge of the transformed batch; an error drops the reservation.
    recharge :
        Control
        → State Batch Io
        → Batch
        → ℕ
        → Result (PipelineError Io) ℕ
        → Result (PipelineError Io) (BatchLease Batch) × State Batch Io
    unfolding grow
    recharge c s batch retained (ok bytes) = grow c s batch retained bytes
    recharge c s batch retained (err e) = (err e, release s (some retained))

    transformed :
        Control
        → State Batch Io
        → Option ℕ
        → Result Io Batch
        → Result (PipelineError Io) (BatchLease Batch) × State Batch Io
    unfolding recharge
    transformed c s reservation (err e) = (err (io e), release s reservation)
    transformed c s none (ok batch) = (ok (record { batch = batch; reservation = none }), s)
    transformed c s (some retained) (ok batch) = recharge c s batch retained (charge batch)

    -- `BatchLease::transform`: its result, and the state behind the lock.
    unfoldable pub transform :
        Control
        → (Batch → Result Io Batch)
        → BatchLease Batch
        → State Batch Io
        → Result (PipelineError Io) (BatchLease Batch) × State Batch Io
    unfolding transformed
    transform c f lease s = transformed c s lease.reservation (f lease.batch)
