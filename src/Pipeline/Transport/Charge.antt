-- ===== src/Pipeline/Transport/Charge.antt =====
-- The charge of a batch and of its growth in crates/pipeline/src/bounded/transport.rs.
use datacrate.Common.{
  ℕ, ◌+◌, ◌≤◌, ◌≡◌, List, [], ◌∷◌, Option, none, some, Result, ok, err, arith, ltb, if◌then◌else◌,
}
use datacrate.Pipeline.Error.{byte_charge_overflow}
use datacrate.Pipeline.Transport.{
  BatchLease, State, Control, usize_max, charge_from, checked_charge, transform, release,
}
use datacrate.Pipeline.Transport.System.Turns.{sum}

module _ {Io : Type 0} where
  charge_from_lem :
      (acc : ℕ) (sizes : List ℕ)
      → acc ≤ usize_max
      → charge_from {Io = Io} acc sizes ≡ (
          if ltb usize_max (acc + sum sizes)
          then err byte_charge_overflow
          else ok (acc + sum sizes))
  unfolding charge_from
  charge_from_lem acc [] h = ground arith
  charge_from_lem acc (n ∷ ns) h = ground (arith, charge_from_lem (acc + n) ns)

  -- The checked fold gives the whole sum exactly when that sum fits in `usize`, and reports overflow
  -- otherwise.
  pub checked_charge_lem :
      (sizes : List ℕ)
      → checked_charge {Io = Io} sizes
        ≡ (if ltb usize_max (sum sizes) then err byte_charge_overflow else ok (sum sizes))
  unfolding checked_charge
  checked_charge_lem sizes =
      let same : 0 + sum sizes ≡ sum sizes = omega arith in
      rw same at (charge_from_lem 0 sizes (omega arith))

-- The charge that a transform leaves reserved.
abbrev pub kept : {E Batch : Type 0} → Result E (BatchLease Batch) → ℕ
kept (ok lease) = elim lease.reservation [ some n ↦ n | none ↦ 0 ]
kept (err _) = 0

abbrev pub reserved : Option ℕ → ℕ
reserved none = 0
reserved (some n) = n

-- Whatever the callback does, `transform` changes `bytes` by exactly what it changes the reservation:
-- an error gives all of it back, a smaller batch keeps its charge, and growth stays in the budget.
pub transform_accounts :
    {Batch Io : Type 0} (sizes : Batch → List ℕ) (c : Control) (f : Batch → Result Io Batch)
    (lease : BatchLease Batch) (s : State Batch Io)
    → reserved lease.reservation ≤ s.bytes
    → s.bytes ≤ c.limit
    → let (r, t) = transform sizes c f lease s in
      (t.bytes + reserved lease.reservation ≡ s.bytes + kept r)
      × (t.bytes ≤ c.limit)
      × (t.queue ≡ s.queue)
unfolding transform release
transform_accounts sizes c f lease s h w = ground arith
