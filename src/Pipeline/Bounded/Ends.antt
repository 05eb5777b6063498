-- ===== src/Pipeline/Bounded/Ends.antt =====
-- Proofs on the loop of `consume_batches` in crates/pipeline/src/bounded.rs: its fuel.
use datacrate.Common.{
  ℕ, zero, suc, ◌≤◌, ◌<◌, ◌≡◌, subst, ap, Option, none, some, Result, ok, err, Text, return, lift,
  and_then, fail_with, and_then_lem, step_lem, match_option, arith, Bool-cases, Option-cases, inl,
  inr,
}
use datacrate.Pipeline.Error.{PipelineError, cancelled, close}
use datacrate.Pipeline.Staging.{failure}
use datacrate.Pipeline.IoError.{PipelineIoError, write_parquet}
use datacrate.Pipeline.Manifest.{Hasher}
use datacrate.Pipeline.Transport.{BatchLease}
use datacrate.Pipeline.Bounded.{
  Channel, PipelineReport, default, CheckedIngestBatch, ArrowWriter, transformed, consume_one,
  consume_loop, consume_batches, if_cancelled, at_batch,
}

-- The channel delivers at most `remaining s` more messages: taking one lowers the number, and nothing
-- else raises it.
pub record Finite {S D E Batch : Type 0} (channel : Channel S D E Batch)
    (writer : ArrowWriter S E Batch) (remaining : S → ℕ) : Type 0 where
  pub flag : (s : S) → remaining (channel.is_cancelled s).1 ≤ remaining s
  pub recv :
      (s : S) (lease : BatchLease Batch)
      → (channel.recv s).0 ≡ ok (some lease)
      → remaining (channel.recv s).1 < remaining s
  pub transform :
      (f : Batch → Result (PipelineIoError D E) Batch) (lease : BatchLease Batch) (s : S)
      → remaining (channel.transform f lease s).1 ≤ remaining s
  pub write : (b : Batch) (s : S) → remaining (writer.write b s).1 ≤ remaining s

module _ {S D E Batch H : Type 0} (channel : Channel S D E Batch) (writer : ArrowWriter S E Batch)
    (hasher : Hasher H)
    (try_checked : Batch → Result (PipelineIoError D E) (CheckedIngestBatch Batch)) (output : Text)
    (transform : Option (Batch → Result (PipelineIoError D E) Batch)) (remaining : S → ℕ)
    (finite : Finite channel writer remaining) where
  -- The result is a report or an error, never a loop that stopped early.
  abbrev pub Returned :
      Result (PipelineError (PipelineIoError D E)) (Option PipelineReport) × S → Type 0
  Returned (ok none, t) = ⊥
  Returned (ok (some q), t) = Unit {0}
  Returned (err _, t) = Unit {0}

  abbrev Fewer : S → Result (PipelineError (PipelineIoError D E)) PipelineReport × S → Type 0
  Fewer s (ok _, t) = remaining t ≤ remaining s
  Fewer s (err _, t) = Unit {0}

  transformed_fewer :
      (r : PipelineReport) (lease : BatchLease Batch) (s : S)
      → remaining (transformed channel writer hasher try_checked output transform r lease s).1
        ≤ remaining s
  unfolding transformed at_batch
  transformed_fewer r lease s = elim (Option-cases transform) [
    | inl e ↦ rw (e, match_option) (omega arith)
    | inr (f, e) ↦
        rw (e, match_option)
          (finite.transform
            (at_batch channel writer hasher try_checked output transform r.batches_written f) lease
            s)
  ]

  one-Fewer :
      (r : PipelineReport) (lease : BatchLease Batch) (s : S)
      → Fewer s (consume_one channel writer hasher try_checked output transform r lease s)
  unfolding consume_one
  one-Fewer r lease s =
      let s0 = (channel.is_cancelled s).1 in
      elim (Bool-cases (channel.is_cancelled s).0) [
        | inl c ↦ rw c tt
        | inr c ↦ rw c (
            and_then_lem (Fewer s)
              (transformed channel writer hasher try_checked output transform r lease) _ s0
              (λ after t1 e1.
                step_lem (Fewer s) _ (lift (try_checked after.batch)) _ t1
                  (λ checked t2 e2.
                    step_lem (Fewer s) _ (writer.write checked.batch) _ t2
                      (λ _ t3 e3. omega (
                        arith,
                        finite.flag s,
                        transformed_fewer r lease s0,
                        finite.write checked.batch t2,
                        ap (λ p. remaining p.1) e1,
                        ap (λ p. remaining p.1) e2,
                        ap (λ p. remaining p.1) e3,
                      ))
                      (λ x t3 e3. tt))
                  (λ x t2 e2. tt))
              (λ x t1 e1. tt))
      ]

  loop-Returned :
      (fuel : ℕ) (r : PipelineReport) (s : S)
      → remaining s < fuel
      → Returned (consume_loop channel writer hasher try_checked output transform fuel r s)
  unfolding consume_loop
  loop-Returned zero r s h = absurd (omega arith)
  loop-Returned (suc fuel) r s h =
      and_then_lem Returned channel.recv _ s
        (λ message t e. continued message t e (loop-Returned fuel)) (λ x t e. tt)
    where
      continued :
          (message : Option (BatchLease Batch)) (t : S)
          → channel.recv s ≡ (ok message, t)
          → ((q : PipelineReport) (u : S)
              → remaining u < fuel
              → Returned (consume_loop channel writer hasher try_checked output transform fuel q u))
          → Returned (
              match_option message
                (return (some r))
                (λ lease.
                  and_then
                    (consume_one channel writer hasher try_checked output transform r lease)
                    (consume_loop channel writer hasher try_checked output transform fuel))
                t)
      continued none t e later = tt
      continued (some lease) t e later =
          and_then_lem Returned
            (consume_one channel writer hasher try_checked output transform r lease) _ t
            (λ q u f.
              let one : remaining u ≤ remaining t = subst (Fewer t) f (one-Fewer r lease t) in
              let taken = finite.recv s lease (ap (λ p. p.0) e) in
              later q u (omega (arith, h, one, taken, ap (λ p. remaining p.1) e)))
            (λ x u f. tt)

  -- Fuel above the number of messages that the channel still delivers is enough: `consume_batches`
  -- returns a report or an error.
  pub consume-Returned :
      (fuel : ℕ) (s : S)
      → remaining s < fuel
      → Returned (consume_batches channel writer hasher try_checked output transform fuel s)
  unfolding consume_batches
  consume-Returned fuel s h =
      let s0 = (channel.is_cancelled s).1 in
      elim (Bool-cases (channel.is_cancelled s).0) [
        | inl c ↦ rw c tt
        | inr c ↦ rw c (
            and_then_lem Returned
              (consume_loop channel writer hasher try_checked output transform fuel default) _ s0
              (λ done t e. closing done t (
                subst Returned e (loop-Returned fuel default s0 (omega (arith, h, finite.flag s)))))
              (λ x t e. tt))
      ]
    where
      closing :
          (done : Option PipelineReport) (t : S)
          → Returned (ok done, t)
          → Returned (
              match_option done
                (return none)
                (λ report. if_cancelled channel (lift (err cancelled)) (
                  and_then
                    (fail_with
                      (λ source. failure output close (write_parquet source))
                      writer.into_inner)
                    (λ _. return (some report))))
                t)
      closing none t o = o
      closing (some q) t o = elim (Bool-cases (channel.is_cancelled t).0) [
        | inl c ↦ rw c tt
        | inr c ↦ rw c (
            step_lem Returned _ writer.into_inner _ (channel.is_cancelled t).1 (λ _ u e. tt)
              (λ x u e. tt))
      ]
