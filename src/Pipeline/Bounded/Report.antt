-- ===== src/Pipeline/Bounded/Report.antt =====
-- Proofs on the loop of `consume_batches` in crates/pipeline/src/bounded.rs: its report.
use datacrate.Common.{
  ℕ, zero, suc, ◌+◌, ◌≡◌, refl, sym, subst, ap, ◌∙◌, List, [], ◌∷◌, ◌++◌, map, Option, none, some,
  Result, ok, err, Text, return, lift, and_then, fail_with, and_then_lem, step_lem, match_option,
  arith, length-append, append_assoc, append-nil, Bool-cases, inl, inr,
}
use datacrate.Pipeline.Error.{PipelineError, cancelled, close}
use datacrate.Pipeline.Staging.{failure}
use datacrate.Pipeline.IoError.{PipelineIoError, write_parquet}
use datacrate.Pipeline.Manifest.{Row, Hasher}
use datacrate.Pipeline.Manifest.Digest.{run_digest}
use datacrate.Pipeline.Transport.{BatchLease}
use datacrate.Pipeline.Bounded.{
  Channel, PipelineReport, default, CheckedIngestBatch, ArrowWriter, consume_one, consume_loop,
  consume_batches, if_cancelled,
}
use datacrate.Pipeline.Bounded.Audit.{Writes, Audited, One, Outcome, row_total, One-audited}

row_total-append :
    {Batch : Type 0} (rows_of : Batch → List Row) (xs ys : List Batch)
    → row_total (map rows_of (xs ++ ys)) ≡ row_total (map rows_of xs) + row_total (map rows_of ys)
row_total-append rows_of [] ys = omega arith
row_total-append rows_of (x ∷ xs) ys = omega (arith, row_total-append rows_of xs ys)

run_digest-append :
    {H Batch : Type 0} (h : Hasher H) (rows_of : Batch → List Row) (xs ys : List Batch) (n : ℕ)
    → run_digest h n (map rows_of (xs ++ ys))
      ≡ run_digest h (run_digest h n (map rows_of xs)) (map rows_of ys)
run_digest-append h rows_of [] ys n = refl
run_digest-append h rows_of (x ∷ xs) ys n = run_digest-append h rows_of xs ys _

module _ {S D E Batch H : Type 0} (channel : Channel S D E Batch) (writer : ArrowWriter S E Batch)
    (hasher : Hasher H)
    (try_checked : Batch → Result (PipelineIoError D E) (CheckedIngestBatch Batch)) (output : Text)
    (transform : Option (Batch → Result (PipelineIoError D E) Batch)) (written : S → List Batch)
    (rows_of : Batch → List Row) (writes : Writes channel writer try_checked written rows_of) where
  audited_more :
      (r q : PipelineReport) (s t : S)
      (p : Result (PipelineError (PipelineIoError D E)) (Option PipelineReport) × S)
      → Audited hasher written rows_of r s q t
      → Outcome hasher written rows_of q t p
      → Outcome hasher written rows_of r s p
  audited_more r q s t (err _, u) a o = tt
  audited_more r q s t (ok none, u) a o = tt
  audited_more r q s t (ok (some p), u) (xs, w, n, k, d) (ys, w', n', k', d') = (
    xs ++ ys,
    w' ∙ ap (λ l. l ++ ys) w ∙ append_assoc (written s) xs ys,
    omega (arith, n, n', length-append xs ys),
    omega (arith, k, k', row_total-append rows_of xs ys),
    d'
        ∙ ap (λ x. run_digest hasher x (map rows_of ys)) d
        ∙ sym (run_digest-append hasher rows_of xs ys r.content_digest),
  )

  after_recv :
      (r q : PipelineReport) (s t u : S)
      → written t ≡ written s
      → Audited hasher written rows_of r t q u
      → Audited hasher written rows_of r s q u
  after_recv r q s t u quiet (xs, w, n, k, d) = (xs, w ∙ ap (λ l. l ++ xs) quiet, n, k, d)

  received :
      (fuel : ℕ) (r : PipelineReport) (s t : S) (message : Option (BatchLease Batch))
      → written t ≡ written s
      → ((q : PipelineReport) (u : S)
          → Outcome hasher written rows_of q u
              (consume_loop channel writer hasher try_checked output transform fuel q u))
      → Outcome hasher written rows_of r s (
          match_option message
            (return (some r))
            (λ lease.
              and_then
                (consume_one channel writer hasher try_checked output transform r lease)
                (consume_loop channel writer hasher try_checked output transform fuel))
            t)
  received fuel r s t none quiet later =
      ([], quiet ∙ sym (append-nil (written s)), omega arith, omega arith, refl)
  received fuel r s t (some lease) quiet later =
      and_then_lem (Outcome hasher written rows_of r s)
        (consume_one channel writer hasher try_checked output transform r lease) _ t
        (λ q u f.
          let one : Audited hasher written rows_of r t q u =
            subst (One hasher written rows_of r t) f (
              One-audited channel writer hasher try_checked output transform written rows_of writes
                r lease t) in
          audited_more r q s u _ (after_recv r q s t u quiet one) (later q u))
        (λ x u f. tt)

  loop_audited :
      (fuel : ℕ) (r : PipelineReport) (s : S)
      → Outcome hasher written rows_of r s
          (consume_loop channel writer hasher try_checked output transform fuel r s)
  unfolding consume_loop
  loop_audited zero r s = tt
  loop_audited (suc fuel) r s =
      and_then_lem (Outcome hasher written rows_of r s) channel.recv _ s
        (λ message t e.
          received fuel r s t message (ap (λ p. written p.1) (sym e) ∙ writes.recv s)
            (loop_audited fuel))
        (λ x t e. tt)

  outcome_from :
      (r : PipelineReport) (s t : S)
      (p : Result (PipelineError (PipelineIoError D E)) (Option PipelineReport) × S)
      → written t ≡ written s
      → Outcome hasher written rows_of r t p
      → Outcome hasher written rows_of r s p
  outcome_from r s t (err _, u) quiet o = tt
  outcome_from r s t (ok none, u) quiet o = tt
  outcome_from r s t (ok (some q), u) quiet o = after_recv r q s t u quiet o

  -- The last check of the flag and the close, after the loop.
  closed :
      (s t : S) (done : Option PipelineReport)
      → Outcome hasher written rows_of {Io = PipelineIoError D E} default s (ok done, t)
      → Outcome hasher written rows_of default s (
          match_option done
            (return none)
            (λ report. if_cancelled channel (lift (err cancelled)) (
              and_then
                (fail_with
                  (λ source. failure output close (write_parquet source))
                  writer.into_inner)
                (λ _. return (some report))))
            t)
  closed s t none o = tt
  closed s t (some q) (xs, w, n, k, d) = elim (Bool-cases (channel.is_cancelled t).0) [
    | inl c ↦ rw c tt
    | inr c ↦ rw c (
        step_lem (Outcome hasher written rows_of default s) _ writer.into_inner _
          (channel.is_cancelled t).1
          (λ _ u e.
            (xs, ap (λ p. written p.1) (sym e) ∙ writes.into_inner _ ∙ writes.flag t ∙ w, n, k, d))
          (λ x u e. tt))
  ]

  -- A report that `consume_batches` returns counts exactly the batches that reached the writer during
  -- the call, their rows, and the digest of their rows: what was written, after the transform,
  -- not what was read.
  pub consume-Audited :
      (fuel : ℕ) (s : S)
      → Outcome hasher written rows_of default s
          (consume_batches channel writer hasher try_checked output transform fuel s)
  unfolding consume_batches
  consume-Audited fuel s =
      let s0 = (channel.is_cancelled s).1 in
      elim (Bool-cases (channel.is_cancelled s).0) [
        | inl c ↦ rw c tt
        | inr c ↦ rw c (
            and_then_lem (Outcome hasher written rows_of default s)
              (consume_loop channel writer hasher try_checked output transform fuel default) _ s0
              (λ done t e. closed s t done (
                outcome_from default s s0 (ok done, t) (writes.flag s)
                  (subst (Outcome hasher written rows_of default s0) e
                    (loop_audited fuel default s0))))
              (λ x t e. tt))
      ]
