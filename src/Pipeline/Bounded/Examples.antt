-- ===== src/Pipeline/Bounded/Examples.antt =====
-- The bounded run of crates/pipeline/src/bounded.rs on a small file, a queue and one destination.
use datacrate.Common.{
  ℕ, ◌≡◌, ◌<◌, refl, sym, ap, false, List, [], ◌∷◌, ◌++◌, map, Option, none, some, Result, ok, err,
  Text, text, Action, fail_with, arith, length,
}
use datacrate.Pipeline.Error.{PipelineError, io}
use datacrate.Pipeline.IoError.{PipelineIoError}
use datacrate.Pipeline.Manifest.{Row, Hasher}
use datacrate.Pipeline.Rows.{
  Record, fixture_to_record_batches, parse_rows, read_csv_rows, rows_from, read_row, parse_row,
  parse_id, parse_i64, magnitude, digits, field_or_empty, note_of, chunks, chunks_within, drop,
  collect, batch_from_rows,
}
use datacrate.Pipeline.Transport.{BatchLease}
use datacrate.Pipeline.Staging.{PublicationIo}
use datacrate.Pipeline.Bounded.{
  Channel, default, CheckedIngestBatch, ArrowWriter, consume_batches, produce_batches,
  run_bounded_pipeline,
}
use datacrate.Pipeline.Bounded.Production.{recorder, produce-fixture}
use datacrate.Pipeline.Bounded.Audit.{Writes, Outcome}
use datacrate.Pipeline.Bounded.Report.{consume-Audited}
use datacrate.Pipeline.Bounded.Ends.{Finite, Returned, consume-Returned}
use datacrate.Pipeline.Bounded.Run.{RunLaws, Threads, Safe, run-Safe}

-- A batch is the list of its ids.
abbrev Batch : Type 0
Batch = List ℕ

abbrev try_new : List ℕ → List Text → List (Option Text) → Result ℕ Batch
try_new ids names notes = ok ids

abbrev lines : List (Result ℕ Record)
lines =
    ok (text "1" ∷ text "Ada" ∷ [] ∷ [])
    ∷ ok (text "-1" ∷ text "Bob" ∷ text "x" ∷ [])
    ∷ ok (text "+7" ∷ text "Eve" ∷ [])
    ∷ []

two_batches :
    fixture_to_record_batches {D = Unit {0}} try_new (text "in.csv") (ok lines) 2
    ≡ ok ((1 ∷ 18446744073709551615 ∷ []) ∷ (7 ∷ []) ∷ [])
unfolding fixture_to_record_batches parse_rows read_csv_rows rows_from read_row parse_row parse_id
    parse_i64 magnitude digits field_or_empty note_of chunks chunks_within drop collect
    batch_from_rows
two_batches = refl

produce-fixture_example :
    produce_batches {D = Unit {0}} recorder try_new (text "in.csv") (ok lines) 2 []
    ≡ (ok tt, ok (1 ∷ 18446744073709551615 ∷ []) ∷ ok (7 ∷ []) ∷ [])
produce-fixture_example =
    produce-fixture (Unit {0}) try_new (text "in.csv") (ok lines) 1
      ((1 ∷ 18446744073709551615 ∷ []) ∷ (7 ∷ []) ∷ []) two_batches

-- The queue of batches still to come, and what the writer has.
abbrev Tape : Type 0
Tape = List Batch × List Batch

take_one :
    Tape → Result (PipelineError (PipelineIoError (Unit {0}) ℕ)) (Option (BatchLease Batch)) × Tape
take_one ([], w) = (ok none, ([], w))
take_one (b ∷ q, w) = (ok (some (record { batch = b; reservation = none })), (q, w))

abbrev changed :
    (Batch → Result (PipelineIoError (Unit {0}) ℕ) Batch)
    → BatchLease Batch
    → Action Tape (PipelineError (PipelineIoError (Unit {0}) ℕ)) (BatchLease Batch)
changed f lease = fail_with io (λ s. (give (f lease.batch), s))
  where
    give :
        Result (PipelineIoError (Unit {0}) ℕ) Batch
        → Result (PipelineIoError (Unit {0}) ℕ) (BatchLease Batch)
    give (ok b) = ok (record { batch = b; reservation = none })
    give (err e) = err e

abbrev queue : Channel Tape (Unit {0}) ℕ Batch
queue = record {
  is_cancelled = λ s. (false, s);
  send = λ message s. (ok tt, s);
  recv = take_one;
  transform = changed;
}

abbrev writer : ArrowWriter Tape ℕ Batch
writer = record { write = λ b s. (ok tt, (s.0, s.1 ++ b ∷ [])); into_inner = λ s. (ok tt, s) }

row_of : ℕ → Row
row_of n = record { id = n; name = []; note = none }

abbrev check : Batch → Result (PipelineIoError (Unit {0}) ℕ) (CheckedIngestBatch Batch)
check b = ok (record { batch = b; rows = map row_of b })

abbrev counting : Hasher ℕ
counting = record {
  with_seeds = λ _ _ _ _. 0;
  write_i64 = λ h n. n;
  write = λ h t. h;
  write_u8 = λ h n. h;
  finish = λ h. h;
}

checked_same :
    (b : Batch) (c : CheckedIngestBatch Batch)
    → check b ≡ ok c
    → (c.batch ≡ b) × (c.rows ≡ map row_of b)
checked_same b c e =
    let same = made e in (ap (λ x. x.batch) (sym same), ap (λ x. x.rows) (sym same))
  where
    made : check b ≡ ok c → record { batch = b; rows = map row_of b } ≡ c
    made h = cc

taken_kept : (s : Tape) → (take_one s).1.1 ≡ s.1
unfolding take_one
taken_kept ([], w) = refl
taken_kept (b ∷ q, w) = refl

queue-Writes : Writes queue writer check (λ s. s.1) (λ b. map row_of b)
unfolding fail_with
queue-Writes = record {
  flag = λ s. refl;
  recv = taken_kept;
  transform = λ f lease s. refl;
  write = λ b s e. refl;
  into_inner = λ s. refl;
  checked = checked_same;
}

abbrev begun : Tape
begun = ((1 ∷ 2 ∷ []) ∷ (3 ∷ []) ∷ [], [])

consume-Audited_example :
    Outcome counting
      (λ s. s.1)
      (λ b. map row_of b)
      default
      begun
      (consume_batches queue writer counting check (text "out") none 3 begun)
consume-Audited_example =
    consume-Audited queue writer counting check (text "out") none (λ s. s.1) (λ b. map row_of b)
      queue-Writes 3 begun

taken_fewer :
    (s : Tape) (lease : BatchLease Batch)
    → (take_one s).0 ≡ ok (some lease)
    → length (take_one s).1.0 < length s.0
unfolding take_one
taken_fewer ([], w) lease e = ground (arith, e)
taken_fewer (b ∷ q, w) lease e = omega arith

queue_ends : Finite queue writer (λ s. length s.0)
unfolding fail_with
queue_ends = record {
  flag = λ s. omega arith;
  recv = taken_fewer;
  transform = λ f lease s. omega arith;
  write = λ b s. omega arith;
}

consume-Returned_example :
    Returned queue writer counting check
      (text "out")
      none
      (λ s. length s.0)
      queue_ends
      (consume_batches queue writer counting check (text "out") none 3 begun)
consume-Returned_example =
    consume-Returned queue writer counting check (text "out") none (λ s. length s.0) queue_ends 3
      begun (omega arith)

-- One staged file and one destination, whose last sync fails; nobody cancels.
abbrev Disk : Type 0
Disk = Text × Option Text

abbrev calm : Channel Disk (Unit {0}) ℕ Batch
calm = record {
  is_cancelled = λ s. (false, s);
  send = λ message s. (ok tt, s);
  recv = λ s. (ok none, s);
  transform = λ f lease s. (ok lease, s);
}

abbrev disk : PublicationIo Disk ℕ ℕ
disk = record {
  tempfile_in = λ dir s. (ok 1, ([], s.1));
  reopen = λ file s. (ok file, s);
  sync_file = λ file s. (ok tt, s);
  persist = λ file output s. (ok tt, (s.0, some s.0));
  sync_parent = λ dir s. (err 5, s);
}

abbrev parquet : ℕ → Action Disk (PipelineIoError (Unit {0}) ℕ) (ArrowWriter Disk ℕ Batch)
parquet file s = (ok (record { write = λ b s. (ok tt, s); into_inner = λ s. (ok tt, s) }), s)

no_error : {x : ℕ} → ok tt ≡ err x → ⊥
no_error e = ground arith

disk_laws : RunLaws calm disk parquet (text "out") (λ s. s.1) (λ f s. s.0) (λ w s. s.0)
disk_laws = record {
  flag = λ s. refl;
  flag_held = λ f s. refl;
  tempfile_in = λ dir s. refl;
  reopen = λ f s. refl;
  same_file = λ f h s t u e. refl;
  writer = λ f s. refl;
  writes_to = λ h w s t u e. refl;
  publication = λ f. record {
    sync_file_frame = λ s. refl;
    sync_file_held = λ s. refl;
    sync_parent_frame = λ dir s. refl;
    persist_ok = λ s e. refl;
    persist_err = λ s x e. absurd (no_error e);
  };
}

-- The threads write `rows`.
abbrev threads : Threads Disk (Unit {0}) ℕ Batch
threads w s = (ok tt, ok default, (text "rows", s.1))

abbrev fresh : Disk
fresh = ([], none)

run-Safe_example :
    Safe calm disk
      (λ _. none)
      parquet
      (text "out")
      (λ s. s.1)
      (λ f s. s.0)
      (λ w s. s.0)
      disk_laws
      (λ s. none)
      threads
      fresh
      (run_bounded_pipeline calm disk (λ _. none) parquet (text "out") (λ s. none) threads fresh)
run-Safe_example =
    run-Safe calm disk (λ _. none) parquet (text "out") (λ s. s.1) (λ f s. s.0) (λ w s. s.0)
      disk_laws (λ s. none) threads fresh (λ w t. refl)
