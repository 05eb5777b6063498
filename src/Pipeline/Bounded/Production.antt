-- ===== src/Pipeline/Bounded/Production.antt =====
-- The producer of crates/pipeline/src/bounded.rs against the batches of crates/pipeline/src/lib.rs.
use datacrate.Common.{
  ℕ, suc, ◌≤◌, ◌≡◌, refl, sym, subst, ap, ◌∙◌, false, List, [], ◌∷◌, ◌++◌, map, Option, none,
  Result, ok, err, Result-cases, Text, and_then, arith, length, length-append, append_assoc,
  append-nil, ◌==◌, ==_iff, Bool-cases, inl, inr,
}
use datacrate.Pipeline.IoError.{PipelineIoError}
use datacrate.Pipeline.Manifest.{Row}
use datacrate.Pipeline.Rows.{
  Record, parse_row, read_csv_rows, read_row, rows_from, parse_rows, batch_from_rows, chunks,
  collect, fixture_to_record_batches,
}
use datacrate.Pipeline.Rows.Chunks.{chunks_none, chunks_full, chunks_short}
use datacrate.Pipeline.Bounded.{Channel, send_rest, produce_from, produce_batches}

-- A channel that takes every message, and a run that nobody cancels.
abbrev pub recorder :
    {D E Batch : Type 0} → Channel (List (Result (PipelineIoError D E) Batch)) D E Batch
recorder = record {
  is_cancelled = λ s. (false, s);
  send = λ message s. (ok tt, s ++ message ∷ []);
  recv = λ s. (ok none, s);
  transform = λ f lease s. (ok lease, s);
}

not_ok : {E A : Type 0} {bad : E} {m : A} → err bad ≡ ok m → ⊥
not_ok e = ground arith

ok_same : {E A : Type 0} {a b : A} → ◌≡◌ {A = Result E A} (ok a) (ok b) → a ≡ b
ok_same e = cc

shorter : (n : ℕ) (xs : List Row) → (length xs == suc n) ≡ false → length xs ≤ suc n → length xs ≤ n
shorter n xs e h = ground arith

collected :
    {E A : Type 0} (rs : List (Result E A)) (found : List A)
    → collect rs ≡ ok found
    → rs ≡ map ok found
unfolding collect
collected [] found e = rw (sym (ok_same e)) refl
collected (err x ∷ rs) found e = absurd (not_ok e)
collected (ok a ∷ rs) found e = elim (Result-cases (collect rs)) [
  | inr (bad, later) ↦ absurd (not_ok (rw later at e))
  | inl (rest, later) ↦
      let all : a ∷ rest ≡ found = ok_same (rw later at e) in
      rw (sym all) (ap (λ l. ok a ∷ l) (collected rs rest later))
]

module _ (D : Type 0) {E Batch : Type 0}
    (try_new : List ℕ → List Text → List (Option Text) → Result E Batch) where
  abbrev Sent : Type 0
  Sent = Result (PipelineIoError D E) Batch

  abbrev batches_of : ℕ → List Row → List Sent
  batches_of n rows = map (batch_from_rows try_new) (chunks (suc n) rows)

  rest_sent :
      (n : ℕ) (chunk : List Row) (s : List Sent)
      → length chunk ≤ suc n
      → send_rest {D = D} recorder try_new chunk s ≡ (ok tt, s ++ batches_of n chunk)
  unfolding send_rest
  rest_sent n [] s h = rw (chunks_none (suc n), append-nil s) refl
  rest_sent n (row ∷ rows) s h = rw (chunks_short n row rows h) refl

  produced :
      (n : ℕ) (lines : List (Result E Record)) (chunk : List Row) (index : ℕ) (rows : List Row)
      (s : List Sent)
      → rows_from (parse_row {D = D}) index lines ≡ ok rows
      → length chunk ≤ n
      → produce_from {D = D} recorder try_new (suc n) lines chunk index s
        ≡ (ok tt, s ++ batches_of n (chunk ++ rows))
  unfolding produce_from rows_from and_then
  produced n [] chunk index rows s e h =
      let none_left : [] ≡ rows = cc in
      subst (λ r. send_rest recorder try_new chunk s ≡ (ok tt, s ++ batches_of n (chunk ++ r)))
        none_left (rw (append-nil chunk) (rest_sent n chunk s (omega arith)))
  produced n (line ∷ lines) chunk index rows s e h =
      elim (Result-cases (read_row (parse_row {D = D}) index line)) [
        | inr (bad, read) ↦ absurd (not_ok (rw read at e))
        | inl (row, read) ↦ elim (Result-cases (rows_from (parse_row {D = D}) (suc index) lines)) [
          | inr (bad, later) ↦ absurd (not_ok (rw (read, later) at e))
          | inl (rest, later) ↦
              let all : row ∷ rest ≡ rows = ok_same (rw (read, later) at e) in
              let b = batch_from_rows {D = D} try_new (chunk ++ row ∷ []) in
              let grown : (chunk ++ row ∷ []) ++ rest ≡ chunk ++ row ∷ rest =
                append_assoc chunk (row ∷ []) rest in
              let longer = length-append chunk (row ∷ []) in
              rw (read, sym all)
                (elim (Bool-cases (length (chunk ++ row ∷ []) == suc n)) [
                  | inl full ↦
                      let exact = (==_iff (length (chunk ++ row ∷ [])) (suc n)).0 full in
                      rw full (
                        produced n lines [] (suc index) rest (s ++ b ∷ []) later (omega arith)
                        ∙ ap (λ l. (ok tt, l))
                            (append_assoc s (b ∷ []) (batches_of n rest)
                              ∙ ap (λ c. s ++ map (batch_from_rows try_new) c)
                                  (sym (chunks_full n (chunk ++ row ∷ []) rest exact)
                                    ∙ ap (chunks (suc n)) grown)))
                  | inr part ↦ rw part (
                      produced n lines (chunk ++ row ∷ []) (suc index) rest s later
                        (shorter n (chunk ++ row ∷ []) part (omega (arith, longer)))
                      ∙ ap (λ c. (ok tt, s ++ batches_of n c)) grown)
                ])
        ]
      ]

  -- Where nobody cancels and the channel takes every message, the producer sends exactly the batches
  -- that `fixture_to_record_batches` makes of the same file, in order.
  pub produce-fixture :
      (path : Text) (file : Result E (List (Result E Record))) (n : ℕ) (batches : List Batch)
      → fixture_to_record_batches {D = D} try_new path file (suc n) ≡ ok batches
      → produce_batches {D = D} recorder try_new path file (suc n) [] ≡ (ok tt, map ok batches)
  unfolding produce_batches fixture_to_record_batches parse_rows read_csv_rows
  produce-fixture path (err source) n batches e = absurd (not_ok e)
  produce-fixture path (ok lines) n batches e =
      elim (Result-cases (rows_from (parse_row {D = D}) 0 lines)) [
        | inr (bad, read) ↦ absurd (not_ok (rw read at e))
        | inl (rows, read) ↦
            produced n lines [] 0 rows [] read (omega arith)
            ∙ ap (λ l. (ok tt, l)) (collected (batches_of n rows) batches (rw read at e))
      ]
