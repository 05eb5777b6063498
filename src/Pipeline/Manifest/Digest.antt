-- ===== src/Pipeline/Manifest/Digest.antt =====
-- Proofs on the digest of crates/pipeline/src/manifest.rs: batches, order and duplicates of rows.
use native.Mathlib.Nat.{ℕ_set}
use datacrate.Common.{ℕ, ◌%◌, ◌^◌, ◌<◌, ◌≡◌, ◌↔◌, refl, sym, ap, ◌∙◌, List, [], ◌∷◌, ◌++◌, arith}
use mathlib.Core.Logic.{∥∥₁_elim}
use mathlib.Core.List.{Perm, Permᴰ}
use datacrate.Pipeline.Manifest.{Hasher, Row, hash_row, accumulate_batch_digest, wrapping_add}

-- All rows of a run of batches.
abbrev pub all_rows : List (List Row) → List Row
all_rows [] = []
all_rows (batch ∷ batches) = batch ++ all_rows batches

wrapping_add-swap :
    (a b c : ℕ) → wrapping_add (wrapping_add a b) c ≡ wrapping_add (wrapping_add a c) b
unfolding wrapping_add
wrapping_add-swap a b c = omega arith

module _ {H : Type 0} (h : Hasher H) where
  -- The calls of `accumulate_batch_digest` that `consume_batches` makes, one for each batch.
  abbrev pub run_digest : ℕ → List (List Row) → ℕ
  run_digest running [] = running
  run_digest running (batch ∷ batches) =
      run_digest (accumulate_batch_digest h running batch) batches

  digest-append :
      (xs ys : List Row) (running : ℕ)
      → accumulate_batch_digest h running (xs ++ ys)
        ≡ accumulate_batch_digest h (accumulate_batch_digest h running xs) ys
  unfolding accumulate_batch_digest
  digest-append [] ys running = refl
  digest-append (x ∷ xs) ys running = digest-append xs ys _

  run_digest-all_rows :
      (batches : List (List Row)) (running : ℕ)
      → run_digest running batches ≡ accumulate_batch_digest h running (all_rows batches)
  unfolding accumulate_batch_digest
  run_digest-all_rows [] running = refl
  run_digest-all_rows (b ∷ bs) running =
      run_digest-all_rows bs _ ∙ sym (digest-append b (all_rows bs) running)

  digest-Permᴰ :
      {xs ys : List Row}
      → Permᴰ xs ys
      → (running : ℕ) → accumulate_batch_digest h running xs ≡ accumulate_batch_digest h running ys
  unfolding accumulate_batch_digest
  digest-Permᴰ Permᴰ.nil running = refl
  digest-Permᴰ (Permᴰ.cons {b = b} e p) running =
      rw e (digest-Permᴰ p (wrapping_add running (hash_row h b)))
  digest-Permᴰ (Permᴰ.swap {l = xs} e f) running =
      rw (e, f) (ap (λ n. accumulate_batch_digest h n xs) (wrapping_add-swap running _ _))
  digest-Permᴰ (Permᴰ.trans p q) running = digest-Permᴰ p running ∙ digest-Permᴰ q running

  -- Two runs over the same rows end with the same digest, whatever the order of the rows and
  -- however each run cut them into batches.
  pub run_digest-Perm :
      (batches others : List (List Row)) (running : ℕ)
      → Perm (all_rows batches) (all_rows others)
      → run_digest running batches ≡ run_digest running others
  run_digest-Perm batches others running p =
      run_digest-all_rows batches running
      ∙ ∥∥₁_elim p (ℕ_set _ _) (λ d. digest-Permᴰ d running)
      ∙ sym (run_digest-all_rows others running)

  digest-cons :
      (rows : List Row) (x : Row) (running : ℕ)
      → accumulate_batch_digest h running (x ∷ rows)
        ≡ wrapping_add (accumulate_batch_digest h running rows) (hash_row h x)
  unfolding accumulate_batch_digest
  digest-cons [] x running = refl
  digest-cons (y ∷ rows) x running =
      ap (λ n. accumulate_batch_digest h n rows) (wrapping_add-swap running _ _)
      ∙ digest-cons rows x (wrapping_add running (hash_row h y))

  digest_bound :
      (rows : List Row) (running : ℕ)
      → running < 2 ^ 64
      → accumulate_batch_digest h running rows < 2 ^ 64
  unfolding accumulate_batch_digest wrapping_add
  digest_bound [] running b = b
  digest_bound (x ∷ rows) running b = digest_bound rows _ (omega arith)

  -- One more copy of a row, equal to others or not, leaves the digest unchanged exactly when that
  -- row's hash is zero modulo 2^64: duplicates do not cancel.
  pub duplicate_seen :
      (rows : List Row) (x : Row) (running : ℕ)
      → running < 2 ^ 64
      → (accumulate_batch_digest h running (x ∷ rows) ≡ accumulate_batch_digest h running rows)
        ↔ (hash_row h x % 2 ^ 64 ≡ 0)
  unfolding wrapping_add
  duplicate_seen rows x running b =
      let small = digest_bound rows running b in
      rw (digest-cons rows x running)
        (((λ same. omega (arith, same, small)), (λ zero_hash. omega (arith, zero_hash, small))))
