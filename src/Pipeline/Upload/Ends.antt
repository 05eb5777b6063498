-- ===== src/Pipeline/Upload/Ends.antt =====
-- Proofs on the loops of the multipart upload in crates/pipeline/src/object_store_io.rs: their fuel.
use datacrate.Common.{
  ℕ, zero, suc, ◌-◌, ◌≤◌, ◌<◌, ◌≡◌, subst, ap, true, false, [], ◌∷◌, ◌++◌, Option, none, some,
  Result, ok, err, Result-cases, Text, return, and_then, and_then_lem, step_lem, ltb, ◌==◌,
  if◌then◌else◌, match_option, length, Bool-cases, inl, inr, arith,
}
use datacrate.Pipeline.IoError.{PipelineIoError}
use datacrate.Pipeline.Download.{chunk_bytes}
use datacrate.Pipeline.Upload.{
  Multipart, classify, read_once, fill, make_room, send_part, await_parts, conclude, upload_parts,
  abort_after, aborted, write_multipart,
}

-- `remaining s` bounds the reads to come that give bytes or are interrupted; nothing raises it.
pub record FiniteReads {S E U : Type 0} (io : Multipart S E U) (remaining : S → ℕ) : Type 0 where
  pub read_some :
      (n : ℕ) (s : S) (bytes : Text)
      → (io.read n s).0 ≡ ok bytes
      → (remaining (io.read n s).1 ≤ remaining s)
        × (0 < length bytes → remaining (io.read n s).1 < remaining s)
  pub interrupted :
      (n : ℕ) (s : S) (e : E)
      → (io.read n s).0 ≡ err e
      → io.is_interrupted e ≡ true
      → remaining (io.read n s).1 < remaining s
  pub put_part : (u : U) (b : Text) (s : S) → remaining (io.put_part u b s) ≤ remaining s
  pub next_part : (u : U) (s : S) → remaining (io.next_part u s).1 ≤ remaining s

long_part : (b : Text) → ltb (length b) chunk_bytes ≡ false → 0 < length b
long_part b more = ground arith

module _ (D : Type 0) {S E U : Type 0} (io : Multipart S E U) (src key : Text) (remaining : S → ℕ)
    (finite : FiniteReads io remaining) where
  abbrev Once : S → Result (PipelineIoError D E) (Option Text) × S → Type 0
  Once s (ok (some bytes), t) =
      (remaining t ≤ remaining s) × (0 < length bytes → remaining t < remaining s)
  Once s (ok none, t) = remaining t < remaining s
  Once s (err _, t) = Unit {0}

  read-Once : (n : ℕ) (s : S) → Once s (read_once io src key n s)
  unfolding read_once classify
  read-Once n s = elim (Result-cases (io.read n s).0) [
    | inl (bytes, r) ↦ rw r (finite.read_some n s bytes r)
    | inr (x, r) ↦ elim (Bool-cases (io.is_interrupted x)) [
      | inl again ↦ rw (r, again) (finite.interrupted n s x r again)
      | inr failed ↦ rw (r, failed) tt
    ]
  ]

  -- A buffer comes back, and one that grew has used up a read.
  abbrev Filled : Text → S → Result (PipelineIoError D E) (Option Text) × S → Type 0
  Filled buffer s (ok (some b), t) =
      (remaining t ≤ remaining s) × (length buffer < length b → remaining t < remaining s)
  Filled buffer s (ok none, t) = ⊥
  Filled buffer s (err _, t) = Unit {0}

  later-Filled :
      (buffer longer : Text) (s t : S)
      → remaining t < remaining s
      → (p : Result (PipelineIoError D E) (Option Text) × S) → Filled longer t p
      → Filled buffer s p
  later-Filled buffer longer s t less (ok (some b), v) (a, c) =
      (omega arith, λ grown. omega (arith, a, less))
  later-Filled buffer longer s t less (ok none, v) h = h
  later-Filled buffer longer s t less (err _, v) h = tt

  fill-Filled :
      (fuel n : ℕ) (buffer : Text) (s : S)
      → remaining s < fuel
      → Filled buffer s (fill {D = D} io src key fuel n buffer s)
  unfolding fill
  fill-Filled zero n buffer s h = absurd (omega arith)
  fill-Filled (suc fuel) n buffer s h = elim (Bool-cases (n == 0)) [
    | inl full ↦ rw full (omega arith, λ grown. absurd (omega (arith, grown)))
    | inr more ↦ rw more (
        and_then_lem (Filled buffer s) (read_once io src key n) _ s
          (λ read t e.
            continued n buffer s read t h (subst (Once s) e (read-Once n s)) (fill-Filled fuel))
          (λ x t e. tt))
  ]
    where
      continued :
          (n : ℕ) (buffer : Text) (s : S) (read : Option Text) (t : S)
          → remaining s < suc fuel
          → Once s (ok read, t)
          → ((m : ℕ) (b : Text) (u : S)
              → remaining u < fuel
              → Filled b u (fill {D = D} io src key fuel m b u))
          → Filled buffer s (
              match_option read
                (fill {D = D} io src key fuel n buffer)
                (λ bytes.
                  if length bytes == 0
                  then return (some buffer)
                  else fill {D = D} io src key fuel (n - length bytes) (buffer ++ bytes))
                t)
      continued n buffer s none t h less later =
          later-Filled buffer buffer s t less _ (later n buffer t (omega arith))
      continued n buffer s (some bytes) t h (le, lt) later = elim (Bool-cases (length bytes == 0)) [
        | inl ended ↦ rw ended (le, λ grown. absurd (omega (arith, grown)))
        | inr got ↦
            let less : remaining t < remaining s = lt (ground (arith, got)) in
            rw got (
              later-Filled buffer (buffer ++ bytes) s t less _
                (later (n - length bytes) (buffer ++ bytes) t (omega (arith, less))))
      ]

  abbrev Fewer : {A : Type 0} → S → Result (PipelineIoError D E) A × S → Type 0
  Fewer s (ok _, t) = remaining t ≤ remaining s
  Fewer s (err _, t) = Unit {0}

  room-Fewer : (u : U) (parts : ℕ) (s : S) → Fewer s (make_room {D = D} io src key u parts s)
  unfolding make_room
  room-Fewer u parts s = elim (Bool-cases (parts == 2)) [
    | inl full ↦ rw full (
        step_lem (Fewer s) _ (io.next_part u) _ s
          (λ a t e. omega (arith, finite.next_part u s, ap (λ p. remaining p.1) e)) (λ x t e. tt))
    | inr free ↦ rw free (omega arith)
  ]

  part-Fewer :
      (u : U) (b : Text) (parts : ℕ) (s : S) → Fewer s (send_part {D = D} io src key u b parts s)
  unfolding send_part
  part-Fewer u [] parts s = omega arith
  part-Fewer u (x ∷ b) parts s = finite.put_part u (x ∷ b) s

  -- A success or an error, never a loop that stopped early.
  abbrev pub Ended : Result (PipelineIoError D E) (Option (Unit {0})) × S → Type 0
  Ended (ok (some _), t) = Unit {0}
  Ended (ok none, t) = ⊥
  Ended (err _, t) = Unit {0}

  conclude-Ended : (u : U) (parts : ℕ) (s : S) → Ended (conclude {D = D} io src key u parts s)
  unfolding conclude
  conclude-Ended u parts s =
      and_then_lem Ended (await_parts io src key u parts) _ s
        (λ a t e. step_lem Ended _ (io.complete u) _ t (λ _ v f. tt) (λ x v f. tt)) (λ x t e. tt)

  parts-Ended :
      (fuel : ℕ) (u : U) (parts : ℕ) (s : S)
      → suc (remaining s) < fuel
      → Ended (upload_parts {D = D} io src key fuel u parts s)
  unfolding upload_parts
  parts-Ended zero u parts s h = absurd (omega arith)
  parts-Ended (suc fuel) u parts s h =
      and_then_lem Ended (make_room io src key u parts) _ s
        (λ room t e.
          let kept = subst (Fewer s) e (room-Fewer u parts s) in
          and_then_lem Ended (fill io src key fuel chunk_bytes []) _ t
            (λ filled v f.
              sent_on room t v filled (omega (arith, kept, h))
                (subst (Filled [] t) f (fill-Filled fuel chunk_bytes [] t (omega (arith, kept, h))))
                (λ n w. parts-Ended fuel u n w))
            (λ x v f. tt))
        (λ x t e. tt)
    where
      sent_on :
          (room : ℕ) (t v : S) (filled : Option Text)
          → remaining t < fuel
          → Filled [] t (ok filled, v)
          → ((n : ℕ) (w : S)
              → suc (remaining w) < fuel
              → Ended (upload_parts {D = D} io src key fuel u n w))
          → Ended (
              match_option filled
                (return none)
                (λ buffer. and_then (send_part {D = D} io src key u buffer room) (λ n.
                  if ltb (length buffer) chunk_bytes
                  then conclude {D = D} io src key u n
                  else upload_parts {D = D} io src key fuel u n))
                v)
      sent_on room t v none h filling later = filling
      sent_on room t v (some b) h (le, lt) later =
          and_then_lem Ended (send_part io src key u b room) _ v
            (λ n w e.
              let fewer = subst (Fewer v) e (part-Fewer u b room v) in
              elim (Bool-cases (ltb (length b) chunk_bytes)) [
                | inl last ↦ rw last (conclude-Ended u n w)
                | inr more ↦ rw more (later n w (omega (arith, h, fewer, lt (long_part b more))))
              ])
            (λ x w e. tt)

  abort-Ended :
      (u : U) (p : Result (PipelineIoError D E) (Option (Unit {0})) × S)
      → Ended p
      → Ended (abort_after {D = D} io src key u p)
  unfolding abort_after aborted
  abort-Ended u (ok result, s) h = h
  abort-Ended u (err error, s) h = elim (Result-cases (io.abort u s).0) [
    | inl (_, r) ↦ rw r tt
    | inr (_, r) ↦ rw r tt
  ]

  -- Two more units of fuel than reads to come are enough: the upload succeeds or fails.
  pub write_multipart-Ended :
      (fuel : ℕ) (u : U) (s : S)
      → suc (remaining s) < fuel
      → Ended (write_multipart {D = D} io src key fuel u s)
  unfolding write_multipart
  write_multipart-Ended fuel u s h =
      abort-Ended u (upload_parts io src key fuel u 0 s) (parts-Ended fuel u 0 s h)
