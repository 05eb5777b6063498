-- ===== src/Pipeline/Upload/Steps.antt =====
-- What the file and the store promise to the multipart upload of crates/pipeline/src/object_store_io.rs, and
-- proofs on its steps: filling a buffer, and waiting for parts.
use datacrate.Common.{
  ℕ, zero, suc, ◌+◌, ◌-◌, ◌≤◌, ◌<◌, ◌≡◌, refl, sym, subst, ap, ◌∙◌, false, [], ◌∷◌, ◌++◌,
  append_assoc, Option, none, some, Result, ok, err, Result-cases, Text, return, and_then_lem,
  step_lem, ◌==◌, ==_iff, if◌then◌else◌, match_option, length, length-append, Bool-cases, inl, inr,
  arith,
}
use datacrate.Pipeline.IoError.{PipelineIoError}
use datacrate.Pipeline.Upload.{Multipart, classify, read_once, fill, make_room, await_parts}

-- What the file and the store promise. `unread s` is the rest of the file, `sent s` the parts sent so
-- far in order, `pending s` how many of these have not been reported as stored, and `view s j` the object
-- under `j`. Only a `complete` with every part stored is known to make the object.
pub record UploadIoLaws {S E U : Type 0} (io : Multipart S E U) (key : Text)
    (unread sent : S → Text) (pending : S → ℕ) (view : S → Text → Option Text) : Type 0 where
  pub read_ok :
      (n : ℕ) (s : S) (bytes : Text)
      → (io.read n s).0 ≡ ok bytes
      → (unread s ≡ bytes ++ unread (io.read n s).1)
        × (length bytes ≤ n)
        × (length bytes ≡ 0 → 0 < n → unread s ≡ [])
  pub read_err :
      (n : ℕ) (s : S) (e : E) → (io.read n s).0 ≡ err e → unread (io.read n s).1 ≡ unread s
  pub read_sent : (n : ℕ) (s : S) → sent (io.read n s).1 ≡ sent s
  pub read_pending : (n : ℕ) (s : S) → pending (io.read n s).1 ≡ pending s
  pub put_sent : (u : U) (b : Text) (s : S) → sent (io.put_part u b s) ≡ sent s ++ b
  pub put_unread : (u : U) (b : Text) (s : S) → unread (io.put_part u b s) ≡ unread s
  pub put_pending : (u : U) (b : Text) (s : S) → pending (io.put_part u b s) ≡ suc (pending s)
  pub next_sent : (u : U) (s : S) → sent (io.next_part u s).1 ≡ sent s
  pub next_unread : (u : U) (s : S) → unread (io.next_part u s).1 ≡ unread s
  pub next_pending :
      (u : U) (s : S)
      → 0 < pending s
      → (io.next_part u s).0 ≡ ok tt
      → suc (pending (io.next_part u s).1) ≡ pending s
  pub complete_ok :
      (u : U) (s : S)
      → pending s ≡ 0
      → (io.complete u s).0 ≡ ok tt
      → view (io.complete u s).1 key ≡ some (sent s)

positive : (n : ℕ) → (n == 0) ≡ false → 0 < n
positive n more = ground arith

append_empty : (xs ys : Text) → xs ++ ys ≡ [] → ys ≡ []
append_empty [] ys e = e
append_empty (x ∷ xs) ys e = absurd (ground (arith, e))

module _ (D : Type 0) {S E U : Type 0} (io : Multipart S E U) (src key : Text)
    (unread sent : S → Text) (pending : S → ℕ) (view : S → Text → Option Text)
    (laws : UploadIoLaws io key unread sent pending view) where
  -- The part of the file that is sent, buffered or unread.
  abbrev pub whole : S → Text
  whole s = sent s ++ unread s

  -- A filled buffer continues the unread text, and is short only at its end.
  abbrev pub Filling : ℕ → Text → S → Result (PipelineIoError D E) (Option Text) × S → Type 0
  Filling n buffer s (ok (some b), t) =
      (b ++ unread t ≡ buffer ++ unread s)
      × (sent t ≡ sent s)
      × (length b < length buffer + n → unread t ≡ [])
      × (pending t ≡ pending s)
  Filling n buffer s (ok none, t) = Unit {0}
  Filling n buffer s (err _, t) = Unit {0}

  -- One read, or an interruption.
  abbrev Once : ℕ → S → Result (PipelineIoError D E) (Option Text) × S → Type 0
  Once n s (ok (some bytes), t) =
      (unread s ≡ bytes ++ unread t)
      × (length bytes ≤ n)
      × (length bytes ≡ 0 → 0 < n → unread s ≡ [])
      × (sent t ≡ sent s)
      × (pending t ≡ pending s)
  Once n s (ok none, t) = (unread t ≡ unread s) × (sent t ≡ sent s) × (pending t ≡ pending s)
  Once n s (err _, t) = Unit {0}

  read-Once : (n : ℕ) (s : S) → Once n s (read_once io src key n s)
  unfolding read_once classify
  read-Once n s = elim (Result-cases (io.read n s).0) [
    | inl (bytes, r) ↦
        let given = laws.read_ok n s bytes r in
        rw r (given.0, given.1, given.2, laws.read_sent n s, laws.read_pending n s)
    | inr (x, r) ↦ elim (Bool-cases (io.is_interrupted x)) [
      | inl again ↦ rw (r, again) (laws.read_err n s x r, laws.read_sent n s, laws.read_pending n s)
      | inr failed ↦ rw (r, failed) tt
    ]
  ]

  retried :
      (n : ℕ) (buffer : Text) (s t : S)
      → unread t ≡ unread s
      → sent t ≡ sent s
      → pending t ≡ pending s
      → (p : Result (PipelineIoError D E) (Option Text) × S) → Filling n buffer t p
      → Filling n buffer s p
  retried n buffer s t u w q (ok (some b), v) (a, c, d, k) =
      (a ∙ ap (λ x. buffer ++ x) u, c ∙ w, d, k ∙ q)
  retried n buffer s t u w q (ok none, v) h = tt
  retried n buffer s t u w q (err _, v) h = tt

  extended :
      (n : ℕ) (buffer bytes : Text) (s t : S)
      → unread s ≡ bytes ++ unread t
      → length bytes ≤ n
      → sent t ≡ sent s
      → pending t ≡ pending s
      → (p : Result (PipelineIoError D E) (Option Text) × S)
      → Filling (n - length bytes) (buffer ++ bytes) t p
      → Filling n buffer s p
  extended n buffer bytes s t u l w q (ok (some b), v) (a, c, d, k) = (
    a ∙ append_assoc buffer bytes (unread t) ∙ ap (λ x. buffer ++ x) (sym u),
    c ∙ w,
    (λ short. d (omega (arith, short, l, length-append buffer bytes))),
    k ∙ q,
  )
  extended n buffer bytes s t u l w q (ok none, v) h = tt
  extended n buffer bytes s t u l w q (err _, v) h = tt

  rest_empty :
      (bytes : Text) (s t : S) → unread s ≡ bytes ++ unread t → unread s ≡ [] → unread t ≡ []
  rest_empty bytes s t u e = append_empty bytes (unread t) (sym u ∙ e)

  pub fill-Filling :
      (fuel n : ℕ) (buffer : Text) (s : S)
      → Filling n buffer s (fill {D = D} io src key fuel n buffer s)
  unfolding fill
  fill-Filling zero n buffer s = tt
  fill-Filling (suc fuel) n buffer s = elim (Bool-cases (n == 0)) [
    | inl full ↦
        rw full (refl, refl, (λ short. absurd (omega (arith, short, (==_iff n 0).0 full))), refl)
    | inr more ↦ rw more (
        and_then_lem (Filling n buffer s) (read_once io src key n) _ s
          (λ read t e.
            continued n buffer s read t more (subst (Once n s) e (read-Once n s))
              (fill-Filling fuel))
          (λ x t e. tt))
  ]
    where
      continued :
          (n : ℕ) (buffer : Text) (s : S) (read : Option Text) (t : S)
          → (n == 0) ≡ false
          → Once n s (ok read, t)
          → ((m : ℕ) (b : Text) (u : S) → Filling m b u (fill {D = D} io src key fuel m b u))
          → Filling n buffer s (
              match_option read
                (fill {D = D} io src key fuel n buffer)
                (λ bytes.
                  if length bytes == 0
                  then return (some buffer)
                  else fill {D = D} io src key fuel (n - length bytes) (buffer ++ bytes))
                t)
      continued n buffer s none t more (u, w, q) later =
          retried n buffer s t u w q _ (later n buffer t)
      continued n buffer s (some bytes) t more (u, l, z, w, q) later =
          elim (Bool-cases (length bytes == 0)) [
            | inl ended ↦
                let nothing : unread s ≡ [] =
                  z ((==_iff (length bytes) 0).0 ended) (positive n more) in
                rw ended (
                  ap (λ x. buffer ++ x) (rest_empty bytes s t u nothing ∙ sym nothing),
                  w,
                  (λ _. rest_empty bytes s t u nothing),
                  q,
                )
            | inr got ↦ rw got (
                extended n buffer bytes s t u l w q _
                  (later (n - length bytes) (buffer ++ bytes) t))
          ]

  -- Waiting for parts moves no bytes, and leaves so many in flight.
  abbrev pub Kept : {A : Type 0} → (A → ℕ) → S → Result (PipelineIoError D E) A × S → Type 0
  Kept left s (ok a, t) = (sent t ≡ sent s) × (unread t ≡ unread s) × (pending t ≡ left a)
  Kept left s (err _, t) = Unit {0}

  awaited :
      (u : U) (parts : ℕ) (s t : S)
      → pending s ≡ suc parts
      → io.next_part u s ≡ (ok tt, t)
      → (sent t ≡ sent s) × (unread t ≡ unread s) × (pending t ≡ parts)
  awaited u parts s t flight e =
      let stored : suc (pending (io.next_part u s).1) ≡ pending s =
        laws.next_pending u s (omega (arith, flight)) (ap (λ p. p.0) e) in
      let moved : pending t ≡ pending (io.next_part u s).1 = ap (λ p. pending p.1) (sym e) in
      (
        ap (λ p. sent p.1) (sym e) ∙ laws.next_sent u s,
        ap (λ p. unread p.1) (sym e) ∙ laws.next_unread u s,
        omega (arith, stored, moved, flight),
      )

  pub room-Kept :
      (u : U) (parts : ℕ) (s : S)
      → pending s ≡ parts
      → Kept (λ room. room) s (make_room {D = D} io src key u parts s)
  unfolding make_room
  room-Kept u parts s flight = elim (Bool-cases (parts == 2)) [
    | inl full ↦ rw full (
        step_lem (Kept (λ room. room) s) _ (io.next_part u) _ s
          (λ a t e. awaited u (parts - 1) s t (omega (arith, flight, (==_iff parts 2).0 full)) e)
          (λ x t e. tt))
    | inr free ↦ rw free (refl, refl, flight)
  ]

  pub await-Kept :
      (u : U) (parts : ℕ) (s : S)
      → pending s ≡ parts
      → Kept (λ _. 0) s (await_parts {D = D} io src key u parts s)
  unfolding await_parts
  await-Kept u zero s flight = (refl, refl, flight)
  await-Kept u (suc parts) s flight =
      step_lem (Kept (λ _. 0) s) _ (io.next_part u) _ s
        (λ a t e.
          let one = awaited u parts s t flight e in
          kept_on s t (one.0, one.1) _ (await-Kept u parts t one.2))
        (λ x t e. tt)
    where
      kept_on :
          (s t : S)
          → (sent t ≡ sent s) × (unread t ≡ unread s)
          → (p : Result (PipelineIoError D E) (Unit {0}) × S) → Kept (λ _. 0) t p
          → Kept (λ _. 0) s p
      kept_on s t (a, b) (ok _, v) (c, d, k) = (c ∙ a, d ∙ b, k)
      kept_on s t h (err _, v) k = tt
