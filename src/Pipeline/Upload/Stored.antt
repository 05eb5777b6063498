-- ===== src/Pipeline/Upload/Stored.antt =====
-- Proofs on what the multipart upload of crates/pipeline/src/object_store_io.rs leaves under its key.
use datacrate.Common.{
  ℕ, zero, suc, ◌≡◌, refl, sym, subst, ap, ◌∙◌, [], ◌∷◌, ◌++◌, append_assoc, append-nil, Option,
  none, some, Result, ok, err, Result-cases, Text, return, and_then, and_then_lem, step_lem, ltb,
  ltb→lt, if◌then◌else◌, match_option, length, Bool-cases, inl, inr, arith,
}
use datacrate.Pipeline.IoError.{PipelineIoError}
use datacrate.Pipeline.Download.{chunk_bytes}
use datacrate.Pipeline.Upload.{
  Multipart, fill, make_room, aborted, send_part, await_parts, conclude, upload_parts, abort_after,
  write_multipart,
}
use datacrate.Pipeline.Upload.Steps.{
  UploadIoLaws, whole, Filling, fill-Filling, Kept, room-Kept, await-Kept,
}

module _ (D : Type 0) {S E U : Type 0} (io : Multipart S E U) (src key : Text)
    (unread sent : S → Text) (pending : S → ℕ) (view : S → Text → Option Text)
    (laws : UploadIoLaws io key unread sent pending view) where
  -- A finished upload holds a text under the key.
  abbrev pub Holds : Text → Result (PipelineIoError D E) (Option (Unit {0})) × S → Type 0
  Holds x (ok (some _), t) = view t key ≡ some x
  Holds x (ok none, t) = Unit {0}
  Holds x (err _, t) = Unit {0}

  conclude-Holds :
      (u : U) (parts : ℕ) (s : S)
      → pending s ≡ parts
      → Holds (sent s) (conclude {D = D} io src key u parts s)
  unfolding conclude
  conclude-Holds u parts s flight =
      and_then_lem (Holds (sent s)) (await_parts io src key u parts) _ s
        (λ a t e.
          let kept =
            subst (Kept D io src key unread sent pending view laws (λ _. 0) s) e
              (await-Kept D io src key unread sent pending view laws u parts s flight) in
          step_lem (Holds (sent s)) _ (io.complete u) _ t
            (λ _ v f.
              ap (λ p. view p.1 key) (sym f)
              ∙ laws.complete_ok u t kept.2 (ap (λ p. p.0) f)
              ∙ ap some kept.0)
            (λ x v f. tt))
        (λ x t e. tt)

  abbrev Sent : Text → S → Result (PipelineIoError D E) ℕ × S → Type 0
  Sent b s (ok n, t) = (sent t ≡ sent s ++ b) × (unread t ≡ unread s) × (pending t ≡ n)
  Sent b s (err _, t) = Unit {0}

  part-Sent :
      (u : U) (b : Text) (parts : ℕ) (s : S)
      → pending s ≡ parts
      → Sent b s (send_part {D = D} io src key u b parts s)
  unfolding send_part
  part-Sent u [] parts s flight = (sym (append-nil (sent s)), refl, flight)
  part-Sent u (x ∷ b) parts s flight = (
    laws.put_sent u (x ∷ b) s,
    laws.put_unread u (x ∷ b) s,
    omega (arith, laws.put_pending u (x ∷ b) s, flight),
  )

  -- A buffer that was filled, sent, and followed by the rest.
  buffer_sent :
      (fuel : ℕ) (u : U) (room : ℕ) (s t v : S) (filled : Option Text)
      → (sent t ≡ sent s) × (unread t ≡ unread s) × (pending t ≡ room)
      → Filling D io src key unread sent pending view laws chunk_bytes [] t (ok filled, v)
      → ((n : ℕ) (w : S)
          → pending w ≡ n
          → Holds
              (whole D io src key unread sent pending view laws w)
              (upload_parts {D = D} io src key fuel u n w))
      → Holds (whole D io src key unread sent pending view laws s) (
          match_option filled
            (return none)
            (λ buffer. and_then (send_part {D = D} io src key u buffer room) (λ n.
              if ltb (length buffer) chunk_bytes
              then conclude {D = D} io src key u n
              else upload_parts {D = D} io src key fuel u n))
            v)
  buffer_sent fuel u room s t v none kept filling later = tt
  buffer_sent fuel u room s t v (some b) (ks, ku, kp) (joined, quiet, short, still) later =
      and_then_lem (Holds (whole D io src key unread sent pending view laws s))
        (send_part io src key u b room) _ v
        (λ n w e.
          let (put, rest, flight) = subst (Sent b v) e (part-Sent u b room v (still ∙ kp)) in
          let all : whole D io src key unread sent pending view laws w
              ≡ whole D io src key unread sent pending view laws s =
            cc (put, rest, quiet, ks, ku, joined, append_assoc (sent s) b (unread v)) in
          elim (Bool-cases (ltb (length b) chunk_bytes)) [
            | inl last ↦
                let nothing : unread w ≡ [] =
                  rest ∙ short (omega (arith, ltb→lt (length b) chunk_bytes last)) in
                rw last (
                  subst (λ x. Holds x (conclude {D = D} io src key u n w))
                    (sym (append-nil (sent w)) ∙ ap (λ x. sent w ++ x) (sym nothing) ∙ all)
                    (conclude-Holds u n w flight))
            | inr more ↦ rw more (
                subst (λ x. Holds x (upload_parts {D = D} io src key fuel u n w)) all
                  (later n w flight))
          ])
        (λ x w e. tt)

  parts-Holds :
      (fuel : ℕ) (u : U) (parts : ℕ) (s : S)
      → pending s ≡ parts
      → Holds
          (whole D io src key unread sent pending view laws s)
          (upload_parts {D = D} io src key fuel u parts s)
  unfolding upload_parts
  parts-Holds zero u parts s flight = tt
  parts-Holds (suc fuel) u parts s flight =
      and_then_lem (Holds (whole D io src key unread sent pending view laws s))
        (make_room io src key u parts) _ s
        (λ room t e.
          and_then_lem (Holds (whole D io src key unread sent pending view laws s))
            (fill io src key fuel chunk_bytes []) _ t
            (λ filled v f.
              buffer_sent fuel u room s t v filled
                (subst (Kept D io src key unread sent pending view laws (λ room. room) s) e
                  (room-Kept D io src key unread sent pending view laws u parts s flight))
                (subst (Filling D io src key unread sent pending view laws chunk_bytes [] t) f
                  (fill-Filling D io src key unread sent pending view laws fuel chunk_bytes [] t))
                (parts-Holds fuel u))
            (λ x v f. tt))
        (λ x t e. tt)

  abort-Holds :
      (x : Text) (u : U) (p : Result (PipelineIoError D E) (Option (Unit {0})) × S)
      → Holds x p
      → Holds x (abort_after {D = D} io src key u p)
  unfolding abort_after aborted
  abort-Holds x u (ok result, s) h = h
  abort-Holds x u (err error, s) h = elim (Result-cases (io.abort u s).0) [
    | inl (_, r) ↦ rw r tt
    | inr (_, r) ↦ rw r tt
  ]

  -- An upload that reports success stores the whole D io src key unread sent pending view laws file under the key: the parts are cut from the file
  -- in order, with nothing lost to short or interrupted reads, and `complete` is called only after every
  -- part was reported as stored.
  pub write_multipart-Holds :
      (fuel : ℕ) (u : U) (s : S)
      → sent s ≡ []
      → pending s ≡ 0
      → Holds (unread s) (write_multipart {D = D} io src key fuel u s)
  unfolding write_multipart
  write_multipart-Holds fuel u s begun idle =
      abort-Holds (unread s) u (upload_parts io src key fuel u 0 s) (
        subst (λ x. Holds (x ++ unread s) (upload_parts io src key fuel u 0 s)) begun
          (parts-Holds fuel u 0 s idle))
