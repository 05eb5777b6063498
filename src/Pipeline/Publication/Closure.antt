-- ===== src/Pipeline/Publication/Closure.antt =====
-- The closure of `publish` in crates/pipeline/src/publication.rs, step by step.
use datacrate.Common.{
  ℕ, ◌≡◌, ◌≢◌, ◌⊎◌, inl, inr, refl, sym, ap, ◌∙◌, Option, none, some, Result, ok, err, Text, Action,
  lift, subst, step_lem, last_lem,
}
use datacrate.Pipeline.Error.{published_without_completion, completion_unknown}
use datacrate.Pipeline.IoError.{PipelineIoError, upload_object}
use datacrate.Pipeline.Manifest.{
  ObjectMeta, CompletionManifest, OutputIdentity, new_identity, new_v2, v2, key_for,
}
use datacrate.Pipeline.Manifest.Validity.{new_identity_parts, guarded}
use datacrate.Pipeline.Store.{ObjectStore, head, put_manifest, delete, copy_staged_object}
use datacrate.Pipeline.Store.Laws.{
  StoreLaws, delete-frame, delete-gone, copy-frame, copy-ok, head-frame, Written,
  put_manifest-Written,
}
use datacrate.Pipeline.Publication.{
  Env, RemoteStagedOutput, Failure, completion_outcome, complete, attempt,
}
use datacrate.Pipeline.Publication.Outcome.{UploadLaws, Known, Reached}

module _ {S D E : Type 0} (env : Env S D E) (store : ObjectStore S E)
    (view : S → Text → Option Text) (laws : StoreLaws store view) (contents : Text)
    (upload_staged : Text → Action S (PipelineIoError D E) (Unit {0})) (start : S)
    (uploads : UploadLaws view contents upload_staged start) (staged : RemoteStagedOutput)
    (output_key input_key : Text) (input_meta : ObjectMeta) (rows digest : ℕ)
    (staged_apart : output_key ≢ staged.key)
    (manifest_apart : output_key ≢ key_for env.path_from output_key)
    (staged_manifest_apart : staged.key ≢ key_for env.path_from output_key) where
  abbrev manifest_key : Text
  manifest_key = key_for env.path_from output_key

  abbrev Ends : S → Result (Failure D E) (Unit {0}) × S → Type 0
  Ends s = Reached env view contents output_key rows staged.run_id s

  -- From the store `s` to `t`, an action's step changed no object but the one under `key`.
  upload_others :
      (t : S) (r : Result (PipelineIoError D E) (Unit {0}))
      → upload_staged staged.key start ≡ (r, t)
      → view t output_key ≡ view start output_key
  upload_others t r e =
      ap (λ p. view p.1 output_key) (sym e) ∙ uploads.frame staged.key output_key staged_apart

  delete_others :
      (s t : S) (r : Result (PipelineIoError D E) (Unit {0}))
      → delete store manifest_key s ≡ (r, t)
      → view t output_key ≡ view s output_key
  delete_others s t r e =
      ap (λ p. view p.1 output_key) (sym e)
      ∙ delete-frame D store view laws manifest_key output_key s manifest_apart

  completion_cases :
      (e : PipelineIoError D E)
      → (completion_outcome env store e ≡ completion_unknown)
        ⊎ (completion_outcome env store e ≡ published_without_completion)
  unfolding completion_outcome
  completion_cases (upload_object _ _) = inl refl
  completion_cases _ = inr refl

  -- A failed write of the record leaves the record absent, or its outcome says so.
  write_failed :
      (s t u : S) (e : PipelineIoError D E)
      → view t output_key ≡ some contents
      → view t manifest_key ≡ none
      → ((u ≡ t) ⊎ ((x : E) × (e ≡ upload_object manifest_key x)))
      → view u output_key ≡ view t output_key
      → Known env view contents output_key rows staged.run_id (completion_outcome env store e) s u
  unfolding completion_outcome
  write_failed s t u e out gone (inr (x, same)) kept = rw same (kept ∙ out)
  write_failed s t u e out gone (inl same) kept = elim (completion_cases e) [
    | inl c ↦ rw c (kept ∙ out)
    | inr c ↦ rw c (kept ∙ out, ap (λ w. view w manifest_key) same ∙ gone)
  ]

  -- The output is in place and no completion record is.
  abbrev Ready : S → Type 0
  Ready t = (view t output_key ≡ some contents) × (view t manifest_key ≡ none)

  Ready-head :
      (t u : S) (r : Result (PipelineIoError D E) ObjectMeta)
      → Ready t
      → head store output_key t ≡ (r, u)
      → Ready u
  Ready-head t u r (out, gone) e =
      let same : (j : Text) → view u j ≡ view t j =
        λ j. ap (λ p. view p.1 j) (sym e) ∙ head-frame D store view laws output_key j t in
      (same output_key ∙ out, same manifest_key ∙ gone)

  Ready-lift :
      {A : Type 0} (t u : S) (a b : Result (PipelineIoError D E) A)
      → Ready t
      → lift a t ≡ (b, u)
      → Ready u
  Ready-lift t u a b ready e = subst Ready (ap (λ p. p.1) e) ready

  record-Written :
      (t u : S) (m : CompletionManifest) (r : Result (PipelineIoError D E) (Unit {0}))
      → put_manifest store env.to_vec m manifest_key t ≡ (r, u)
      → Written D store view laws env.to_vec m manifest_key t (r, u)
  record-Written t u m r e =
      subst (Written D store view laws env.to_vec m manifest_key t) e
        (put_manifest-Written D store view laws env.to_vec m manifest_key t)

  -- The manifest names the run, the key and the rows it was made from.
  manifest_parts :
      (meta : ObjectMeta) (identity : OutputIdentity) (m : CompletionManifest)
      → new_identity {D = D} {E = E} staged.run_id output_key meta ≡ ok identity
      → new_v2 {D = D} {E = E} input_key input_meta rows digest identity ≡ ok m
      → (m.run_id ≡ some staged.run_id) × (m.output_key ≡ some output_key) × (m.row_count ≡ rows)
  unfolding new_v2 v2 datacrate.Pipeline.Manifest.new
  manifest_parts meta identity m e f =
      let made = (guarded _ _ m f).1 in
      let named = (new_identity_parts {D = D} {E = E} staged.run_id output_key meta identity e).0 in
      (
        ap (λ x. x.run_id) (sym made) ∙ ap (λ x. some x.run_id) named,
        ap (λ x. x.output_key) (sym made) ∙ ap (λ x. some x.key) named,
        ap (λ x. x.row_count) (sym made),
      )

  complete-Reached :
      (s t : S)
      → Ready t
      → Ends s (complete env store staged output_key input_key input_meta rows digest t)
  unfolding complete
  complete-Reached s t ready =
      step_lem (Ends s) _ _ _ t
        (λ meta t1 e1.
          let ready1 = Ready-head t t1 (ok meta) ready e1 in
          step_lem (Ends s) _ _ _ t1
            (λ identity t2 e2.
              let ready2 = Ready-lift t1 t2 _ (ok identity) ready1 e2 in
              step_lem (Ends s) _ _ _ t2
                (λ m t3 e3.
                  let ready3 = Ready-lift t2 t3 _ (ok m) ready2 e3 in
                  let parts =
                    manifest_parts meta identity m (ap (λ p. p.0) e2) (ap (λ p. p.0) e3) in
                  last_lem (Ends s) _ _ t3
                    (λ a t4 e4.
                      let w = record-Written t3 t4 m (ok a) e4 in
                      (
                        w.1 output_key manifest_apart ∙ ready3.0,
                        (m, w.0.0, parts.0, parts.1, parts.2, w.0.1, w.0.2),
                      ))
                    (λ x t4 e4.
                      let w = record-Written t3 t4 m (err x) e4 in
                      write_failed s t3 t4 x ready3.0 ready3.1 w.0 (w.1 output_key manifest_apart)))
                (λ x t3 e3. Ready-lift t2 t3 _ (err x) ready2 e3))
            (λ x t2 e2. Ready-lift t1 t2 _ (err x) ready1 e2))
        (λ x t1 e1. Ready-head t t1 (err x) ready e1)

  -- After the copy: the output is what the upload left under the staging key.
  copied :
      (s1 s2 s3 : S)
      → upload_staged staged.key start ≡ (ok tt, s1)
      → delete {D = D} store manifest_key s1 ≡ (ok tt, s2)
      → copy_staged_object {D = D} store staged.key output_key s2 ≡ (ok tt, s3)
      → view s3 output_key ≡ some contents
  copied s1 s2 s3 e1 e2 e3 =
      ap (λ p. view p.1 output_key) (sym e3)
      ∙ copy-ok D store view laws staged.key output_key s2 (ap (λ p. p.0) e3)
      ∙ ap (λ p. view p.1 staged.key) (sym e2)
      ∙ delete-frame D store view laws manifest_key staged.key s1 staged_manifest_apart
      ∙ ap (λ p. view p.1 staged.key) (sym e1)
      ∙ uploads.stored staged.key (ap (λ p. p.0) e1)

  -- Whatever the copy does, the old completion record stays deleted.
  invalidated :
      (s1 s2 s3 : S) (r : Result (PipelineIoError D E) (Unit {0}))
      → delete {D = D} store manifest_key s1 ≡ (ok tt, s2)
      → copy_staged_object {D = D} store staged.key output_key s2 ≡ (r, s3)
      → view s3 manifest_key ≡ none
  invalidated s1 s2 s3 r e2 e3 =
      ap (λ p. view p.1 manifest_key) (sym e3)
      ∙ copy-frame D store view laws staged.key output_key manifest_key s2
          (λ e. manifest_apart (sym e))
      ∙ ap (λ p. view p.1 manifest_key) (sym e2)
      ∙ delete-gone D store view laws manifest_key s1 (ap (λ p. p.0) e2)

  -- The closure of `publish` keeps its word on every branch.
  pub attempt-Reached :
      Ends start
        (attempt env store upload_staged staged output_key input_key input_meta rows digest start)
  unfolding attempt
  attempt-Reached =
      step_lem (Ends start) _ _ _ start
        (λ _ s1 e1.
          step_lem (Ends start) _ _ _ s1
            (λ _ s2 e2.
              step_lem (Ends start) _ _ _ s2
                (λ a s3 e3.
                  complete-Reached start s3
                    (copied s1 s2 s3 e1 e2 e3, invalidated s1 s2 s3 (ok a) e2 e3))
                (λ x s3 e3. invalidated s1 s2 s3 (err x) e2 e3))
            (λ x s2 e2. delete_others s1 s2 (err x) e2 ∙ upload_others s1 _ e1))
        (λ x s1 e1. upload_others s1 (err x) e1)
