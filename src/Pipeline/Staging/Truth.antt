-- ===== src/Pipeline/Staging/Truth.antt =====
-- Proofs on the local publication of crates/pipeline/src/staging.rs, with the laws of its file system.
use datacrate.Common.{
  ◌≡◌, refl, sym, ap, ◌∙◌, true, false, Option, some, Result, ok, err, Text, step_lem, last_lem,
}
use datacrate.Pipeline.Error.{
  not_published, published_durability_uncertain, PipelineError, local_publication,
}
use datacrate.Pipeline.Staging.{
  PublicationIo, LocalStagedOutput, is_parent_sync, failure, parent, publish_with,
}

-- What the file system promises of the destination: only the rename changes it, at once and only if
-- it succeeds. `view s` is what stands at the destination, `held s` what the staged file holds.
pub record IoLaws {S F E : Type 0} (io : PublicationIo S F E) (file : F) (output : Text)
    (view : S → Option Text) (held : S → Text) : Type 0 where
  pub sync_file_frame : (s : S) → view (io.sync_file file s).1 ≡ view s
  pub sync_file_held : (s : S) → held (io.sync_file file s).1 ≡ held s
  pub sync_parent_frame : (dir : Text) (s : S) → view (io.sync_parent dir s).1 ≡ view s
  pub persist_ok :
      (s : S)
      → (io.persist file output s).0 ≡ ok tt
      → view (io.persist file output s).1 ≡ some (held s)
  pub persist_err :
      (s : S) (e : E)
      → (io.persist file output s).0 ≡ err e
      → view (io.persist file output s).1 ≡ view s

module _ {S F E Io : Type 0} (io : PublicationIo S F E) (path_parent : Text → Option Text)
    (open_output : Text → E → Io) (staged : LocalStagedOutput F) (view : S → Option Text)
    (held : S → Text) (laws : IoLaws io staged.file staged.output view held) where
  -- What the result of `publish` says of the destination, and of the phase that failed.
  abbrev pub Truthful : S → Result (PipelineError Io) (Unit {0}) × S → Type 0
  Truthful s (ok _, t) = view t ≡ some (held s)
  Truthful s (err (local_publication phase not_published output _), t) =
      (view t ≡ view s) × (output ≡ staged.output) × (is_parent_sync phase ≡ false)
  Truthful s (err (local_publication phase published_durability_uncertain output _), t) =
      (view t ≡ some (held s)) × (output ≡ staged.output) × (is_parent_sync phase ≡ true)
  Truthful s (err _, t) = ⊥

  -- `publish` replaces the destination exactly when it reports so: the new contents stand there
  -- after Ok and after an uncertain durability, which only the last sync reports, and the
  -- old ones after every other error.
  pub publish_with-Truthful :
      (s : S) → Truthful s (publish_with io path_parent open_output staged s)
  unfolding publish_with failure is_parent_sync
  publish_with-Truthful s =
      step_lem (Truthful s) _ _ _ s
        (λ _ t e.
          let synced : view t ≡ view s = ap (λ p. view p.1) (sym e) ∙ laws.sync_file_frame s in
          step_lem (Truthful s) _ _ _ t
            (λ _ u f.
              let renamed : view u ≡ some (held s) =
                ap (λ p. view p.1) (sym f)
                ∙ laws.persist_ok t (ap (λ p. p.0) f)
                ∙ ap (λ p. some (held p.1)) (sym e)
                ∙ ap some (laws.sync_file_held s) in
              last_lem (Truthful s) _ _ u (λ _ v g. parent_synced u v _ g ∙ renamed)
                (λ x v g. (parent_synced u v _ g ∙ renamed, refl, refl)))
            (λ x u f. (
              ap (λ p. view p.1) (sym f) ∙ laws.persist_err t x (ap (λ p. p.0) f) ∙ synced,
              refl,
              refl,
            )))
        (λ x t e. (ap (λ p. view p.1) (sym e) ∙ laws.sync_file_frame s, refl, refl))
    where
      parent_synced :
          (u v : S) (r : Result E (Unit {0}))
          → io.sync_parent (parent path_parent staged.output) u ≡ (r, v)
          → view v ≡ view u
      parent_synced u v r g = ap (λ p. view p.1) (sym g) ∙ laws.sync_parent_frame _ u
