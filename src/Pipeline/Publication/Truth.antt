-- ===== src/Pipeline/Publication/Truth.antt =====
-- Proofs on the whole of `publish` in crates/pipeline/src/publication.rs: the cleanup after its closure.
use datacrate.Common.{
  ℕ, ◌≡◌, ◌≢◌, sym, ap, ◌∙◌, Option, none, some, [], ◌∷◌, ◌++◌, Result, ok, err, Text, text, Action,
  subst, fail_with, last_lem, arith,
}
use datacrate.Pipeline.Error.{
  cleanup_staging, RemotePublicationOutcome, not_published, publication_unknown,
  published_without_completion, completion_unknown, completed_cleanup_unknown,
}
use datacrate.Pipeline.IoError.{PipelineIoError}
use datacrate.Pipeline.Manifest.{ObjectMeta, key_for}
use datacrate.Pipeline.Store.{ObjectStore, delete}
use datacrate.Pipeline.Store.Laws.{StoreLaws, delete-frame, delete-gone}
use datacrate.Pipeline.Publication.{
  Env, RemoteStagedOutput, Failure, failure, clean_up, publish, new,
}
use datacrate.Pipeline.Publication.Outcome.{UploadLaws, Known, Reached, Truthful}
use datacrate.Pipeline.Publication.Closure.{attempt-Reached}
use datacrate.Common.{and_then}

module _ {S D E : Type 0} (env : Env S D E) (store : ObjectStore S E)
    (view : S → Text → Option Text) (laws : StoreLaws store view) (contents : Text)
    (staged : RemoteStagedOutput) (output_key : Text) (rows : ℕ)
    (staged_apart : output_key ≢ staged.key)
    (staged_manifest_apart : staged.key ≢ key_for env.path_from output_key) where
  abbrev manifest_key : Text
  manifest_key = key_for env.path_from output_key

  other_keys :
      (outcome : RemotePublicationOutcome) (s t u : S)
      → view u output_key ≡ view t output_key
      → view u manifest_key ≡ view t manifest_key
      → Known env view contents output_key rows staged.run_id outcome s t
      → Known env view contents output_key rows staged.run_id outcome s u
  other_keys not_published s t u o m k = o ∙ k
  other_keys publication_unknown s t u o m k = m ∙ k
  other_keys published_without_completion s t u o m k = (o ∙ k.0, m ∙ k.1)
  other_keys completion_unknown s t u o m k = o ∙ k
  other_keys completed_cleanup_unknown s t u o m (k, (r, body, a, b, c, d, e)) =
      (o ∙ k, (r, body, a, b, c, d, m ∙ e))

  -- Deleting the staging key leaves the output and its record alone.
  pub clean_up-Truthful :
      (s : S) (r : Result (Failure D E) (Unit {0}) × S)
      → Reached env view contents output_key rows staged.run_id s r
      → Truthful env view contents output_key rows staged.run_id staged.key s
          (clean_up env store staged output_key r)
  unfolding clean_up failure fail_with
  clean_up-Truthful s (err (phase, outcome, source), t) k =
      other_keys outcome s t _ (delete-frame D store view laws staged.key output_key t staged_apart)
        (delete-frame D store view laws staged.key manifest_key t
          (λ e. staged_manifest_apart (sym e)))
        k
  clean_up-Truthful s (ok _, t) k =
      let kept =
        other_keys completed_cleanup_unknown s t (delete {D = D} store staged.key t).1
          (delete-frame D store view laws staged.key output_key t staged_apart)
          (delete-frame D store view laws staged.key manifest_key t
            (λ e. staged_manifest_apart (sym e)))
          k in
      last_lem (Truthful env view contents output_key rows staged.run_id staged.key s)
        (λ source.
          failure env store staged output_key cleanup_staging completed_cleanup_unknown source none)
        (delete store staged.key) t
        (λ _ u e.
          let (out, done) =
            subst
              (λ p.
                Known env view contents output_key rows staged.run_id completed_cleanup_unknown s
                  p.1)
              e kept in
          (
            out,
            done,
            ap (λ p. view p.1 staged.key) (sym e)
                ∙ delete-gone D store view laws staged.key t (ap (λ p. p.0) e),
          ))
        (λ x u e.
          subst
            (λ p.
              Known env view contents output_key rows staged.run_id completed_cleanup_unknown s p.1)
            e kept)

-- A text is not equal to an extension of it, and extensions that begin differently differ.
append_longer : (a b : Text) → a ≡ a ++ b → b ≡ []
append_longer [] b e = sym e
append_longer (x ∷ a) b e = append_longer a b (cc)

not_empty : (c : ℕ) (b : Text) → c ∷ b ≢ []
not_empty c b e = ground (arith, e)

append_cancel : (a b c : Text) → a ++ b ≡ a ++ c → b ≡ c
append_cancel [] b c e = e
append_cancel (x ∷ a) b c e = append_cancel a b c (cc)

suffixes_differ : {x : Text} → text ".staging/" ++ x ≢ text ".manifest.json"
suffixes_differ e = ground (arith, e)

-- Where the store keeps its documented promises and leaves the two derived paths as they are, the
-- outcome that `publish` reports is true of the store, on every branch. After Ok the output holds the
-- uploaded contents, the completion record names this run, the output and its rows, and the staging
-- object is gone. `not_published` leaves the output as it was; `publication_unknown` leaves no
-- completion record; `published_without_completion` leaves the new output and no record;
-- `completion_unknown` leaves the new output; `completed_cleanup_unknown` leaves both.
pub publish-Truthful :
    {S D E : Type 0} (env : Env S D E) (store : ObjectStore S E) (view : S → Text → Option Text)
    (laws : StoreLaws store view) (contents : Text)
    (upload_staged : Text → Action S (PipelineIoError D E) (Unit {0}))
    (path run_id output_key input_key : Text) (input_meta : ObjectMeta) (rows digest : ℕ) (s : S)
    (uploads : UploadLaws view contents upload_staged s)
    (manifest_path : env.path_from (output_key ++ text ".manifest.json")
      ≡ output_key ++ text ".manifest.json")
    (staging_path : env.path_from (output_key ++ (text ".staging/" ++ run_id))
      ≡ output_key ++ (text ".staging/" ++ run_id))
    → Truthful env view contents output_key rows run_id
        (env.path_from (output_key ++ (text ".staging/" ++ run_id)))
        s
        (publish env store upload_staged
          (ok (path, some run_id))
          output_key
          input_key
          input_meta
          rows
          digest
          s)
unfolding publish new and_then fail_with key_for
publish-Truthful env store view laws contents upload_staged path run_id output_key input_key
      input_meta rows digest s uploads manifest_path staging_path =
    let staging_key = env.path_from (output_key ++ (text ".staging/" ++ run_id)) in
    let staged_apart : output_key ≢ staging_key = λ e.
      not_empty _ _ (append_longer output_key (text ".staging/" ++ run_id) (e ∙ staging_path)) in
    let manifest_apart : output_key ≢ key_for env.path_from output_key =
      λ e. not_empty _ _ (append_longer output_key (text ".manifest.json") (e ∙ manifest_path)) in
    let both_apart : staging_key ≢ key_for env.path_from output_key =
      λ e. suffixes_differ (append_cancel output_key _ _ (sym staging_path ∙ e ∙ manifest_path)) in
    clean_up-Truthful env store view laws contents (record { run_id = run_id; key = staging_key })
      output_key rows staged_apart both_apart s _
      (attempt-Reached env store view laws contents upload_staged s uploads
        (record { run_id = run_id; key = staging_key }) output_key input_key input_meta rows digest
        staged_apart manifest_apart both_apart)
