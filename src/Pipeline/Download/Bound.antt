-- ===== src/Pipeline/Download/Bound.antt =====
-- Proofs on `download_completed_output` of crates/pipeline/src/object_store_io.rs: the record it returns.
use datacrate.Common.{
  ◌≡◌, ◌<◌, ◌^◌, subst, ap, true, Option, none, some, Result, ok, err, Text, Action, return, lift,
  and_then_lem, step_lem, ==_iff, if◌then◌else◌, match_option, arith,
}
use datacrate.Contracts.Names.{str_eq_iff}
use datacrate.Pipeline.IoError.{PipelineIoError}
use datacrate.Pipeline.Manifest.{ObjectMeta, CompletionManifest, decode_completion_manifest}
use datacrate.Pipeline.Manifest.Validity.{Supported, decode-Supported}
use datacrate.Pipeline.Download.{
  Source, GetOptions, GetResult, same_text, identity_matches, bound_to_key, download_captured,
  download_completed_output,
}
use datacrate.Pipeline.Download.Complete.{FileLaws, Downloaded, download-Downloaded}

same_text-some : (a : Option Text) (b : Text) → same_text a (some b) ≡ true → a ≡ some b
unfolding same_text
same_text-some none b e = ground (arith, e)
same_text-some (some a) b e = ap some ((str_eq_iff a b).0 e)

module _ (D : Type 0) {S E : Type 0} (source : Source S E) (key dest : Text) (got : S → Text)
    (laws : FileLaws source got)
    (sizes : (k : Text) (o : GetOptions) (s : S) (r : GetResult E)
      → (source.get_opts k o s).0 ≡ ok r
      → r.meta.size < 2 ^ 64)
    (path_from : Text → Text) (get : Text → Action S E (Result E Text))
    (from_slice : Text → Result E CompletionManifest) where
  -- A returned record is a supported one of version 2 that names the key.
  abbrev pub Bound : Result (PipelineIoError D E) (Option CompletionManifest) × S → Type 0
  Bound (ok (some m), t) = Supported m × (m.schema_version ≡ 2) × (m.output_key ≡ some key)
  Bound (ok none, t) = ⊥
  Bound (err _, t) = Unit {0}

  bound_parts :
      (m : CompletionManifest)
      → bound_to_key {D = D} source key dest m ≡ ok tt
      → (m.schema_version ≡ 2) × (m.output_key ≡ some key)
  unfolding bound_to_key
  bound_parts m e = ground (arith, e, ==_iff m.schema_version 2, same_text-some m.output_key key)

  finished :
      (m : CompletionManifest) (captured : ObjectMeta) (s t : S) (done : Option ObjectMeta)
      → Supported m × (m.schema_version ≡ 2) × (m.output_key ≡ some key)
      → Downloaded D source key dest got laws captured s (ok done, t)
      → Bound (return (match_option done none (λ _. some m)) t)
  finished m captured s t none b h = h
  finished m captured s t (some _) b h = b

  -- `download_completed_output` ends, and a record that it returns is a supported one of version 2 that
  -- names the requested output.
  pub completed-Bound :
      (s : S) → Bound (download_completed_output source key dest path_from get from_slice s)
  unfolding download_completed_output
  completed-Bound s =
      step_lem Bound _ _ _ s
        (λ response t1 e1.
          step_lem Bound _ (lift response) _ t1
            (λ bytes t2 e2.
              and_then_lem Bound (lift (decode_completion_manifest from_slice bytes)) _ t2
                (λ m t3 e3.
                  and_then_lem Bound (lift (bound_to_key source key dest m)) _ t3
                    (λ _ t4 e4.
                      let parts = bound_parts m (ap (λ p. p.0) e4) in
                      let read = decode-Supported {D = D} from_slice bytes m (ap (λ p. p.0) e3) in
                      step_lem Bound _ _ _ t4
                        (λ captured t5 e5.
                          and_then_lem Bound
                            (lift (
                              if identity_matches m.output_version m.output_e_tag captured.meta
                              then ok tt
                              else _))
                            _ t5
                            (λ _ t6 e6.
                              step_lem Bound _ (source.create dest) _ t6
                                (λ _ t7 e7.
                                  and_then_lem Bound
                                    (download_captured source key dest captured.meta) _ t7
                                    (λ done t8 e8.
                                      finished m captured.meta t7 t8 done (read.0, parts.0, parts.1)
                                        (subst
                                          (Downloaded D source key dest got laws captured.meta t7)
                                          e8
                                          (download-Downloaded D source key dest got laws
                                            captured.meta t7
                                            (sizes key _ t4 captured (ap (λ p. p.0) e5)))))
                                    (λ x t8 e8. tt))
                                (λ x t7 e7. tt))
                            (λ x t6 e6. tt))
                        (λ x t5 e5. tt))
                    (λ x t4 e4. tt))
                (λ x t3 e3. tt))
            (λ x t2 e2. tt))
        (λ x t1 e1. tt)
