-- ===== src/Pipeline/Staging/Examples.antt =====
-- Local publication of crates/pipeline/src/staging.rs on a file system of one destination.
use datacrate.Common.{
  ℕ, ◌≡◌, refl, Option, none, some, [], ok, err, Text, text, and_then, fail_with, arith,
}
use datacrate.Pipeline.Error.{parent_sync, published_durability_uncertain, local_publication}
use datacrate.Pipeline.Staging.{
  PublicationIo, LocalStagedOutput, publish_with, failure, is_parent_sync,
}
use datacrate.Pipeline.Staging.Truth.{IoLaws, Truthful, publish_with-Truthful}

-- The destination, with a last sync that fails.
abbrev disk : PublicationIo (Option Text) Text ℕ
disk = record {
  tempfile_in = λ dir s. (ok [], s);
  reopen = λ file s. (ok file, s);
  sync_file = λ file s. (ok tt, s);
  persist = λ file output s. (ok tt, some file);
  sync_parent = λ dir s. (err 5, s);
}

abbrev staged : LocalStagedOutput Text
staged = record { file = text "rows"; output = text "out" }

disk_laws : IoLaws disk staged.file staged.output (λ s. s) (λ s. text "rows")
disk_laws = record {
  sync_file_frame = λ s. refl;
  sync_file_held = λ s. refl;
  sync_parent_frame = λ dir s. refl;
  persist_ok = λ s e. refl;
  persist_err = λ s x e. absurd (no_error e);
}
  where
    no_error : {x : ℕ} → ok tt ≡ err x → ⊥
    no_error e = ground arith

publish_with-Truthful_example :
    Truthful disk
      (λ _. none)
      (λ path e. e)
      staged
      (λ s. s)
      (λ s. text "rows")
      disk_laws
      (some [])
      (publish_with disk (λ _. none) (λ path e. e) staged (some []))
publish_with-Truthful_example =
    publish_with-Truthful disk (λ _. none) (λ path e. e) staged (λ s. s) (λ s. text "rows")
      disk_laws (some [])

uncertain : publish_with disk (λ _. none) (λ path e. e) staged (some []) ≡ (
  err (local_publication parent_sync published_durability_uncertain (text "out") 5),
  some (text "rows"),
)
unfolding publish_with and_then fail_with failure is_parent_sync
uncertain = refl
