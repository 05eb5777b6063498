-- ===== src/Pipeline/Store.antt =====
-- crates/pipeline/src/object_store_io.rs: the calls on an object store and what they report. The
-- store is `object_store`'s and stands as a record of its operations on a state `S`; `E` holds its
-- errors. `block_on` runs an operation to its end, so each call is one action.
pub mod Laws
use datacrate.Common.{
  ℕ, Bool, true, false, Result, ok, err, ◌>>=◌, ◌>>◌, Text, Action, return, lift, and_then,
  fail_with, if◌then◌else◌,
}
use datacrate.Pipeline.IoError.{
  PipelineIoError, delete_object, head_object, upload_object, write_manifest,
}
use datacrate.Pipeline.Manifest.{ObjectMeta, CompletionManifest, validate}

-- `dyn ObjectStore`
pub record ObjectStore (S E : Type 0) : Type 0 where
  pub head : Text → Action S E ObjectMeta
  pub put : Text → Text → Action S E (Unit {0})
  pub delete : Text → Action S E (Unit {0})
  pub copy : Text → Text → Action S E (Unit {0})
  pub is_not_found : E → Bool

module _ {S D E : Type 0} (store : ObjectStore S E) where
  -- `head_object`
  unfoldable pub head : Text → Action S (PipelineIoError D E) ObjectMeta
  head key = fail_with (head_object key) (store.head key)

  -- `put_manifest`; `to_vec` is serde's writer.
  unfoldable pub put_manifest :
      (CompletionManifest → Result E Text)
      → CompletionManifest
      → Text
      → Action S (PipelineIoError D E) (Unit {0})
  put_manifest to_vec manifest key = and_then (lift (validate manifest)) λ _.
      and_then (fail_with write_manifest (lift (to_vec manifest)))
        λ body. fail_with (upload_object key) (store.put key body)

  deleted : Text → Result E (Unit {0}) → Result (PipelineIoError D E) (Unit {0})
  deleted key (ok _) = ok tt
  deleted key (err source) =
      if store.is_not_found source then ok tt else err (delete_object key source)

  -- `delete_object`: a key that is already gone is no error.
  unfoldable pub delete : Text → Action S (PipelineIoError D E) (Unit {0})
  unfolding deleted
  delete key s = let (r, t) = store.delete key s in (deleted key r, t)

  -- `copy_staged_object`
  unfoldable pub copy_staged_object : Text → Text → Action S (PipelineIoError D E) (Unit {0})
  copy_staged_object source to = fail_with (upload_object to) (store.copy source to)
