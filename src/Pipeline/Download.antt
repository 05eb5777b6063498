-- ===== src/Pipeline/Download.antt =====
-- crates/pipeline/src/object_store_io.rs `download_to_temp` and `download_completed_output`: ranged reads
-- bound to one version of an object. The store and the file are operations on a state `S`; a stream
-- is the list of what it gives.
pub mod Complete
pub mod Bound
mod Examples
use datacrate.Common.{
  ℕ, zero, suc, ◌+◌, ◌-◌, ◌*◌, ◌^◌, Bool, true, false, not, ◌&&◌, List, [], ◌∷◌, Option, none, some,
  Result, ok, err, ◌>>=◌, ◌>>◌, Text, Action, return, lift, and_then, fail_with, ltb, ◌==◌,
  if◌then◌else◌, match_option, length,
}
use datacrate.Contracts.Names.{str_eq}
use datacrate.Pipeline.IoError.{
  PipelineIoError, SnapshotViolation, location, missing_identity, identity, size, range,
  invalid_snapshot, snapshot_precondition, download_object, open_output,
  completion_identity_required, invalid_manifest, output_key_mismatch,
}
use datacrate.Pipeline.IoError
use datacrate.Pipeline.Manifest.{
  ObjectMeta, CompletionManifest, decode_completion_manifest, key_for, is_none,
}

-- `CHUNK_BYTES`
abbrev pub chunk_bytes : ℕ
chunk_bytes = 8 * 1024 * 1024

-- `u64::saturating_add`
unfoldable pub saturating_add : ℕ → ℕ → ℕ
saturating_add a b = if ltb (2 ^ 64 - 1) (a + b) then 2 ^ 64 - 1 else a + b

-- `object_store::GetOptions`, as far as it is set.
pub record GetOptions : Type 0 where
  pub head : Bool
  pub range : Option (ℕ × ℕ)
  pub version : Option Text
  pub if_match : Option Text

-- `object_store::GetResult`
pub record GetResult (E : Type 0) : Type 0 where
  pub meta : ObjectMeta
  pub range : ℕ × ℕ
  pub stream : List (Result E Text)

-- The store's reads, which errors are failed conditions, and the local file.
pub record Source (S E : Type 0) : Type 0 where
  pub head : Text → Action S E ObjectMeta
  pub get_opts : Text → GetOptions → Action S E (GetResult E)
  pub is_condition : E → Bool
  pub create : Text → Action S E (Unit {0})
  pub write_all : Text → Action S E (Unit {0})

-- `.filter(|value| !value.is_empty())`
unfoldable pub not_empty : Option Text → Option Text
not_empty (some (c ∷ cs)) = some (c ∷ cs)
not_empty _ = none

unfoldable pub same_text : Option Text → Option Text → Bool
same_text none none = true
same_text (some a) (some b) = str_eq a b
same_text _ _ = false

-- The identity that a response must repeat: the version, or the ETag if there is none.
unfoldable pub identity_matches : Option Text → Option Text → ObjectMeta → Bool
identity_matches none etag meta = same_text meta.e_tag etag
identity_matches (some version) etag meta = same_text meta.version (some version)

-- The end of the range that begins at an offset.
unfoldable pub range_end : ObjectMeta → ℕ → ℕ
range_end captured offset =
    let end = saturating_add offset chunk_bytes in
    if ltb captured.size end then captured.size else end

module _ {S D E : Type 0} (source : Source S E) (key dest : Text) where
  unfoldable pub condition_error : E → PipelineIoError D E
  condition_error e =
      if source.is_condition e then snapshot_precondition key e else download_object key e

  -- The checks of one response against the captured object and the range that was asked for.
  unfoldable pub check_response :
      ObjectMeta
      → Option Text
      → Option Text
      → ℕ × ℕ
      → GetResult E
      → Result (PipelineIoError D E) (Unit {0})
  check_response captured version etag requested response =
      if not (str_eq response.meta.location key)
      then err (invalid_snapshot key location)
      else (if not (response.meta.size == captured.size)
          then err (invalid_snapshot key (size captured.size response.meta.size))
          else (if not (identity_matches version etag response.meta)
              then err (invalid_snapshot key identity)
              else (if not ((response.range.0 == requested.0) && (response.range.1 == requested.1))
                  then err (invalid_snapshot key (range requested response.range))
                  else ok tt)))

  -- The loop over the stream of one response, which writes what it receives.
  unfoldable pub receive : ℕ → List (Result E Text) → ℕ → Action S (PipelineIoError D E) ℕ
  receive expected [] received = return received
  receive expected (err e ∷ chunks) received = lift (err (download_object key e))
  receive expected (ok chunk ∷ chunks) received =
      let total = saturating_add received (length chunk) in
      if ltb expected total
      then lift (err (invalid_snapshot key (IoError.SnapshotViolation.length expected total)))
      else and_then (fail_with (open_output dest) (source.write_all chunk))
          (λ _. receive expected chunks total)

  -- One turn of the loop over the ranges.
  unfoldable pub download_range :
      ObjectMeta → Option Text → Option Text → ℕ → ℕ → Action S (PipelineIoError D E) (Unit {0})
  download_range captured version etag offset end =
      and_then
        (fail_with condition_error (
          source.get_opts key (record {
            head = false;
            range = some (offset, end);
            version = version;
            if_match = if is_none version then etag else none;
          })))
        λ response.
          and_then (lift (check_response captured version etag (offset, end) response)) λ _.
            and_then (receive (end - offset) response.stream 0) λ received. lift (
              if received == end - offset
              then ok tt
              else err
                  (invalid_snapshot key (IoError.SnapshotViolation.length (end - offset) received)))

  -- The loop over the ranges, on fuel; `none` is a loop that ran out of it.
  unfoldable pub download_ranges :
      ℕ
      → ObjectMeta
      → Option Text
      → Option Text
      → ℕ
      → Action S (PipelineIoError D E) (Option (Unit {0}))
  download_ranges zero captured version etag offset = return none
  download_ranges (suc fuel) captured version etag offset =
      if ltb offset captured.size
      then and_then (download_range captured version etag offset (range_end captured offset))
          (λ _. download_ranges fuel captured version etag (range_end captured offset))
      else return (some tt)

  -- `download_captured`; the size bounds the number of ranges.
  unfoldable pub download_captured : ObjectMeta → Action S (PipelineIoError D E) (Option ObjectMeta)
  download_captured captured =
      let version = not_empty captured.version in
      let etag = not_empty captured.e_tag in
      if not (str_eq captured.location key)
      then lift (err (invalid_snapshot key location))
      else (if is_none version && is_none etag
          then lift (err (invalid_snapshot key missing_identity))
          else and_then (download_ranges (suc captured.size) captured version etag 0)
              λ done. return (match_option done none (λ _. some captured)))

  -- `download_to_temp`
  unfoldable pub download_to_temp : Action S (PipelineIoError D E) (Option ObjectMeta)
  download_to_temp =
      and_then (fail_with (open_output dest) (source.create dest))
        λ _. and_then (fail_with (download_object key) (source.head key)) download_captured

  -- The record must be of version 2 and name the output that was asked for.
  unfoldable pub bound_to_key : CompletionManifest → Result (PipelineIoError D E) (Unit {0})
  bound_to_key manifest =
      if not (manifest.schema_version == 2)
      then err (completion_identity_required manifest.schema_version)
      else (if not (same_text manifest.output_key (some key))
          then err (invalid_manifest output_key_mismatch)
          else ok tt)

  -- `download_completed_output`, of the output `key`; `get` reads an object whole, and `from_slice` is
  -- serde's reader.
  unfoldable pub download_completed_output :
      (Text → Text)
      → (Text → Action S E (Result E Text))
      → (Text → Result E CompletionManifest)
      → Action S (PipelineIoError D E) (Option CompletionManifest)
  download_completed_output path_from get from_slice =
      let manifest_key = key_for path_from key in
      and_then (fail_with (download_object manifest_key) (get manifest_key)) λ response.
        and_then (fail_with (download_object manifest_key) (lift response)) λ bytes.
          and_then (lift (decode_completion_manifest from_slice bytes)) λ manifest.
            and_then (lift (bound_to_key manifest)) λ _.
              and_then
                (fail_with condition_error (
                  source.get_opts key (record {
                    head = true;
                    range = none;
                    version = manifest.output_version;
                    if_match =
                        if is_none manifest.output_version then manifest.output_e_tag else none;
                  })))
                λ captured.
                  and_then
                    (lift (
                      if identity_matches manifest.output_version manifest.output_e_tag
                        captured.meta
                      then ok tt
                      else err (invalid_snapshot key identity)))
                    λ _. and_then (fail_with (open_output dest) (source.create dest)) λ _.
                      and_then (download_captured captured.meta)
                        λ done. return (match_option done none (λ _. some manifest))
