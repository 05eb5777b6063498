-- ===== src/Pipeline/Manifest.antt =====
-- crates/pipeline/src/manifest.rs: the digest of the rows and the completion manifest. A `Text` is
-- here the list of its scalar values. The hasher, the rendering of times and of a path made from a
-- text, and the JSON reader are other crates' and are arguments.
pub mod Digest
pub mod Validity
mod Examples
use datacrate.Common.{
  ℕ, zero, suc, ◌+◌, ◌/◌, ◌%◌, ◌^◌, Bool, true, false, ◌&&◌, ◌||◌, List, [], ◌∷◌, ◌++◌, Option,
  none, some, Result, ok, err, ◌>>=◌, ◌>>◌, map_err, Text, text, leb, ltb, ◌==◌, if◌then◌else◌,
  match_option,
}
use datacrate.Contracts.Names.{str_eq}
use datacrate.Pipeline.IoError.{
  SnapshotViolation, location, missing_identity, ManifestViolation, missing_run_id,
  missing_output_key, missing_output_identity, empty_output_identity, missing_digest_scheme,
  PipelineIoError, invalid_snapshot, read_manifest, unsupported_manifest_version, invalid_manifest,
  unsupported_digest_scheme,
}

-- `ahash`'s keyed hasher.
pub record Hasher (H : Type 0) : Type 0 where
  pub with_seeds : ℕ → ℕ → ℕ → ℕ → H
  pub write_i64 : H → ℕ → H
  pub write : H → Text → H
  pub write_u8 : H → ℕ → H
  pub finish : H → ℕ

-- One row of a checked batch; `id` is the two's complement of the `i64`.
pub record Row : Type 0 where
  pub id : ℕ
  pub name : Text
  pub note : Option Text

abbrev digest_seed_1 : ℕ
digest_seed_1 = 0x517cc1b727220a95

abbrev digest_seed_2 : ℕ
digest_seed_2 = 0x2545f4914f6cdd1d

abbrev digest_seed_3 : ℕ
digest_seed_3 = 0x9e3779b97f4a7c15

abbrev digest_seed_4 : ℕ
digest_seed_4 = 0xbf58476d1ce4e5b9

unfoldable pub wrapping_add : ℕ → ℕ → ℕ
wrapping_add a b = (a + b) % 2 ^ 64

module _ {H : Type 0} (h : Hasher H) where
  unfoldable pub hash_row : Row → ℕ
  hash_row row =
      let seeded = h.with_seeds digest_seed_1 digest_seed_2 digest_seed_3 digest_seed_4 in
      let named = h.write (h.write_i64 seeded row.id) row.name in
      h.finish
        (match_option row.note (h.write_u8 named 0) (λ note. h.write (h.write_u8 named 1) note))

  unfoldable pub accumulate_batch_digest : ℕ → List Row → ℕ
  accumulate_batch_digest running [] = running
  accumulate_batch_digest running (row ∷ rows) =
      accumulate_batch_digest (wrapping_add running (hash_row row)) rows

-- `object_store::ObjectMeta`; `last_modified` is already rendered as RFC 3339.
pub record ObjectMeta : Type 0 where
  pub location : Text
  pub last_modified : Text
  pub size : ℕ
  pub e_tag : Option Text
  pub version : Option Text

pub record CompletionManifest : Type 0 where
  pub schema_version : ℕ
  pub input_key : Text
  pub input_size : ℕ
  pub input_e_tag : Option Text
  pub input_last_modified : Text
  pub row_count : ℕ
  pub content_digest : Text
  pub run_id : Option Text
  pub input_version : Option Text
  pub output_key : Option Text
  pub output_e_tag : Option Text
  pub output_version : Option Text
  pub digest_scheme : Option Text

abbrev pub legacy_digest_scheme : Text
legacy_digest_scheme = text "legacy-ahash-wrapping-sum-v1"

-- `char::is_whitespace`
abbrev pub is_whitespace : ℕ → Bool
is_whitespace c =
    (leb 9 c && leb c 13)
    || (c == 32)
    || (c == 0x85)
    || (c == 0xa0)
    || (c == 0x1680)
    || (leb 0x2000 c && leb c 0x200a)
    || (c == 0x2028)
    || (c == 0x2029)
    || (c == 0x202f)
    || (c == 0x205f)
    || (c == 0x3000)

-- `value.trim().is_empty()`
unfoldable pub trims_empty : Text → Bool
trims_empty [] = true
trims_empty (c ∷ cs) = is_whitespace c && trims_empty cs

-- `is_none_or(|value| value.trim().is_empty())`
abbrev pub lacks : Option Text → Bool
lacks none = true
lacks (some value) = trims_empty value

-- `Option::is_none`
abbrev pub is_none : Option Text → Bool
is_none none = true
is_none (some _) = false

pub record OutputIdentity : Type 0 where
  pub run_id : Text
  pub key : Text
  pub meta : ObjectMeta

module _ {D E : Type 0} where
  -- `OutputIdentity::new`
  unfoldable pub new_identity :
      Text → Text → ObjectMeta → Result (PipelineIoError D E) OutputIdentity
  new_identity run_id key meta =
      if str_eq meta.location key
      then (if lacks meta.version && lacks meta.e_tag
          then err (invalid_snapshot key missing_identity)
          else ok (record { run_id = run_id; key = key; meta = meta }))
      else err (invalid_snapshot key location)

  -- The closure `required`.
  unfoldable pub required :
      Option Text → ManifestViolation → Result (PipelineIoError D E) (Unit {0})
  required value violation = if lacks value then err (invalid_manifest violation) else ok tt

  -- The loop over the output's ETag and version that are present.
  unfoldable pub identities_not_empty : List (Option Text) → Result (PipelineIoError D E) (Unit {0})
  identities_not_empty [] = ok tt
  identities_not_empty (none ∷ rest) = identities_not_empty rest
  identities_not_empty (some identity ∷ rest) =
      if trims_empty identity
      then err (invalid_manifest empty_output_identity)
      else identities_not_empty rest

  unfoldable pub known_scheme : Option Text → Result (PipelineIoError D E) (Unit {0})
  known_scheme none = err (unsupported_digest_scheme [])
  known_scheme (some scheme) =
      if str_eq scheme legacy_digest_scheme then ok tt else err (unsupported_digest_scheme scheme)

  -- The arm of `validate` for version 2.
  unfoldable pub validate_v2 : CompletionManifest → Result (PipelineIoError D E) (Unit {0})
  validate_v2 m =
      required m.run_id missing_run_id
      >> (required m.output_key missing_output_key
          >> ((if is_none m.output_e_tag && is_none m.output_version
                then err (invalid_manifest missing_output_identity)
                else ok tt)
              >> (identities_not_empty (m.output_e_tag ∷ m.output_version ∷ [])
                  >> (required m.digest_scheme missing_digest_scheme
                      >> known_scheme m.digest_scheme))))

  unfoldable pub validate : CompletionManifest → Result (PipelineIoError D E) (Unit {0})
  validate m =
      if m.schema_version == 1
      then ok tt
      else (if m.schema_version == 2
          then validate_v2 m
          else err (unsupported_manifest_version m.schema_version))

  -- `decode_completion_manifest`; `from_slice` is serde's reader of the wire record, whose fields
  -- are those of the manifest.
  unfoldable pub decode_completion_manifest :
      (Text → Result E CompletionManifest) → Text → Result (PipelineIoError D E) CompletionManifest
  decode_completion_manifest from_slice bytes = do
    manifest ← map_err read_manifest (from_slice bytes)
    validate manifest >> ok manifest

-- `format!("{:016x}")` of a `u64`.
unfoldable pub hex_digit : ℕ → ℕ
hex_digit n = if ltb n 10 then 48 + n else 87 + n

unfoldable pub hex : ℕ → ℕ → Text → Text
hex zero n acc = acc
hex (suc digits) n acc = hex digits (n / 16) (hex_digit (n % 16) ∷ acc)

-- `CompletionManifest::new`
unfoldable pub new : Text → ObjectMeta → ℕ → ℕ → CompletionManifest
new input_key input_meta row_count content_digest = record {
  schema_version = 1;
  input_key = input_key;
  input_size = input_meta.size;
  input_e_tag = input_meta.e_tag;
  input_last_modified = input_meta.last_modified;
  row_count = row_count;
  content_digest = hex 16 content_digest [];
  run_id = none;
  input_version = none;
  output_key = none;
  output_e_tag = none;
  output_version = none;
  digest_scheme = none;
}

-- `.filter(|value| !value.trim().is_empty())`
unfoldable pub not_blank : Option Text → Option Text
not_blank none = none
not_blank (some value) = if trims_empty value then none else some value

-- The record that `new_v2` validates and returns.
unfoldable pub v2 : Text → ObjectMeta → ℕ → ℕ → OutputIdentity → CompletionManifest
v2 input_key input_meta row_count content_digest output =
    record (new input_key input_meta row_count content_digest) {
      schema_version = 2;
      run_id = some output.run_id;
      input_version = input_meta.version;
      output_key = some output.key;
      output_e_tag = not_blank output.meta.e_tag;
      output_version = not_blank output.meta.version;
      digest_scheme = some legacy_digest_scheme;
    }

unfoldable pub new_v2 :
    {D E : Type 0}
    → Text
    → ObjectMeta
    → ℕ
    → ℕ
    → OutputIdentity
    → Result (PipelineIoError D E) CompletionManifest
new_v2 input_key input_meta row_count content_digest output =
    let manifest = v2 input_key input_meta row_count content_digest output in
    validate manifest >> ok manifest

-- `key_for`, with `ObjectPath::from`.
unfoldable pub key_for : (Text → Text) → Text → Text
key_for path_from output_key = path_from (output_key ++ text ".manifest.json")
