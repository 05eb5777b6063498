-- ===== src/Pipeline/Manifest/Examples.antt =====
-- The results on crates/pipeline/src/manifest.rs at concrete rows and manifests.
use datacrate.Common.{
  ℕ, ◌+◌, ◌*◌, ◌%◌, ◌^◌, ◌≡◌, ◌↔◌, refl, [], ◌∷◌, none, some, Result, ok, err, Text, text, arith,
  length,
}
use mathlib.Core.List.Perm
use datacrate.Contracts.Names.{str_eq}
use datacrate.Pipeline.IoError.{
  PipelineIoError, missing_identity, missing_output_identity, invalid_snapshot, invalid_manifest,
}
use datacrate.Pipeline.Manifest.{
  Hasher, Row, hash_row, accumulate_batch_digest, wrapping_add, ObjectMeta, CompletionManifest,
  OutputIdentity, trims_empty, new_identity, validate, validate_v2, required, new, v2, new_v2,
  not_blank, decode_completion_manifest, hex, hex_digit,
}
use datacrate.Pipeline.Manifest.Digest.{run_digest, run_digest-Perm, duplicate_seen}
use datacrate.Pipeline.Manifest.Validity.{
  Supported, validate_iff, new_v2_total, decode-new_v2, decode-Supported,
}

-- A hasher that adds up what it is given.
abbrev adding : Hasher ℕ
adding = record {
  with_seeds = λ _ _ _ _. 7;
  write_i64 = λ h n. h + n;
  write = λ h t. h + 3 * length t;
  write_u8 = λ h n. h + 5 * n;
  finish = λ h. h;
}

abbrev ada : Row
ada = record { id = 1; name = text "Ada"; note = none }

abbrev bob : Row
bob = record { id = 2; name = text "Bob"; note = some (text "x") }

run_digest-Perm_example :
    run_digest adding 0 ((ada ∷ bob ∷ []) ∷ []) ≡ run_digest adding 0 ((bob ∷ []) ∷ (ada ∷ []) ∷ [])
run_digest-Perm_example =
    run_digest-Perm adding ((ada ∷ bob ∷ []) ∷ []) ((bob ∷ []) ∷ (ada ∷ []) ∷ []) 0
      (Perm.swap bob ada [])

duplicate_seen_test :
    (accumulate_batch_digest adding 0 (ada ∷ ada ∷ [])
      ≡ accumulate_batch_digest adding 0 (ada ∷ []))
    ↔ (hash_row adding ada % 2 ^ 64 ≡ 0)
duplicate_seen_test = duplicate_seen adding (ada ∷ []) ada 0 (omega arith)

digest_value : accumulate_batch_digest adding 0 (ada ∷ bob ∷ []) ≡ 43
unfolding accumulate_batch_digest hash_row wrapping_add
digest_value = refl

-- Errors of other crates are numbers here, and Arrow's types are not used.
abbrev Error : Type 0
Error = PipelineIoError (Unit {0}) ℕ

abbrev input : ObjectMeta
input = record {
  location = text "in.csv";
  last_modified = text "2026-01-01T00:00:00Z";
  size = 20;
  e_tag = some (text "e0");
  version = none;
}

abbrev output : ObjectMeta
output = record input { location = text "out"; e_tag = some (text "e1"); version = some (text " ") }

abbrev identity : OutputIdentity
identity = record { run_id = text "run"; key = text "out"; meta = output }

captured : new_identity {D = Unit {0}} {E = ℕ} (text "run") (text "out") output ≡ ok identity
unfolding new_identity str_eq trims_empty
captured = refl

not_captured :
    new_identity {D = Unit {0}} {E = ℕ} (text "run") (text "out") (record output { e_tag = none })
    ≡ err (invalid_snapshot (text "out") missing_identity)
unfolding new_identity str_eq trims_empty
not_captured = refl

abbrev manifest : CompletionManifest
manifest = v2 (text "in.csv") input 2 255 identity

blank_dropped : manifest.output_version ≡ none
unfolding v2 not_blank trims_empty
blank_dropped = refl

digest_text : manifest.content_digest ≡ text "00000000000000ff"
unfolding v2 new hex hex_digit
digest_text = refl

new_v2_total_test : new_v2 {D = Unit {0}} {E = ℕ} (text "in.csv") input 2 255 identity ≡ ok manifest
unfolding trims_empty
new_v2_total_test =
    new_v2_total (text "run") (text "out") output identity (text "in.csv") input 2 255 captured refl
      refl

validate_iff_example :
    (validate {D = Unit {0}} {E = ℕ} (record manifest { output_e_tag = none }) ≡ ok tt)
    ↔ Supported (record manifest { output_e_tag = none })
validate_iff_example = validate_iff (record manifest { output_e_tag = none })

no_identity :
    validate {D = Unit {0}} {E = ℕ} (record manifest { output_e_tag = none })
    ≡ err (invalid_manifest missing_output_identity)
unfolding validate validate_v2 required v2 not_blank trims_empty
no_identity = refl

-- A reader that knows one text.
read_one : Text → Result ℕ CompletionManifest
read_one [] = err 0
read_one (_ ∷ _) = ok manifest

decode-new_v2_test : decode_completion_manifest {D = Unit {0}} read_one (text "{}") ≡ ok manifest
unfolding read_one
decode-new_v2_test =
    decode-new_v2 read_one (text "{}") (text "in.csv") input 2 255 identity manifest
      new_v2_total_test refl

decode-Supported_test : Supported manifest × (read_one (text "{}") ≡ ok manifest)
decode-Supported_test =
    decode-Supported {D = Unit {0}} read_one (text "{}") manifest decode-new_v2_test
