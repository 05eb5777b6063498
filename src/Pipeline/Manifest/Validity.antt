-- ===== src/Pipeline/Manifest/Validity.antt =====
-- Proofs on the checks of completion manifests in crates/pipeline/src/manifest.rs, with what a
-- manifest promises as predicates.
use datacrate.Common.{
  ℕ, ◌≡◌, ◌↔◌, ◌⊎◌, inl, inr, refl, sym, false, ◌&&◌, [], ◌∷◌, Option, none, some, Text, Result,
  ◌>>◌, ok, err, Result-cases, arith, if◌then◌else◌, Bool-cases,
}
use datacrate.Contracts.Names.{str_eq_iff}
use datacrate.Pipeline.IoError.{
  ManifestViolation, PipelineIoError, missing_run_id, missing_output_key, missing_digest_scheme,
  invalid_manifest, missing_output_identity,
}
use datacrate.Pipeline.Manifest.{
  ObjectMeta, CompletionManifest, OutputIdentity, legacy_digest_scheme, trims_empty, lacks,
  new_identity, required, identities_not_empty, known_scheme, validate_v2, validate, v2, new_v2,
  decode_completion_manifest, not_blank, is_none,
}

-- A field that is present and not blank.
abbrev pub Given : Option Text → Type 0
Given value = lacks value ≡ false

-- A field that is absent or not blank.
abbrev pub NotBlank : Option Text → Type 0
NotBlank none = Unit {0}
NotBlank (some value) = trims_empty value ≡ false

-- The conditions of version 2, in the code's order.
abbrev pub V2Rules : CompletionManifest → Type 0
V2Rules m =
    Given m.run_id
    × Given m.output_key
    × NotBlank m.output_e_tag
    × NotBlank m.output_version
    × (Given m.output_e_tag ⊎ Given m.output_version)
    × (m.digest_scheme ≡ some legacy_digest_scheme)

-- What a manifest promises its readers.
abbrev pub Supported : CompletionManifest → Type 0
Supported m = (m.schema_version ≡ 1) ⊎ ((m.schema_version ≡ 2) × V2Rules m)

module _ {D E : Type 0} where
  identities_iff :
      (a b : Option Text)
      → (identities_not_empty {D = D} {E = E} (a ∷ b ∷ []) ≡ ok tt) ↔ (NotBlank a × NotBlank b)
  unfolding identities_not_empty
  identities_iff none none = ground arith
  identities_iff none (some b) = ground arith
  identities_iff (some a) none = ground arith
  identities_iff (some a) (some b) = ground arith

  known_scheme_iff :
      (a : Option Text) → (known_scheme {D = D} {E = E} a ≡ ok tt) ↔ (a ≡ some legacy_digest_scheme)
  unfolding known_scheme
  known_scheme_iff none = ground arith
  known_scheme_iff (some a) = ground (arith, str_eq_iff a legacy_digest_scheme)

  required_iff :
      (value : Option Text) (violation : ManifestViolation)
      → (required {D = D} {E = E} value violation ≡ ok tt) ↔ Given value
  unfolding required
  required_iff value violation = ground arith

  chain_iff :
      (m : Result (PipelineIoError D E) (Unit {0})) (k : Result (PipelineIoError D E) (Unit {0}))
      → ((m >> k) ≡ ok tt) ↔ ((m ≡ ok tt) × (k ≡ ok tt))
  chain_iff (ok _) k = ((λ e. (refl, e)), (λ p. p.1))
  chain_iff (err e) k = ground arith

  has_identity : Option Text → Option Text → Result (PipelineIoError D E) (Unit {0})
  has_identity a b =
      if is_none a && is_none b then err (invalid_manifest missing_output_identity) else ok tt

  has_identity_iff :
      (a b : Option Text)
      → NotBlank a
      → NotBlank b
      → (has_identity a b ≡ ok tt) ↔ (Given a ⊎ Given b)
  unfolding has_identity
  has_identity_iff none none p q = ground arith
  has_identity_iff none (some b) p q = ((λ _. inr q), (λ _. refl))
  has_identity_iff (some a) none p q = ((λ _. inl p), (λ _. refl))
  has_identity_iff (some a) (some b) p q = ((λ _. inl p), (λ _. refl))

  chain_both :
      (m : Result (PipelineIoError D E) (Unit {0})) (k : Result (PipelineIoError D E) (Unit {0}))
      → m ≡ ok tt
      → k ≡ ok tt
      → (m >> k) ≡ ok tt
  chain_both m k p q = (chain_iff m k).1 (p, q)

  validate_v2_sound : (m : CompletionManifest) → validate_v2 {D = D} {E = E} m ≡ ok tt → V2Rules m
  unfolding validate_v2 has_identity
  validate_v2_sound m e =
      let run = (chain_iff _ _).0 e in
      let key = (chain_iff _ _).0 run.1 in
      let some_id = (chain_iff (has_identity m.output_e_tag m.output_version) _).0 key.1 in
      let ids = (chain_iff _ _).0 some_id.1 in
      let scheme = (chain_iff _ _).0 ids.1 in
      let clean = (identities_iff m.output_e_tag m.output_version).0 ids.0 in
      (
        (required_iff m.run_id missing_run_id).0 run.0,
        (required_iff m.output_key missing_output_key).0 key.0,
        clean.0,
        clean.1,
        (has_identity_iff m.output_e_tag m.output_version clean.0 clean.1).0 some_id.0,
        (known_scheme_iff m.digest_scheme).0 scheme.1,
      )

  validate_v2_complete :
      (m : CompletionManifest) → V2Rules m → validate_v2 {D = D} {E = E} m ≡ ok tt
  unfolding validate_v2 has_identity trims_empty
  validate_v2_complete m (run, key, etag, version, one, scheme) =
      chain_both _ _ ((required_iff m.run_id missing_run_id).1 run) (
        chain_both _ _ ((required_iff m.output_key missing_output_key).1 key) (
          chain_both (has_identity m.output_e_tag m.output_version) _
            ((has_identity_iff m.output_e_tag m.output_version etag version).1 one)
            (chain_both _ _ ((identities_iff m.output_e_tag m.output_version).1 (etag, version)) (
              chain_both _ _
                ((required_iff m.digest_scheme missing_digest_scheme).1 (rw scheme refl))
                ((known_scheme_iff m.digest_scheme).1 scheme)))))

  -- `validate` accepts a manifest exactly when it keeps the promises of its version.
  pub validate_iff : (m : CompletionManifest) → (validate {D = D} {E = E} m ≡ ok tt) ↔ Supported m
  unfolding validate
  validate_iff m = ground (arith, validate_v2_sound m, validate_v2_complete m)

-- An identity that `OutputIdentity::new` lets through names the key and one usable version or ETag.
pub new_identity_parts :
    {D E : Type 0} (run_id key : Text) (meta : ObjectMeta) (identity : OutputIdentity)
    → new_identity {D = D} {E = E} run_id key meta ≡ ok identity
    → (identity ≡ record { run_id = run_id; key = key; meta = meta })
      × (Given meta.e_tag ⊎ Given meta.version)
unfolding new_identity
new_identity_parts run_id key meta identity e = ground arith

not_blank-NotBlank : (a : Option Text) → NotBlank (not_blank a)
unfolding not_blank
not_blank-NotBlank none = tt
not_blank-NotBlank (some a) = elim (Bool-cases (trims_empty a)) [ inl e ↦ rw e tt | inr e ↦ rw e e ]

not_blank-Given : (a : Option Text) → Given a → Given (not_blank a)
unfolding not_blank
not_blank-Given none g = g
not_blank-Given (some a) g = rw g g

-- Once the output's identity is captured, its manifest is always valid: `new_v2` cannot fail for a
-- key and a run id that are not blank, whatever the input's metadata.
pub new_v2_total :
    {D E : Type 0} (run_id key : Text) (meta : ObjectMeta) (identity : OutputIdentity)
    (input_key : Text) (input_meta : ObjectMeta) (row_count content_digest : ℕ)
    → new_identity {D = D} {E = E} run_id key meta ≡ ok identity
    → trims_empty run_id ≡ false
    → trims_empty key ≡ false
    → new_v2 {D = D} {E = E} input_key input_meta row_count content_digest identity
      ≡ ok (v2 input_key input_meta row_count content_digest identity)
unfolding new_v2 v2
new_v2_total {D} {E} run_id key meta identity input_key input_meta row_count content_digest e r k =
    let parts = new_identity_parts {D = D} {E = E} run_id key meta identity e in
    let m = v2 input_key input_meta row_count content_digest identity in
    let valid : validate {D = D} {E = E} m ≡ ok tt = (validate_iff m).1 (
      inr (
        refl,
        rw parts.0 (
          r,
          k,
          not_blank-NotBlank meta.e_tag,
          not_blank-NotBlank meta.version,
          elim parts.1 [
            | inl g ↦ inl (not_blank-Given meta.e_tag g)
            | inr g ↦ inr (not_blank-Given meta.version g)
          ],
          refl,
        ),
      )) in
    rw valid refl

pub guarded :
    {E A : Type 0} (v : Result E (Unit {0})) (x m : A) → (v >> ok x) ≡ ok m → (v ≡ ok tt) × (x ≡ m)
guarded (ok _) x m e = (refl, cc)
guarded (err _) x m e = ground arith

not_err : {E A : Type 0} {bad : E} {m : A} → err bad ≡ ok m → ⊥
not_err e = ground arith

-- What is read back: bytes that the JSON reader takes for a manifest that `new_v2` made decode to it.
pub decode-new_v2 :
    {D E : Type 0} (from_slice : Text → Result E CompletionManifest) (bytes : Text)
    (input_key : Text) (input_meta : ObjectMeta) (row_count content_digest : ℕ)
    (identity : OutputIdentity) (manifest : CompletionManifest)
    → new_v2 {D = D} {E = E} input_key input_meta row_count content_digest identity ≡ ok manifest
    → from_slice bytes ≡ ok manifest
    → decode_completion_manifest {D = D} {E = E} from_slice bytes ≡ ok manifest
unfolding new_v2 decode_completion_manifest
decode-new_v2 from_slice bytes input_key input_meta row_count content_digest identity manifest e r =
    let made =
      guarded (validate (v2 input_key input_meta row_count content_digest identity)) _ manifest e in
    rw (r, sym made.1, made.0) refl

-- The decoder returns only supported manifests.
pub decode-Supported :
    {D E : Type 0} (from_slice : Text → Result E CompletionManifest) (bytes : Text)
    (manifest : CompletionManifest)
    → decode_completion_manifest {D = D} {E = E} from_slice bytes ≡ ok manifest
    → Supported manifest × (from_slice bytes ≡ ok manifest)
unfolding decode_completion_manifest
decode-Supported {D} {E} from_slice bytes manifest e = elim (Result-cases (from_slice bytes)) [
  | inl (m, read) ↦
      let done : (validate {D = D} {E = E} m >> ok m) ≡ ok manifest = rw read at e in
      let parts = guarded (validate {D = D} {E = E} m) m manifest done in
      rw (sym parts.1) ((validate_iff {D = D} {E = E} m).0 parts.0, read)
  | inr (bad, read) ↦ absurd (not_err (rw read at e))
]
