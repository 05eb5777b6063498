-- ===== src/Contracts/Compare/Accepted.antt =====
-- The specification of the by-name policies of crates/contracts/src/lib.rs, stated by membership, and
-- what their level checks (duplicates, extra fields) say of it.
use datacrate.Common.{
  ℕ, ◌≡◌, ◌↔◌, ◌⊎◌, inl, inr, refl, Bool, true, false, ◌||◌, List, [], ◌∷◌, ◌++◌, Text, arith,
  Option-cases, match_option, any, any-append,
}
use datacrate.Contracts.Shape.{
  TypeShape, primitive, optional, sequence, map, struct, Fields, nil, field, FieldShape,
  SchemaPolicy, policy_mode, is_optional, exact, exact_unordered_ci, backward, forward,
}
use datacrate.Contracts.Diff.{
  DiffPath, Diff, append_segment, rejects, mismatch_diff_labeled, missing_diff, extra_diff,
}
use datacrate.Contracts.Compare.{find_field_mode, duplicate_field_name, duplicate_diff}
use datacrate.Contracts.Compare.Trace.{extra_diffs, name_diffs, choose_diffs}
use datacrate.Contracts.Compare.Lookup.{
  key, Named, IsUnique, Contains, Contains-Named, find-some, find-none, duplicate_iff,
}

-- The policies that match fields by name and can reject.
abbrev pub IsByName : SchemaPolicy → Type 0
IsByName exact = Unit {0}
IsByName exact_unordered_ci = Unit {0}
IsByName backward = Unit {0}
IsByName forward = Unit {0}
IsByName _ = ⊥

-- A contract field that the producer may leave out.
abbrev pub may_omit : SchemaPolicy → TypeShape → Bool → Bool
may_omit backward shape has_default = is_optional shape || has_default
may_omit forward _ _ = true
may_omit _ _ _ = false

-- Whether the producer may have a field that the contract does not name.
abbrev pub may_add : SchemaPolicy → Bool
may_add backward = true
may_add _ = false

abbrev pub folds_case : SchemaPolicy → Bool
folds_case backward = false
folds_case forward = false
folds_case _ = true

-- Every field of the producer is named by the contract, unless the policy lets it be.
abbrev pub KnownTo : SchemaPolicy → Fields → Fields → Type 0
KnownTo policy contract nil = Unit {0}
KnownTo policy contract (field n _ _ rest) =
    (Named (folds_case policy) n contract ⊎ (may_add policy ≡ true)) × KnownTo policy contract rest

abbrev mutual
  pub Accepts : SchemaPolicy → TypeShape → TypeShape → Type 0
  Accepts policy (primitive p) (primitive c) = p ≡ c
  Accepts policy (optional p) (optional c) = Accepts policy p c
  Accepts policy (sequence p) (sequence c) = Accepts policy p c
  Accepts policy (map pk pv) (map ck cv) = Accepts policy pk ck × Accepts policy pv cv
  Accepts policy (struct p) (struct c) =
      IsUnique (folds_case policy) p
      × IsUnique (folds_case policy) c
      × Covers policy p c
      × KnownTo policy c p
  Accepts policy _ _ = ⊥

  -- Each field of the contract has a field of that name in the producer, of an accepted shape, or
  -- has none and may be left out.
  pub Covers : SchemaPolicy → Fields → Fields → Type 0
  Covers policy producer nil = Unit {0}
  Covers policy producer (field n s d rest) =
      (((f : FieldShape) × Contains producer f
          × (key (folds_case policy) f.name ≡ key (folds_case policy) n)
          × Accepts policy f.shape s)
        ⊎ (¬ Named (folds_case policy) n producer × (may_omit policy s d ≡ true)))
      × Covers policy producer rest

-- No difference of the list is rejected.
abbrev pub Quiet : SchemaPolicy → List Diff → Type 0
Quiet policy ds = any (λ d. rejects d policy) ds ≡ false

pub Quiet-mismatch :
    (policy : SchemaPolicy) (path : DiffPath) (e f : Text)
    → IsByName policy
    → ¬ Quiet policy (mismatch_diff_labeled path e f ∷ [])
unfolding rejects mismatch_diff_labeled
Quiet-mismatch exact path e f b q = ground arith
Quiet-mismatch _ path e f b q = ground arith

pub Quiet-missing_iff :
    (policy : SchemaPolicy) (path : DiffPath) (s : TypeShape) (d : Bool)
    → IsByName policy
    → (Quiet policy (missing_diff path (is_optional s) d ∷ [])) ↔ (may_omit policy s d ≡ true)
unfolding rejects missing_diff
Quiet-missing_iff exact path s d b = ground arith
Quiet-missing_iff _ path s d b = ground arith

pub Quiet-extra_iff :
    (policy : SchemaPolicy) (path : DiffPath)
    → IsByName policy
    → (Quiet policy (extra_diff path ∷ [])) ↔ (may_add policy ≡ true)
unfolding rejects extra_diff
Quiet-extra_iff exact path b = ground arith
Quiet-extra_iff _ path b = ground arith

pub Quiet-append_iff :
    (policy : SchemaPolicy) (xs ys : List Diff)
    → Quiet policy (xs ++ ys) ↔ (Quiet policy xs × Quiet policy ys)
Quiet-append_iff policy xs ys = rw (any-append (λ d. rejects d policy) xs ys) (ground arith)

pub choose_by_name :
    (policy : SchemaPolicy) (xs ys zs : List Diff)
    → IsByName policy
    → choose_diffs (policy_mode policy) xs ys zs ≡ zs
unfolding policy_mode
choose_by_name exact xs ys zs b = refl
choose_by_name _ xs ys zs b = ground arith

pub by_name-ci :
    (policy : SchemaPolicy) → IsByName policy → (policy_mode policy).ci ≡ folds_case policy
unfolding policy_mode
by_name-ci exact b = refl
by_name-ci _ b = ground arith

extras_sound :
    (policy : SchemaPolicy) (c p : Fields) (path : DiffPath) (depth : ℕ)
    → IsByName policy
    → Quiet policy (extra_diffs c p path depth (policy_mode policy))
    → KnownTo policy c p
extras_sound policy c nil path depth b q = tt
extras_sound policy c (field n s d rest) path depth b q =
    let parts =
      (Quiet-append_iff policy (match_option (find_field_mode c n (policy_mode policy).ci) _ _)
          (extra_diffs c rest path depth (policy_mode policy))).0
        q in
    (
      elim (Option-cases (find_field_mode c n (policy_mode policy).ci)) [
        | inl e ↦ inr (
            (Quiet-extra_iff policy (append_segment path depth n).0 b).0
              (rw (e, match_option) at parts.0))
        | inr (f, e) ↦
            let r = find-some c n (policy_mode policy).ci f e in
            inl (rw (by_name-ci policy b) at (Contains-Named (policy_mode policy).ci n c f r.0 r.1))
      ],
      extras_sound policy c rest path depth b parts.1,
    )

extras_complete :
    (policy : SchemaPolicy) (c p : Fields) (path : DiffPath) (depth : ℕ)
    → IsByName policy
    → KnownTo policy c p
    → Quiet policy (extra_diffs c p path depth (policy_mode policy))
extras_complete policy c nil path depth b k = refl
extras_complete policy c (field n s d rest) path depth b k =
    let later = extras_complete policy c rest path depth b k.1 in
    (Quiet-append_iff policy (match_option (find_field_mode c n (policy_mode policy).ci) _ _)
        (extra_diffs c rest path depth (policy_mode policy))).1
      (
        elim (Option-cases (find_field_mode c n (policy_mode policy).ci)) [
          | inr (f, e) ↦ rw (e, match_option)
          | inl e ↦
              rw (e, match_option)
                (elim k.0 [
                  | inr add ↦ (Quiet-extra_iff policy (append_segment path depth n).0 b).1 add
                  | inl named ↦
                      absurd
                        (find-none c n (policy_mode policy).ci e (rw (by_name-ci policy b) named))
                ])
        ],
        later,
      )

pub duplicates_sound :
    (policy : SchemaPolicy) (matched : List Diff) (p c : Fields) (path : DiffPath) (depth : ℕ)
    → IsByName policy
    → Quiet policy (name_diffs matched p c path depth (policy_mode policy))
    → IsUnique (folds_case policy) p
      × IsUnique (folds_case policy) c
      × Quiet policy matched
      × KnownTo policy c p
unfolding duplicate_diff
duplicates_sound policy matched p c path depth b q =
    elim (Option-cases (duplicate_field_name p (policy_mode policy).ci)) [
      | inr (n, e) ↦ absurd (Quiet-mismatch policy _ _ n b (rw (e, match_option) at q))
      | inl e ↦ elim (Option-cases (duplicate_field_name c (policy_mode policy).ci)) [
        | inr (n, d) ↦ absurd (Quiet-mismatch policy _ _ n b (rw (e, d, match_option) at q))
        | inl d ↦
            let parts =
              (Quiet-append_iff policy matched (extra_diffs c p path depth (policy_mode policy))).0
                (rw (e, d, match_option) at q) in
            (
              rw (by_name-ci policy b) at ((duplicate_iff p (policy_mode policy).ci).0 e),
              rw (by_name-ci policy b) at ((duplicate_iff c (policy_mode policy).ci).0 d),
              parts.0,
              extras_sound policy c p path depth b parts.1,
            )
      ]
    ]

pub duplicates_complete :
    (policy : SchemaPolicy) (matched : List Diff) (p c : Fields) (path : DiffPath) (depth : ℕ)
    → IsByName policy
    → IsUnique (folds_case policy) p
    → IsUnique (folds_case policy) c
    → Quiet policy matched
    → KnownTo policy c p
    → Quiet policy (name_diffs matched p c path depth (policy_mode policy))
unfolding duplicate_diff
duplicates_complete policy matched p c path depth b up uc q k =
    let e = (duplicate_iff p (policy_mode policy).ci).1 (rw (by_name-ci policy b) up) in
    let d = (duplicate_iff c (policy_mode policy).ci).1 (rw (by_name-ci policy b) uc) in
    rw (e, d, match_option)
      ((Quiet-append_iff policy matched (extra_diffs c p path depth (policy_mode policy))).1
        (q, extras_complete policy c p path depth b k))
