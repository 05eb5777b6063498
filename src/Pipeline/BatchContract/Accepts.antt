-- ===== src/Pipeline/BatchContract/Accepts.antt =====
-- Which batches crates/pipeline/src/batch_contract.rs accepts.
use datacrate.Common.{
  ℕ, ◌≡◌, ◌↔◌, ◌⊎◌, refl, true, false, List, [], ◌∷◌, Option, some, Result, ok, err, ◌>>◌, text,
  ==_iff, arith,
}
use datacrate.Contracts.Names.{str_eq_iff}
use datacrate.Pipeline.IoError.{PipelineIoError}
use datacrate.Pipeline.BatchContract.{
  Column, Arrow, IngestField, check_field, check_fields, downcast, ingest_fields, typed_views,
  validated_columns,
}

-- A column that is its field: the same name, type and nullability, and no null where none may be.
abbrev pub Matches : {D Array : Type 0} → IngestField D → Column D Array → Type 0
Matches expected column =
    (column.name ≡ expected.name)
    × (column.column_type ≡ expected.dtype)
    × (column.is_nullable ≡ expected.nullable)
    × ((expected.nullable ≡ true) ⊎ (column.null_count ≡ 0))

module _ (E : Type 0) {D Array Ints Strings : Type 0} (arrow : Arrow D Array Ints Strings)
    (same : (a b : D) → (arrow.same_type a b ≡ true) ↔ (a ≡ b)) where
  check_field_iff :
      (index : ℕ) (expected : IngestField D) (column : Column D Array)
      → (check_field {E = E} arrow index expected column ≡ ok tt) ↔ Matches expected column
  unfolding check_field
  check_field_iff index expected column = ground (
    arith,
    str_eq_iff column.name expected.name,
    same column.column_type expected.dtype,
    ==_iff column.null_count 0,
  )

  chain_iff :
      {A : Type 0} (m : Result (PipelineIoError D E) (Unit {0}))
      (k : Result (PipelineIoError D E) A) (a : A)
      → ((m >> k) ≡ ok a) ↔ ((m ≡ ok tt) × (k ≡ ok a))
  chain_iff (ok _) k a = ((λ e. (refl, e)), (λ p. p.1))
  chain_iff (err e) k a = ground arith

  downcast_iff :
      {A : Type 0} (cast : Array → Option A) (index : ℕ) (column : Column D Array) (a : A)
      → (downcast {E = E} arrow cast index column ≡ ok a) ↔ (cast column.array ≡ some a)
  unfolding downcast
  downcast_iff cast index column a = ground arith

  -- The columns of an accepted batch, with the views of their arrays.
  abbrev pub Ingest : List (Column D Array) → Ints × Strings × Strings → Type 0
  Ingest (id ∷ name ∷ note ∷ []) (ids, names, notes) =
      Matches (record { name = text "id"; dtype = arrow.int64; nullable = false }) id
      × Matches (record { name = text "name"; dtype = arrow.utf8; nullable = false }) name
      × Matches (record { name = text "note"; dtype = arrow.utf8; nullable = true }) note
      × (arrow.as_int64 id.array ≡ some ids)
      × (arrow.as_string name.array ≡ some names)
      × (arrow.as_string note.array ≡ some notes)
  Ingest _ _ = ⊥

  checked_iff :
      (id name note : Column D Array)
      → (check_fields {E = E} arrow 0 (ingest_fields arrow) (id ∷ name ∷ note ∷ []) ≡ ok tt) ↔ (
          Matches (record { name = text "id"; dtype = arrow.int64; nullable = false }) id
          × Matches (record { name = text "name"; dtype = arrow.utf8; nullable = false }) name
          × Matches (record { name = text "note"; dtype = arrow.utf8; nullable = true }) note)
  unfolding check_fields ingest_fields
  checked_iff id name note =
      let first =
        check_field_iff 0 (record { name = text "id"; dtype = arrow.int64; nullable = false }) id in
      let second =
        check_field_iff 1 (record { name = text "name"; dtype = arrow.utf8; nullable = false })
          name in
      let third =
        check_field_iff 2 (record { name = text "note"; dtype = arrow.utf8; nullable = true })
          note in
      (
        (λ e.
            let a = (chain_iff _ _ tt).0 e in
            let b = (chain_iff _ _ tt).0 a.1 in
            let c = (chain_iff _ _ tt).0 b.1 in (first.0 a.0, second.0 b.0, third.0 c.0)),
        (λ m. (chain_iff _ _ tt).1 (
          first.1 m.0,
          (chain_iff _ _ tt).1 (second.1 m.1, (chain_iff _ _ tt).1 (third.1 m.2, refl)),
        )),
      )

  views_iff :
      (id name note : Column D Array) (ids : Ints) (names notes : Strings)
      → (typed_views {E = E} arrow id name note ≡ ok (ids, names, notes)) ↔ (
          (arrow.as_int64 id.array ≡ some ids)
          × (arrow.as_string name.array ≡ some names)
          × (arrow.as_string note.array ≡ some notes))
  unfolding typed_views downcast
  views_iff id name note ids names notes = ground arith

  -- A batch is accepted exactly when its columns are the three ingest columns in order, each with the
  -- name, type and nullability of its field, no null in the first two, and arrays of the representation
  -- that the digest reads.
  pub validated_columns_iff :
      (columns : List (Column D Array)) (views : Ints × Strings × Strings)
      → (validated_columns {E = E} arrow columns ≡ ok views) ↔ Ingest columns views
  unfolding validated_columns
  validated_columns_iff (id ∷ name ∷ note ∷ []) (ids, names, notes) =
      let fields = checked_iff id name note in
      let views = views_iff id name note ids names notes in
      (
        (λ e.
            let both = (chain_iff _ _ (ids, names, notes)).0 e in
            let m = fields.0 both.0 in let v = views.0 both.1 in (m.0, m.1, m.2, v.0, v.1, v.2)),
        (λ m.
            (chain_iff _ _ (ids, names, notes)).1
              (fields.1 (m.0, m.1, m.2), views.1 (m.3, m.4, m.5))),
      )
  validated_columns_iff _ views = ground arith
