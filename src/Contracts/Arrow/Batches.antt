-- ===== src/Contracts/Arrow/Batches.antt =====
-- The validator of crates/contracts/src/arrow/validation.rs as a whole, against the values it reaches.
use datacrate.Common.{
  ℕ, ◌<◌, Bool, true, false, not, ok, err, if◌then◌else◌, arith, ◌≡◌, ◌↔◌, refl, inl, inr,
  Result-cases,
}
use datacrate.Contracts.Arrow.Matches.{bare_fields, fields_match_iff}
use datacrate.Contracts.Arrow.Validation.{
  Array, Columns, no_columns, column, RecordBatch, BatchValidationError, schema_mismatch,
  required_null, representation, Node, node, Nodes, no_nodes, nodes, each_index, validate_node,
  validate_rows, validate, BatchValidator,
}
use datacrate.Contracts.Arrow.Active.{
  Active, InColumns, first, later, IsFine, Blames, Checked, each_index-ok, each_index-err, first-ok,
  first-err, accepted, blamed,
}

not_blamed :
    (e : BatchValidationError) (m : Node) (b : Array) (j : ℕ) → Blames e m b j → ¬ IsFine m b j
not_blamed (schema_mismatch _ _) m b j blame fine = absurd blame
not_blamed (required_null _ _) (node f path ch) b j (_, _, null, refused) fine =
    ground (arith, fine.0 null)
not_blamed (representation _) (node f path ch) b j (_, present, wrong) fine =
    absurd (wrong (fine.1 present))

-- The check of an array's row succeeds exactly where every active value below it is fine: null only if its field is
-- nullable, and of the declared representation. Nulls below a null parent or outside a row's offsets do not count.
pub validate_node_iff :
    (n : Node) (a : Array) (row : ℕ)
    → (validate_node n a row ≡ ok tt)
      ↔ ((m : Node) (b : Array) (j : ℕ) → Active n a row m b j → IsFine m b j)
validate_node_iff n a row = (
  λ h m b j within. accepted n a row m b j h within,
  λ fine. elim (Result-cases (validate_node n a row)) [
    | inl (u, k) ↦ k
    | inr (e, k) ↦
        let (m, b, j, within, blame) = blamed n a row e k in
        absurd (not_blamed e m b j blame (fine m b j within))
  ],
)

checked_schema :
    (matches : Bool) (e : BatchValidationError) (rest : Checked)
    → ◌≡◌ {A = Checked} (if not matches then err e else rest) (ok tt)
    → (matches ≡ true) × (rest ≡ ok tt)
checked_schema true e rest h = (refl, h)
checked_schema false e rest h = absurd (cc)

rows_accepted :
    (ns : Nodes) (cs : Columns) (count row : ℕ) (m : Node) (b : Array) (j : ℕ)
    → validate_rows ns cs count ≡ ok tt
    → row < count
    → InColumns ns cs row m b j
    → IsFine m b j
unfolding validate_rows
rows_accepted no_nodes cs count row m b j h lt within = elim within [ ]
rows_accepted (nodes n ns) no_columns count row m b j h lt within = elim within [ ]
rows_accepted (nodes n ns) (column a cs) count row m b j h lt (first within) =
    let at =
      each_index-ok (validate_node n a) count 0 row (first-ok _ _ h).0 (omega arith)
        (omega arith) in
    accepted n a row m b j at within
rows_accepted (nodes n ns) (column a cs) count row m b j h lt (later within) =
    rows_accepted ns cs count row m b j (first-ok (each_index _ count 0) _ h).1 lt within

rows_blamed :
    (ns : Nodes) (cs : Columns) (count : ℕ) (e : BatchValidationError)
    → validate_rows ns cs count ≡ err e
    → (row : ℕ) × (row < count)
      × ((m : Node) × (b : Array) × (j : ℕ) × InColumns ns cs row m b j × Blames e m b j)
unfolding validate_rows
rows_blamed no_nodes cs count e h = absurd (cc)
rows_blamed (nodes n ns) no_columns count e h = absurd (cc)
rows_blamed (nodes n ns) (column a cs) count e h =
    elim (first-err (each_index (validate_node n a) count 0) _ e h) [
      | inl k ↦
          let (row, le, lt, at) = each_index-err _ count 0 e k in
          let (m, b, j, within, blame) = blamed n a row e at in
          (row, omega arith, (m, b, j, first within, blame))
      | inr k ↦
          let (row, lt, (m, b, j, within, blame)) = rows_blamed ns cs count e k in
          (row, lt, (m, b, j, later within, blame))
    ]

-- A batch passes exactly when its schema equals the expected one up to metadata and, in every row below its row
-- count, every active value of every column is fine: no required value is null and each has the
-- declared representation.
pub batch_valid_iff :
    (v : BatchValidator) (batch : RecordBatch)
    → (validate v batch ≡ ok tt) ↔ (
        (bare_fields v.schema ≡ bare_fields batch.fields)
        × ((row : ℕ) (m : Node) (b : Array) (j : ℕ)
            → row < batch.num_rows
            → InColumns v.fields batch.columns row m b j
            → IsFine m b j))
unfolding validate
batch_valid_iff v batch =
    let same = fields_match_iff v.schema batch.fields in
    let rows = validate_rows v.fields batch.columns batch.num_rows in
    (
      λ h.
          let passed = checked_schema _ _ rows h in
          (
            same.0 passed.0,
            λ row m b j lt within.
                rows_accepted v.fields batch.columns batch.num_rows row m b j passed.1 lt within,
          ),
      λ h. rw (same.1 h.0) (elim (Result-cases rows) [
        | inl (u, k) ↦ k
        | inr (e, k) ↦
            let (row, lt, (m, b, j, within, blame)) =
              rows_blamed v.fields batch.columns batch.num_rows e k in
            absurd (not_blamed e m b j blame (h.1 row m b j lt within))
      ]),
    )

-- A batch of the expected schema that is refused is refused for a reason: the error names the path and the index of an
-- active value that is null though required, or that has another representation.
pub validate_refused :
    (v : BatchValidator) (batch : RecordBatch) (e : BatchValidationError)
    → bare_fields v.schema ≡ bare_fields batch.fields
    → validate v batch ≡ err e
    → (row : ℕ) × (row < batch.num_rows)
      × ((m : Node) × (b : Array) × (j : ℕ) × InColumns v.fields batch.columns row m b j
          × Blames e m b j)
unfolding validate
validate_refused v batch e same h =
    rows_blamed v.fields batch.columns batch.num_rows e
      (rw ((fields_match_iff v.schema batch.fields).1 same) at h)
