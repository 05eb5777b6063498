-- ===== src/Contracts/Arrow/Active.antt =====
-- Which values crates/contracts/src/arrow/validation.rs looks at: those whose parents are all present,
-- and in lists and maps those within the offsets of a visited row.
use datacrate.Common.{
  err_inj, ℕ, zero, suc, ◌+◌, ◌-◌, ◌≤◌, ◌<◌, Bool, true, false, Text, Result, ok, err, ◌>>◌,
  if◌then◌else◌, arith, ◌≡◌, ◌⊎◌, refl, ◌∙◌, inl, inr, Bool-cases, Result-cases, ◌==◌, ==_iff,
}
use datacrate.Contracts.Arrow.{Field}
use datacrate.Contracts.Arrow.Validation.{
  Array, struct_array, list_array, map_array, Columns, no_columns, column, is_null,
  BatchValidationError, schema_mismatch, required_null, representation, Node, node, Children,
  no_children, struct_children, list_child, map_child, Nodes, no_nodes, nodes, is_nullable,
  each_index, validate_node, validate_children, validate_columns,
}

mutual
  -- From a node at a row of an array, the check comes to a node at a row of an array.
  pub data Active : Node → Array → ℕ → Node → Array → ℕ → Type 0 where
    here : {n : Node} {a : Array} {r : ℕ} → Active n a r n a r
    in_struct :
        {f : Field} {path : Text} {ns : Nodes} {nulls : ℕ → Bool} {cs : Columns} {r j : ℕ}
        {m : Node} {b : Array}
        → nulls r ≡ false
        → InColumns ns cs r m b j
        → Active (node f path (struct_children ns)) (struct_array nulls cs) r m b j
    in_list :
        {f : Field} {path : Text} {n m : Node} {nulls : ℕ → Bool} {offsets : ℕ → ℕ} {a b : Array}
        {r i j : ℕ}
        → nulls r ≡ false
        → offsets r ≤ i
        → i < offsets (r + 1)
        → Active n a i m b j
        → Active (node f path (list_child n)) (list_array nulls offsets a) r m b j
    in_map :
        {f : Field} {path : Text} {n m : Node} {nulls : ℕ → Bool} {offsets : ℕ → ℕ} {a b : Array}
        {r i j : ℕ}
        → nulls r ≡ false
        → offsets r ≤ i
        → i < offsets (r + 1)
        → Active n a i m b j
        → Active (node f path (map_child n)) (map_array nulls offsets a) r m b j

  -- The same from one of the columns.
  pub data InColumns : Nodes → Columns → ℕ → Node → Array → ℕ → Type 0 where
    first :
        {n m : Node} {ns : Nodes} {a b : Array} {cs : Columns} {r j : ℕ}
        → Active n a r m b j
        → InColumns (nodes n ns) (column a cs) r m b j
    later :
        {n m : Node} {ns : Nodes} {a b : Array} {cs : Columns} {r j : ℕ}
        → InColumns ns cs r m b j
        → InColumns (nodes n ns) (column a cs) r m b j

-- The array is of the kind that the children are read from.
abbrev pub Represents : Children → Array → Type 0
Represents no_children _ = Unit {0}
Represents (struct_children _) (struct_array _ _) = Unit {0}
Represents (list_child _) (list_array _ _ _) = Unit {0}
Represents (map_child _) (map_array _ _ _) = Unit {0}
Represents _ _ = ⊥

-- A null is allowed where the field is nullable; a value has the declared representation.
abbrev pub IsFine : Node → Array → ℕ → Type 0
IsFine (node f path children) a row =
    (is_null a row ≡ true → is_nullable f ≡ true) × (is_null a row ≡ false → Represents children a)

-- What an error says of the value it names.
abbrev pub Blames : BatchValidationError → Node → Array → ℕ → Type 0
Blames (schema_mismatch _ _) n a row = ⊥
Blames (required_null at index) (node f path _) a row =
    (at ≡ path) × (index ≡ row) × (is_null a row ≡ true) × (is_nullable f ≡ false)
Blames (representation at) (node f path children) a row =
    (at ≡ path) × (is_null a row ≡ false) × ¬ Represents children a

abbrev pub Checked : Type 0
Checked = Result BatchValidationError (Unit {0})

pub first-ok : (r s : Checked) → (r >> s) ≡ ok tt → (r ≡ ok tt) × (s ≡ ok tt)
first-ok (ok tt) s h = (refl, h)
first-ok (err e) s h = absurd (cc)

-- The loop succeeds only where each step does, and fails with the error of a step.
pub each_index-ok :
    (check : ℕ → Checked) (count from i : ℕ)
    → each_index check count from ≡ ok tt
    → from ≤ i
    → i < from + count
    → check i ≡ ok tt
unfolding each_index
each_index-ok check zero from i h le lt = absurd (omega arith)
each_index-ok check (suc count) from i h le lt =
    let parts = first-ok (check from) (each_index check count (from + 1)) h in
    elim (Bool-cases (from == i)) [
      | inl e ↦ rw (← (==_iff from i).0 e) parts.0
      | inr e ↦
          each_index-ok check count (from + 1) i parts.1 (ground (arith, ==_iff from i))
            (omega arith)
    ]

pub each_index-err :
    (check : ℕ → Checked) (count from : ℕ) (e : BatchValidationError)
    → each_index check count from ≡ err e
    → (i : ℕ) × (from ≤ i) × (i < from + count) × (check i ≡ err e)
unfolding each_index
each_index-err check zero from e h = absurd (cc)
each_index-err check (suc count) from e h = elim (Result-cases (check from)) [
  | inl (u, k) ↦
      let (i, le, lt, c) = each_index-err check count (from + 1) e (rw k at h) in
      (i, omega arith, omega arith, c)
  | inr (x, k) ↦ (from, omega arith, omega arith, k ∙ (rw k at h))
]

pub first-err :
    (r s : Checked) (e : BatchValidationError) → (r >> s) ≡ err e → (r ≡ err e) ⊎ (s ≡ err e)
first-err (ok tt) s e h = inr h
first-err (err x) s e h = inl h

represents :
    (ch : Children) (path : Text) (a : Array) (r : ℕ)
    → validate_children ch path a r ≡ ok tt
    → Represents ch a
unfolding validate_children
represents no_children path a r h = tt
represents (struct_children ns) path (struct_array _ _) r h = tt
represents (list_child n) path (list_array _ _ _) r h = tt
represents (map_child n) path (map_array _ _ _) r h = tt
represents ch path a r h = absurd (cc)

mutual
  unfolding validate_node is_null

  pub accepted :
      (n : Node) (a : Array) (r : ℕ) (m : Node) (b : Array) (j : ℕ)
      → validate_node n a r ≡ ok tt
      → Active n a r m b j
      → IsFine m b j
  accepted (node f path ch) a r m b j h here =
      (λ null. ground arith, λ present. represents ch path a r (rw (present, if◌then◌else◌) at h))
  accepted (node f path (struct_children ns)) (struct_array nulls cs) r m b j h
        (in_struct present within) =
      columns_accepted ns cs r m b j (rw (present, if◌then◌else◌) at h) within
  accepted (node f path (list_child n)) (list_array nulls offsets a) r m b j h
        (in_list {i} present le lt within) =
      accepted n a i m b j
        (each_index-ok _ (offsets (r + 1) - offsets r) (offsets r) i
          (rw (present, if◌then◌else◌) at h) le (omega arith))
        within
  accepted (node f path (map_child n)) (map_array nulls offsets a) r m b j h
        (in_map {i} present le lt within) =
      accepted n a i m b j
        (each_index-ok _ (offsets (r + 1) - offsets r) (offsets r) i
          (rw (present, if◌then◌else◌) at h) le (omega arith))
        within

  pub columns_accepted :
      (ns : Nodes) (cs : Columns) (r : ℕ) (m : Node) (b : Array) (j : ℕ)
      → validate_columns ns cs r ≡ ok tt
      → InColumns ns cs r m b j
      → IsFine m b j
  columns_accepted no_nodes cs r m b j h within = elim within [ ]
  columns_accepted (nodes n ns) no_columns r m b j h within = elim within [ ]
  columns_accepted (nodes n ns) (column a cs) r m b j h (first within) =
      accepted n a r m b j (first-ok _ _ h).0 within
  columns_accepted (nodes n ns) (column a cs) r m b j h (later within) =
      columns_accepted ns cs r m b j (first-ok (validate_node n a r) _ h).1 within

null_blamed :
    (f : Field) (path : Text) (ch : Children) (a : Array) (r : ℕ) (e : BatchValidationError)
    → is_null a r ≡ true
    → ◌≡◌ {A = Checked} (if is_nullable f then ok tt else err (required_null path r)) (err e)
    → Blames e (node f path ch) a r
null_blamed f path ch a r e null h = elim (Bool-cases (is_nullable f)) [
  | inl allowed ↦ absurd (ground arith)
  | inr refused ↦ rw (← err_inj (rw (refused, if◌then◌else◌) at h)) (refl, refl, null, refused)
]

-- A value that the check comes to, and what the error says of it.
abbrev pub Found : Node → Array → ℕ → BatchValidationError → Type 0
Found n a r e = (m : Node) × (b : Array) × (j : ℕ) × Active n a r m b j × Blames e m b j

mutual
  unfolding validate_node is_null

  pub blamed :
      (n : Node) (a : Array) (r : ℕ) (e : BatchValidationError)
      → validate_node n a r ≡ err e
      → Found n a r e
  blamed (node f path ch) a r e h = elim (Bool-cases (is_null a r)) [
    | inl null ↦ (
      node f path ch,
      a,
      r,
      here,
      null_blamed f path ch a r e null (rw (null, if◌then◌else◌) at h),
    )
    | inr present ↦ children_blamed f ch path a r e present (rw (present, if◌then◌else◌) at h)
  ]

  children_blamed :
      (f : Field) (ch : Children) (path : Text) (a : Array) (r : ℕ) (e : BatchValidationError)
      → is_null a r ≡ false
      → validate_children ch path a r ≡ err e
      → Found (node f path ch) a r e
  children_blamed f no_children path a r e present h = absurd (cc)
  children_blamed f (struct_children ns) path (struct_array nulls cs) r e present h =
      let (m, b, j, within, blame) = columns_blamed ns cs r e h in
      (m, b, j, in_struct present within, blame)
  children_blamed f (list_child n) path (list_array nulls offsets a) r e present h =
      let (i, le, lt, k) = each_index-err _ (offsets (r + 1) - offsets r) (offsets r) e h in
      let (m, b, j, within, blame) = blamed n a i e k in
      (m, b, j, in_list present le (omega arith) within, blame)
  children_blamed f (map_child n) path (map_array nulls offsets a) r e present h =
      let (i, le, lt, k) = each_index-err _ (offsets (r + 1) - offsets r) (offsets r) e h in
      let (m, b, j, within, blame) = blamed n a i e k in
      (m, b, j, in_map present le (omega arith) within, blame)
  children_blamed f ch path a r e present h =
      (node f path ch, a, r, here, rw (← err_inj h) (refl, present, λ k. k))

  pub columns_blamed :
      (ns : Nodes) (cs : Columns) (r : ℕ) (e : BatchValidationError)
      → validate_columns ns cs r ≡ err e
      → (m : Node) × (b : Array) × (j : ℕ) × InColumns ns cs r m b j × Blames e m b j
  columns_blamed no_nodes cs r e h = absurd (cc)
  columns_blamed (nodes n ns) no_columns r e h = absurd (cc)
  columns_blamed (nodes n ns) (column a cs) r e h = elim (first-err (validate_node n a r) _ e h) [
    | inl k ↦ let (m, b, j, within, blame) = blamed n a r e k in (m, b, j, first within, blame)
    | inr k ↦
        let (m, b, j, within, blame) = columns_blamed ns cs r e k in (m, b, j, later within, blame)
  ]
