-- ===== src/Csv/Select/Output.antt =====
-- What crates/csv-cli/src/bin/csv-select.rs has written when it ends.
use datacrate.Common.{
  ℕ, ◌≡◌, refl, sym, ap, ◌∙◌, Bool, true, false, not, List, [], ◌∷◌, ◌++◌, append_assoc, append-nil,
  none, some, Result, ok, err, Text, Action, lift, after, and_then, fail_with, step_lem, last_lem,
  get_elem?, length, match_option, if◌then◌else◌, inl, inr, Option-cases,
}
use datacrate.Csv.Select.{
  CliError, column_out_of_range, read_record, write_output, Args, Writer, Reader, select_field,
  select_and_write, write_records, write_selected_column, run,
}

-- What the output relies on: a row that was written is the next one of the output, and one that could
-- not be written is none of it.
pub record WriterLaws {S E : Type 0} (writer : Writer S E) (rows : S → List (List Text))
    : Type 0 where
  pub written :
      (row : List Text) (s t : S)
      → writer.write_record row s ≡ (ok tt, t)
      → rows t ≡ rows s ++ row ∷ []
  pub refused :
      (row : List Text) (s t : S) (e : E) → writer.write_record row s ≡ (err e, t) → rows t ≡ rows s
  pub flushed : (s : S) → rows (writer.flush s).1 ≡ rows s

-- The column of these records, row by row.
abbrev pub Column : {E : Type 0} → ℕ → List (Result E (List Text)) → List (List Text) → Type 0
Column column [] [] = Unit {0}
Column column (ok fields ∷ lines) ((value ∷ []) ∷ rows) =
    (get_elem? fields column ≡ some value) × Column column lines rows
Column column _ _ = ⊥

module _ {S E : Type 0} (writer : Writer S E) (rows : S → List (List Text))
    (laws : WriterLaws writer rows) (column : ℕ) where
  -- Why the program stopped at these lines.
  abbrev pub Reason : CliError E → List (Result E (List Text)) → Type 0
  Reason (read_record e) (err x ∷ lines) = e ≡ x
  Reason (column_out_of_range wanted available) (ok fields ∷ lines) =
      (get_elem? fields column ≡ none) × (wanted ≡ column) × (available ≡ length fields)
  Reason (write_output e) lines = Unit {0}
  Reason _ _ = ⊥

  -- After a success every line was selected; after an error some first lines were, no others, and what
  -- follows them is the reason.
  abbrev pub Selected :
      S → List (Result E (List Text)) → Result (CliError E) (Unit {0}) × S → Type 0
  Selected s lines (ok _, t) =
      (out : List (List Text)) × Column column lines out × (rows t ≡ rows s ++ out)
  Selected s lines (err e, t) =
      (done : List (Result E (List Text))) × (rest : List (Result E (List Text))) × (out : List
        (List Text))
      × (lines ≡ done ++ rest)
      × Column column done out
      × (rows t ≡ rows s ++ out)
      × Reason e rest

  nothing :
      (s t : S) (lines : List (Result E (List Text))) (e : CliError E)
      → rows t ≡ rows s
      → Reason e lines
      → Selected s lines (err e, t)
  nothing s t lines e h why = ([], lines, [], refl, tt, h ∙ sym (append-nil (rows s)), why)

  -- One more line in front.
  one_more :
      (s u : S) (fields : List Text) (value : Text) (lines : List (Result E (List Text)))
      (r : Result (CliError E) (Unit {0}) × S)
      → get_elem? fields column ≡ some value
      → rows u ≡ rows s ++ (value ∷ []) ∷ []
      → Selected u lines r
      → Selected s (ok fields ∷ lines) r
  one_more s u fields value lines (ok _, t) e h (out, c, k) = (
    (value ∷ []) ∷ out,
    (e, c),
    k ∙ ap (λ x. x ++ out) h ∙ append_assoc (rows s) ((value ∷ []) ∷ []) out,
  )
  one_more s u fields value lines (err x, t) e h (done, rest, out, split, c, k, why) = (
    ok fields ∷ done,
    rest,
    (value ∷ []) ∷ out,
    ap (◌∷◌ (ok fields)) split,
    (e, c),
    k ∙ ap (λ x. x ++ out) h ∙ append_assoc (rows s) ((value ∷ []) ∷ []) out,
    why,
  )

  -- One record, whatever comes after it.
  written_then :
      (fields : List Text) (lines : List (Result E (List Text)))
      (f : Unit {0} → Action S (CliError E) (Unit {0})) (s : S)
      → ((u : S) → Selected u lines (f tt u))
      → Selected s (ok fields ∷ lines) (and_then (select_and_write writer fields column) f s)
  unfolding select_and_write select_field and_then fail_with
  written_then fields lines f s rest = elim (Option-cases (get_elem? fields column)) [
    | inl e ↦
        rw (e, match_option)
          (nothing s s (ok fields ∷ lines) (column_out_of_range column (length fields)) refl
            (e, refl, refl))
    | inr (value, e) ↦
        rw (e, match_option)
          (step_lem (Selected s (ok fields ∷ lines)) write_output (writer.write_record (value ∷ []))
            f s
            (λ _ u k.
              one_more s u fields value lines (f tt u) e (laws.written (value ∷ []) s u k) (rest u))
            (λ x u k.
              nothing s u (ok fields ∷ lines) (write_output x) (laws.refused (value ∷ []) s u x k)
                tt))
  ]

  records-Selected :
      (lines : List (Result E (List Text))) (s : S)
      → Selected s lines (write_records writer lines column s)
  unfolding write_records and_then fail_with
  records-Selected [] s = ([], tt, sym (append-nil (rows s)))
  records-Selected (err x ∷ lines) s = nothing s s (err x ∷ lines) (read_record x) refl refl
  records-Selected (ok fields ∷ lines) s =
      written_then fields lines (λ _. write_records writer lines column) s (records-Selected lines)

  -- The lines that are read: the header row too, if the file has one.
  abbrev pub lines_of : Reader E → Bool → List (Result E (List Text))
  lines_of reader has_headers =
      if has_headers then reader.headers ∷ reader.records else reader.records

  header-Selected :
      (received : Result E (List Text)) (lines : List (Result E (List Text))) (s : S)
      → Selected s (received ∷ lines) (
          and_then
            (and_then
              (fail_with read_record (lift received))
              λ headers. select_and_write writer headers column)
            (λ _. write_records writer lines column)
            s)
  unfolding and_then fail_with
  header-Selected (ok fields) lines s =
      written_then fields lines (λ _. write_records writer lines column) s (records-Selected lines)
  header-Selected (err x) lines s = nothing s s (err x ∷ lines) (read_record x) refl refl

  column-Selected :
      (reader : Reader E) (has_headers : Bool) (s : S)
      → Selected s
          (lines_of reader has_headers)
          (write_selected_column writer reader column has_headers s)
  unfolding write_selected_column and_then
  column-Selected reader false s = records-Selected reader.records s
  column-Selected reader true s = header-Selected reader.headers reader.records s

  flush-Selected :
      (lines : List (Result E (List Text))) (s : S) (r : Result (CliError E) (Unit {0}) × S)
      → Selected s lines r
      → Selected s lines (after (λ _. fail_with write_output writer.flush) r)
  flush-Selected lines s (err e, t) h = h
  flush-Selected lines s (ok x, t) (out, c, k) =
      last_lem (Selected s lines) write_output writer.flush t
        (λ a u e. (out, c, sym (ap (λ p. rows p.1) e) ∙ laws.flushed t ∙ k))
        (λ x u e. (
          lines,
          [],
          out,
          sym (append-nil lines),
          c,
          sym (ap (λ p. rows p.1) e) ∙ laws.flushed t ∙ k,
          tt,
        ))

module _ {S E : Type 0} (writer : Writer S E) (rows : S → List (List Text))
    (laws : WriterLaws writer rows) where
  -- With an output that holds a row exactly when its write succeeded: once the file is open, the program
  -- writes the selected column of its lines, the header row too
  -- unless the program was told there is none: of all lines if it succeeds, and else of the first
  -- lines, up to one that cannot be read or lacks the column, or to a failure of the output.
  pub run-Selected :
      (from_path : Bool → Text → Result E (Reader E)) (args : Args) (reader : Reader E) (s : S)
      → from_path (not args.no_headers) args.input ≡ ok reader
      → Selected writer rows laws args.column s
          (lines_of writer rows laws args.column reader (not args.no_headers))
          (run writer from_path args s)
  unfolding run and_then fail_with
  run-Selected from_path args reader s e = rw (e) (
      flush-Selected writer rows laws args.column
        (lines_of writer rows laws args.column reader (not args.no_headers)) s
        (write_selected_column writer reader args.column (not args.no_headers) s)
        (column-Selected writer rows laws args.column reader (not args.no_headers) s))
