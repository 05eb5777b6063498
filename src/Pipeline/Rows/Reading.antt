-- ===== src/Pipeline/Rows/Reading.antt =====
-- `read_csv_rows` of crates/pipeline/src/lib.rs: which rows it returns, and which error.
use datacrate.Common.{
  ℕ, suc, ◌+◌, ◌≡◌, ◌↔◌, inl, inr, refl, sym, ap, ◌∙◌, List, [], ◌∷◌, ◌++◌, Result, ok, err, arith,
  length, Result-cases, ok_inj, err_inj, err_ok, then-ok, subst,
}
use datacrate.Pipeline.IoError.{PipelineIoError}
use datacrate.Pipeline.Rows.{Record, read_row, rows_from}

module _ {D E T : Type 0} (parse : ℕ → Record → Result (PipelineIoError D E) T) where
  -- Row by row, the lines were read and parsed, the first with number `k`.
  abbrev pub AllRead : ℕ → List (Result E Record) → List T → Type 0
  AllRead k [] [] = Unit {0}
  AllRead k (line ∷ lines) (r ∷ rows) = (read_row parse k line ≡ ok r) × AllRead (suc k) lines rows
  AllRead k _ _ = ⊥

  read_sound :
      (k : ℕ) (lines : List (Result E Record)) (rows : List T)
      → rows_from parse k lines ≡ ok rows
      → AllRead k lines rows
  unfolding rows_from
  read_sound k [] [] h = tt
  read_sound k [] (r ∷ rows) h = absurd (cc)
  read_sound k (line ∷ lines) rows h =
      let (r, first, rest) = then-ok (read_row parse k line) _ h in
      let (others, are, all) = then-ok (rows_from parse (suc k) lines) _ rest in
      subst (AllRead k (line ∷ lines)) (ok_inj all) (first, read_sound (suc k) lines others are)

  read_complete :
      (k : ℕ) (lines : List (Result E Record)) (rows : List T)
      → AllRead k lines rows
      → rows_from parse k lines ≡ ok rows
  unfolding rows_from
  read_complete k [] [] h = refl
  read_complete k [] (r ∷ rows) h = absurd h
  read_complete k (line ∷ lines) [] h = absurd h
  read_complete k (line ∷ lines) (r ∷ rows) h = rw (h.0, read_complete (suc k) lines rows h.1) refl

  -- The lines up to one that cannot be read or parsed, and its error.
  abbrev pub FirstBad : ℕ → List (Result E Record) → PipelineIoError D E → Type 0
  FirstBad k lines e =
      (good : List (Result E Record)) × (bad : Result E Record) × (rest : List (Result E Record))
      × (rows : List T) × (lines ≡ good ++ bad ∷ rest)
      × AllRead k good rows
      × (read_row parse (k + length good) bad ≡ err e)

  first_bad :
      (k : ℕ) (lines : List (Result E Record)) (e : PipelineIoError D E)
      → rows_from parse k lines ≡ err e
      → FirstBad k lines e
  unfolding rows_from
  first_bad k [] e h = absurd (cc)
  first_bad k (line ∷ lines) e h = elim (Result-cases (read_row parse k line)) [
    | inr (x, is_bad) ↦
        let same : x ≡ e = err_inj (rw is_bad at h) in
        let here : k ≡ k + 0 = omega arith in
        let error_is : read_row parse k line ≡ err e = is_bad ∙ ap err same in
        ([], line, lines, [], refl, tt, subst (λ n. read_row parse n line ≡ err e) here error_is)
    | inl (r, is_good) ↦ elim (Result-cases (rows_from parse (suc k) lines)) [
      | inl (rows, all) ↦ absurd (err_ok (sym (rw (is_good, all) at h)))
      | inr (x, failed) ↦
          let same : x ≡ e = err_inj (rw (is_good, failed) at h) in
          let (good, bad, rest, rows, split, read, is_bad) =
            first_bad (suc k) lines e (failed ∙ ap err same) in
          let shift : suc k + length good ≡ k + suc (length good) = omega arith in
          (
            line ∷ good,
            bad,
            rest,
            r ∷ rows,
            ap (◌∷◌ line) split,
            (is_good, read),
            subst (λ n. read_row parse n bad ≡ err e) shift is_bad,
          )
    ]
  ]

  -- Reading a file's lines returns rows exactly where each line could be read and parsed under its own number, and then
  -- one row for each line in order.
  pub rows_from_iff :
      (k : ℕ) (lines : List (Result E Record)) (rows : List T)
      → (rows_from parse k lines ≡ ok rows) ↔ AllRead k lines rows
  rows_from_iff k lines rows = (read_sound k lines rows, read_complete k lines rows)

  -- It fails with the error of the first line that could not be read or parsed, under that line's number.
  pub rows_from_err :
      (k : ℕ) (lines : List (Result E Record)) (e : PipelineIoError D E)
      → rows_from parse k lines ≡ err e
      → FirstBad k lines e
  rows_from_err k lines e h = first_bad k lines e h
