-- ===== src/Pipeline/Rows/Chunks.antt =====
-- `[T]::chunks`, as crates/pipeline/src/lib.rs uses it: what the chunks are.
use datacrate.Common.{
  ℕ, zero, suc, ◌-◌, ◌≤◌, ◌≡◌, refl, sym, ap, ◌∙◌, List, [], ◌∷◌, ◌++◌, arith, length, take,
  length-append, take-append_full, take_all,
}
use datacrate.Pipeline.Rows.{drop, chunks_within, chunks}

module _ {A : Type 0} where
  pub length-drop : (n : ℕ) (xs : List A) → length (drop n xs) ≡ length xs - n
  unfolding drop
  length-drop zero xs = omega arith
  length-drop (suc n) [] = omega arith
  length-drop (suc n) (x ∷ xs) = omega (arith, length-drop n xs)

  pub drop-append_full : (n : ℕ) (xs ys : List A) → length xs ≡ n → drop n (xs ++ ys) ≡ ys
  unfolding drop
  drop-append_full zero [] ys e = refl
  drop-append_full (suc n) [] ys e = absurd (omega arith)
  drop-append_full zero (x ∷ xs) ys e = absurd (omega arith)
  drop-append_full (suc n) (x ∷ xs) ys e = drop-append_full n xs ys (omega arith)

  pub drop_all : (n : ℕ) (xs : List A) → length xs ≤ n → drop n xs ≡ []
  unfolding drop
  drop_all zero [] h = refl
  drop_all zero (x ∷ xs) h = absurd (omega arith)
  drop_all (suc n) [] h = refl
  drop_all (suc n) (x ∷ xs) h = drop_all n xs (omega arith)

  chunks_empty : (f n : ℕ) → chunks_within {A = A} f (suc n) [] ≡ []
  unfolding chunks_within
  chunks_empty zero n = refl
  chunks_empty (suc f) n = refl

  -- More fuel than the length changes nothing.
  chunks_fuel :
      (f g n : ℕ) (xs : List A)
      → length xs ≤ f
      → length xs ≤ g
      → chunks_within f (suc n) xs ≡ chunks_within g (suc n) xs
  unfolding chunks_within drop
  chunks_fuel f g n [] h k = chunks_empty f n ∙ sym (chunks_empty g n)
  chunks_fuel zero g n (x ∷ xs) h k = absurd (omega arith)
  chunks_fuel (suc f) zero n (x ∷ xs) h k = absurd (omega arith)
  chunks_fuel (suc f) (suc g) n (x ∷ xs) h k =
      ap (λ r. (x ∷ take n xs) ∷ r)
        (chunks_fuel f g n (drop n xs) (omega (arith, length-drop n xs))
          (omega (arith, length-drop n xs)))

  pub chunks_none : (n : ℕ) → chunks {A = A} n [] ≡ []
  unfolding chunks chunks_within
  chunks_none n = refl

  -- A full chunk comes first, and the rest is cut on its own.
  pub chunks_full :
      (n : ℕ) (full rest : List A)
      → length full ≡ suc n
      → chunks (suc n) (full ++ rest) ≡ full ∷ chunks (suc n) rest
  unfolding chunks chunks_within drop
  chunks_full n [] rest e = absurd (omega arith)
  chunks_full n (x ∷ full) rest e =
      rw (take-append_full n full rest (omega arith), drop-append_full n full rest (omega arith))
        (ap (λ r. (x ∷ full) ∷ r)
          (chunks_fuel (length (full ++ rest)) (length rest) n rest
            (omega (arith, length-append full rest)) (omega arith)))

  -- A short list that is not empty is one chunk.
  pub chunks_short :
      (n : ℕ) (x : A) (xs : List A)
      → length (x ∷ xs) ≤ suc n
      → chunks (suc n) (x ∷ xs) ≡ (x ∷ xs) ∷ []
  unfolding chunks chunks_within drop
  chunks_short n x xs h =
      let rest : drop n xs ≡ [] = drop_all n xs (omega arith) in
      rw (take_all n xs (omega arith), rest) (ap (λ r. (x ∷ xs) ∷ r) (chunks_empty (length xs) n))
