-- ===== src/Pipeline/Simd/Agree.antt =====
-- The implementations of crates/pipeline/src/simd_add.rs against the reference loop.
use datacrate.Common.{
  ℕ, zero, suc, ◌+◌, ◌*◌, ◌/◌, ◌≤◌, ◌≡◌, refl, sym, ap, ◌∙◌, true, false, List, [], ◌∷◌, ◌++◌, map,
  append_assoc, append-nil, some, arith, le→leb, match_option, length, length-append, take,
  take-append_full, replicate, length-replicate, inl, inr, Result-cases,
}
use native.Mathlib.Nat.{suc-mul, add-mul, one-mul, zero-mul, suc-add, zero-add, add_comm}
use datacrate.Pipeline.Rows.{drop}
use datacrate.Pipeline.Rows.Chunks.{length-drop, drop-append_full}
use datacrate.Pipeline.Simd.{
  Int32Array, wrapping_add, reject_nulls, wrapping_add_reference, extend, wrapping_add_scalar, load,
  store, vector_loop, tail_loop, add_lanes, add_sse2, add_avx2, Target, x86_64, other_target,
  fill_out, wrapping_add_simd,
}

length-map : {A B : Type 0} (f : A → B) (xs : List A) → length (map f xs) ≡ length xs
length-map f [] = refl
length-map f (x ∷ xs) = ap suc (length-map f xs)

map-append : {A B : Type 0} (f : A → B) (xs ys : List A) → map f (xs ++ ys) ≡ map f xs ++ map f ys
map-append f [] ys = refl
map-append f (x ∷ xs) ys = ap (◌∷◌ (f x)) (map-append f xs ys)

length-take : {A : Type 0} (n : ℕ) (xs : List A) → n ≤ length xs → length (take n xs) ≡ n
length-take zero xs h = refl
length-take (suc n) [] h = absurd (omega arith)
length-take (suc n) (x ∷ xs) h = ap suc (length-take n xs (omega arith))

take-drop : {A : Type 0} (n : ℕ) (xs : List A) → take n xs ++ drop n xs ≡ xs
unfolding drop
take-drop zero xs = refl
take-drop (suc n) [] = refl
take-drop (suc n) (x ∷ xs) = ap (◌∷◌ x) (take-drop n xs)

extend-map :
    (out values : List ℕ) (k : ℕ) → extend out values k ≡ out ++ map (wrapping_add k) values
unfolding extend
extend-map out [] k = sym (append-nil out)
extend-map out (x ∷ values) k =
    extend-map (out ++ wrapping_add k x ∷ []) values k
    ∙ append_assoc out (wrapping_add k x ∷ []) (map (wrapping_add k) values)

tail_loop-map :
    (k : ℕ) (dst src : List ℕ)
    → length dst ≡ length src
    → tail_loop k 0 dst src ≡ map (wrapping_add k) src
unfolding tail_loop
tail_loop-map k [] [] h = refl
tail_loop-map k [] (s ∷ src) h = absurd (omega arith)
tail_loop-map k (d ∷ dst) [] h = absurd (omega arith)
tail_loop-map k (d ∷ dst) (s ∷ src) h =
    ap (◌∷◌ (wrapping_add k s)) (tail_loop-map k dst src (omega arith))

tail_loop-skip :
    (k : ℕ) (done rest src : List ℕ)
    → length rest ≡ length src
    → tail_loop k (length done) (map (wrapping_add k) done ++ rest) (done ++ src)
      ≡ map (wrapping_add k) done ++ map (wrapping_add k) src
unfolding tail_loop
tail_loop-skip k [] rest src h = tail_loop-map k rest src h
tail_loop-skip k (x ∷ done) rest src h =
    ap (◌∷◌ (wrapping_add k x)) (tail_loop-skip k done rest src h)

take_nil : {A : Type 0} (n : ℕ) → take {A = A} n [] ≡ []
take_nil zero = refl
take_nil (suc n) = refl

drop_nil : {A : Type 0} (n : ℕ) → drop {A = A} n [] ≡ []
unfolding drop
drop_nil zero = refl
drop_nil (suc n) = refl

take-add : {A : Type 0} (m n : ℕ) (xs : List A) → take (m + n) xs ≡ take m xs ++ take n (drop m xs)
unfolding drop
take-add zero n xs = ap (λ m. take m xs) (zero-add n)
take-add (suc m) n [] = take_nil (suc m + n) ∙ sym (take_nil n)
take-add (suc m) n (x ∷ xs) = ap (λ q. take q (x ∷ xs)) (suc-add m n) ∙ ap (◌∷◌ x) (take-add m n xs)

drop-add : {A : Type 0} (m n : ℕ) (xs : List A) → drop (m + n) xs ≡ drop n (drop m xs)
unfolding drop
drop-add zero n xs = ap (λ m. drop m xs) (zero-add n)
drop-add (suc m) n [] = drop_nil (suc m + n) ∙ sym (drop_nil n)
drop-add (suc m) n (x ∷ xs) = ap (λ q. drop q (x ∷ xs)) (suc-add m n) ∙ drop-add m n xs

module _ (lanes k : ℕ) where
  load-middle :
      (done v src : List ℕ)
      → length v ≡ lanes
      → load lanes (done ++ (v ++ src)) (length done) ≡ some v
  unfolding load
  load-middle done v src h =
      rw
        (
          le→leb (length done + lanes) (length (done ++ (v ++ src)))
              (omega (arith, length-append done (v ++ src), length-append v src)),
          drop-append_full (length done) done (v ++ src) refl,
          take-append_full lanes v src h,
        )
        refl

  store-middle :
      (front old rest v : List ℕ)
      → length old ≡ lanes
      → store lanes (front ++ (old ++ rest)) (length front) v ≡ some (front ++ (v ++ rest))
  unfolding store
  store-middle front old rest v h =
      let after : drop (length front + lanes) (front ++ (old ++ rest)) ≡ rest =
        ap (drop (length front + lanes)) (sym (append_assoc front old rest))
        ∙ drop-append_full (length front + lanes) (front ++ old) rest
            (omega (arith, length-append front old)) in
      rw
        (
          le→leb (length front + lanes) (length (front ++ (old ++ rest)))
              (omega (arith, length-append front (old ++ rest), length-append old rest)),
          take-append_full (length front) front (old ++ rest) refl,
          after,
        )
        refl

  -- The vectors before `i` are done; the loop does the next `count`.
  abbrev Done : ℕ → ℕ → List ℕ → List ℕ → List ℕ → Type 0
  Done count i done src old =
      vector_loop lanes k (done ++ src) count i (map (wrapping_add k) done ++ old)
      ≡ some (map (wrapping_add k) (done ++ take (count * lanes) src) ++ drop (count * lanes) old)

  vectors :
      (count i : ℕ) (done src old : List ℕ)
      → length done ≡ i * lanes
      → length old ≡ length src
      → count * lanes ≤ length src
      → Done count i done src old
  unfolding vector_loop
  vectors zero i done src old at same fits =
      rw (zero-mul lanes) (ap (λ x. some (map (wrapping_add k) x ++ old)) (sym (append-nil done)))
  vectors (suc count) i done src old at same fits =
      let room : count * lanes + lanes ≤ length src = rw (suc-mul count lanes) at fits in
      let v = take lanes src in
      let rest = drop lanes src in
      let tail = drop lanes old in
      let v_full : length v ≡ lanes = length-take lanes src (omega arith) in
      let o_full : length (take lanes old) ≡ lanes = length-take lanes old (omega arith) in
      let next : Done count (i + 1) (done ++ v) rest tail =
        vectors count (i + 1) (done ++ v) rest tail
          (rw (add-mul i 1 lanes, one-mul lanes) (omega (arith, length-append done v)))
          (omega (arith, length-drop lanes src, length-drop lanes old))
          (omega (arith, length-drop lanes src)) in
      let f = wrapping_add k in
      let loaded : load lanes (done ++ src) (i * lanes) ≡ some v =
        ap (λ s. load lanes (done ++ s) (i * lanes)) (sym (take-drop lanes src))
        ∙ ap (load lanes (done ++ (v ++ rest))) (sym at)
        ∙ load-middle done v rest v_full in
      let stored : store lanes (map f done ++ old) (i * lanes) (map f v)
          ≡ some (map f done ++ (map f v ++ tail)) =
        ap (λ o. store lanes (map f done ++ o) (i * lanes) (map f v)) (sym (take-drop lanes old))
        ∙ ap (λ n. store lanes (map f done ++ (take lanes old ++ tail)) n (map f v))
            (sym at ∙ sym (length-map f done))
        ∙ store-middle (map f done) (take lanes old) tail (map f v) o_full in
      let amount : suc count * lanes ≡ lanes + count * lanes =
        suc-mul count lanes ∙ add_comm (count * lanes) lanes in
      let out : done ++ take (suc count * lanes) src ≡ (done ++ v) ++ take (count * lanes) rest =
        ap (λ n. done ++ take n src) amount
        ∙ ap (λ x. done ++ x) (take-add lanes (count * lanes) src)
        ∙ sym (append_assoc done v (take (count * lanes) rest)) in
      let left : drop (suc count * lanes) old ≡ drop (count * lanes) tail =
        ap (λ n. drop n old) amount ∙ drop-add lanes (count * lanes) old in
      let reads : done ++ src ≡ (done ++ v) ++ rest =
        ap (λ x. done ++ x) (sym (take-drop lanes src)) ∙ sym (append_assoc done v rest) in
      let writes : map f done ++ (map f v ++ tail) ≡ map f (done ++ v) ++ tail =
        sym (append_assoc (map f done) (map f v) tail)
        ∙ ap (λ x. x ++ tail) (sym (map-append f done v)) in
      rw (loaded, match_option, stored, match_option, out, left)
        (ap (λ s. vector_loop lanes k s count (i + 1) (map f done ++ (map f v ++ tail))) reads
          ∙ ap (vector_loop lanes k ((done ++ v) ++ rest) count (i + 1)) writes
          ∙ next)

-- With a slice of the same length to write to, no load or store leaves the slices, and every value is
-- summed, whatever the length is.
add_lanes-map :
    (lanes : ℕ) (src dst : List ℕ) (k : ℕ)
    → length dst ≡ length src
    → (length src / lanes) * lanes ≤ length src
    → add_lanes lanes src dst k ≡ some (map (wrapping_add k) src)
unfolding add_lanes
add_lanes-map lanes src dst k same fits =
    let chunks = length src / lanes in
    let n = chunks * lanes in
    let f = wrapping_add k in
    let swept : vector_loop lanes k src chunks 0 dst ≡ some (map f (take n src) ++ drop n dst) =
      vectors lanes k chunks 0 [] src dst (sym (zero-mul lanes)) same fits in
    let rest : length (drop n dst) ≡ length (drop n src) =
      omega (arith, length-drop n dst, length-drop n src) in
    let split = take-drop n src in
    let finished : tail_loop k n (map f (take n src) ++ drop n dst) src
        ≡ map f (take n src) ++ map f (drop n src) =
      ap (λ s. tail_loop k n (map f (take n src) ++ drop n dst) s) (sym split)
      ∙ ap (λ m. tail_loop k m (map f (take n src) ++ drop n dst) (take n src ++ drop n src))
          (sym (length-take n src fits))
      ∙ tail_loop-skip k (take n src) (drop n dst) (drop n src) rest in
    rw (swept, match_option, finished, ← map-append f (take n src) (drop n src), split) refl

fill_out-map :
    (target : Target) (values : List ℕ) (k : ℕ)
    → fill_out target values (replicate (length values) 0) k ≡ some (map (wrapping_add k) values)
unfolding fill_out add_sse2 add_avx2
fill_out-map (x86_64 true) values k =
    add_lanes-map 8 values (replicate (length values) 0) k (length-replicate (length values) 0)
      (omega arith)
fill_out-map (x86_64 false) values k =
    add_lanes-map 4 values (replicate (length values) 0) k (length-replicate (length values) 0)
      (omega arith)
fill_out-map other_target values k =
    ap some
      (tail_loop-map k (replicate (length values) 0) values (length-replicate (length values) 0))

-- On every target, whichever vector width the processor has, the explicit SIMD addition makes no access outside its slices
-- and returns what the reference loop does, an error for nulls included.
pub wrapping_add_simd-reference :
    (target : Target) (array : Int32Array) (k : ℕ)
    → wrapping_add_simd target array k ≡ some (wrapping_add_reference array k)
unfolding wrapping_add_simd wrapping_add_reference
wrapping_add_simd-reference target array k = elim (Result-cases (reject_nulls array)) [
  | inl (u, e) ↦ rw (e, fill_out-map target array.values k) refl
  | inr (x, e) ↦ rw e refl
]

-- The scalar loop returns what the reference loop does, an error for nulls included.
pub wrapping_add_scalar-reference :
    (array : Int32Array) (k : ℕ) → wrapping_add_scalar array k ≡ wrapping_add_reference array k
unfolding wrapping_add_scalar wrapping_add_reference
wrapping_add_scalar-reference array k = rw (extend-map [] array.values k) refl
