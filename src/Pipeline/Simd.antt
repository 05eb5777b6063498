-- ===== src/Pipeline/Simd.antt =====
-- crates/pipeline/src/simd_add.rs: the addition of a constant to every value of an `Int32Array`, in its
-- three implementations. An `i32` is its two's complement; a load or store of a vector outside the
-- slice, undefined behaviour there, is `none`.
pub mod Agree
mod Examples
use datacrate.Common.{
  ℕ, zero, suc, ◌+◌, ◌*◌, ◌/◌, ◌%◌, ◌^◌, Bool, true, false, List, [], ◌∷◌, ◌++◌, map, Option, none,
  some, Result, ok, err, ◌>>◌, map_err, ltb, leb, if◌then◌else◌, match_option, length, take,
  replicate,
}
use datacrate.Pipeline.Rows.{drop}

pub record Int32Array : Type 0 where
  pub values : List ℕ
  pub null_count : ℕ

pub data SimdAddError : Type 0 where
  nullable : SimdAddError

-- `i32::wrapping_add`, and a lane of `_mm_add_epi32` and `_mm256_add_epi32`.
unfoldable pub wrapping_add : ℕ → ℕ → ℕ
wrapping_add k x = (x + k) % 2 ^ 32

unfoldable pub reject_nulls : Int32Array → Result SimdAddError (Unit {0})
reject_nulls array = if ltb 0 array.null_count then err nullable else ok tt

-- `Int32Array::from`
abbrev pub array_of : List ℕ → Int32Array
array_of values = record { values = values; null_count = 0 }

unfoldable pub wrapping_add_reference : Int32Array → ℕ → Result SimdAddError Int32Array
unfolding reject_nulls wrapping_add
wrapping_add_reference array k =
    reject_nulls array >> ok (array_of (map (wrapping_add k) array.values))

-- The reserved vector, extended by the values in order.
unfoldable pub extend : List ℕ → List ℕ → ℕ → List ℕ
unfolding wrapping_add
extend out [] k = out
extend out (x ∷ values) k = extend (out ++ wrapping_add k x ∷ []) values k

unfoldable pub wrapping_add_scalar : Int32Array → ℕ → Result SimdAddError Int32Array
unfolding reject_nulls extend
wrapping_add_scalar array k = reject_nulls array >> ok (array_of (extend [] array.values k))

-- The unaligned load and store of `lanes` values.
unfoldable pub load : ℕ → List ℕ → ℕ → Option (List ℕ)
unfolding drop
load lanes src offset =
    if leb (offset + lanes) (length src) then some (take lanes (drop offset src)) else none

unfoldable pub store : ℕ → List ℕ → ℕ → List ℕ → Option (List ℕ)
unfolding drop
store lanes dst offset v =
    if leb (offset + lanes) (length dst)
    then some (take offset dst ++ (v ++ drop (offset + lanes) dst))
    else none

-- The loop over the vectors `i..i + count`.
unfoldable pub vector_loop : ℕ → ℕ → List ℕ → ℕ → ℕ → List ℕ → Option (List ℕ)
unfolding load store wrapping_add
vector_loop lanes k src zero i dst = some dst
vector_loop lanes k src (suc count) i dst =
    let offset = i * lanes in
    match_option (load lanes src offset) none λ v.
      match_option (store lanes dst offset (map (wrapping_add k) v)) none
        λ next. vector_loop lanes k src count (i + 1) next

-- `dst.iter_mut().zip(src).skip(n)`
unfoldable pub tail_loop : ℕ → ℕ → List ℕ → List ℕ → List ℕ
unfolding wrapping_add
tail_loop k (suc n) (d ∷ dst) (s ∷ src) = d ∷ tail_loop k n dst src
tail_loop k zero (d ∷ dst) (s ∷ src) = wrapping_add k s ∷ tail_loop k zero dst src
tail_loop k n dst src = dst

-- `add_sse2` with 4 lanes, and `add_avx2` with 8.
unfoldable pub add_lanes : ℕ → List ℕ → List ℕ → ℕ → Option (List ℕ)
unfolding vector_loop tail_loop
add_lanes lanes src dst k =
    let chunks = length src / lanes in
    match_option (vector_loop lanes k src chunks 0 dst) none
      λ out. some (tail_loop k (chunks * lanes) out src)

unfoldable pub add_sse2 : List ℕ → List ℕ → ℕ → Option (List ℕ)
unfolding add_lanes
add_sse2 src dst k = add_lanes 4 src dst k

unfoldable pub add_avx2 : List ℕ → List ℕ → ℕ → Option (List ℕ)
unfolding add_lanes
add_avx2 src dst k = add_lanes 8 src dst k

-- What the code runs on.
pub data Target : Type 0 where
  x86_64 : Bool → Target
  other_target : Target

-- The choice of `wrapping_add_simd`: AVX2 where it is detected, SSE2, or the scalar loop.
unfoldable pub fill_out : Target → List ℕ → List ℕ → ℕ → Option (List ℕ)
unfolding add_sse2 add_avx2 tail_loop
fill_out (x86_64 true) values out k = add_avx2 values out k
fill_out (x86_64 false) values out k = add_sse2 values out k
fill_out other_target values out k = some (tail_loop k 0 out values)

-- `reject_nulls(array)?` before the work, whose accesses may be undefined.
abbrev pub checked_first :
    Result SimdAddError (Unit {0}) → Option (List ℕ) → Option (Result SimdAddError Int32Array)
checked_first (err e) out = some (err e)
checked_first (ok _) out = match_option out none λ values. some (ok (array_of values))

unfoldable pub wrapping_add_simd : Target → Int32Array → ℕ → Option (Result SimdAddError Int32Array)
unfolding reject_nulls fill_out
wrapping_add_simd target array k =
    checked_first (reject_nulls array)
      (fill_out target array.values (replicate (length array.values) 0) k)
