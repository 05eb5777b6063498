-- ===== src/Pipeline/Simd/Examples.antt =====
-- crates/pipeline/src/simd_add.rs on nine values, two of which wrap.
use datacrate.Common.{◌≡◌, refl, true, false, [], ◌∷◌, some, ok, err}
use datacrate.Pipeline.Rows.{drop}
use datacrate.Pipeline.Simd.{
  Int32Array, nullable, array_of, wrapping_add, wrapping_add_reference, wrapping_add_simd, x86_64,
  fill_out, add_sse2, add_lanes, vector_loop, tail_loop, load, store, reject_nulls,
}
use datacrate.Pipeline.Simd.Agree.{wrapping_add_simd-reference}

abbrev nine : Int32Array
nine = array_of (0 ∷ 1 ∷ 4294967295 ∷ 3 ∷ 4 ∷ 5 ∷ 6 ∷ 4294967290 ∷ 8 ∷ [])

nine_summed :
    wrapping_add_simd (x86_64 false) nine 7
    ≡ some (ok (array_of (7 ∷ 8 ∷ 6 ∷ 10 ∷ 11 ∷ 12 ∷ 13 ∷ 1 ∷ 15 ∷ [])))
unfolding wrapping_add_simd fill_out add_sse2 add_lanes vector_loop tail_loop load store
    reject_nulls wrapping_add drop
nine_summed = refl

nulls_refused :
    wrapping_add_simd (x86_64 true) (record { values = 1 ∷ []; null_count = 1 }) 7
    ≡ some (err nullable)
unfolding wrapping_add_simd reject_nulls
nulls_refused = refl

wrapping_add_simd-reference_example :
    wrapping_add_simd (x86_64 true) nine 7 ≡ some (wrapping_add_reference nine 7)
wrapping_add_simd-reference_example = wrapping_add_simd-reference (x86_64 true) nine 7
