-- ===== src/Pipeline/Query/Days/Floor.antt =====
-- The day that crates/pipeline/src/datafusion_query.rs gives a timestamp, on both sides of the epoch.
use datacrate.Common.{
  ℕ, zero, suc, ◌+◌, ◌-◌, ◌*◌, ◌/◌, ◌≤◌, ◌<◌, ◌≡◌, refl, ap, true, false, arith, ℤ, pos, negsuc,
  signed, leb_int, times, ◌+ℤ◌, difference,
}
use datacrate.Pipeline.Query.Days.{micros_per_day, div_euclid}

-- The day whose start is at or before the timestamp, and whose end is after it.
abbrev pub IsDay : ℤ → ℤ → Type 0
IsDay micros day =
    (leb_int (times micros_per_day day) micros ≡ true)
    × (leb_int (times micros_per_day (day +ℤ pos 1)) micros ≡ false)

signed-suc : (k : ℕ) → 1 ≤ k → signed true k ≡ negsuc (k - 1)
unfolding signed
signed-suc zero h = absurd (omega arith)
signed-suc (suc k) h = ap negsuc (omega arith)

before_epoch :
    (n q : ℕ) → micros_per_day * q ≤ n → n < micros_per_day * (q + 1) → IsDay (negsuc n) (negsuc q)
unfolding leb_int times ◌+ℤ◌ difference signed
before_epoch n zero h k = (ground arith, refl)
before_epoch n (suc q) h k =
    let next : difference 1 (suc q + 1) ≡ negsuc q = ground arith in
    (
      rw (signed-suc (micros_per_day * (suc q + 1)) (omega arith)) (ground arith),
      rw (next, signed-suc (micros_per_day * (q + 1)) (omega arith)) (ground arith),
    )

-- The result is the floor of the division, before the epoch as well.
pub div_euclid-IsDay : (micros : ℤ) → IsDay micros (div_euclid micros micros_per_day)
unfolding div_euclid leb_int times ◌+ℤ◌ difference signed
div_euclid-IsDay (pos n) = (ground arith, ground arith)
div_euclid-IsDay (negsuc n) = before_epoch n (n / micros_per_day) (omega arith) (omega arith)
