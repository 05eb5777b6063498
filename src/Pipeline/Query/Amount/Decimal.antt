-- ===== src/Pipeline/Query/Amount/Decimal.antt =====
-- The decimal texts that `parse_amount` of crates/pipeline/src/datafusion_query.rs reads, and their
-- values, stated apart from the way it reads them.
use datacrate.Common.{
  ℕ, zero, suc, ◌+◌, ◌-◌, ◌*◌, ◌≤◌, ◌^◌, ◌≡◌, refl, ap, Bool, true, false, [], ◌∷◌, ◌++◌, none,
  some, Text, leb, ◌==◌, if◌then◌else◌, match_option, arith, pos, negsuc, signed, leb_int, ◌+ℤ◌,
  ◌-ℤ◌, times, checked_i128, difference,
}
use datacrate.Pipeline.Rows.{digits, magnitude}
use datacrate.Pipeline.Query.Amount.{
  split_once, strip_sign, all_digits, parse_i128, max_unscaled, scaled,
}

pub data Sign : Type 0 where
  plain plus minus : Sign

abbrev pub sign_text : Sign → Text
sign_text plain = []
sign_text plus = b'+' ∷ []
sign_text minus = b'-' ∷ []

abbrev pub is_minus : Sign → Bool
is_minus minus = true
is_minus _ = false

-- The value of decimal digits, after `value`.
abbrev pub number : ℕ → Text → ℕ
number value [] = value
number value (c ∷ cs) = number (10 * value + (c - 48)) cs

abbrev pub limit : Sign → ℕ
limit minus = 2 ^ 127
limit _ = 2 ^ 127 - 1

digits-number :
    (value : ℕ) (t : Text) → all_digits t ≡ true → digits value t ≡ some (number value t)
unfolding digits all_digits
digits-number value [] h = refl
digits-number value (c ∷ cs) h = ground (arith, digits-number (10 * value + (c - 48)) cs)

magnitude-number :
    (top : ℕ) (c : ℕ) (cs : Text)
    → all_digits (c ∷ cs) ≡ true
    → magnitude top (c ∷ cs)
      ≡ (if leb (number 0 (c ∷ cs)) top then some (number 0 (c ∷ cs)) else none)
unfolding magnitude
magnitude-number top c cs h = rw (digits-number 0 (c ∷ cs) h) refl

split_once-digits :
    (t rest : Text) → all_digits t ≡ true → split_once b'.' (t ++ b'.' ∷ rest) ≡ some (t, rest)
unfolding split_once all_digits
split_once-digits [] rest h = refl
split_once-digits (c ∷ cs) rest h =
    let parts : (c == b'.' ≡ false) × (all_digits cs ≡ true) = ground arith in
    rw (split_once-digits cs rest parts.1, parts.0) refl

pub split_once-signed :
    (s : Sign) (t rest : Text)
    → all_digits t ≡ true
    → split_once b'.' ((sign_text s ++ t) ++ b'.' ∷ rest) ≡ some (sign_text s ++ t, rest)
unfolding split_once
split_once-signed plain t rest h = split_once-digits t rest h
split_once-signed plus t rest h = rw (split_once-digits t rest h) refl
split_once-signed minus t rest h = rw (split_once-digits t rest h) refl

pub strip_sign-signed :
    (s : Sign) (c : ℕ) (cs : Text)
    → all_digits (c ∷ cs) ≡ true
    → strip_sign (sign_text s ++ c ∷ cs) ≡ c ∷ cs
unfolding strip_sign all_digits
strip_sign-signed plain c cs h = ground arith
strip_sign-signed plus c cs h = refl
strip_sign-signed minus c cs h = refl

map_if :
    {A B : Type 0} (b : Bool) (a : A) (f : A → B)
    → match_option (if b then some a else none) none (λ x. some (f x))
      ≡ (if b then some (f a) else none)
map_if true a f = refl
map_if false a f = refl

pub parse_i128-signed :
    (s : Sign) (c : ℕ) (cs : Text)
    → all_digits (c ∷ cs) ≡ true
    → parse_i128 (sign_text s ++ c ∷ cs) ≡ (
        if leb (number 0 (c ∷ cs)) (limit s)
        then some (signed (is_minus s) (number 0 (c ∷ cs)))
        else none)
unfolding parse_i128 all_digits
parse_i128-signed plain c cs h =
    let signs : (c == b'-' ≡ false) × (c == b'+' ≡ false) = ground arith in
    rw (signs.0, signs.1, if◌then◌else◌, digits-number 0 (c ∷ cs) h)
      (map_if (leb (number 0 (c ∷ cs)) (limit plain)) (number 0 (c ∷ cs)) pos)
parse_i128-signed plus c cs h =
    rw (digits-number 0 (c ∷ cs) h)
      (map_if (leb (number 0 (c ∷ cs)) (limit plus)) (number 0 (c ∷ cs)) pos)
parse_i128-signed minus c cs h =
    rw (digits-number 0 (c ∷ cs) h)
      (map_if (leb (number 0 (c ∷ cs)) (limit minus)) (number 0 (c ∷ cs)) (signed true))

signed-positive : (k : ℕ) → 1 ≤ k → signed true k ≡ negsuc (k - 1)
unfolding signed
signed-positive zero h = absurd (omega arith)
signed-positive (suc k) h = ap negsuc (omega arith)

signed-zero : (k : ℕ) → k ≡ 0 → signed true k ≡ pos 0
unfolding signed
signed-zero zero h = refl
signed-zero (suc k) h = absurd (omega arith)

-- A negative whole part takes the fraction down, a positive one up.
pub scaled-signed :
    (m : Bool) (n f : ℕ)
    → f ≤ 99
    → scaled m (signed m n) (pos f)
      ≡ (if leb (100 * n + f) max_unscaled then some (signed m (100 * n + f)) else none)
unfolding scaled signed times checked_i128 ◌+ℤ◌ ◌-ℤ◌ leb_int difference
scaled-signed false n f h = ground arith
scaled-signed true zero zero h = refl
scaled-signed true zero (suc f) h =
    rw (signed-positive (100 * 0 + suc f) (omega arith)) (ground arith)
scaled-signed true (suc n) f h =
    rw
      (
        signed-positive (100 * (n + 1)) (omega arith),
        signed-positive (100 * suc n + f) (omega arith),
      )
      (ground arith)
