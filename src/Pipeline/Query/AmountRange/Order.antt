-- ===== src/Pipeline/Query/AmountRange/Order.antt =====
-- The order of signed integers, for the accumulator of crates/pipeline/src/datafusion_query.rs.
use datacrate.Common.{◌≡◌, refl, true, false, arith, ℤ, pos, negsuc, leb_int, min_int, max_int}

pub leb_int_refl : (a : ℤ) → leb_int a a ≡ true
unfolding leb_int
leb_int_refl (pos a) = ground arith
leb_int_refl (negsuc a) = ground arith

pub leb_int_trans : (a b c : ℤ) → leb_int a b ≡ true → leb_int b c ≡ true → leb_int a c ≡ true
unfolding leb_int
leb_int_trans (pos a) (pos b) (pos c) h k = ground arith
leb_int_trans (pos a) (pos b) (negsuc c) h k = absurd (cc)
leb_int_trans (pos a) (negsuc b) c h k = absurd (cc)
leb_int_trans (negsuc a) (pos b) (pos c) h k = refl
leb_int_trans (negsuc a) (pos b) (negsuc c) h k = absurd (cc)
leb_int_trans (negsuc a) (negsuc b) (pos c) h k = refl
leb_int_trans (negsuc a) (negsuc b) (negsuc c) h k = ground arith

pub leb_int_antisym : (a b : ℤ) → leb_int a b ≡ true → leb_int b a ≡ true → a ≡ b
unfolding leb_int
leb_int_antisym (pos a) (pos b) h k = ground arith
leb_int_antisym (pos a) (negsuc b) h k = absurd (cc)
leb_int_antisym (negsuc a) (pos b) h k = absurd (cc)
leb_int_antisym (negsuc a) (negsuc b) h k = ground arith

pub leb_int_total : (a b : ℤ) → leb_int a b ≡ false → leb_int b a ≡ true
unfolding leb_int
leb_int_total (pos a) (pos b) h = ground arith
leb_int_total (pos a) (negsuc b) h = refl
leb_int_total (negsuc a) (pos b) h = absurd (cc)
leb_int_total (negsuc a) (negsuc b) h = ground arith

pub min_assoc : (a b c : ℤ) → min_int (min_int a b) c ≡ min_int a (min_int b c)
unfolding min_int leb_int
min_assoc (pos a) (pos b) (pos c) = ground arith
min_assoc (pos a) (pos b) (negsuc c) = ground arith
min_assoc (pos a) (negsuc b) (pos c) = ground arith
min_assoc (pos a) (negsuc b) (negsuc c) = ground arith
min_assoc (negsuc a) (pos b) (pos c) = ground arith
min_assoc (negsuc a) (pos b) (negsuc c) = ground arith
min_assoc (negsuc a) (negsuc b) (pos c) = ground arith
min_assoc (negsuc a) (negsuc b) (negsuc c) = ground arith

pub max_assoc : (a b c : ℤ) → max_int (max_int a b) c ≡ max_int a (max_int b c)
unfolding max_int leb_int
max_assoc (pos a) (pos b) (pos c) = ground arith
max_assoc (pos a) (pos b) (negsuc c) = ground arith
max_assoc (pos a) (negsuc b) (pos c) = ground arith
max_assoc (pos a) (negsuc b) (negsuc c) = ground arith
max_assoc (negsuc a) (pos b) (pos c) = ground arith
max_assoc (negsuc a) (pos b) (negsuc c) = ground arith
max_assoc (negsuc a) (negsuc b) (pos c) = ground arith
max_assoc (negsuc a) (negsuc b) (negsuc c) = ground arith
