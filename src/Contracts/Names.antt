-- ===== src/Contracts/Names.antt =====
-- crates/contracts/src/lib.rs, `str_eq`, `str_eq_ci` and `to_ascii_lower`.
use datacrate.Common.{
  ℕ, ◌+◌, ◌≡◌, ◌↔◌, refl, Bool, true, false, ◌&&◌, not, [], ◌∷◌, map, Text, arith, leb, ◌==◌,
  if◌then◌else◌, length,
}

-- `u8::is_ascii_uppercase`.
is_ascii_uppercase : ℕ → Bool
is_ascii_uppercase byte = leb b'A' byte && leb byte b'Z'

unfoldable pub to_ascii_lower : ℕ → ℕ
unfolding is_ascii_uppercase
to_ascii_lower byte = if is_ascii_uppercase byte then byte + 32 else byte

-- The byte loop, over two texts of one length.
bytes_eq : Text → Text → Bool
bytes_eq [] b = true
bytes_eq (x ∷ a) [] = true
bytes_eq (x ∷ a) (y ∷ b) = let rest = bytes_eq a b in if not (x == y) then false else rest

unfoldable pub str_eq : Text → Text → Bool
unfolding bytes_eq
str_eq a b = if not (length a == length b) then false else bytes_eq a b

bytes_eq_ci : Text → Text → Bool
bytes_eq_ci [] b = true
bytes_eq_ci (x ∷ a) [] = true
bytes_eq_ci (x ∷ a) (y ∷ b) =
    let rest = bytes_eq_ci a b in if not (to_ascii_lower x == to_ascii_lower y) then false else rest

unfoldable pub str_eq_ci : Text → Text → Bool
unfolding bytes_eq_ci to_ascii_lower
str_eq_ci a b = if not (length a == length b) then false else bytes_eq_ci a b

-- Every byte to lower case.
abbrev pub lower : Text → Text
lower a = map to_ascii_lower a

bytes_eq_sound : (a b : Text) → length a ≡ length b → bytes_eq a b ≡ true → a ≡ b
unfolding bytes_eq
bytes_eq_sound [] [] n h = refl
bytes_eq_sound [] (y ∷ b) n h = absurd (omega arith)
bytes_eq_sound (x ∷ a) [] n h = absurd (omega arith)
bytes_eq_sound (x ∷ a) (y ∷ b) n h = ground (arith, bytes_eq_sound a b)

bytes_eq_refl : (a : Text) → bytes_eq a a ≡ true
unfolding bytes_eq
bytes_eq_refl [] = refl
bytes_eq_refl (x ∷ a) = ground (arith, bytes_eq_refl a)

pub str_eq_refl : (a : Text) → str_eq a a ≡ true
unfolding str_eq
str_eq_refl a = ground (arith, bytes_eq_refl a)

-- `str_eq` holds exactly of equal texts.
pub str_eq_iff : (a b : Text) → (str_eq a b ≡ true) ↔ (a ≡ b)
unfolding str_eq
str_eq_iff a b = (λ h. bytes_eq_sound a b (ground arith) (ground arith), λ e. rw e (str_eq_refl b))

bytes_eq_ci-lower : (a b : Text) → bytes_eq_ci a b ≡ bytes_eq (lower a) (lower b)
unfolding bytes_eq_ci bytes_eq
bytes_eq_ci-lower [] b = refl
bytes_eq_ci-lower (x ∷ a) [] = refl
bytes_eq_ci-lower (x ∷ a) (y ∷ b) = ground (arith, bytes_eq_ci-lower a b)

length-lower : (a : Text) → length (lower a) ≡ length a
length-lower [] = refl
length-lower (x ∷ a) = omega (arith, length-lower a)

-- The case-insensitive test is the exact one after folding both texts.
pub str_eq_ci-lower : (a b : Text) → str_eq_ci a b ≡ str_eq (lower a) (lower b)
unfolding str_eq_ci str_eq
str_eq_ci-lower a b = rw (length-lower a, length-lower b, bytes_eq_ci-lower a b) refl

pub str_eq_ci_iff : (a b : Text) → (str_eq_ci a b ≡ true) ↔ (lower a ≡ lower b)
str_eq_ci_iff a b = rw (str_eq_ci-lower a b) (str_eq_iff (lower a) (lower b))

pub to_ascii_lower_idem : (c : ℕ) → to_ascii_lower (to_ascii_lower c) ≡ to_ascii_lower c
unfolding to_ascii_lower
to_ascii_lower_idem c = ground arith
