-- ===== src/Common/Results.antt =====
-- `Result<A, E>`, with the chain of fallible steps.
use mathlib.Core.Path.{◌≡◌, refl}
use mathlib.Core.Logic.{◌⊎◌, inl, inr}

pub data Result (E A : Type 0) : Type 0 where
  ok : A → Result E A
  err : E → Result E A

infixl 5 ◌>>=◌ ◌>>◌
abbrev pub ◌>>=◌ : {E A B : Type 0} → Result E A → (A → Result E B) → Result E B
ok a >>= f = f a
err e >>= f = err e

abbrev pub ◌>>◌ : {E B : Type 0} → Result E (Unit {0}) → Result E B → Result E B
m >> k = m >>= λ _. k

-- `Result::map_err`
abbrev pub map_err : {E F A : Type 0} → (E → F) → Result E A → Result F A
map_err f (ok a) = ok a
map_err f (err e) = err (f e)

pub Result-cases :
    {E A : Type 0} (r : Result E A) → ((a : A) × (r ≡ ok a)) ⊎ ((e : E) × (r ≡ err e))
Result-cases (ok a) = inl (a, refl)
Result-cases (err e) = inr (e, refl)

module _ {E A : Type 0} where
  pub ok_inj : {a b : A} → ◌≡◌ {A = Result E A} (ok a) (ok b) → a ≡ b
  ok_inj h = cc

  pub err_inj : {e f : E} → ◌≡◌ {A = Result E A} (err e) (err f) → e ≡ f
  err_inj h = cc

  pub err_ok : {e : E} {a : A} → ◌≡◌ {A = Result E A} (err e) (ok a) → ⊥
  err_ok h = cc

  -- A chain that succeeds: its first step does, and the rest on its value.
  pub then-ok :
      {B : Type 0} (r : Result E A) (f : A → Result E B) {b : B}
      → ◌≡◌ {A = Result E B} (r >>= f) (ok b)
      → (a : A) × ◌≡◌ {A = Result E A} r (ok a) × ◌≡◌ {A = Result E B} (f a) (ok b)
  then-ok (ok a) f h = (a, refl, h)
  then-ok (err e) f h = absurd (cc)
