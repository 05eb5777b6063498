-- ===== src/Pipeline/Query/Amount/Parse.antt =====
-- `parse_amount` of crates/pipeline/src/datafusion_query.rs against the decimal texts and their values.
use datacrate.Common.{
  ℕ, ◌+◌, ◌-◌, ◌*◌, ◌≤◌, ◌^◌, ◌≡◌, ◌↔◌, refl, sym, ap, ◌∙◌, subst, Bool, true, false, not, ◌||◌, [],
  ◌∷◌, ◌++◌, none, some, Result, ok, err, Text, leb, ◌==◌, if◌then◌else◌, match_option, length,
  arith, ℤ, pos, signed, inl, inr, Bool-cases, Option-cases, ==_iff, leb→le, le→leb, ok_inj, err_ok,
}
use datacrate.Pipeline.IoError.{PipelineIoError, invalid_amount}
use datacrate.Pipeline.Query.Amount.{
  split_once, strip_sign, all_digits, starts_with, is_empty, max_unscaled, scaled, parse_amount,
}
use datacrate.Pipeline.Query.Amount.Decimal.{
  Sign, plain, plus, minus, sign_text, is_minus, number, limit, split_once-signed,
  strip_sign-signed, parse_i128-signed, scaled-signed,
}

-- A sign, at least one digit, a point and two digits.
abbrev pub written : Sign → ℕ → Text → ℕ → ℕ → Text
written s c cs d e = (sign_text s ++ c ∷ cs) ++ b'.' ∷ d ∷ e ∷ []

-- Its value in hundredths.
abbrev pub hundredths : ℕ → Text → ℕ → ℕ → ℕ
hundredths c cs d e = 100 * number 0 (c ∷ cs) + number 0 (d ∷ e ∷ [])

starts_with-written :
    (s : Sign) (c : ℕ) (cs : Text) (d e : ℕ)
    → all_digits (c ∷ cs) ≡ true
    → starts_with b'-' (written s c cs d e) ≡ is_minus s
unfolding starts_with all_digits
starts_with-written plain c cs d e h = ground arith
starts_with-written plus c cs d e h = refl
starts_with-written minus c cs d e h = refl

cents : (d e : ℕ) → all_digits (d ∷ e ∷ []) ≡ true → number 0 (d ∷ e ∷ []) ≤ 99
unfolding all_digits
cents d e h = ground arith

match_if :
    {A R : Type 0} (b : Bool) (a : A) (bad : R) (good : A → R)
    → match_option (if b then some a else none) bad good ≡ (if b then good a else bad)
match_if true a bad good = refl
match_if false a bad good = refl

-- The arithmetic behind the tests of the text.
assembled :
    {R : Type 0} (m : Bool) (n f top : ℕ) (bad : R) (good : ℤ → R)
    → f ≤ 99
    → 2 ^ 127 - 1 ≤ top
    → match_option (if leb n top then some (signed m n) else none) bad (λ w.
      match_option
        (if leb f (2 ^ 127 - 1) then some (pos f) else none)
        bad
        λ x. match_option (scaled m w x) bad good)
      ≡ (if leb (100 * n + f) max_unscaled then good (signed m (100 * n + f)) else bad)
assembled m n f top bad good small high = elim (Bool-cases (leb n top)) [
  | inl e ↦
      let fits : leb f (2 ^ 127 - 1) ≡ true = ground arith in
      rw (e, fits, if◌then◌else◌, match_option, scaled-signed m n f small)
        (match_if (leb (100 * n + f) max_unscaled) (signed m (100 * n + f)) bad good)
  | inr e ↦ let over : leb (100 * n + f) max_unscaled ≡ false = ground arith in rw (e, over) refl
]

limit-high : (s : Sign) → 2 ^ 127 - 1 ≤ limit s
limit-high plain = omega arith
limit-high plus = omega arith
limit-high minus = omega arith

module _ {D E : Type 0} (row : ℕ) where
  parse_amount-written :
      (s : Sign) (c : ℕ) (cs : Text) (d e : ℕ)
      → all_digits (c ∷ cs) ≡ true
      → all_digits (d ∷ e ∷ []) ≡ true
      → ◌≡◌ {A = Result (PipelineIoError D E) ℤ} (parse_amount row (written s c cs d e)) (
          if leb (hundredths c cs d e) max_unscaled
          then ok (signed (is_minus s) (hundredths c cs d e))
          else err (invalid_amount row (written s c cs d e)))
  unfolding parse_amount is_empty
  parse_amount-written s c cs d e whole frac =
      rw
        (
          split_once-signed s (c ∷ cs) (d ∷ e ∷ []) whole,
          strip_sign-signed s c cs whole,
          whole,
          frac,
          parse_i128-signed s c cs whole,
          parse_i128-signed plain d (e ∷ []) frac,
          starts_with-written s c cs d e whole,
        )
        (assembled (is_minus s) (number 0 (c ∷ cs)) (number 0 (d ∷ e ∷ [])) (limit s)
          (err (invalid_amount row (written s c cs d e))) ok (cents d e frac) (limit-high s))

some_inj : {A : Type 0} (a b : A) → some a ≡ some b → a ≡ b
some_inj a b h = cc

none-some : {A : Type 0} {a : A} → none ≡ some a → ⊥
none-some h = cc

split_once-some : (at : ℕ) (v w f : Text) → split_once at v ≡ some (w, f) → v ≡ w ++ at ∷ f
unfolding split_once
split_once-some at [] w f h = absurd (cc)
split_once-some at (c ∷ cs) w f h = elim (Bool-cases (c == at)) [
  | inl e ↦
      subst (λ p. c ∷ cs ≡ p.0 ++ at ∷ p.1) (some_inj ([], cs) (w, f) (rw (e, if◌then◌else◌) at h))
        (ap (λ x. x ∷ cs) ((==_iff c at).0 e))
  | inr n ↦ elim (Option-cases (split_once at cs)) [
    | inl e ↦ absurd (none-some (rw (n, if◌then◌else◌, e) at h))
    | inr ((a, b), e) ↦
        subst (λ p. c ∷ cs ≡ p.0 ++ at ∷ p.1)
          (some_inj (c ∷ a, b) (w, f) (rw (n, if◌then◌else◌, e) at h))
          (ap (◌∷◌ c) (split_once-some at cs a b e))
  ]
]

-- A text without its sign, and the sign.
strip_sign-some : (w : Text) → (s : Sign) × (w ≡ sign_text s ++ strip_sign w)
unfolding strip_sign
strip_sign-some [] = (plain, refl)
strip_sign-some (c ∷ cs) = elim (Bool-cases (c == b'-')) [
  | inl e ↦ (minus, rw (e, if◌then◌else◌) (ap (λ x. x ∷ cs) ((==_iff c b'-').0 e)))
  | inr n ↦ elim (Bool-cases (c == b'+')) [
    | inl e ↦ (plus, rw (n, e, if◌then◌else◌) (ap (λ x. x ∷ cs) ((==_iff c b'+').0 e)))
    | inr k ↦ (plain, rw (n, k, if◌then◌else◌) refl)
  ]
]

nonempty : (t : Text) → is_empty t ≡ false → (c : ℕ) × (cs : Text) × (t ≡ c ∷ cs)
unfolding is_empty
nonempty [] h = absurd (cc)
nonempty (c ∷ cs) h = (c, cs, refl)

two : (t : Text) → length t ≡ 2 → (d : ℕ) × (e : ℕ) × (t ≡ d ∷ e ∷ [])
two [] h = absurd (omega arith)
two (d ∷ []) h = absurd (omega arith)
two (d ∷ e ∷ []) h = (d, e, refl)
two (d ∷ e ∷ x ∷ t) h = absurd (omega arith)

-- Nothing of the guard holds.
guard :
    (a b c d : Bool)
    → a || not b || not c || not d ≡ false
    → (a ≡ false) × (b ≡ true) × (c ≡ true) × (d ≡ true)
guard a b c d h = ground arith

-- The text is written as a decimal of scale 2 whose unscaled value is `a` and fits in ten digits.
abbrev pub Denotes : Text → ℤ → Type 0
Denotes v a =
    (s : Sign) × (c : ℕ) × (cs : Text) × (d : ℕ) × (e : ℕ) × (v ≡ written s c cs d e)
    × (all_digits (c ∷ cs) ≡ true)
    × (all_digits (d ∷ e ∷ []) ≡ true)
    × (hundredths c cs d e ≤ max_unscaled)
    × (a ≡ signed (is_minus s) (hundredths c cs d e))

module _ {D E : Type 0} (row : ℕ) where
  valued :
      (s : Sign) (c : ℕ) (cs : Text) (d e : ℕ) (a : ℤ)
      → all_digits (c ∷ cs) ≡ true
      → all_digits (d ∷ e ∷ []) ≡ true
      → ◌≡◌ {A = Result (PipelineIoError D E) ℤ} (parse_amount row (written s c cs d e)) (ok a)
      → (hundredths c cs d e ≤ max_unscaled) × (a ≡ signed (is_minus s) (hundredths c cs d e))
  valued s c cs d e a whole frac h =
      let computed = sym (parse_amount-written row s c cs d e whole frac) ∙ h in
      elim (Bool-cases (leb (hundredths c cs d e) max_unscaled)) [
        | inl fits ↦ (leb→le _ _ fits, sym (ok_inj (rw (fits, if◌then◌else◌) at computed)))
        | inr over ↦ absurd (err_ok (rw (over, if◌then◌else◌) at computed))
      ]

  parse_amount-Denotes :
      (v : Text) (a : ℤ)
      → ◌≡◌ {A = Result (PipelineIoError D E) ℤ} (parse_amount row v) (ok a)
      → Denotes v a
  unfolding parse_amount
  parse_amount-Denotes v a h = elim (Option-cases (split_once b'.' v)) [
    | inl e ↦ absurd (err_ok (rw (e, match_option) at h))
    | inr ((w, f), e) ↦
        elim (Bool-cases (
          is_empty (strip_sign w)
          || not (all_digits (strip_sign w))
          || not (length f == 2)
          || not (all_digits f))) [
            | inl bad ↦ absurd (err_ok (rw (e, match_option, bad) at h))
            | inr good ↦
                let (full, whole, len, frac) = guard _ _ _ _ good in
                let (s, is_signed) = strip_sign-some w in
                let (c, cs, is_whole) = nonempty (strip_sign w) full in
                let (d, k, is_frac) = two f ((==_iff (length f) 2).0 len) in
                let is_text : v ≡ written s c cs d k =
                  split_once-some b'.' v w f e
                  ∙ ap (λ x. x ++ b'.' ∷ f) (is_signed ∙ ap (λ x. sign_text s ++ x) is_whole)
                  ∙ ap (λ x. (sign_text s ++ c ∷ cs) ++ b'.' ∷ x) is_frac in
                let whole_digits = rw is_whole at whole in
                let frac_digits = rw is_frac at frac in
                let (fits, is_value) = valued s c cs d k a whole_digits frac_digits (
                  subst (λ x. ◌≡◌ {A = Result (PipelineIoError D E) ℤ} (parse_amount row x) (ok a))
                    is_text h) in
                (s, c, cs, d, k, is_text, whole_digits, frac_digits, fits, is_value)
          ]
  ]

  -- The amount parser accepts exactly the texts of an optional sign, at least one decimal digit, a point and two digits
  -- whose value in hundredths is at most 9,999,999,999, and it gives that value with the sign, also where
  -- the whole part is zero. No intermediate overflow changes this.
  pub parse_amount_iff :
      (v : Text) (a : ℤ)
      → ◌≡◌ {A = Result (PipelineIoError D E) ℤ} (parse_amount row v) (ok a) ↔ Denotes v a
  parse_amount_iff v a = (
    parse_amount-Denotes v a,
    λ (s, c, cs, d, e, is_text, whole, frac, fits, is_value).
        rw (is_text, is_value)
          (parse_amount-written row s c cs d e whole frac
            ∙ rw (le→leb _ _ fits, if◌then◌else◌) refl),
  )
