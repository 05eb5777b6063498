-- ===== src/Pipeline/Query/AmountRange/Extremes.antt =====
-- The extremes that the accumulator of crates/pipeline/src/datafusion_query.rs finds.
use datacrate.Common.{
  ◌≡◌, ◌⊎◌, inl, inr, refl, sym, ◌∙◌, true, List, [], ◌∷◌, Option, none, some, if◌then◌else◌, ℤ,
  leb_int, min_int, max_int, ◌-ℤ◌, Bool-cases,
}
use datacrate.Pipeline.Query.AmountRange.{
  AmountRangeAccumulator, no_amounts, lower, raise, lower_all, raise_all, update_batch, evaluate,
}
use datacrate.Pipeline.Query.AmountRange.Order.{
  leb_int_refl, leb_int_trans, leb_int_total, leb_int_antisym,
}
use datacrate.Pipeline.Query.AmountRange.Laws.{update_batch-fields}

-- A value of the array that is no null.
abbrev pub Holds : List (Option ℤ) → ℤ → Type 0
Holds [] v = ⊥
Holds (none ∷ vs) v = Holds vs v
Holds (some w ∷ vs) v = (w ≡ v) ⊎ Holds vs v

lower-below : (m v : ℤ) → leb_int (min_int m v) m ≡ true × leb_int (min_int m v) v ≡ true
unfolding min_int
lower-below m v = elim (Bool-cases (leb_int m v)) [
  | inl e ↦ rw (e, if◌then◌else◌) (leb_int_refl m, e)
  | inr e ↦ rw (e, if◌then◌else◌) (leb_int_total m v e, leb_int_refl v)
]

raise-above : (m v : ℤ) → leb_int m (max_int m v) ≡ true × leb_int v (max_int m v) ≡ true
unfolding max_int
raise-above m v = elim (Bool-cases (leb_int m v)) [
  | inl e ↦ rw (e, if◌then◌else◌) (e, leb_int_refl v)
  | inr e ↦ rw (e, if◌then◌else◌) (leb_int_refl m, leb_int_total m v e)
]

min_of : (m v : ℤ) → (min_int m v ≡ m) ⊎ (min_int m v ≡ v)
unfolding min_int
min_of m v = elim (Bool-cases (leb_int m v)) [
  | inl e ↦ inl (rw (e, if◌then◌else◌) refl)
  | inr e ↦ inr (rw (e, if◌then◌else◌) refl)
]

max_of : (m v : ℤ) → (max_int m v ≡ v) ⊎ (max_int m v ≡ m)
unfolding max_int
max_of m v = elim (Bool-cases (leb_int m v)) [
  | inl e ↦ inl (rw (e, if◌then◌else◌) refl)
  | inr e ↦ inr (rw (e, if◌then◌else◌) refl)
]

-- The least of a start and the values.
lower_all-least :
    (m : ℤ) (vs : List (Option ℤ))
    → (low : ℤ) × (lower_all (some m) vs ≡ some low)
      × (leb_int low m ≡ true)
      × ((v : ℤ) → Holds vs v → leb_int low v ≡ true)
      × ((m ≡ low) ⊎ Holds vs low)
unfolding lower_all lower
lower_all-least m [] = (m, refl, leb_int_refl m, λ v h. absurd h, inl refl)
lower_all-least m (none ∷ vs) = lower_all-least m vs
lower_all-least m (some w ∷ vs) =
    let (low, is_low, below, all, from) = lower_all-least (min_int m w) vs in
    let both = lower-below m w in
    (
      low,
      is_low,
      leb_int_trans low (min_int m w) m below both.0,
      λ v h. elim h [
        | inl e ↦ rw (← e) (leb_int_trans low (min_int m w) w below both.1)
        | inr k ↦ all v k
      ],
      elim from [
        | inl e ↦ elim (min_of m w) [ inl k ↦ inl (sym k ∙ e) | inr k ↦ inr (inl (sym k ∙ e)) ]
        | inr k ↦ inr (inr k)
      ],
    )

raise_all-greatest :
    (m : ℤ) (vs : List (Option ℤ))
    → (high : ℤ) × (raise_all (some m) vs ≡ some high)
      × (leb_int m high ≡ true)
      × ((v : ℤ) → Holds vs v → leb_int v high ≡ true)
      × ((m ≡ high) ⊎ Holds vs high)
unfolding raise_all raise
raise_all-greatest m [] = (m, refl, leb_int_refl m, λ v h. absurd h, inl refl)
raise_all-greatest m (none ∷ vs) = raise_all-greatest m vs
raise_all-greatest m (some w ∷ vs) =
    let (high, is_high, above, all, from) = raise_all-greatest (max_int m w) vs in
    let both = raise-above m w in
    (
      high,
      is_high,
      leb_int_trans m (max_int m w) high both.0 above,
      λ v h. elim h [
        | inl e ↦ rw (← e) (leb_int_trans w (max_int m w) high both.1 above)
        | inr k ↦ all v k
      ],
      elim from [
        | inl e ↦ elim (max_of m w) [ inl k ↦ inr (inl (sym k ∙ e)) | inr k ↦ inl (sym k ∙ e) ]
        | inr k ↦ inr (inr k)
      ],
    )

-- `MAX - MIN` of the values, or a null where there are none.
abbrev pub IsRange : List (Option ℤ) → Option ℤ → Type 0
IsRange vs none = (v : ℤ) → ¬ Holds vs v
IsRange vs (some r) =
    (low : ℤ) × (high : ℤ) × Holds vs low
    × Holds vs high
    × ((v : ℤ) → Holds vs v → (leb_int low v ≡ true) × (leb_int v high ≡ true))
    × (r ≡ high -ℤ low)

-- The aggregate over an array is the greatest less the least of its values that are no nulls, both of which occur in
-- it, and a null exactly where there are none.
pub evaluate-update_batch :
    (vs : List (Option ℤ)) → IsRange vs (evaluate (update_batch no_amounts vs))
unfolding evaluate update_batch lower raise
evaluate-update_batch [] = λ v h. h
evaluate-update_batch (none ∷ vs) =
    skip vs (evaluate (update_batch no_amounts vs)) (evaluate-update_batch vs)
  where
    skip : (vs : List (Option ℤ)) (r : Option ℤ) → IsRange vs r → IsRange (none ∷ vs) r
    skip vs none h = h
    skip vs (some r) h = h
evaluate-update_batch (some w ∷ vs) =
    let (low, is_low, below, all_low, from_low) = lower_all-least w vs in
    let (high, is_high, above, all_high, from_high) = raise_all-greatest w vs in
    rw (update_batch-fields (record { min = some w; max = some w }) vs, is_low, is_high)
      (
        low,
        high,
        from_low,
        from_high,
        λ v h. elim h [ inl e ↦ rw (← e) (below, above) | inr k ↦ (all_low v k, all_high v k) ],
        refl,
      )

min_stable : (m v : ℤ) → leb_int m v ≡ true → min_int m v ≡ m
unfolding min_int
min_stable m v h = rw (h, if◌then◌else◌) refl

max_stable : (m v : ℤ) → leb_int v m ≡ true → max_int m v ≡ m
unfolding max_int
max_stable m v h = elim (Bool-cases (leb_int m v)) [
  | inl e ↦ rw (e, if◌then◌else◌) (leb_int_antisym v m h e)
  | inr e ↦ rw (e, if◌then◌else◌) refl
]

lower_all_stable :
    (m : ℤ) (vs : List (Option ℤ))
    → ((v : ℤ) → Holds vs v → leb_int m v ≡ true)
    → lower_all (some m) vs ≡ some m
unfolding lower_all lower
lower_all_stable m [] h = refl
lower_all_stable m (none ∷ vs) h = lower_all_stable m vs h
lower_all_stable m (some w ∷ vs) h =
    rw (min_stable m w (h w (inl refl))) (lower_all_stable m vs (λ v k. h v (inr k)))

raise_all_stable :
    (m : ℤ) (vs : List (Option ℤ))
    → ((v : ℤ) → Holds vs v → leb_int v m ≡ true)
    → raise_all (some m) vs ≡ some m
unfolding raise_all raise
raise_all_stable m [] h = refl
raise_all_stable m (none ∷ vs) h = raise_all_stable m vs h
raise_all_stable m (some w ∷ vs) h =
    rw (max_stable m w (h w (inl refl))) (raise_all_stable m vs (λ v k. h v (inr k)))

lower_all_twice :
    (a : Option ℤ) (vs : List (Option ℤ)) → lower_all (lower_all a vs) vs ≡ lower_all a vs
unfolding lower_all lower
lower_all_twice (some m) vs =
    let (low, is_low, below, all, from) = lower_all-least m vs in
    rw is_low (lower_all_stable low vs all)
lower_all_twice none [] = refl
lower_all_twice none (none ∷ vs) = lower_all_twice none vs
lower_all_twice none (some w ∷ vs) =
    let (low, is_low, below, all, from) = lower_all-least w vs in
    rw (is_low, min_stable low w below) (lower_all_stable low vs all)

raise_all_twice :
    (a : Option ℤ) (vs : List (Option ℤ)) → raise_all (raise_all a vs) vs ≡ raise_all a vs
unfolding raise_all raise
raise_all_twice (some m) vs =
    let (high, is_high, above, all, from) = raise_all-greatest m vs in
    rw is_high (raise_all_stable high vs all)
raise_all_twice none [] = refl
raise_all_twice none (none ∷ vs) = raise_all_twice none vs
raise_all_twice none (some w ∷ vs) =
    let (high, is_high, above, all, from) = raise_all-greatest w vs in
    rw (is_high, max_stable high w above) (raise_all_stable high vs all)

-- A batch that is given to an accumulator a second time changes nothing.
pub update_batch_twice :
    (acc : AmountRangeAccumulator) (vs : List (Option ℤ))
    → update_batch (update_batch acc vs) vs ≡ update_batch acc vs
update_batch_twice acc vs =
    rw
      (
        update_batch-fields acc vs,
        update_batch-fields (record { min = lower_all acc.min vs; max = raise_all acc.max vs }) vs,
        lower_all_twice acc.min vs,
        raise_all_twice acc.max vs,
      )
      refl
