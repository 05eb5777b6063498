-- ===== src/Pipeline/Query/AmountRange/Laws.antt =====
-- What the accumulator of crates/pipeline/src/datafusion_query.rs computes, whatever the batches and the
-- partitions are.
use datacrate.Common.{◌≡◌, refl, sym, ap, ◌∙◌, List, [], ◌∷◌, ◌++◌, map, Option, none, some, ℤ}
use datacrate.Pipeline.Query.AmountRange.{
  AmountRangeAccumulator, no_amounts, lower, raise, lower_all, raise_all, update_batch, state,
  merge_batch,
}
use datacrate.Pipeline.Query.AmountRange.Order.{min_assoc, max_assoc}

abbrev pub joined : {A : Type 0} → List (List A) → List A
joined [] = []
joined (xs ∷ rest) = xs ++ joined rest

-- One turn of the loops, a null included.
abbrev lower_by : Option ℤ → Option ℤ → Option ℤ
lower_by current none = current
lower_by current (some v) = lower current v

abbrev raise_by : Option ℤ → Option ℤ → Option ℤ
raise_by current none = current
raise_by current (some v) = raise current v

lower_all-step :
    (a v : Option ℤ) (vs : List (Option ℤ)) → lower_all a (v ∷ vs) ≡ lower_all (lower_by a v) vs
unfolding lower_all
lower_all-step a none vs = refl
lower_all-step a (some v) vs = refl

raise_all-step :
    (a v : Option ℤ) (vs : List (Option ℤ)) → raise_all a (v ∷ vs) ≡ raise_all (raise_by a v) vs
unfolding raise_all
raise_all-step a none vs = refl
raise_all-step a (some v) vs = refl

-- The two fields are the two loops.
pub update_batch-fields :
    (acc : AmountRangeAccumulator) (vs : List (Option ℤ))
    → update_batch acc vs ≡ record { min = lower_all acc.min vs; max = raise_all acc.max vs }
unfolding update_batch lower_all raise_all
update_batch-fields acc [] = refl
update_batch-fields acc (none ∷ vs) = update_batch-fields acc vs
update_batch-fields acc (some v ∷ vs) =
    update_batch-fields (record { min = lower acc.min v; max = raise acc.max v }) vs

lower_by_assoc : (a b : Option ℤ) (v : ℤ) → lower_by a (lower b v) ≡ lower (lower_by a b) v
unfolding lower
lower_by_assoc none none v = refl
lower_by_assoc none (some b) v = refl
lower_by_assoc (some a) none v = refl
lower_by_assoc (some a) (some b) v = ap some (sym (min_assoc a b v))

raise_by_assoc : (a b : Option ℤ) (v : ℤ) → raise_by a (raise b v) ≡ raise (raise_by a b) v
unfolding raise
raise_by_assoc none none v = refl
raise_by_assoc none (some b) v = refl
raise_by_assoc (some a) none v = refl
raise_by_assoc (some a) (some b) v = ap some (sym (max_assoc a b v))

-- The result of a partition counts as all its values do.
lower_all-partition :
    (a b : Option ℤ) (vs : List (Option ℤ))
    → lower_by a (lower_all b vs) ≡ lower_all (lower_by a b) vs
unfolding lower_all
lower_all-partition a b [] = refl
lower_all-partition a b (none ∷ vs) = lower_all-partition a b vs
lower_all-partition a b (some v ∷ vs) =
    lower_all-partition a (lower b v) vs ∙ ap (λ x. lower_all x vs) (lower_by_assoc a b v)

raise_all-partition :
    (a b : Option ℤ) (vs : List (Option ℤ))
    → raise_by a (raise_all b vs) ≡ raise_all (raise_by a b) vs
unfolding raise_all
raise_all-partition a b [] = refl
raise_all-partition a b (none ∷ vs) = raise_all-partition a b vs
raise_all-partition a b (some v ∷ vs) =
    raise_all-partition a (raise b v) vs ∙ ap (λ x. raise_all x vs) (raise_by_assoc a b v)

lower_all-append :
    (a : Option ℤ) (vs ws : List (Option ℤ))
    → lower_all a (vs ++ ws) ≡ lower_all (lower_all a vs) ws
unfolding lower_all
lower_all-append a [] ws = refl
lower_all-append a (none ∷ vs) ws = lower_all-append a vs ws
lower_all-append a (some v ∷ vs) ws = lower_all-append (lower a v) vs ws

raise_all-append :
    (a : Option ℤ) (vs ws : List (Option ℤ))
    → raise_all a (vs ++ ws) ≡ raise_all (raise_all a vs) ws
unfolding raise_all
raise_all-append a [] ws = refl
raise_all-append a (none ∷ vs) ws = raise_all-append a vs ws
raise_all-append a (some v ∷ vs) ws = raise_all-append (raise a v) vs ws

lower_partitions :
    (a : Option ℤ) (parts : List (List (Option ℤ)))
    → lower_all a (map (lower_all none) parts) ≡ lower_all a (joined parts)
unfolding lower_all
lower_partitions a [] = refl
lower_partitions a (p ∷ parts) =
    lower_all-step a (lower_all none p) (map (lower_all none) parts)
    ∙ ap (λ x. lower_all x (map (lower_all none) parts)) (lower_all-partition a none p)
    ∙ lower_partitions (lower_all a p) parts
    ∙ sym (lower_all-append a p (joined parts))

raise_partitions :
    (a : Option ℤ) (parts : List (List (Option ℤ)))
    → raise_all a (map (raise_all none) parts) ≡ raise_all a (joined parts)
unfolding raise_all
raise_partitions a [] = refl
raise_partitions a (p ∷ parts) =
    raise_all-step a (raise_all none p) (map (raise_all none) parts)
    ∙ ap (λ x. raise_all x (map (raise_all none) parts)) (raise_all-partition a none p)
    ∙ raise_partitions (raise_all a p) parts
    ∙ sym (raise_all-append a p (joined parts))

-- The states that accumulators of their own have after a partition each.
abbrev pub partial : List (Option ℤ) → Option ℤ × Option ℤ
partial p = state (update_batch no_amounts p)

partial_mins :
    (parts : List (List (Option ℤ))) → map (λ p. (partial p).0) parts ≡ map (lower_all none) parts
unfolding state
partial_mins [] = refl
partial_mins (p ∷ parts) = rw (update_batch-fields no_amounts p, partial_mins parts) refl

partial_maxes :
    (parts : List (List (Option ℤ))) → map (λ p. (partial p).1) parts ≡ map (raise_all none) parts
unfolding state
partial_maxes [] = refl
partial_maxes (p ∷ parts) = rw (update_batch-fields no_amounts p, partial_maxes parts) refl

-- However the values are split into partitions, merging the partial states of accumulators that each saw one partition
-- gives what one accumulator gives that saw all the values.
pub merge_batch-update_batch :
    (acc : AmountRangeAccumulator) (parts : List (List (Option ℤ)))
    → merge_batch acc (map (λ p. (partial p).0) parts) (map (λ p. (partial p).1) parts)
      ≡ update_batch acc (joined parts)
unfolding merge_batch
merge_batch-update_batch acc parts =
    rw
      (
        partial_mins parts,
        partial_maxes parts,
        lower_partitions acc.min parts,
        raise_partitions acc.max parts,
        update_batch-fields acc (joined parts),
      )
      refl
