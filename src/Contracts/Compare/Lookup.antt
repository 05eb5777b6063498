-- ===== src/Contracts/Compare/Lookup.antt =====
-- Field lookup and the duplicate test of crates/contracts/src/lib.rs, against membership.
use datacrate.Common.{
  ◌≡◌, ◌↔◌, ◌⊎◌, inl, inr, refl, sym, ◌∙◌, Bool, true, false, none, some, Text, arith,
  if◌then◌else◌, Bool-cases, Option-cases, match_option,
}
use datacrate.Contracts.Names.{lower, str_eq_iff, str_eq_ci_iff}
use datacrate.Contracts.Shape.{Fields, nil, field, FieldShape}
use datacrate.Contracts.Compare.{names_match, find_field_mode, repeated_name, duplicate_field_name}

-- What a name counts as under a mode: folded to lower case, or itself.
abbrev pub key : Bool → Text → Text
key ci name = if ci then lower name else name

pub names_match_iff : (ci : Bool) (a b : Text) → (names_match ci a b ≡ true) ↔ (key ci a ≡ key ci b)
unfolding names_match
names_match_iff true a b = str_eq_ci_iff a b
names_match_iff false a b = str_eq_iff a b

-- Some field has this name.
abbrev pub Named : Bool → Text → Fields → Type 0
Named ci name nil = ⊥
Named ci name (field n _ _ rest) = (key ci n ≡ key ci name) ⊎ Named ci name rest

-- No two fields have the same name.
abbrev pub IsUnique : Bool → Fields → Type 0
IsUnique ci nil = Unit {0}
IsUnique ci (field n _ _ rest) = ¬ Named ci n rest × IsUnique ci rest

-- The field is one of the list.
abbrev pub Contains : Fields → FieldShape → Type 0
Contains nil f = ⊥
Contains (field n s d rest) f =
    (f ≡ record { name = n; shape = s; has_default = d }) ⊎ Contains rest f

pub Contains-Named :
    (ci : Bool) (name : Text) (fs : Fields) (f : FieldShape)
    → Contains fs f
    → key ci f.name ≡ key ci name
    → Named ci name fs
Contains-Named ci name nil f h e = absurd h
Contains-Named ci name (field n s d rest) f (inl h) e = inl (cc)
Contains-Named ci name (field n s d rest) f (inr h) e = inr (Contains-Named ci name rest f h e)

pub find-some :
    (fs : Fields) (name : Text) (ci : Bool) (f : FieldShape)
    → find_field_mode fs name ci ≡ some f
    → Contains fs f × (key ci f.name ≡ key ci name)
unfolding find_field_mode
find-some nil name ci f h = cc
find-some (field n s d rest) name ci f h = elim (Bool-cases (names_match ci n name)) [
  | inl m ↦
      let e : f ≡ record { name = n; shape = s; has_default = d } = ground arith in
      (inl e, rw e ((names_match_iff ci n name).0 m))
  | inr m ↦ let r = find-some rest name ci f (rw (m, find_field_mode) at h) in (inr r.0, r.1)
]

pub find-none :
    (fs : Fields) (name : Text) (ci : Bool) → find_field_mode fs name ci ≡ none → ¬ Named ci name fs
unfolding find_field_mode
find-none nil name ci h n = absurd n
find-none (field n s d rest) name ci h (inl e) = ground (arith, (names_match_iff ci n name).1 e)
find-none (field n s d rest) name ci h (inr r) = find-none rest name ci (ground arith) r

pub find-of_not :
    (fs : Fields) (name : Text) (ci : Bool) → ¬ Named ci name fs → find_field_mode fs name ci ≡ none
find-of_not fs name ci h = elim (Option-cases (find_field_mode fs name ci)) [
  | inl e ↦ e
  | inr (f, e) ↦
      let r = find-some fs name ci f e in absurd (h (Contains-Named ci name fs f r.0 r.1))
]

pub find-of_Contains :
    (fs : Fields) (name : Text) (ci : Bool) (f : FieldShape)
    → IsUnique ci fs
    → Contains fs f
    → key ci f.name ≡ key ci name
    → find_field_mode fs name ci ≡ some f
unfolding find_field_mode
find-of_Contains nil name ci f u c e = absurd c
find-of_Contains (field n s d rest) name ci f u (inl c) e =
    let m : names_match ci n name ≡ true = (names_match_iff ci n name).1 (cc) in rw (m, c)
find-of_Contains (field n s d rest) name ci f u (inr c) e =
    elim (Bool-cases (names_match ci n name)) [
      | inl m ↦
          absurd (u.0 (Contains-Named ci n rest f c (e ∙ sym ((names_match_iff ci n name).0 m))))
      | inr m ↦ rw (m) (find-of_Contains rest name ci f u.1 c e)
    ]

-- Where names are unique, the lookup finds exactly the field of that name.
pub find_iff :
    (fs : Fields) (name : Text) (ci : Bool) (f : FieldShape)
    → IsUnique ci fs
    → (find_field_mode fs name ci ≡ some f) ↔ (Contains fs f × (key ci f.name ≡ key ci name))
find_iff fs name ci f u = (find-some fs name ci f, λ h. find-of_Contains fs name ci f u h.0 h.1)

repeated-none :
    (name : Text) (fs : Fields) (ci : Bool) → repeated_name name fs ci ≡ none → ¬ Named ci name fs
unfolding repeated_name
repeated-none name nil ci h n = absurd n
repeated-none name (field n _ _ rest) ci h (inl e) =
    ground (arith, (names_match_iff ci name n).1 (sym e))
repeated-none name (field n _ _ rest) ci h (inr r) = repeated-none name rest ci (ground arith) r

repeated-of_not :
    (name : Text) (fs : Fields) (ci : Bool) → ¬ Named ci name fs → repeated_name name fs ci ≡ none
unfolding repeated_name
repeated-of_not name nil ci h = refl
repeated-of_not name (field n _ _ rest) ci h = elim (Bool-cases (names_match ci name n)) [
  | inl m ↦ absurd (h (inl (sym ((names_match_iff ci name n).0 m))))
  | inr m ↦ rw m (repeated-of_not name rest ci (λ r. h (inr r)))
]

duplicate_sound : (fs : Fields) (ci : Bool) → duplicate_field_name fs ci ≡ none → IsUnique ci fs
unfolding duplicate_field_name
duplicate_sound nil ci h = tt
duplicate_sound (field n _ _ rest) ci h = elim (Option-cases (repeated_name n rest ci)) [
  | inl e ↦ (repeated-none n rest ci e, duplicate_sound rest ci (rw (e, match_option) at h))
  | inr (m, e) ↦ let found : some m ≡ none = rw (e, match_option) at h in cc
]

duplicate_complete : (fs : Fields) (ci : Bool) → IsUnique ci fs → duplicate_field_name fs ci ≡ none
unfolding duplicate_field_name
duplicate_complete nil ci u = refl
duplicate_complete (field n _ _ rest) ci u =
    rw (repeated-of_not n rest ci u.0, match_option) (duplicate_complete rest ci u.1)

-- `duplicate_field_name` reports nothing exactly where no two fields share a name.
pub duplicate_iff : (fs : Fields) (ci : Bool) → (duplicate_field_name fs ci ≡ none) ↔ IsUnique ci fs
duplicate_iff fs ci = (duplicate_sound fs ci, duplicate_complete fs ci)
