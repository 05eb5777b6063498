-- ===== src/Contracts/Compare/Evolution.antt =====
-- How schemas may change under `Backward` and `Forward` of crates/contracts/src/lib.rs.
use datacrate.Common.{◌≡◌, ◌≢◌, refl, sym, ap, ◌∙◌, Bool, true, false, Text, inl, inr, subst}
use datacrate.Contracts.Shape.{
  TypeShape, primitive, optional, sequence, map, struct, Fields, nil, field, FieldShape, backward,
  forward,
}
use datacrate.Contracts.Compare.{conforms}
use datacrate.Contracts.Compare.Lookup.{Named, IsUnique, Contains, Contains-Named}
use datacrate.Contracts.Compare.Accepted.{KnownTo, Covers, Accepts, may_omit}
use datacrate.Contracts.Compare.ByName.{by_name_iff}

-- With a field that neither side names, the producer still covers the contract.
Covers-more :
    (n : Text) (s : TypeShape) (d : Bool) (p c : Fields)
    → ¬ Named false n c
    → Covers backward p c
    → Covers backward (field n s d p) c
Covers-more n s d p nil fresh h = tt
Covers-more n s d p (field m t e rest) fresh h = (
  elim h.0 [
    | inl (f, c, k, a) ↦ inl (f, inr c, k, a)
    | inr (miss, omit) ↦ inr ((λ x. elim x [ inl k ↦ fresh (inl (sym k)) | inr r ↦ miss r ]), omit)
  ],
  Covers-more n s d p rest (λ r. fresh (inr r)) h.1,
)

-- `Backward` lets a producer add a field that neither side names.
pub backward_producer_adds :
    (n : Text) (s : TypeShape) (d : Bool) (p c : Fields)
    → ¬ Named false n p
    → ¬ Named false n c
    → conforms (struct p) (struct c) backward ≡ true
    → conforms (struct (field n s d p)) (struct c) backward ≡ true
backward_producer_adds n s d p c np nc h =
    let (up, uc, cov, known) = (by_name_iff backward p c tt).0 h in
    (by_name_iff backward (field n s d p) c tt).1
      ((np, up), uc, Covers-more n s d p c nc cov, (inr refl, known))

known_all : (p c : Fields) → KnownTo backward c p
known_all nil c = tt
known_all (field _ _ _ rest) c = (inr refl, known_all rest c)

-- `Backward` lets a contract add an optional field, or one with a default, that neither side names.
pub backward_contract_adds :
    (n : Text) (s : TypeShape) (d : Bool) (p c : Fields)
    → ¬ Named false n p
    → ¬ Named false n c
    → may_omit backward s d ≡ true
    → conforms (struct p) (struct c) backward ≡ true
    → conforms (struct p) (struct (field n s d c)) backward ≡ true
backward_contract_adds n s d p c np nc o h =
    let (up, uc, cov, known) = (by_name_iff backward p c tt).0 h in
    (by_name_iff backward p (field n s d c) tt).1
      (up, (nc, uc), (inr (np, o), cov), known_all p (field n s d c))

Covers-required :
    (p c : Fields) (f : FieldShape)
    → Contains c f
    → ¬ Named false f.name p
    → may_omit backward f.shape f.has_default ≡ false
    → ¬ Covers backward p c
Covers-required p nil f c miss o h = absurd c
Covers-required p (field n s d rest) f (inl e) miss o h = elim h.0 [
  | inl (g, c, k, a) ↦
      miss (Contains-Named false f.name p g c (k ∙ ap (λ (x : FieldShape). x.name) (sym e)))
  | inr (m, omit) ↦
      let same : may_omit backward f.shape f.has_default ≡ may_omit backward s d =
        ap (λ (x : FieldShape). may_omit backward x.shape x.has_default) e in
      cc
]
Covers-required p (field n s d rest) f (inr c) miss o h = Covers-required p rest f c miss o h.1

-- `Backward` rejects a producer that lacks a contract field which is neither optional nor defaulted.
pub backward_requires :
    (p c : Fields) (f : FieldShape)
    → Contains c f
    → ¬ Named false f.name p
    → may_omit backward f.shape f.has_default ≡ false
    → conforms (struct p) (struct c) backward ≢ true
backward_requires p c f has miss o h =
    Covers-required p c f has miss o ((by_name_iff backward p c tt).0 h).2

-- Every pair of fields with one name has dual shapes.
abbrev Duals : Fields → Fields → Type 0
Duals p c =
    (f g : FieldShape)
    → Contains c f
    → Contains p g
    → g.name ≡ f.name
    → Accepts backward f.shape g.shape

same_field :
    (fs : Fields) (f g : FieldShape)
    → IsUnique false fs
    → Contains fs f
    → Contains fs g
    → f.name ≡ g.name
    → f ≡ g
same_field nil f g u a b e = absurd a
same_field (field n s d rest) f g u (inl a) (inl b) e = a ∙ sym b
same_field (field n s d rest) f g u (inl a) (inr b) e =
    absurd (u.0 (Contains-Named false n rest g b (sym e ∙ ap (λ (x : FieldShape). x.name) a)))
same_field (field n s d rest) f g u (inr a) (inl b) e =
    absurd (u.0 (Contains-Named false n rest f a (e ∙ ap (λ (x : FieldShape). x.name) b)))
same_field (field n s d rest) f g u (inr a) (inr b) e = same_field rest f g u.1 a b e

Named-field :
    (n : Text) (fs : Fields) → Named false n fs → (f : FieldShape) × Contains fs f × (f.name ≡ n)
Named-field n nil h = absurd h
Named-field n (field m s d rest) (inl e) =
    (record { name = m; shape = s; has_default = d }, inl refl, e)
Named-field n (field m s d rest) (inr r) = let (f, c, e) = Named-field n rest r in (f, inr c, e)

Covers-dual :
    (p c fs : Fields)
    → Duals p c
    → ((f : FieldShape) → Contains fs f → Contains p f)
    → KnownTo forward c fs
    → Covers backward c fs
Covers-dual p c nil dual part known = tt
Covers-dual p c (field n s d rest) dual part known =
    let g : FieldShape = record { name = n; shape = s; has_default = d } in
    let named : Named false n c = elim known.0 [ inl k ↦ k | inr bad ↦ cc ] in
    let (f, has, e) = Named-field n c named in
    (
      inl (f, has, e, dual f g has (part g (inl refl)) (sym e)),
      Covers-dual p c rest dual (λ x h. part x (inr h)) known.1,
    )

mutual
  Accepts-dual : (p c : TypeShape) → Accepts forward p c → Accepts backward c p
  Accepts-dual (primitive p) (primitive c) h = sym h
  Accepts-dual (optional p) (optional c) h = Accepts-dual p c h
  Accepts-dual (sequence p) (sequence c) h = Accepts-dual p c h
  Accepts-dual (map pk pv) (map ck cv) h = (Accepts-dual pk ck h.0, Accepts-dual pv cv h.1)
  Accepts-dual (struct p) (struct c) h =
      (h.1, h.0, Covers-dual p c p (duals p c h.0 h.2) (λ f x. x) h.3, known_all c p)
  Accepts-dual _ _ h = absurd h

  duals : (p c : Fields) → IsUnique false p → Covers forward p c → Duals p c
  duals p nil u h f g cf cg e = absurd cf
  duals p (field n s d rest) u h f g (inl ef) cg e = elim h.0 [
    | inl (x, cx, k, a) ↦
        let same : g ≡ x =
          same_field p g x u cg cx (e ∙ ap (λ (x : FieldShape). x.name) ef ∙ sym k) in
        subst (λ (y : FieldShape). Accepts backward y.shape g.shape) (sym ef)
          (subst (λ (y : FieldShape). Accepts backward s y.shape) (sym same)
            (Accepts-dual x.shape s a))
    | inr (miss, o) ↦
        absurd (miss (Contains-Named false n p g cg (e ∙ ap (λ (x : FieldShape). x.name) ef)))
  ]
  duals p (field n s d rest) u h f g (inr cf) cg e = duals p rest u h.1 f g cf cg e

-- A producer that `Forward` accepts is a contract that `Backward` accepts, with the sides swapped.
pub forward-backward :
    (p c : Fields)
    → conforms (struct p) (struct c) forward ≡ true
    → conforms (struct c) (struct p) backward ≡ true
forward-backward p c h =
    (by_name_iff backward c p tt).1
      (Accepts-dual (struct p) (struct c) ((by_name_iff forward p c tt).0 h))
