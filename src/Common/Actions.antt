-- ===== src/Common/Actions.antt =====
-- Fallible steps on a state: what a method that changes a store or a file system does.
use mathlib.Core.Path.{◌≡◌, refl, sym, ap, ◌∙◌}
use datacrate.Common.Results.{Result, ok, err, map_err}

abbrev pub Action : Type 0 → Type 0 → Type 0 → Type 0
Action S E A = S → Result E A × S

module _ {S E : Type 0} where
  abbrev pub return : {A : Type 0} → A → Action S E A
  return a s = (ok a, s)

  -- A result that touches no state.
  abbrev pub lift : {A : Type 0} → Result E A → Action S E A
  lift r s = (r, s)

  abbrev pub after : {A B : Type 0} → (A → Action S E B) → Result E A × S → Result E B × S
  after f (ok a, s) = f a s
  after f (err e, s) = (err e, s)

  unfoldable pub and_then : {A B : Type 0} → Action S E A → (A → Action S E B) → Action S E B
  and_then m f s = after f (m s)

  -- To show `Q` of a chain: show it of the rest after a success, and of a failure.
  pub and_then_lem :
      {A B : Type 0} (Q : Result E B × S → Type 0) (m : Action S E A) (f : A → Action S E B) (s : S)
      → ((a : A) (t : S) → m s ≡ (ok a, t) → Q (f a t))
      → ((e : E) (t : S) → m s ≡ (err e, t) → Q (err e, t))
      → Q (and_then m f s)
  unfolding and_then
  and_then_lem {A} {B} Q m f s on_ok on_err = go (m s) refl
    where
      go : (r : Result E A × S) → m s ≡ r → Q (after f r)
      go (ok a, t) e = on_ok a t e
      go (err x, t) e = on_err x t e

unfoldable pub fail_with : {S E F A : Type 0} → (E → F) → Action S E A → Action S F A
fail_with f m s = let (r, t) = m s in (map_err f r, t)

module _ {S E F : Type 0} where
  -- `and_then_lem` for a step whose error is mapped.
  pub step_lem :
      {A B : Type 0} (Q : Result F B × S → Type 0) (g : E → F) (m : Action S E A)
      (f : A → Action S F B) (s : S)
      → ((a : A) (t : S) → m s ≡ (ok a, t) → Q (f a t))
      → ((e : E) (t : S) → m s ≡ (err e, t) → Q (err (g e), t))
      → Q (and_then (fail_with g m) f s)
  unfolding and_then fail_with
  step_lem {A} {B} Q g m f s on_ok on_err = go (m s) refl
    where
      go : (r : Result E A × S) → m s ≡ r → Q (after f (map_err g r.0, r.1))
      go (ok a, t) e = on_ok a t e
      go (err x, t) e = on_err x t e

  pub last_lem :
      {A : Type 0} (Q : Result F A × S → Type 0) (g : E → F) (m : Action S E A) (s : S)
      → ((a : A) (t : S) → m s ≡ (ok a, t) → Q (ok a, t))
      → ((e : E) (t : S) → m s ≡ (err e, t) → Q (err (g e), t))
      → Q (fail_with g m s)
  unfolding fail_with
  last_lem {A} Q g m s on_ok on_err = go (m s) refl
    where
      go : (r : Result E A × S) → m s ≡ r → Q (map_err g r.0, r.1)
      go (ok a, t) e = on_ok a t e
      go (err x, t) e = on_err x t e

-- An action that leaves a part of the state as it is, whatever it returns.
abbrev pub Keeps : {S V E A : Type 0} → (S → V) → Action S E A → Type 0
Keeps view m = (s : _) → view (m s).1 ≡ view s

module _ {S V E : Type 0} (view : S → V) where
  pub and_then-Keeps :
      {A B : Type 0} (m : Action S E A) (f : A → Action S E B)
      → Keeps view m
      → ((a : A) → Keeps view (f a))
      → Keeps view (and_then m f)
  and_then-Keeps m f h k s =
      and_then_lem (λ p. view p.1 ≡ view s) m f s
        (λ a t e. k a t ∙ ap (λ p. view p.1) (sym e) ∙ h s)
        (λ x t e. ap (λ p. view p.1) (sym e) ∙ h s)

  pub fail_with-Keeps :
      {F A : Type 0} (g : E → F) (m : Action S E A) → Keeps view m → Keeps view (fail_with g m)
  unfolding fail_with
  fail_with-Keeps g m h s = h s
