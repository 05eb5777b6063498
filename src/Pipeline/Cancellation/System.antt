-- ===== src/Pipeline/Cancellation/System.antt =====
-- The threads that cancel and register on one `CancellationToken` of crates/pipeline/src/bounded.rs, as
-- a step relation, with proofs on its reachable states.
use datacrate.Common.{
  ℕ, suc, ◌≡◌, refl, Bool, true, false, ◌||◌, ◌&&◌, not, List, [], ◌∷◌, ◌++◌, ◌==◌, ==_iff,
  if◌then◌else◌, arith,
}
use datacrate.Pipeline.Cancellation.{
  CancellationToken, new, upgraded, set_flag, drain, push, is_cancelled,
}

-- Whether a number is in a list, and the list without one occurrence.
abbrev pub has : List ℕ → ℕ → Bool
has [] c = false
has (x ∷ xs) c = (x == c) || has xs c

-- The threads: `drains` calls of `cancel` have set the flag and not yet drained, `visiting` holds the
-- controls they have still to cancel, `checking` the registrations not yet checked. `registered` and
-- `stopped` are the controls registered and cancelled so far.
pub record System : Type 0 where
  pub token : CancellationToken
  pub live : ℕ → Bool
  pub drains : ℕ
  pub visiting : List ℕ
  pub checking : List ℕ
  pub registered : List ℕ
  pub stopped : List ℕ

abbrev pub start : (ℕ → Bool) → System
start live = record {
  token = new;
  live = live;
  drains = 0;
  visiting = [];
  checking = [];
  registered = [];
  stopped = [];
}

-- A control that loses its last strong reference.
abbrev pub without : (ℕ → Bool) → ℕ → ℕ → Bool
without live c d = if d == c then false else live d

pub data Step : System → System → Type 0 where
  flags : (s : System) → Step s (record s { token = set_flag s.token; drains = suc s.drains })
  drains :
      (s : System) (n : ℕ)
      → s.drains ≡ suc n
      → Step s (record s {
        token = (drain s.live s.token).1;
        drains = n;
        visiting = (drain s.live s.token).0 ++ s.visiting;
      })
  visits :
      (s : System) (c : ℕ) (rest : List ℕ)
      → s.visiting ≡ c ∷ rest
      → Step s (record s { visiting = rest; stopped = c ∷ s.stopped })
  registers :
      (s : System) (c : ℕ)
      → s.live c ≡ true
      → Step s (record s {
        token = push s.live c s.token;
        checking = c ∷ s.checking;
        registered = c ∷ s.registered;
      })
  checks :
      (s : System) (before : List ℕ) (c : ℕ) (rest : List ℕ)
      → s.checking ≡ before ++ c ∷ rest
      → Step s (record s {
        checking = before ++ rest;
        stopped = if is_cancelled s.token then c ∷ s.stopped else s.stopped;
      })
  drops : (s : System) (c : ℕ) → Step s (record s { live = without s.live c })

pub data Reach (live : ℕ → Bool) : System → Type 0 where
  initial : Reach live (start live)
  then_step : (s t : System) → Reach live s → Step s t → Reach live t

-- Where a live registered control is found: cancelled, about to be, about to be checked, or in a
-- registry that a drain will still visit.
abbrev pub Placed : System → ℕ → Type 0
Placed s c =
    (has s.stopped c
      || has s.visiting c
      || (s.token.cancelled && has s.checking c)
      || ((not s.token.cancelled || not (s.drains == 0)) && has s.token.transports c))
    ≡ true

has-append : (xs ys : List ℕ) (c : ℕ) → has (xs ++ ys) c ≡ has xs c || has ys c
has-append [] ys c = refl
has-append (x ∷ xs) ys c = ground (arith, has-append xs ys c)

has-upgraded :
    (live : ℕ → Bool) (xs : List ℕ) (c : ℕ) → live c ≡ true → has (upgraded live xs) c ≡ has xs c
unfolding upgraded
has-upgraded live [] c l = refl
has-upgraded live (x ∷ xs) c l = ground (arith, has-upgraded live xs c l, ==_iff x c)

Step-Placed :
    {s t : System}
    → Step s t
    → (c : ℕ) → (has s.registered c ≡ true → s.live c ≡ true → Placed s c)
    → has t.registered c ≡ true
    → t.live c ≡ true
    → Placed t c
unfolding set_flag drain push is_cancelled
Step-Placed (flags s) c p r l = ground (arith, p r l)
Step-Placed (drains s n e) c p r l =
    rw
      (
        has-append (upgraded s.live s.token.transports) s.visiting c,
        has-upgraded s.live s.token.transports c l,
      )
      (ground (arith, p r l))
Step-Placed (visits s d rest e) c p r l = ground (arith, p r l, visited)
  where
    visited : has s.visiting c ≡ (d == c) || has rest c
    visited = rw e refl
Step-Placed (registers s d m) c p r l =
    rw
      (
        has-append (upgraded s.live s.token.transports) (d ∷ []) c,
        has-upgraded s.live s.token.transports c l,
      )
      (ground (arith, p))
Step-Placed (checks s before d rest e) c p r l =
    ground (arith, p r l, checked, has-append before rest c)
  where
    checked : has s.checking c ≡ has before c || ((d == c) || has rest c)
    checked = rw e (has-append before (d ∷ rest) c)
Step-Placed (drops s d) c p r l = ground (arith, p r)

reach-Placed :
    {live : ℕ → Bool} {s : System}
    → Reach live s
    → (c : ℕ) → has s.registered c ≡ true
    → s.live c ≡ true
    → Placed s c
reach-Placed initial c r l = ground (arith, r)
reach-Placed (then_step s t reached step) c r l = Step-Placed step c (reach-Placed reached c) r l

-- However the calls interleave: once the flag is set and every call of `cancel` and `register` has
-- returned, every registered control that is still referenced has been cancelled.
pub all_stopped :
    {live : ℕ → Bool} (s : System)
    → Reach live s
    → s.token.cancelled ≡ true
    → s.drains ≡ 0
    → s.visiting ≡ []
    → s.checking ≡ []
    → (c : ℕ) → has s.registered c ≡ true
    → s.live c ≡ true
    → has s.stopped c ≡ true
all_stopped s reached set drained visited checked c r l =
    let placed = reach-Placed reached c r l in
    let none_visited : has s.visiting c ≡ false = rw visited refl in
    let none_checked : has s.checking c ≡ false = rw checked refl in
    ground (arith, placed, set, drained, none_visited, none_checked)
