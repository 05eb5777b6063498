-- ===== src/Pipeline/Cancellation.antt =====
-- crates/pipeline/src/bounded.rs `CancellationToken`: the flag and the registry of weak references to
-- transport controls. A control is a number; `live` says which still have a strong reference. Each
-- definition is one atomic access or one critical section of the registry's lock.
pub mod System
mod Examples
use datacrate.Common.{ℕ, Bool, true, false, List, [], ◌∷◌, ◌++◌, if◌then◌else◌}

pub record CancellationToken : Type 0 where
  pub cancelled : Bool
  pub transports : List ℕ

-- `CancellationToken::new`
abbrev pub new : CancellationToken
new = record { cancelled = false; transports = [] }

-- The references that can still be upgraded.
unfoldable pub upgraded : (ℕ → Bool) → List ℕ → List ℕ
upgraded live [] = []
upgraded live (c ∷ cs) = if live c then c ∷ upgraded live cs else upgraded live cs

-- `cancel`: the store of the flag, then the drained registry. The controls that the drain returns
-- are cancelled afterwards, one by one.
unfoldable pub set_flag : CancellationToken → CancellationToken
set_flag token = record token { cancelled = true }

unfoldable pub drain : (ℕ → Bool) → CancellationToken → List ℕ × CancellationToken
drain live token = (upgraded live token.transports, record token { transports = [] })

-- `register`: the registration, and the check after it, which says whether to cancel the control.
unfoldable pub push : (ℕ → Bool) → ℕ → CancellationToken → CancellationToken
push live control token = record token {
  transports = upgraded live token.transports ++ control ∷ [];
}

unfoldable pub is_cancelled : CancellationToken → Bool
is_cancelled token = token.cancelled
