-- ===== src/Pipeline/Cancellation/Examples.antt =====
-- A registration that races with a cancellation, in crates/pipeline/src/bounded.rs.
use datacrate.Common.{ℕ, ◌≡◌, refl, Bool, true, [], ◌∷◌}
use datacrate.Pipeline.Cancellation.{set_flag, drain, push, upgraded, is_cancelled}
use datacrate.Pipeline.Cancellation.System.{
  System, start, flags, drains, registers, checks, Reach, initial, then_step, has, all_stopped,
}

abbrev live : ℕ → Bool
live c = true

-- `cancel` sets the flag and drains nothing, then `register` of control 7 finds the flag.
abbrev s1 : System
s1 = record (start live) { token = set_flag (start live).token; drains = 1 }

abbrev s2 : System
s2 = record s1 { token = (drain live s1.token).1; drains = 0; visiting = [] }

abbrev s3 : System
s3 = record s2 { token = push live 7 s2.token; checking = 7 ∷ []; registered = 7 ∷ [] }

abbrev s4 : System
s4 = record s3 { checking = []; stopped = 7 ∷ [] }

reached : Reach live s4
unfolding set_flag drain push upgraded is_cancelled
reached =
    then_step s3 s4
      (then_step s2 s3
        (then_step s1 s2 (then_step (start live) s1 initial (flags (start live)))
          (drains s1 0 refl))
        (registers s2 7 refl))
      (checks s3 [] 7 [] refl)

all_stopped_example : has s4.stopped 7 ≡ true
unfolding set_flag drain push upgraded
all_stopped_example = all_stopped s4 reached refl refl refl refl 7 refl refl
