-- ===== src/Domain/Transitions/Examples.antt =====
-- A transition that is refused.
use glitch_topstep.Domain.Transitions.{
  received, rejected, intent_admission_allows, transition_error, invalid_transition,
}
use glitch_topstep.Prelude.{◌≡◌, refl, some}

back_throws :
    transition_error intent_admission_allows (some rejected) received (some 1)
    ≡ some invalid_transition
unfolding transition_error intent_admission_allows
back_throws = refl
