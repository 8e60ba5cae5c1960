-- ===== src/Examples/Presentations.antt =====
-- A run that is notified again while it is projected.
use agentic_harness.Base.{keep, ◌≡◌, refl, ◌+◌, ◌≤◌, ◌⊎◌, true, none, arith}
use agentic_harness.Presentation.{Service, parallel_limit, is_idle, notify, fire, settle}
use agentic_harness.Presentation.Steps.{
  notified, settled, fired, after, Reach, here, step, idle_service,
}
use agentic_harness.Presentation.Soundness.{IsSound, Reach-IsSound}
use agentic_harness.Presentation.Projection.{IsProjected, notify-IsProjected}
use agentic_harness.Presentation.Draining.{
  OwnSteps, none_yet, one_more, load, IsMovable, OwnSteps-end,
}

abbrev projecting : Service
projecting = after 2 fired (after 2 (notified "run-1") idle_service)

abbrev notified_again : Service
notified_again = (notify " run-1 " projecting).1

abbrev following : Service
following = after 2 (settled "run-1") (after 2 fired notified_again)

abbrev at_rest : Service
at_rest = after 2 (settled "run-1") following

limit_value : parallel_limit none ≡ 2
unfolding parallel_limit
limit_value = refl

projecting-reached : Reach 2 idle_service projecting
unfolding notify
projecting-reached = step (step here (notified "run-1") tt refl) fired refl refl

again-reached : Reach 2 idle_service notified_again
unfolding notify fire
again-reached = step projecting-reached (notified " run-1 ") tt refl

rest-reached : Reach 2 notified_again at_rest
unfolding notify fire settle keep
rest-reached =
    step (step (step here fired refl refl) (settled "run-1") refl refl) (settled "run-1") refl refl

rest-own : OwnSteps 2 notified_again 3 at_rest
unfolding notify fire settle keep
rest-own =
    one_more (one_more (one_more none_yet fired tt refl refl) (settled "run-1") tt refl refl)
      (settled "run-1") tt refl refl

Reach-IsSound_example : IsSound 2 notified_again
Reach-IsSound_example = Reach-IsSound 2 notified_again again-reached

notify-IsProjected_example : IsProjected "run-1" projecting at_rest
unfolding notify fire settle keep
notify-IsProjected_example =
    notify-IsProjected 2 " run-1 " projecting at_rest projecting-reached refl refl rest-reached refl
      refl

OwnSteps-end_example :
    (3 + load at_rest ≤ load notified_again) × ((is_idle at_rest ≡ true) ⊎ IsMovable at_rest)
unfolding notify fire settle keep
OwnSteps-end_example =
    OwnSteps-end 2 notified_again at_rest 3 (omega arith) again-reached refl rest-own
