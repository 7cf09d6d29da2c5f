-- ===== src/Routing/Tests.antt =====
-- Concrete breakers and controllers, and the theorems about src/openclaw_ecc_orchestrator/routing on
-- them.
use openclaw_ecc_orchestrato.Prelude.{
  length, All, ℕ, ◌+◌, ◌*◌, ◌≤◌, ◌<◌, ◌≡◌, refl, ◌↔◌, ◌⊎◌, true, false, Option, none, some, List,
  [], ◌∷◌, arith,
}
use openclaw_ecc_orchestrato.Prelude.Dict.{get}
use openclaw_ecc_orchestrato.Routing.Breaker.{
  Breaker, closed, half_open, is_opened, new_breaker, position_of, position, record_failure,
  record_success,
}
use openclaw_ecc_orchestrato.Routing.Breaker.Counting.{
  Outcome, failure, success, tell_all, failures_since, breaker-counts, half_open-trial,
}
use openclaw_ecc_orchestrato.Routing.Escalation.{
  AttemptOutcome, Controller, finished, Limits, new_controller,
}
use openclaw_ecc_orchestrato.Routing.Escalation.Deciding.{
  Recorded, recorded, record_attempt, replay_attempts,
}
use openclaw_ecc_orchestrato.Routing.Escalation.Ending.{IsPaid, reserved, limit_of, escalation-ends}
use openclaw_ecc_orchestrato.Routing.Escalation.Rules.{
  escalation-objective, Affordable, escalation-Affordable,
}
use openclaw_ecc_orchestrato.Runs.Document.{pos}

abbrev breaker : Breaker
breaker = record { failure_threshold = 3; cooldown = 900; failures = []; opened_at = [] }

breaker-new : new_breaker 3 900 ≡ some breaker
unfolding new_breaker
breaker-new = refl

abbrev outcomes : List Outcome
outcomes =
    failure 1 "codex"
    ∷ failure 2 "kimi"
    ∷ success "codex"
    ∷ failure 3 "codex"
    ∷ failure 4 "codex"
    ∷ failure 5 "codex"
    ∷ []

breaker-counts_example :
    (position 6 "codex" (tell_all outcomes breaker) ≡ closed)
    ↔ (failures_since "codex" outcomes 0 < 3)
breaker-counts_example = breaker-counts 3 900 6 outcomes "codex" breaker breaker-new

abbrev tripped : Breaker
tripped = record breaker { failures = ("codex", 3) ∷ []; opened_at = ("codex", 5) ∷ [] }

tripped-half_open : position 1000 "codex" tripped ≡ half_open
unfolding position position_of get
tripped-half_open = refl

half_open-trial_example :
    ((position 1500 "codex" (record_failure 1000 "codex" tripped) ≡ is_opened)
      ↔ (1500 < 1000 + tripped.cooldown))
    × ((position 1500 "codex" (record_failure 1000 "codex" tripped) ≡ half_open)
        ↔ (1000 + tripped.cooldown ≤ 1500))
    × (position 1500 "codex" (record_success "codex" tripped) ≡ closed)
half_open-trial_example = half_open-trial 1000 1500 "codex" tripped tripped-half_open

abbrev limits : Limits
limits = record {
  attempts = pos 3;
  maximum_cost_usd = 100;
  minutes = 30;
  max_cost_usd_per_unit = none;
  max_minutes_per_unit = some 20;
}

abbrev costs : ℕ → Option ℕ
costs tier = some (tier * 10)

abbrev failed_attempt : AttemptOutcome
failed_attempt = record {
  passed = false;
  objective_failure = true;
  cost_usd = pos 4;
  elapsed_seconds = some 60;
  runner = some "codex";
  provider = none;
  model = none;
  usage = [];
  reason = "tests failed";
}

abbrev three_failures : List AttemptOutcome
three_failures = failed_attempt ∷ failed_attempt ∷ failed_attempt ∷ []

abbrev fresh_controller : Controller
unfolding new_controller
fresh_controller = new_controller 0 limits 1 2 costs (some breaker)

three-IsPaid : All IsPaid three_failures
three-IsPaid = ((4, refl), ((4, refl), ((4, refl), tt)))

escalation-ends_example :
    (c : Controller) × (replay_attempts 7 three_failures
        (reserved 1 (new_controller 0 limits 1 2 costs (some breaker)))
      ≡ recorded c)
    × (c.start_tier ≤ c.tier × c.tier ≤ c.maximum_tier)
    × (length c.history ≤ limit_of limits 1 1 2)
    × ((finished c ≡ true) ⊎ (length three_failures < limit_of limits 1 1 2))
escalation-ends_example =
    escalation-ends 0 7 limits 1 2 1 costs (some breaker) three_failures (ground arith) three-IsPaid

abbrev controller_of : Recorded → Controller
controller_of (recorded c) = c
controller_of _ = fresh_controller

abbrev once : Controller
unfolding record_attempt new_controller
once = controller_of (record_attempt 7 failed_attempt fresh_controller)

once-recorded : record_attempt 7 failed_attempt fresh_controller ≡ recorded once
unfolding record_attempt new_controller fresh_controller
once-recorded = refl

escalation-objective_example :
    (once.tier ≡ fresh_controller.tier)
    ⊎ ((once.tier ≡ fresh_controller.tier + 1)
        × (failed_attempt.objective_failure ≡ true)
        × (failed_attempt.passed ≡ false)
        × fresh_controller.tier < fresh_controller.maximum_tier)
escalation-objective_example =
    escalation-objective 7 failed_attempt fresh_controller once once-recorded

no_reserve : fresh_controller.reserve_grant ≡ 0
unfolding new_controller
no_reserve = refl

once-asks : finished once ≡ false
unfolding record_attempt new_controller
once-asks = refl

escalation-Affordable_example : Affordable once
escalation-Affordable_example =
    escalation-Affordable 7 failed_attempt fresh_controller once once-recorded no_reserve once-asks
