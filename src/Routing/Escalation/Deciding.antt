-- ===== src/Routing/Escalation/Deciding.antt =====
-- `record`, `_decide`, `_escalate` and `replay` of
-- src/openclaw_ecc_orchestrator/routing/escalation.py.
use mathlib.Core.Option
use openclaw_ecc_orchestrato.Prelude.{
  ltb, leb, ◌==◌, if◌then◌else◌, is_some, or_else, str_eq, ℕ, ◌+◌, ◌-◌, String, Bool, true, false,
  not, ◌&&◌, Option, none, some, List, [], ◌∷◌, ◌++◌,
}
use openclaw_ecc_orchestrato.Prelude.Dict.{Dict, get, put}
use openclaw_ecc_orchestrato.Routing.Breaker.{Breaker, record_failure, record_success}
use openclaw_ecc_orchestrato.Runs.Document.{ℤ, pos, negsuc}
use openclaw_ecc_orchestrato.Routing.Escalation.{
  AttemptOutcome, repair, escalate, done, stop, implementation_kind, repair_kind, Why,
  passed_verification, cost_exhausted, projected_cost, repair_cost, repairing, after_failure,
  maximum_reached, not_objective, target_cost, Pending, Entry, Escalated, Controller,
  attempts_per_tier, finished, action, fits, spend_reserve,
}

-- The usage of the entries of a tier, added up.
add_usage : Dict (Option ℕ) → Dict ℕ → Dict ℕ
add_usage [] total = total
add_usage ((k, none) ∷ rest) total = add_usage rest total
add_usage ((k, some n) ∷ rest) total = add_usage rest (put k (or_else (get k total) 0 + n) total)

sum_usage : ℕ → List Entry → Dict ℕ → Dict ℕ
unfolding add_usage
sum_usage tier [] total = total
sum_usage tier (e ∷ rest) total =
    sum_usage tier rest (if e.tier == tier then add_usage e.outcome.usage total else total)

escalation_entry : ℕ → Why → Controller → Escalated
unfolding sum_usage
escalation_entry now why c = record {
  from_tier = c.tier;
  to_tier = c.tier + 1;
  why = why;
  attempts = c.attempts_at_tier;
  elapsed = now - c.started_at;
  spent = c.spent;
  usage = sum_usage c.tier c.history [];
  target_runner = none;
  target_model = none;
}

abbrev pub settle : Pending → Controller → Controller
settle pending c = record c { pending = pending }

-- The controller one tier up.
unfoldable pub raised : ℕ → Why → Controller → Controller
unfolding escalation_entry
raised now why c = record c {
  escalations = c.escalations ++ escalation_entry now why c ∷ [];
  tier = c.tier + 1;
  attempts_at_tier = 0;
  spent_at_tier = 0;
}

-- `_escalate`
unfoldable pub go_up : ℕ → Why → Controller → Controller
unfolding fits action raised
go_up now why c =
    if fits (c.tier + 1) c
    then settle (action escalate why (some implementation_kind) (raised now why c))
        (raised now why c)
    else settle (action stop target_cost none c) c

dearer_by : Option ℕ → Option ℕ → ℕ → Bool
dearer_by (some here) (some above) spent = ltb above (spent + here)
dearer_by _ _ spent = false

-- Another attempt at this tier costs more in all than one at the next tier.
unfoldable pub dearer : Controller → Bool
unfolding dearer_by
dearer c = dearer_by (c.tier_costs c.tier) (c.tier_costs (c.tier + 1)) c.spent_at_tier

unfoldable pub can_escalate : AttemptOutcome → Controller → Bool
can_escalate o c = o.objective_failure && ltb c.tier c.maximum_tier

unfoldable pub try_repair : ℕ → AttemptOutcome → Controller → Controller
unfolding go_up dearer can_escalate fits action
try_repair now o c =
    if can_escalate o c && dearer c
    then go_up now projected_cost c
    else if fits c.tier c
    then settle (action repair repairing (some repair_kind) c) c
    else settle (action stop repair_cost none c) c

unfoldable pub leave_tier : ℕ → AttemptOutcome → Controller → Controller
unfolding go_up can_escalate action
leave_tier now o c =
    if can_escalate o c
    then go_up now after_failure c
    else settle
        (action stop (if o.objective_failure then maximum_reached else not_objective) none c) c

abbrev pub mark_last : List Entry → List Entry
mark_last [] = []
mark_last (e ∷ []) = record e { over_time_budget = true } ∷ []
mark_last (e ∷ f ∷ rest) = e ∷ mark_last (f ∷ rest)

unfoldable pub mark_time : ℕ → Controller → Controller
mark_time now c =
    if leb c.max_seconds (now - c.started_at) then record c { history = mark_last c.history } else c

unfoldable pub after_fail : ℕ → AttemptOutcome → Controller → Controller
unfolding try_repair leave_tier attempts_per_tier action
after_fail now o c =
    if leb c.max_cost (c.spent + 1)
    then settle (action stop cost_exhausted none c) c
    else if ltb c.attempts_at_tier (attempts_per_tier c)
    then try_repair now o c
    else leave_tier now o c

-- `_decide`, which also sets `_pending`.
unfoldable pub decide : ℕ → AttemptOutcome → Controller → Controller
unfolding after_fail mark_time action
decide now o c =
    if o.passed
    then settle (action done passed_verification none c) c
    else after_fail now o (mark_time now c)

-- The last escalation takes the first runner that tries its tier.
abbrev target_last : ℕ → AttemptOutcome → List Escalated → List Escalated
target_last tier o [] = []
target_last tier o (e ∷ []) =
    if not (is_some e.target_runner) && (e.to_tier == tier)
    then record e { target_runner = o.runner; target_model = o.model } ∷ []
    else e ∷ []
target_last tier o (e ∷ f ∷ rest) = e ∷ target_last tier o (f ∷ rest)

abbrev nonempty : Option String → Option String
nonempty none = none
nonempty (some t) = if str_eq t "" then none else some t

-- `outcome.provider or outcome.runner`, where it is truthy.
abbrev provider_of : AttemptOutcome → Option String
provider_of o = elim (nonempty o.provider) [ some p ↦ some p | none ↦ nonempty o.runner ]

tell_breaker : ℕ → Bool → Option String → Breaker → Breaker
unfolding record_success record_failure
tell_breaker now passed none b = b
tell_breaker now passed (some p) b = if passed then record_success p b else record_failure now p b

history_entry : ℕ → AttemptOutcome → Controller → Entry
history_entry now o c = record {
  tier = c.tier;
  attempt = c.attempts_at_tier + 1;
  kind = or_else c.pending.kind implementation_kind;
  outcome = o;
  elapsed = or_else o.elapsed_seconds (now - c.attempt_started);
  over_time_budget = false;
}

-- What `record` writes before it decides.
unfoldable pub booked : ℕ → ℕ → AttemptOutcome → Controller → Controller
unfolding history_entry tell_breaker
booked now cost o c = record c {
  attempt_started = now;
  attempts_at_tier = c.attempts_at_tier + 1;
  spent = c.spent + cost;
  spent_at_tier = c.spent_at_tier + cost;
  history = c.history ++ history_entry now o c ∷ [];
  escalations = target_last c.tier o c.escalations;
  breaker = Option.map (tell_breaker now o.passed (provider_of o)) c.breaker;
}

-- `RuntimeError` and `ValueError` of `record`.
pub data Recorded : Type 0 where
  already_finished negative_cost : Recorded
  recorded : Controller → Recorded

unfoldable pub record_cost : ℕ → AttemptOutcome → Controller → ℤ → Recorded
unfolding booked decide spend_reserve
record_cost now o c (negsuc n) = negative_cost
record_cost now o c (pos n) = recorded (spend_reserve (decide now o (booked now n o c)))

-- `record`
unfoldable pub record_attempt : ℕ → AttemptOutcome → Controller → Recorded
unfolding record_cost
record_attempt now o c = if finished c then already_finished else record_cost now o c o.cost_usd

-- The loop of `replay`: it breaks off when the controller has finished.
unfoldable pub replay_attempts : ℕ → List AttemptOutcome → Controller → Recorded
unfolding record_attempt
replay_attempts now [] c = recorded c
replay_attempts now (o ∷ os) c = if finished c then recorded c else elim (record_attempt now o c) [
  | recorded c' ↦ replay_attempts now os c'
  | refused ↦ refused
]

-- `replay`
unfoldable pub replay : ℕ → List AttemptOutcome → ℕ → Controller → Recorded
unfolding replay_attempts spend_reserve
replay now os reserve c = elim (replay_attempts now os (record c { reserve_grant = reserve })) [
  | recorded c' ↦ recorded (spend_reserve c')
  | refused ↦ refused
]
