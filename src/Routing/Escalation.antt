-- ===== src/Routing/Escalation.antt =====
-- `EscalationController` of src/openclaw_ecc_orchestrator/routing/escalation.py: the attempts of a unit
-- at a tier, the repairs, and the escalation to the next tier. Costs are whole numbers of 1e-12 USD, the
-- tolerance of the source, and times whole seconds; an operation reads the clock once.
pub mod Deciding
pub mod Bounds
pub mod Ending
pub mod Rules
use mathlib.Core.Option
use openclaw_ecc_orchestrato.Prelude.{
  ltb, leb, if◌then◌else◌, ℕ, zero, suc, ◌+◌, ◌*◌, String, Bool, true, false, not, ◌&&◌, Option,
  none, some, List, [],
}
use openclaw_ecc_orchestrato.Prelude.Dict.{Dict}
use openclaw_ecc_orchestrato.Routing.Breaker.{Breaker}
use openclaw_ecc_orchestrato.Runs.Document.{ℤ, clamp}

-- The result of an attempt. A cost may be negative, which `record` refuses; a usage of `None` and an
-- empty one are both `[]`, and a usage that is no number is `none`.
pub record AttemptOutcome : Type 0 where
  pub passed : Bool
  pub objective_failure : Bool
  pub cost_usd : ℤ
  pub elapsed_seconds : Option ℕ
  pub runner : Option String
  pub provider : Option String
  pub model : Option String
  pub usage : Dict (Option ℕ)
  pub reason : String

pub data Act : Type 0 where
  attempt repair escalate done stop : Act

pub data Kind : Type 0 where
  implementation_kind repair_kind : Kind

-- The reasons of the actions, each a text of the source.
pub data Why : Type 0 where
  lowest_tier initial_cost passed_verification cost_exhausted projected_cost repair_cost : Why
  repairing after_failure maximum_reached not_objective target_cost owner_granted : Why

pub record Pending : Type 0 where
  pub act : Act
  pub tier : ℕ
  pub kind : Option Kind
  pub why : Why
  pub attempt : ℕ

pub record Entry : Type 0 where
  pub tier : ℕ
  pub attempt : ℕ
  pub kind : Kind
  pub outcome : AttemptOutcome
  pub elapsed : ℕ
  pub over_time_budget : Bool

pub record Escalated : Type 0 where
  pub from_tier : ℕ
  pub to_tier : ℕ
  pub why : Why
  pub attempts : ℕ
  pub elapsed : ℕ
  pub spent : ℕ
  pub usage : Dict ℕ
  pub target_runner : Option String
  pub target_model : Option String

pub record Controller : Type 0 where
  pub start_tier : ℕ
  pub maximum_tier : ℕ
  pub tier : ℕ
  pub budget_attempts : ℕ
  pub owner_extra : ℕ
  pub reserve_grant : ℕ
  pub max_cost : ℕ
  pub max_seconds : ℕ
  pub tier_costs : ℕ → Option ℕ
  pub breaker : Option Breaker
  pub started_at : ℕ
  pub attempt_started : ℕ
  pub attempts_at_tier : ℕ
  pub spent : ℕ
  pub spent_at_tier : ℕ
  pub history : List Entry
  pub escalations : List Escalated
  pub pending : Pending

abbrev pub max_attempts_per_tier : ℕ
max_attempts_per_tier = 2

abbrev pub capped : ℕ → ℕ
capped n = if leb n max_attempts_per_tier then n else max_attempts_per_tier

-- `attempts_per_tier`
unfoldable pub attempts_per_tier : Controller → ℕ
attempts_per_tier c =
    if leb c.maximum_tier c.tier
    then c.budget_attempts + c.owner_extra
    else capped c.budget_attempts + c.owner_extra

-- The actions after which an attempt follows.
abbrev pub is_open_act : Act → Bool
is_open_act done = false
is_open_act stop = false
is_open_act _ = true

abbrev pub is_stop : Act → Bool
is_stop stop = true
is_stop _ = false

-- `finished`
abbrev pub finished : Controller → Bool
finished c = not (is_open_act c.pending.act)

-- `_action`
unfoldable pub action : Act → Why → Option Kind → Controller → Pending
action act why kind c = record {
  act = act;
  tier = c.tier;
  kind = kind;
  why = why;
  attempt = c.attempts_at_tier + (if is_open_act act then 1 else 0);
}

-- `_fits`, with `_remaining` written out.
unfoldable pub fits : ℕ → Controller → Bool
fits tier c = elim (c.tier_costs tier) [
  | none ↦ true
  | some est ↦ leb (est + c.spent) (c.max_cost + 1)
]

-- `_initial_action`
unfoldable pub initial_action : Controller → Pending
unfolding fits action
initial_action c =
    if fits c.tier c
    then action attempt lowest_tier (some implementation_kind) c
    else action stop initial_cost none c

-- `grant`, of no or more attempts.
unfoldable pub grant : ℕ → Controller → Controller
unfolding action
grant extra c =
    let more : Controller = record c { owner_extra = c.owner_extra + extra } in
    if is_stop c.pending.act
    then record more { pending = action repair owner_granted (some repair_kind) more }
    else more

-- `spend_reserve`
unfoldable pub spend_reserve : Controller → Controller
unfolding grant
spend_reserve c =
    if ltb 0 c.reserve_grant && is_stop c.pending.act
    then grant c.reserve_grant (record c { reserve_grant = 0 })
    else c

-- The plan's budget of a unit, and the ceilings of the policy.
pub record Limits : Type 0 where
  pub attempts : ℤ
  pub maximum_cost_usd : ℕ
  pub minutes : ℕ
  pub max_cost_usd_per_unit : Option ℕ
  pub max_minutes_per_unit : Option ℕ

abbrev at_most : Option ℕ → ℕ → ℕ
at_most none n = n
at_most (some m) n = if leb m n then m else n

abbrev pub at_least_one : ℕ → ℕ
at_least_one zero = 1
at_least_one (suc n) = suc n

abbrev unstarted : Pending
unstarted = record { act = attempt; tier = 0; kind = none; why = lowest_tier; attempt = 0 }

-- The fields that `__init__` sets, the last one apart.
unfoldable pub blank_controller :
    (now : ℕ)
    → Limits
    → (start_tier maximum_tier : ℕ) → (ℕ → Option ℕ)
    → Option Breaker
    → Controller
blank_controller now limits start_tier maximum_tier tier_costs breaker = record {
  start_tier = start_tier;
  maximum_tier = maximum_tier;
  tier = start_tier;
  budget_attempts = at_least_one (clamp limits.attempts);
  owner_extra = 0;
  reserve_grant = 0;
  max_cost = at_most limits.max_cost_usd_per_unit limits.maximum_cost_usd;
  max_seconds =
      at_most (Option.map (λ m. m * 60) limits.max_minutes_per_unit) (limits.minutes * 60);
  tier_costs = tier_costs;
  breaker = breaker;
  started_at = now;
  attempt_started = now;
  attempts_at_tier = 0;
  spent = 0;
  spent_at_tier = 0;
  history = [];
  escalations = [];
  pending = unstarted;
}

-- `__init__`, for a classification that is accepted and has its tiers.
unfoldable pub new_controller :
    (now : ℕ)
    → Limits
    → (start_tier maximum_tier : ℕ) → (ℕ → Option ℕ)
    → Option Breaker
    → Controller
unfolding initial_action blank_controller
new_controller now limits start_tier maximum_tier tier_costs breaker =
    let c = blank_controller now limits start_tier maximum_tier tier_costs breaker in
    record c { pending = initial_action c }
