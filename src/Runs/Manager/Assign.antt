-- ===== src/Runs/Manager/Assign.antt =====
-- Assignment in src/openclaw_ecc_orchestrator/runs/manager.py: the routing record, the budget, and
-- `assign_unit` and `reassign_unit`. The classifier of a plan unit and the validator of a routing
-- decision are parameters: what is shown holds for any.
use openclaw_ecc_orchestrato.Prelude.{
  ltb, leb, ◌==◌, if◌then◌else◌, is_some, str_eq, opt_eq, ℕ, ◌+◌, String, Bool, false, not, ◌&&◌,
  ◌||◌, Option, none, some, List, [], ◌∷◌, ◌++◌,
}
use openclaw_ecc_orchestrato.Runs.State.{
  State, ready, assigned, failed, blocked, needs_user, interrupted, state_eq, one_of,
}
use openclaw_ecc_orchestrato.Runs.Result.{
  illegal_transition, run_error, Result, ok, err, ◌>>=◌, ◌>>◌, guard,
}
use openclaw_ecc_orchestrato.Runs.Document.{
  clamp, Note, budget_grant, Budget, Routing, UnitRecord, Handoff, PlanUnit, Run, handoff_recorded,
}
use openclaw_ecc_orchestrato.Runs.Manager.Tx.{
  Reply, plain, refusal, Tx, add, with_run, unit_of, note_of, set_state, edit,
}
use openclaw_ecc_orchestrato.Runs.Manager.Store.{Op}

-- What the manager reads of a `Classification`.
pub record Classification : Type 0 where
  pub accepted : Bool
  pub risk : String
  pub chosen_tier : ℕ
  pub minimum_tier : ℕ
  pub maximum_tier : ℕ
  pub review_tier : ℕ

-- The caller's runner selection. The key `tier` may be missing (`none`), or hold no number
-- (`some none`).
pub record Selection : Type 0 where
  pub tier : Option (Option ℕ)
  pub runner : Option String
  pub provider : Option String
  pub model : Option String
  pub family : Option String

pub record Router : Type 0 where
  pub classify : PlanUnit → (previous_attempt_failed : Bool) → Classification
  pub decision_valid : Classification → Selection → Bool

find_plan : String → List PlanUnit → Result PlanUnit
find_plan uid [] = err run_error
find_plan uid (u ∷ rest) = if str_eq u.id uid then ok u else find_plan uid rest

-- `plan_unit`
unfoldable pub plan_unit : Run → String → Result PlanUnit
unfolding find_plan
plan_unit run uid = find_plan uid run.plan

-- The tier that was asked for, that of the attempt before, or the classifier's.
unfoldable pub wanted_tier : UnitRecord → Selection → Classification → Option ℕ
wanted_tier unit selection c = elim selection.tier [
  | some asked ↦ asked
  | none ↦ elim unit.routing [ some r ↦ some r.tier | none ↦ some c.chosen_tier ]
]

build_record : Classification → Selection → ℕ → Routing
build_record c selection tier = record {
  tier = tier;
  runner = selection.runner;
  provider = selection.provider;
  model = selection.model;
  family = selection.family;
  risk = c.risk;
  minimum_tier = c.minimum_tier;
  review_tier = c.review_tier;
}

-- `none` is an error of the source's pair (record, error).
record_at : Router → Selection → Classification → Option ℕ → Option Routing
unfolding build_record
record_at router selection c none = none
record_at router selection c (some tier) =
    if leb c.minimum_tier tier && (leb tier c.maximum_tier && router.decision_valid c selection)
    then some (build_record c selection tier)
    else none

routing_for : Router → Selection → UnitRecord → Classification → Option Routing
unfolding wanted_tier record_at
routing_for router selection unit c =
    if c.accepted then record_at router selection c (wanted_tier unit selection c) else none

-- `_routing_record`
unfoldable pub routing_record :
    Router → Run → UnitRecord → String → Selection → Result (Option Routing)
unfolding plan_unit routing_for
routing_record router run unit uid selection = do
  p ← plan_unit run uid
  ok (routing_for router selection unit (router.classify p (ltb 0 unit.attempts)))

unfoldable pub get_tier : ℕ → List (ℕ × ℕ) → ℕ
get_tier t [] = 0
get_tier t ((u, n) ∷ m) = if u == t then n else get_tier t m

unfoldable pub put_tier : ℕ → ℕ → List (ℕ × ℕ) → List (ℕ × ℕ)
put_tier t n [] = (t, n) ∷ []
put_tier t n ((u, k) ∷ m) = if u == t then (u, n) ∷ m else (u, k) ∷ put_tier t n m

grant_of_note : Option Note → ℕ
grant_of_note (some (budget_grant n)) = clamp n
grant_of_note _ = 0

unfoldable pub granted : UnitRecord → ℕ
unfolding grant_of_note note_of
granted unit = grant_of_note (note_of "budget_grant" unit)

-- `limit is not None and used >= limit + extra`
unfoldable pub reached : Option ℕ → ℕ → ℕ → Bool
reached none extra used = false
reached (some limit) extra used = leb (limit + extra) used

used_attempts : UnitRecord → Option ℕ → ℕ
unfolding get_tier
used_attempts unit none = unit.attempts
used_attempts unit (some t) = get_tier t unit.attempts_by_tier

-- The old total cap counts only where there is no cap per tier.
total_cap : Budget → Option ℕ
total_cap b = elim b.attempts [ none ↦ b.max_attempts | some n ↦ none ]

-- `_budget_exhausted`
unfoldable pub budget_exhausted : UnitRecord → Option ℕ → Bool
unfolding granted reached used_attempts total_cap
budget_exhausted unit tier =
    reached unit.budget.attempts (granted unit) (used_attempts unit tier)
    || (reached (total_cap unit.budget) (granted unit) unit.attempts
        || reached unit.budget.maximum_cost_usd 0 unit.cost_usd)

-- The unit as `_assign` leaves it before the change of state.
unfoldable pub charged : String → Routing → UnitRecord → UnitRecord
unfolding get_tier put_tier
charged worker_id r unit = record unit {
  attempts = unit.attempts + 1;
  attempts_by_tier =
      put_tier r.tier (get_tier r.tier unit.attempts_by_tier + 1) unit.attempts_by_tier;
  owner = some worker_id;
  routing = some r;
}

unfoldable pub reassignable : List State
reassignable = interrupted ∷ failed ∷ needs_user ∷ ready ∷ blocked ∷ []

module _ (now : ℕ) (conductor_id : String) (router : Router) (selection : Selection) where
  unfoldable pub stop_for_user : String → String → String → String → Tx → Result (Tx × Reply)
  unfolding set_state
  stop_for_user uid reason check_name kind tx = do
    tx' ← set_state now conductor_id uid needs_user (some reason) tx
    ok (tx', refusal check_name (record { kind = kind; unit_id = some uid }))

  unfoldable pub assign_routed : String → String → UnitRecord → Option Routing → Op
  unfolding stop_for_user budget_exhausted charged set_state
  assign_routed uid worker_id unit none tx =
      stop_for_user uid "routing_invalid" "routing_valid" "resolve_needs_user" tx
  assign_routed uid worker_id unit (some r) tx =
      if budget_exhausted unit (some r.tier)
      then stop_for_user uid "budget_exhausted" "budget_available" "budget_exhausted" tx
      else (do
        tx' ←
            set_state now conductor_id uid assigned (some "assigned")
              (edit uid (charged worker_id r unit) tx)
        ok (tx', plain))

  -- `_assign`
  unfoldable pub assign : String → String → Op
  unfolding unit_of routing_record assign_routed
  assign uid worker_id tx = do
    unit ← unit_of tx.run uid
    r ← routing_record router tx.run unit uid selection
    assign_routed uid worker_id unit r tx

  -- `assign_unit`; `veto` is the caller's `guard`, which raises `RunError` to refuse.
  unfoldable pub assign_unit : (veto : Run → String → Result (Unit {0})) → String → String → Op
  unfolding unit_of assign
  assign_unit veto uid worker_id tx = do
    unit ← unit_of tx.run uid
    guard (state_eq unit.state ready) illegal_transition
    guard (not (is_some unit.owner) || opt_eq unit.owner (some worker_id)) run_error
    allowed ← veto tx.run uid
    assign uid worker_id tx

  unfoldable pub unit_handoff : String → String → String → String → UnitRecord → Handoff
  unit_handoff fresh_id uid new_owner reason unit = record {
    id = fresh_id;
    unit_id = some uid;
    from = unit.owner;
    to = new_owner;
    reason = reason;
    previous_state = some unit.state;
    process = unit.process;
    workspace = unit.workspace;
    at = now;
  }

  unfoldable pub return_to_ready : String → String → State → Tx → Result Tx
  unfolding set_state
  return_to_ready uid fresh_id previous tx =
      if state_eq previous ready
      then ok tx
      else set_state now conductor_id uid ready (some fresh_id) tx

  -- `reassign_unit`, its guard passed.
  unfoldable pub hand_over : (fresh_id : String) → String → String → String → UnitRecord → Op
  unfolding unit_of unit_handoff return_to_ready assign
  hand_over fresh_id uid new_owner reason unit tx = do
    let handoff = unit_handoff fresh_id uid new_owner reason unit
    let tx1 = with_run (record tx.run { handoffs = tx.run.handoffs ++ handoff ∷ [] }) tx
    let cleared = record unit { handoff_ref = some fresh_id; process = none }
    tx2 ← return_to_ready uid fresh_id unit.state (edit uid cleared tx1)
    stopped ← unit_of tx2.run uid
    let owned = record stopped { owner = some new_owner }
    assign uid new_owner (add (handoff_recorded uid owned handoff) (edit uid owned tx2))

  -- `reassign_unit`
  unfoldable pub reassign_unit : (fresh_id : String) → String → String → String → Op
  unfolding unit_of reassignable hand_over
  reassign_unit fresh_id uid new_owner reason tx = do
    unit ← unit_of tx.run uid
    guard (one_of unit.state reassignable) run_error
    hand_over fresh_id uid new_owner reason unit tx
