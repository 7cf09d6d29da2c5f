-- ===== src/MergeQueue/Dispatch.antt =====
-- src/openclaw_ecc_orchestrator/merge_queue/dispatch.py: the dispatcher, which hands ready units to workers.
pub mod Guarded
pub mod Parallel
pub mod Progress
pub mod Tests
use openclaw_ecc_orchestrato.Prelude.{
  leb, if◌then◌else◌, length, all, is_nil, sorted, str_eq, ℕ, String, Bool, true, false, not,
  Option, none, some, List, [], ◌∷◌, ◌++◌, map,
}
use openclaw_ecc_orchestrato.Prelude.Codes.{Text, codes}
use openclaw_ecc_orchestrato.Prelude.Dict.{get}
use openclaw_ecc_orchestrato.Runs.State.{State, ready, assigned, one_of, active}
use openclaw_ecc_orchestrato.Runs.Result.{
  run_error, key_error, Result, ok, err, guard, require, ◌>>=◌, ◌>>◌,
}
use openclaw_ecc_orchestrato.Runs.Document.{PlanUnit, Run}
use openclaw_ecc_orchestrato.Runs.Manager.Tx.{Check, Action}
use openclaw_ecc_orchestrato.Runs.Manager.Store.{Store, load, Envelope, returned, uncaught}
use openclaw_ecc_orchestrato.Runs.Manager.Assign.{Selection}
use openclaw_ecc_orchestrato.Runs.Manager.Commands.{World, give, call}
use openclaw_ecc_orchestrato.Runs.Manager.Steps.{changed}
use openclaw_ecc_orchestrato.MergeQueue.Conflicts.{scope_overlaps}

-- `_files`
abbrev pub files : PlanUnit → List Text
files u = map codes u.scope_files

-- An entry of `conflicts_with`.
pub record Hit : Type 0 where
  pub unit_id : String
  pub overlaps : List (Text × Text)

-- `conflicts_with`
unfoldable pub conflicts_with : PlanUnit → List PlanUnit → List Hit
conflicts_with unit [] = []
conflicts_with unit (o ∷ others) =
    let rest = conflicts_with unit others in
    let overlaps = scope_overlaps (files unit) (files o) in
    if str_eq o.id unit.id
    then rest
    else if is_nil overlaps
    then rest
    else record { unit_id = o.id; overlaps = overlaps } ∷ rest

pub data Reason : Type 0 where
  no_worker scope_overlap : Reason

pub record Deferred : Type 0 where
  pub unit_id : String
  pub hits : List Hit
  pub reason : Reason

-- Where the loop of `plan_dispatch` stands: the units chosen, and what is deferred.
pub record Plan : Type 0 where
  pub chosen : List PlanUnit
  pub deferred : List Deferred

abbrev pub put_off : PlanUnit → List Hit → Reason → Plan → Plan
put_off u hits reason p = record p {
  deferred = p.deferred ++ record { unit_id = u.id; hits = hits; reason = reason } ∷ [];
}

abbrev pub choose : PlanUnit → Plan → Plan
choose u p = record p { chosen = p.chosen ++ u ∷ [] }

abbrev pub full : Option ℕ → ℕ → Bool
full none n = false
full (some limit) n = leb limit n

-- One turn of the loop.
unfoldable pub consider : List PlanUnit → Option ℕ → PlanUnit → Plan → Plan
consider busy limit u p =
    let hits = conflicts_with u (busy ++ p.chosen) in
    if full limit (length p.chosen)
    then put_off u [] no_worker p
    else if is_nil hits
    then choose u p
    else put_off u hits scope_overlap p

unfoldable pub sweep : List PlanUnit → Option ℕ → List PlanUnit → Plan → Plan
sweep busy limit [] p = p
sweep busy limit (u ∷ us) p = sweep busy limit us (consider busy limit u p)

-- `plan_dispatch`
unfoldable pub plan_dispatch : (candidates busy : List PlanUnit) (limit : Option ℕ) → Plan
unfolding sweep consider conflicts_with
plan_dispatch candidates busy limit =
    sweep busy limit candidates (record { chosen = []; deferred = [] })

-- `assert_parallel_safe`; `ConflictError` is a `RunError`.
unfoldable pub assert_parallel_safe : PlanUnit → List PlanUnit → Result (Unit {0})
assert_parallel_safe unit active_units = guard (is_nil (conflicts_with unit active_units)) run_error

-- `plan_units[uid]`: of two units with one id, the later.
abbrev pub plan_entry : String → List PlanUnit → Option PlanUnit
plan_entry uid [] = none
plan_entry uid (u ∷ us) = elim (plan_entry uid us) [
  | some later ↦ some later
  | none ↦ if str_eq u.id uid then some u else none
]

abbrev pub unit_ids : List PlanUnit → List String
unit_ids us = map (λ (u : PlanUnit). u.id) us

abbrev entry_if : Bool → String → Run → Result (List PlanUnit)
entry_if wanted uid run =
    if wanted then (require (plan_entry uid run.plan) key_error >>= λ u. ok (u ∷ [])) else ok []

-- `[plan_units[u] for u in order if run["units"][u]["state"] in wanted]`
unfoldable pub in_states : List State → Run → List String → Result (List PlanUnit)
in_states wanted run [] = ok []
in_states wanted run (uid ∷ uids) = do
  unit ← require (get uid run.units) key_error
  entry ← entry_if (one_of unit.state wanted) uid run
  rest ← in_states wanted run uids
  ok (entry ++ rest)

abbrev pub order_of : Run → List String
order_of run = if is_nil run.order then sorted (unit_ids run.plan) else run.order

-- `_split`: the active units and the ready ones.
unfoldable pub split_units : Run → Result (List PlanUnit × List PlanUnit)
unfolding in_states
split_units run = do
  busy ← in_states active run (order_of run)
  waiting ← in_states (ready ∷ []) run (order_of run)
  ok (busy, waiting)

-- `_guard`
unfoldable pub parallel_guard : Run → String → Result (Unit {0})
unfolding split_units assert_parallel_safe
parallel_guard run uid = do
  split ← split_units run
  unit ← require (plan_entry uid run.plan) key_error
  assert_parallel_safe unit split.0

abbrev pub guarded : World → World
guarded w = record w { veto = parallel_guard }

-- What `dispatch` returns: the assignments made, those planned where it is a dry run, and the checks.
pub record Dispatched : Type 0 where
  pub succeeded : Bool
  pub changed : Bool
  pub assigned : List (String × String)
  pub deferred : List Deferred
  pub checks : List Check
  pub actions : List Action

-- `zip(plan["dispatch"], workers)`
abbrev pub pair_up : List PlanUnit → List String → List (String × String)
pair_up (u ∷ us) (w ∷ ws) = (u.id, w) ∷ pair_up us ws
pair_up _ _ = []

-- A call that was answered is added to what the loop has.
abbrev pub tally : (String × String) → Envelope → Dispatched → Dispatched
tally item e d = record d {
  assigned = d.assigned ++ (if e.succeeded then item ∷ [] else []);
  checks = d.checks ++ e.checks;
  actions = d.actions ++ e.actions;
}

-- `selection` is the caller's `routing`, which `dispatch` leaves out.
unfoldable pub assign_all :
    World
    → String
    → Selection
    → List (String × String)
    → Dispatched
    → Store
    → Result Dispatched × Store
assign_all w c selection [] d s = (ok d, s)
assign_all w c selection ((uid, worker_id) ∷ items) d s =
    let (answer, s') = call (guarded w) c false (give uid worker_id selection) s in
    elim answer [
      | uncaught e ↦ (err e, s')
      | returned e ↦ assign_all w c selection items (tally (uid, worker_id) e d) s'
    ]

abbrev pub no_selection : Selection
no_selection = record { tier = none; runner = none; provider = none; model = none; family = none }

abbrev pub no_calls : List Deferred → Dispatched
no_calls deferred = record {
  succeeded = true;
  changed = false;
  assigned = [];
  deferred = deferred;
  checks = [];
  actions = [];
}

abbrev pub wrapped_up : Dispatched → Dispatched
wrapped_up d = record d {
  succeeded = all (λ (k : Check). k.passed) d.checks;
  changed = not (is_nil d.assigned);
}

abbrev pub wrap_up_all : Result Dispatched → Result Dispatched
wrap_up_all r = r >>= λ d. ok (wrapped_up d)

-- `dispatch`
unfoldable pub dispatch :
    World → String → (workers : List String) → (dry_run : Bool) → Store → Result Dispatched × Store
unfolding split_units plan_dispatch assign_all
dispatch w c workers dry_run s = elim (load s >>= split_units) [
  | err e ↦ (err e, s)
  | ok (busy, waiting) ↦
      let plan = plan_dispatch waiting busy (some (length workers)) in
      let items = pair_up plan.chosen workers in
      if dry_run
      then (ok (record (no_calls plan.deferred) { assigned = items }), s)
      else let (r, s') = assign_all w c no_selection items (no_calls plan.deferred) s in
        (wrap_up_all r, s')
]
