-- ===== src/Runs/Tests.antt =====
-- Concrete runs, commands and stores, and the theorems about src/openclaw_ecc_orchestrator/runs on them.
use openclaw_ecc_orchestrato.Prelude.{
  ◌≡◌, refl, ◌⊎◌, ◌≢◌, inl, inr, true, false, none, some, List, [], ◌∷◌, arith,
}
use openclaw_ecc_orchestrato.Prelude.Dict.{get, put}
use openclaw_ecc_orchestrato.Runs.State.{
  State, pending, ready, assigned, running, verifying, reviewing, queued_for_merge, merged,
  cancelled, one_of, transitions, terminal, check_transition,
}
use openclaw_ecc_orchestrato.Runs.Result.{Result, ok, err}
use openclaw_ecc_orchestrato.Runs.Document.{Budget, UnitRecord, PlanUnit, Run, new_unit_record}
use openclaw_ecc_orchestrato.Runs.Replay.{has_handoff, replay_data}
use openclaw_ecc_orchestrato.Runs.Manager.Tx.{Reply, plain, Tx, begin}
use openclaw_ecc_orchestrato.Runs.Manager.Store.{
  Store, last_seq, load, save, append_events, require_lease,
}
use openclaw_ecc_orchestrato.Runs.Liveness.{dead, delivered, unknown}
use openclaw_ecc_orchestrato.Runs.Manager.Assign.{Classification, Selection, assign_unit}
use openclaw_ecc_orchestrato.Runs.Manager.Commands.{
  World, Command, give, needs_lease, perform, call,
}
use openclaw_ecc_orchestrato.Runs.Manager.Describing.{IsFresh}
use openclaw_ecc_orchestrato.Runs.State.Walks.{Walk, transitions-terminal, merged-needs_review}
use openclaw_ecc_orchestrato.Runs.Manager.Calls.{
  Permits, appended, load-save, call-survives_crash, Authorised, call-Authorised,
}
use openclaw_ecc_orchestrato.Runs.Manager.Described.{perform-replay}
use openclaw_ecc_orchestrato.Runs.Manager.Invariants.{Moved, perform-Moved, perform-terminal}
use openclaw_ecc_orchestrato.Runs.Manager.Recovery.{IsSound}
use openclaw_ecc_orchestrato.Runs.Identifier.{
  has_dots, valid_identifier, has_code, starts_alnum, valid_identifier-path,
}
use openclaw_ecc_orchestrato.Runs.Manager.Creation.{PlanReport, create_run, create_run-kept}

abbrev budget : Budget
budget = record {
  attempts = some 2;
  max_attempts = none;
  minutes = some 30;
  max_minutes = none;
  maximum_cost_usd = some 500;
}

abbrev pub plan_a : PlanUnit
plan_a = record { id = "a"; depends_on = []; scope_files = "src/a.py" ∷ []; budget = budget }

abbrev pub plan_b : PlanUnit
plan_b = record { id = "b"; depends_on = "a" ∷ []; scope_files = "src/b.py" ∷ []; budget = budget }

-- A unit of the plan in a state of its own, as `_new_unit_record` makes it.
abbrev unit_in : State → PlanUnit → UnitRecord
unit_in s p = record {
  id = p.id;
  state = s;
  owner = none;
  attempts = 0;
  attempts_by_tier = [];
  minutes_used = 0;
  cost_usd = 0;
  budget = p.budget;
  routing = none;
  depends_on = p.depends_on;
  scope_files = p.scope_files;
  process = none;
  workspace = none;
  handoff_ref = none;
  last_reason = none;
  annotations = [];
  history = [];
}

new_b : new_unit_record plan_b ≡ unit_in pending plan_b
unfolding new_unit_record
new_b = refl

abbrev unit_a : UnitRecord
unit_a = unit_in ready plan_a

abbrev unit_b : UnitRecord
unit_b = unit_in pending plan_b

abbrev pub start_run : Run
start_run = record {
  run_id = "run-1";
  created_at = 5;
  plan_sha256 = "";
  plan = plan_a ∷ plan_b ∷ [];
  order = "a" ∷ "b" ∷ [];
  lease = some (record { conductor_id = "ana"; acquired_at = 5; expires_at = 100 });
  units = ("a", unit_a) ∷ ("b", unit_b) ∷ [];
  handoffs = [];
  replaced = [];
  last_event_seq = 0;
}

abbrev pub start_store : Store
start_store = record { snapshot = some start_run; log = [] }

abbrev class : Classification
class = record {
  accepted = true;
  risk = "low";
  chosen_tier = 1;
  minimum_tier = 1;
  maximum_tier = 3;
  review_tier = 2;
}

abbrev pub world : World
world = record {
  now = 10;
  lease_ttl = 60;
  fresh_id = "h-1";
  is_alive = λ p. dead;
  probe = record { kill = λ n. delivered; identity = λ n. unknown };
  router = record { classify = λ u f. class; decision_valid = λ c s. true };
  veto = λ run uid. ok tt;
}

abbrev no_selection : Selection
no_selection = record {
  tier = none;
  runner = some "codex";
  provider = none;
  model = none;
  family = none;
}

abbrev give_a : Command
give_a = give "a" "worker-1" no_selection

abbrev tx_of : Result (Tx × Reply) → Tx
tx_of (ok r) = r.0
tx_of (err e) = begin start_run

abbrev given : Tx
unfolding perform assign_unit get put
given = tx_of (perform world "ana" give_a (begin start_run))

given-performed : perform world "ana" give_a (begin start_run) ≡ ok (given, plain)
unfolding perform assign_unit get put
given-performed = refl

loaded : load start_store ≡ ok start_run
unfolding load
loaded = refl

permitted : Permits world "ana" give_a start_run
unfolding needs_lease require_lease
permitted = refl

fresh : IsFresh world.fresh_id start_run
unfolding has_handoff
fresh = refl

sound : IsSound start_store
unfolding last_seq
sound = ground arith

call-survives_crash_example :
    (load (appended given start_store).1 ≡ ok (appended given start_store).0)
    × (load (call world "ana" false give_a start_store).1 ≡ ok (appended given start_store).0)
    × IsSound (call world "ana" false give_a start_store).1
call-survives_crash_example =
    call-survives_crash world "ana" give_a start_store start_run given plain loaded permitted
      given-performed sound fresh

call-Authorised_example :
    ((call world "ana" false give_a start_store).1 ≡ start_store)
    ⊎ Authorised world "ana" false give_a start_store
call-Authorised_example = call-Authorised world "ana" false give_a start_store

logged : Run × Store
logged = appended given start_store

logged_seq : logged.0.last_event_seq ≡ last_seq logged.1
unfolding last_seq given logged append_events
logged_seq = refl

load-save_example : load (save logged.0 logged.1) ≡ ok logged.0
load-save_example = load-save logged.0 logged.1 logged_seq

perform-replay_example : replay_data given.events start_run ≡ given.run
perform-replay_example =
    perform-replay world "ana" give_a start_run given plain fresh given-performed

known_a : get "a" start_run.units ≡ some unit_a
unfolding get
known_a = refl

perform-Moved_example : Moved "a" unit_a given.run
perform-Moved_example =
    perform-Moved world "ana" give_a start_run given plain "a" unit_a known_a given-performed

-- The same run with its second unit cancelled.
abbrev gone_b : UnitRecord
gone_b = unit_in cancelled plan_b

abbrev late_run : Run
late_run = record start_run { units = ("a", unit_a) ∷ ("b", gone_b) ∷ [] }

abbrev late_given : Tx
unfolding perform assign_unit get put
late_given = tx_of (perform world "ana" give_a (begin late_run))

late_given-performed : perform world "ana" give_a (begin late_run) ≡ ok (late_given, plain)
unfolding perform assign_unit get put
late_given-performed = refl

known_b : get "b" late_run.units ≡ some gone_b
unfolding get
known_b = refl

ended_b : (gone_b.state ≡ merged) ⊎ (gone_b.state ≡ cancelled)
ended_b = inr refl

perform-terminal_example :
    (unit' : UnitRecord) × (get "b" late_given.run.units ≡ some unit')
    × (unit'.state ≡ gone_b.state)
perform-terminal_example =
    perform-terminal world "ana" give_a late_run late_given plain "b" gone_b known_b ended_b
      late_given-performed

abbrev full_history : List State
full_history = ready ∷ assigned ∷ running ∷ verifying ∷ reviewing ∷ queued_for_merge ∷ merged ∷ []

full-Walk : Walk pending full_history
unfolding check_transition
full-Walk = (refl, (refl, (refl, (refl, (refl, (refl, (refl, tt)))))))

merged-needs_review_example :
    (one_of queued_for_merge full_history ≡ true) × (one_of reviewing full_history ≡ true)
merged-needs_review_example = merged-needs_review full_history full-Walk refl

transitions-terminal_example :
    (one_of merged terminal ≡ true × (transitions merged ≡ []))
    ⊎ ((one_of merged terminal ≡ false) × (check_transition merged cancelled ≡ ok tt))
transitions-terminal_example = transitions-terminal merged

accepted_name : valid_identifier "run-1" ≡ true
unfolding valid_identifier
accepted_name = refl

-- An identifier that ends in a line feed is accepted.
accepted_line_feed : valid_identifier "run-1\n" ≡ true
unfolding valid_identifier
accepted_line_feed = refl

valid_identifier-path_example :
    (starts_alnum "run-1" ≡ true) × (has_code 47 "run-1" ≡ false) × (has_dots "run-1" ≡ false)
valid_identifier-path_example = valid_identifier-path "run-1" accepted_name

abbrev used_run : Run
used_run = record start_run { units = ("a", unit_in running plan_a) ∷ [] }

abbrev used_store : Store
used_store = record { snapshot = some used_run; log = [] }

used_loaded : load used_store ≡ ok used_run
unfolding load
used_loaded = refl

used_known : get "a" used_run.units ≡ some (unit_in running plan_a)
unfolding get
used_known = refl

running≢pending : running ≢ pending
running≢pending e = cc

running≢ready : running ≢ ready
running≢ready e = cc

abbrev good_report : PlanReport
good_report = record {
  plan_valid = true;
  order = "a" ∷ [];
  units_valid = true;
  policy_valid = true;
}

create_run-kept_example :
    (create_run 20 60 "run-1" "ana" "sha" good_report false true (plan_a ∷ []) used_store).1
    ≡ used_store
create_run-kept_example =
    create_run-kept 20 60 "run-1" "ana" "sha" good_report false true (plan_a ∷ []) used_store (
      inr (
        refl,
        (
          used_run,
          "a",
          unit_in running plan_a,
          used_loaded,
          used_known,
          inl (running≢pending, running≢ready),
        ),
      ))
