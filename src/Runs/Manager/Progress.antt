-- ===== src/Runs/Manager/Progress.antt =====
-- The operations of src/openclaw_ecc_orchestrator/runs/manager.py that record a unit's progress.
use Prim.Native.String.{count}
use text.Mathlib.Text.{starts_with}
use openclaw_ecc_orchestrato.Prelude.{
  ltb, leb, if◌then◌else◌, is_some, or_else, is_nil, has, str_eq, opt_eq, ℕ, ◌+◌, String, Bool,
  true, false, not, ◌&&◌, ◌||◌, Option, none, some, List, [], ◌∷◌, ◌++◌,
}
use openclaw_ecc_orchestrato.Prelude.Dict.{put}
use openclaw_ecc_orchestrato.Runs.State.{needs_user, of_name, one_of, transitions, in_flight}
use openclaw_ecc_orchestrato.Runs.Result.{
  illegal_transition, run_error, Result, ok, err, ◌>>=◌, ◌>>◌, guard, require,
}
use openclaw_ecc_orchestrato.Runs.Document.{
  ℤ, pos, negsuc, clamp, Process, HandoffNote, Note, handoff_note, UnitRecord,
}
use openclaw_ecc_orchestrato.Runs.Manager.Tx.{
  Reply, plain, refusal, Tx, unit_of, set_state, touch, edit,
}
use openclaw_ecc_orchestrato.Runs.Manager.Store.{Op}
use openclaw_ecc_orchestrato.Runs.Liveness.{Probe, capture_identity}
use openclaw_ecc_orchestrato.Runs.Manager.Assign.{plan_unit}

-- What `schemas.validate_handoff` reports of a handoff document, and what else is read of it.
pub record Report : Type 0 where
  pub valid : Bool
  pub errors : List String
  pub violations : List String

pub record HandoffDoc : Type 0 where
  pub status : Option String
  pub sha : Option String

abbrev pub no_process : Process
no_process = record {
  pid = none;
  conductor_id = none;
  start_ticks = none;
  start_token = none;
  start_method = none;
  recorded_at = none;
  finished = false;
  finished_at = none;
  exit_code = none;
  signal = none;
  timed_out = false;
  was_cancelled = false;
  surrendered_at = none;
  surrender_detail = none;
}

abbrev pub annotation_keys : List String
annotation_keys =
    "verification" ∷ "review" ∷ "merge" ∷ "conflicts" ∷ "notes" ∷ "escalation" ∷ "health"
    ∷ "last_failure" ∷ "handoff_repair" ∷ "team" ∷ "budget_grant" ∷ "skills_pass" ∷ []

abbrev pub annotate : String → Note → UnitRecord → UnitRecord
annotate key value u = record u { annotations = put key value u.annotations }

module _ (now : ℕ) (conductor_id : String) where
  -- `transition`, with the target as the caller's text.
  unfoldable pub transition : String → String → Option String → Op
  unfolding set_state of_name
  transition uid target reason tx = if str_eq target "assigned" then err run_error else (do
    unit ← unit_of tx.run uid
    to ← require (of_name target) illegal_transition
    tx' ← set_state now conductor_id uid to reason tx
    ok (tx', plain))

  -- The write of one field of a unit, and the event that carries the record.
  unfoldable pub write_unit : String → (UnitRecord → UnitRecord) → Tx → Result Tx
  unfolding unit_of touch
  write_unit uid change tx = do unit ← unit_of tx.run uid; touch uid (edit uid (change unit) tx)

  identified_process : Probe → Process → Process
  unfolding capture_identity
  identified_process probe p =
      if is_some p.start_ticks || is_some p.start_token
      then p
      else if is_some p.pid
      then capture_identity probe p
      else p

  stamped : Process → Process
  stamped p = record p { recorded_at = some (or_else p.recorded_at now) }

  -- `record_process`
  unfoldable pub record_process : Probe → String → Process → Op
  unfolding write_unit identified_process stamped
  record_process probe uid process tx = do
    tx' ←
        write_unit uid
          (λ u. record u { process = some (stamped (identified_process probe process)) }) tx
    ok (tx', plain)

  exited : Option ℤ → Option ℤ → Bool → Bool → Process → Process
  exited exit_code signal timed_out was_cancelled p = record p {
    finished = true;
    finished_at = some now;
    exit_code = exit_code;
    signal = signal;
    timed_out = timed_out;
    was_cancelled = was_cancelled;
  }

  -- `record_process_exit`
  unfoldable pub record_process_exit : String → Option ℤ → Option ℤ → Bool → Bool → Op
  unfolding write_unit exited
  record_process_exit uid exit_code signal timed_out was_cancelled tx = do
    tx' ←
        write_unit uid
          (λ u. record u {
            process =
                some
                  (exited exit_code signal timed_out was_cancelled (or_else u.process no_process));
          })
          tx
    ok (tx', plain)

  unfoldable pub surrendered : Option String → UnitRecord → UnitRecord
  surrendered detail unit = record unit {
    process = some (record (or_else unit.process no_process) {
      surrendered_at = some now;
      surrender_detail = detail;
    });
  }

  unfoldable pub give_up : String → String → Option String → UnitRecord → Tx → Result (Tx × Reply)
  unfolding set_state surrendered
  give_up uid reason detail unit tx = do
    tx' ←
        set_state now conductor_id uid needs_user (some reason)
          (edit uid (surrendered detail unit) tx)
    ok (
      tx',
      record plain { actions = record { kind = "verify_worker_process"; unit_id = some uid } ∷ [] },
    )

  -- The process of the unit was started by this conductor.
  unfoldable pub started_here : UnitRecord → Bool
  started_here unit = opt_eq (or_else unit.process no_process).conductor_id (some conductor_id)

  -- `surrender_unit`
  unfoldable pub surrender_unit : String → String → Option String → Op
  unfolding unit_of give_up in_flight started_here
  surrender_unit uid reason detail tx = do
    unit ← unit_of tx.run uid
    guard (started_here unit) run_error
    guard (one_of unit.state in_flight) run_error
    give_up uid reason detail unit tx

  -- `record_workspace`
  unfoldable pub record_workspace : String → String → Op
  unfolding write_unit
  record_workspace uid workspace tx = do
    tx' ← write_unit uid (λ u. record u { workspace = some workspace }) tx
    ok (tx', plain)

  -- `annotate_unit`
  unfoldable pub annotate_unit : String → String → Note → Op
  unfolding write_unit
  annotate_unit uid key value tx = do
    guard (has key annotation_keys) run_error
    tx' ← write_unit uid (annotate key value) tx
    ok (tx', plain)

  -- `not isinstance(sha, str)`, too short, or no prefix of the head.
  bad_commit : Option String → Option String → Bool
  bad_commit none sha = false
  bad_commit (some head) none = true
  bad_commit (some head) (some sha) = not (leb 7 (count sha) && starts_with head sha)

  -- What `record_handoff` lists of the validator's report, the status and the commit.
  unfoldable pub problems_of : Report → HandoffDoc → (head : Option String) → List String
  unfolding bad_commit
  problems_of report doc head =
      report.errors
      ++ report.violations
      ++ (if report.valid && not (opt_eq doc.status (some "succeeded")) then "status" ∷ [] else [])
      ++ (if report.valid && bad_commit head doc.sha then "commit" ∷ [] else [])

  -- The annotation for the current attempt.
  unfoldable pub note_for : Report → HandoffDoc → Option String → ℕ → HandoffNote
  unfolding problems_of
  note_for report doc head attempts = record {
    attempt = attempts;
    valid = is_nil (problems_of report doc head);
    status = doc.status;
    problems = problems_of report doc head;
    commit = doc.sha;
  }

  -- `record_handoff`
  unfoldable pub record_handoff : String → Report → HandoffDoc → (head : Option String) → Op
  unfolding unit_of plan_unit write_unit note_for
  record_handoff uid report doc head tx = do
    unit ← unit_of tx.run uid
    p ← plan_unit tx.run uid
    let note = note_for report doc head unit.attempts
    tx' ← write_unit uid (annotate "handoff" (handoff_note note)) tx
    ok (
      tx',
      record plain {
        succeeded = note.valid;
        checks = record { name = "handoff_valid"; passed = note.valid } ∷ [];
      },
    )

  unfoldable pub is_negative : ℤ → Bool
  is_negative (pos n) = false
  is_negative (negsuc n) = true

  unfoldable pub over_cost : UnitRecord → Bool
  over_cost u = elim u.budget.maximum_cost_usd [ none ↦ false | some limit ↦ ltb limit u.cost_usd ]

  -- A unit over its cost budget is stopped for the user where its state allows that.
  unfoldable pub charge_over : String → UnitRecord → Tx → Result (Tx × Reply)
  unfolding set_state transitions
  charge_over uid unit tx = do
    tx' ←
        if one_of needs_user (transitions unit.state)
        then set_state now conductor_id uid needs_user (some "budget_exhausted") tx
        else ok tx
    ok (tx', refusal "budget_available" (record { kind = "budget_exhausted"; unit_id = some uid }))

  unfoldable pub with_usage : ℤ → ℤ → UnitRecord → UnitRecord
  with_usage minutes cost unit = record unit {
    minutes_used = unit.minutes_used + clamp minutes;
    cost_usd = unit.cost_usd + clamp cost;
  }

  unfoldable pub charge : String → UnitRecord → Tx → Result (Tx × Reply)
  unfolding touch over_cost charge_over
  charge uid used tx = do
    tx' ← touch uid (edit uid used tx)
    if over_cost used then charge_over uid used tx' else ok (tx', plain)

  -- `record_usage`
  unfoldable pub record_usage : String → ℤ → ℤ → Op
  unfolding unit_of is_negative with_usage charge
  record_usage uid minutes cost tx = do
    unit ← unit_of tx.run uid
    guard (not (is_negative minutes || is_negative cost)) run_error
    charge uid (with_usage minutes cost unit) tx
