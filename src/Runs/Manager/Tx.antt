-- ===== src/Runs/Manager/Tx.antt =====
-- What an operation of the run manager works on: the working copy of the run and the events that it
-- adds (`_Tx`), with the helpers `_unit`, `_set_state`, `_touch` and `_promote_ready`. The clock is
-- read once for an operation, as `now`.
use openclaw_ecc_orchestrato.Prelude.{
  ◌==◌, if◌then◌else◌, sorted, ℕ, String, Bool, true, false, not, ◌&&◌, ◌||◌, Option, some, List,
  [], ◌∷◌, ◌++◌,
}
use openclaw_ecc_orchestrato.Prelude.Dict.{get, keys}
use openclaw_ecc_orchestrato.Runs.State.{
  State, pending, ready, verifying, merged, state_eq, check_transition,
}
use openclaw_ecc_orchestrato.Runs.Result.{
  run_error, key_error, Result, ok, ◌>>=◌, ◌>>◌, guard, require,
}
use openclaw_ecc_orchestrato.Runs.Document.{
  Note, handoff_note, UnitRecord, Run, EventData, state_changed, unit_updated,
}
use openclaw_ecc_orchestrato.Runs.Replay.{set_unit}

-- `check(name, ok)` and `_action(kind, …, unit_id)` of the result envelope, without their texts.
pub record Check : Type 0 where
  pub name : String
  pub passed : Bool

pub record Action : Type 0 where
  pub kind : String
  pub unit_id : Option String

-- The value of an operation's inner function.
pub record Reply : Type 0 where
  pub succeeded : Bool
  pub checks : List Check
  pub actions : List Action

-- `return None`, or a result with a `data` payload alone.
abbrev pub plain : Reply
plain = record { succeeded = true; checks = []; actions = [] }

abbrev pub refusal : String → Action → Reply
refusal check_name action = record {
  succeeded = false;
  checks = record { name = check_name; passed = false } ∷ [];
  actions = action ∷ [];
}

pub record Tx : Type 0 where
  pub run : Run
  pub events : List EventData

abbrev pub begin : Run → Tx
begin run = record { run = run; events = [] }

abbrev pub add : EventData → Tx → Tx
add d tx = record tx { events = tx.events ++ d ∷ [] }

abbrev pub with_run : Run → Tx → Tx
with_run run tx = record tx { run = run }

-- `_unit`
unfoldable pub unit_of : Run → String → Result UnitRecord
unit_of run uid = require (get uid run.units) run_error

unfoldable pub note_of : String → UnitRecord → Option Note
note_of key unit = get key unit.annotations

-- The handoff annotation is valid and is that of the current attempt.
valid_note : Option Note → ℕ → Bool
valid_note (some (handoff_note n)) attempts = n.valid && (n.attempt == attempts)
valid_note _ attempts = false

unfoldable pub has_valid_handoff : UnitRecord → Bool
unfolding valid_note note_of
has_valid_handoff unit = valid_note (note_of "handoff" unit) unit.attempts

-- The unit after a change of state.
unfoldable pub moved :
    (now : ℕ) (conductor_id : String) (target : State) (reason : Option String)
    → UnitRecord
    → UnitRecord
moved now conductor_id target reason unit = record unit {
  state = target;
  last_reason = reason;
  history =
      unit.history
      ++ record {
        from = unit.state;
        to = target;
        at = now;
        conductor_id = conductor_id;
        owner = unit.owner;
        reason = reason;
      }
        ∷ [];
}

-- Whether every dependency is merged; a dependency that is no unit is a `KeyError`.
unfoldable pub all_merged : Run → List String → Result Bool
all_merged run [] = ok true
all_merged run (d ∷ deps) = do
  unit ← require (get d run.units) key_error
  if state_eq unit.state merged then all_merged run deps else ok false

module _ (now : ℕ) (conductor_id : String) where
  -- What `_set_state` writes, its guards passed.
  unfoldable pub write_state : String → State → Option String → UnitRecord → Tx → Tx
  unfolding moved
  write_state uid target reason unit tx =
      let unit' = moved now conductor_id target reason unit in
      add (state_changed uid unit.state target reason conductor_id unit')
        (with_run (set_unit uid unit' tx.run) tx)

  -- `_set_state` up to its last `if`, which a target other than `merged` does not reach.
  unfoldable pub change_state : String → State → Option String → Tx → Result Tx
  unfolding unit_of check_transition has_valid_handoff write_state
  change_state uid target reason tx = do
    unit ← unit_of tx.run uid
    check_transition unit.state target
    guard (not (state_eq target verifying) || has_valid_handoff unit) run_error
    ok (write_state uid target reason unit tx)

  unfoldable pub promote_one : String → UnitRecord → Tx → Result Tx
  unfolding change_state all_merged
  promote_one uid unit tx =
      if state_eq unit.state pending
      then (do
        met ← all_merged tx.run unit.depends_on
        if met then change_state uid ready (some "dependencies_merged") tx else ok tx)
      else ok tx

  unfoldable pub promote : List String → Tx → Result Tx
  unfolding promote_one
  promote [] tx = ok tx
  promote (uid ∷ uids) tx = do
    unit ← require (get uid tx.run.units) key_error
    tx' ← promote_one uid unit tx
    promote uids tx'

  -- `_promote_ready`
  unfoldable pub promote_ready : Tx → Result Tx
  unfolding promote
  promote_ready tx = promote (sorted (keys tx.run.units)) tx

  -- `_set_state`
  unfoldable pub set_state : String → State → Option String → Tx → Result Tx
  unfolding change_state promote_ready
  set_state uid target reason tx = do
    tx' ← change_state uid target reason tx
    if state_eq target merged then promote_ready tx' else ok tx'

-- `_touch`
unfoldable pub touch : String → Tx → Result Tx
unfolding unit_of
touch uid tx = do unit ← unit_of tx.run uid; ok (add (unit_updated uid unit) tx)

-- A write through the unit that the operation holds: the record changes, and no event is added.
abbrev pub edit : String → UnitRecord → Tx → Tx
edit uid unit tx = with_run (set_unit uid unit tx.run) tx
