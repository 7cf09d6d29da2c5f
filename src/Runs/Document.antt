-- ===== src/Runs/Document.antt =====
-- The run document of src/openclaw_ecc_orchestrator/runs/manager.py: the lease, the unit records, the
-- handoffs and the events. Times, minutes and costs are whole numbers of a small unit; `None` and a
-- missing key are both `none`. A process id that is not a positive integer is `none` or 0.
use openclaw_ecc_orchestrato.Prelude.{ℕ, String, Bool, Option, none, List, []}
use openclaw_ecc_orchestrato.Prelude.Dict.{Dict}
use openclaw_ecc_orchestrato.Runs.State.{State, pending}

pub data ℤ : Type 0 where
  pos : ℕ → ℤ
  negsuc : ℕ → ℤ

-- `max(0, n)`
abbrev pub clamp : ℤ → ℕ
clamp (pos n) = n
clamp (negsuc n) = 0

pub record Lease : Type 0 where
  pub conductor_id : String
  pub acquired_at : ℕ
  pub expires_at : ℕ

-- A start field may be missing (`none`) or there and null (`some none`).
pub record Process : Type 0 where
  pub pid : Option ℕ
  pub conductor_id : Option String
  pub start_ticks : Option (Option String)
  pub start_token : Option (Option String)
  pub start_method : Option String
  pub recorded_at : Option ℕ
  pub finished : Bool
  pub finished_at : Option ℕ
  pub exit_code : Option ℤ
  pub signal : Option ℤ
  pub timed_out : Bool
  pub was_cancelled : Bool
  pub surrendered_at : Option ℕ
  pub surrender_detail : Option String

-- The annotation that `record_handoff` writes.
pub record HandoffNote : Type 0 where
  pub attempt : ℕ
  pub valid : Bool
  pub status : Option String
  pub problems : List String
  pub commit : Option String

pub data Note : Type 0 where
  handoff_note : HandoffNote → Note
  budget_grant : (attempts : ℤ) → Note
  json : String → Note

-- `attempts` counts per tier; `max_attempts` and `max_minutes` are the deprecated names.
pub record Budget : Type 0 where
  pub attempts : Option ℕ
  pub max_attempts : Option ℕ
  pub minutes : Option ℕ
  pub max_minutes : Option ℕ
  pub maximum_cost_usd : Option ℕ

pub record Routing : Type 0 where
  pub tier : ℕ
  pub runner : Option String
  pub provider : Option String
  pub model : Option String
  pub family : Option String
  pub risk : String
  pub minimum_tier : ℕ
  pub review_tier : ℕ

pub record Change : Type 0 where
  pub from : State
  pub to : State
  pub at : ℕ
  pub conductor_id : String
  pub owner : Option String
  pub reason : Option String

-- A unit record. `attempts_by_tier` is keyed by the tier, whose text is the key in the source.
pub record UnitRecord : Type 0 where
  pub id : String
  pub state : State
  pub owner : Option String
  pub attempts : ℕ
  pub attempts_by_tier : List (ℕ × ℕ)
  pub minutes_used : ℕ
  pub cost_usd : ℕ
  pub budget : Budget
  pub routing : Option Routing
  pub depends_on : List String
  pub scope_files : List String
  pub process : Option Process
  pub workspace : Option String
  pub handoff_ref : Option String
  pub last_reason : Option String
  pub annotations : Dict Note
  pub history : List Change

-- A recorded handoff: of a unit between owners, or of the run between conductors.
pub record Handoff : Type 0 where
  pub id : String
  pub unit_id : Option String
  pub from : Option String
  pub to : String
  pub reason : String
  pub previous_state : Option State
  pub process : Option Process
  pub workspace : Option String
  pub at : ℕ

-- A unit of the plan, as far as the run code reads it.
pub record PlanUnit : Type 0 where
  pub id : String
  pub depends_on : List String
  pub scope_files : List String
  pub budget : Budget

pub record Run : Type 0 where
  pub run_id : String
  pub created_at : ℕ
  pub plan_sha256 : String
  pub plan : List PlanUnit
  pub order : List String
  pub lease : Option Lease
  pub units : Dict UnitRecord
  pub handoffs : List Handoff
  pub replaced : List (String × ℕ)
  pub last_event_seq : ℕ

-- The events of the log, by their type and the keys of their data.
pub data EventData : Type 0 where
  run_created : (run : Run) (conductor_id : String) → EventData
  run_replanned : (run : Run) (conductor_id : String) → EventData
  state_changed :
      (unit_id : String) (from to : State) (reason : Option String) (conductor_id : String)
      (unit : UnitRecord)
      → EventData
  unit_updated : (unit_id : String) (unit : UnitRecord) → EventData
  lease_acquired :
      (lease : Option Lease) (previous : Option String) (handoff : Option Handoff) → EventData
  lease_renewed : (lease : Option Lease) → EventData
  lease_released : (lease : Option Lease) → EventData
  lease_transferred : (lease : Option Lease) (handoff : Handoff) → EventData
  handoff_recorded : (unit_id : String) (unit : UnitRecord) (handoff : Handoff) → EventData
  run_resumed :
      (conductor_id : String) (previous : Option String) (interrupted unverified : List String)
      → EventData

pub record Event : Type 0 where
  pub seq : ℕ
  pub info : EventData

-- `_new_unit_record`
unfoldable pub new_unit_record : PlanUnit → UnitRecord
new_unit_record unit = record {
  id = unit.id;
  state = pending;
  owner = none;
  attempts = 0;
  attempts_by_tier = [];
  minutes_used = 0;
  cost_usd = 0;
  budget = unit.budget;
  routing = none;
  depends_on = unit.depends_on;
  scope_files = unit.scope_files;
  process = none;
  workspace = none;
  handoff_ref = none;
  last_reason = none;
  annotations = [];
  history = [];
}
