-- ===== src/Runs/State.antt =====
-- The unit state machine of src/openclaw_ecc_orchestrator/runs/state.py. A state is an enum here and
-- a text in the source: `of_name` is the membership test `in TRANSITIONS`.
pub mod Walks
use openclaw_ecc_orchestrato.Prelude.{
  ℕ, String, Bool, true, false, Option, none, some, List, [], ◌∷◌, ◌||◌, ◌==◌, str_eq,
  if◌then◌else◌,
}
use openclaw_ecc_orchestrato.Runs.Result.{Result, ok, err, illegal_transition}

-- The thirteen states of a unit.
pub data State : Type 0 where
  pending ready assigned running verifying reviewing queued_for_merge : State
  merged failed cancelled blocked needs_user interrupted : State

abbrev pub state_number : State → ℕ
state_number pending = 0
state_number ready = 1
state_number assigned = 2
state_number running = 3
state_number verifying = 4
state_number reviewing = 5
state_number queued_for_merge = 6
state_number merged = 7
state_number failed = 8
state_number cancelled = 9
state_number blocked = 10
state_number needs_user = 11
state_number interrupted = 12

abbrev pub state_eq : State → State → Bool
state_eq s t = state_number s == state_number t

-- The texts of the source.
abbrev pub name : State → String
name pending = "pending"
name ready = "ready"
name assigned = "assigned"
name running = "running"
name verifying = "verifying"
name reviewing = "reviewing"
name queued_for_merge = "queued_for_merge"
name merged = "merged"
name failed = "failed"
name cancelled = "cancelled"
name blocked = "blocked"
name needs_user = "needs_user"
name interrupted = "interrupted"

abbrev pub states : List State
states =
    pending ∷ ready ∷ assigned ∷ running ∷ verifying ∷ reviewing ∷ queued_for_merge ∷ merged
    ∷ failed ∷ cancelled ∷ blocked ∷ needs_user ∷ interrupted ∷ []

find_name : String → List State → Option State
find_name k [] = none
find_name k (s ∷ rest) = if str_eq (name s) k then some s else find_name k rest

-- `none` is a text that is no key of `TRANSITIONS`.
unfoldable pub of_name : String → Option State
unfolding find_name
of_name k = find_name k states

abbrev pub one_of : State → List State → Bool
one_of s [] = false
one_of s (t ∷ rest) = state_eq s t || one_of s rest

unfoldable pub transitions : State → List State
transitions pending = ready ∷ blocked ∷ cancelled ∷ []
transitions ready = assigned ∷ blocked ∷ cancelled ∷ needs_user ∷ []
transitions assigned = running ∷ interrupted ∷ failed ∷ cancelled ∷ needs_user ∷ []
transitions running = verifying ∷ failed ∷ cancelled ∷ needs_user ∷ interrupted ∷ []
transitions verifying = reviewing ∷ failed ∷ cancelled ∷ needs_user ∷ interrupted ∷ []
transitions reviewing =
    queued_for_merge ∷ ready ∷ failed ∷ cancelled ∷ needs_user ∷ interrupted ∷ []
transitions queued_for_merge = merged ∷ failed ∷ blocked ∷ cancelled ∷ needs_user ∷ []
transitions failed = ready ∷ cancelled ∷ needs_user ∷ []
transitions blocked = ready ∷ cancelled ∷ needs_user ∷ []
transitions needs_user = ready ∷ reviewing ∷ cancelled ∷ []
transitions interrupted = ready ∷ cancelled ∷ needs_user ∷ []
transitions merged = []
transitions cancelled = []

unfoldable pub terminal : List State
terminal = merged ∷ cancelled ∷ []

unfoldable pub in_flight : List State
in_flight = assigned ∷ running ∷ []

unfoldable pub active : List State
active = assigned ∷ running ∷ verifying ∷ reviewing ∷ queued_for_merge ∷ []

-- The last test of `check_transition`, between two known states.
unfoldable pub check_transition : State → State → Result (Unit {0})
unfolding transitions
check_transition current target =
    if one_of target (transitions current) then ok tt else err illegal_transition

-- `check_transition` on the texts.
unfoldable pub check_transition_names : String → String → Result (Unit {0})
unfolding of_name check_transition
check_transition_names current target = elim (of_name current) [
  | none ↦ err illegal_transition
  | some c ↦ elim (of_name target) [ none ↦ err illegal_transition | some t ↦ check_transition c t ]
]
