-- ===== src/Runs/Manager/Store.antt =====
-- The files of one run, src/openclaw_ecc_orchestrator/runs/store.py, and the loading and the mutation
-- core of src/openclaw_ecc_orchestrator/runs/manager.py. A file operation is atomic here and the per-run
-- lock is held throughout; a snapshot that cannot be read is `none`.
use Prim.Native.Nat.{max}
use openclaw_ecc_orchestrato.Prelude.{
  ltb, if◌then◌else◌, keep, is_nil, str_eq, ℕ, ◌+◌, String, Bool, false, not, Option, none, some,
  List, [], ◌∷◌, ◌++◌,
}
use openclaw_ecc_orchestrato.Runs.Result.{
  Error, run_error, lease_error, store_error, key_error, Result, ok, err, guard, require, ◌>>=◌,
  ◌>>◌,
}
use openclaw_ecc_orchestrato.Runs.Document.{Run, EventData, Event}
use openclaw_ecc_orchestrato.Runs.Replay.{apply_events}
use openclaw_ecc_orchestrato.Runs.Manager.Tx.{Check, Action, Reply, Tx, begin}

pub record Store : Type 0 where
  pub snapshot : Option Run
  pub log : List Event

unfoldable pub max_seq : List Event → ℕ
max_seq [] = 0
max_seq (e ∷ rest) = max e.seq (max_seq rest)

-- `RunStore.last_seq`
unfoldable pub last_seq : Store → ℕ
unfolding max_seq
last_seq s = max_seq s.log

-- `RunStore.append_event`
unfoldable pub append_event : EventData → Store → Store
unfolding last_seq
append_event d s = record s { log = s.log ++ record { seq = last_seq s + 1; info = d } ∷ [] }

-- `RunStore.read_events`
unfoldable pub read_events : ℕ → Store → List Event
read_events after s = keep (λ e. ltb after e.seq) s.log

abbrev pub base_seq : Option Run → ℕ
base_seq none = 0
base_seq (some run) = run.last_event_seq

-- `_load_unlocked`
unfoldable pub load : Store → Result Run
unfolding read_events apply_events
load s = do
  doc ← apply_events s.snapshot (read_events (base_seq s.snapshot) s)
  require doc run_error

-- The loop over `tx.events`: each is appended, and the run takes its number.
unfoldable pub append_events : List EventData → Run → Store → Run × Store
unfolding append_event
append_events [] run s = (run, s)
append_events (d ∷ ds) run s =
    let s' = append_event d s in append_events ds (record run { last_event_seq = last_seq s' }) s'

unfoldable pub save : Run → Store → Store
save run s = record s { snapshot = some run }

-- The result envelope: `checkpoint` is `rollback_checkpoint["event_seq"]`.
pub record Envelope : Type 0 where
  pub operation : String
  pub succeeded : Bool
  pub changed : Bool
  pub checks : List Check
  pub actions : List Action
  pub checkpoint : Option ℕ

abbrev pub refused_call : String → String → Envelope
refused_call operation check_name = record {
  operation = operation;
  succeeded = false;
  changed = false;
  checks = record { name = check_name; passed = false } ∷ [];
  actions = [];
  checkpoint = none;
}

-- What a call of the manager does: it returns, or an exception that it does not catch passes through.
pub data Answer : Type 0 where
  returned : Envelope → Answer
  uncaught : Error → Answer

-- `except (S.IllegalTransition, RunError)`; `LeaseError` is a `RunError`.
unfoldable pub caught : String → Error → Answer
caught operation key_error = uncaught key_error
caught operation store_error = uncaught store_error
caught operation e = returned (refused_call operation operation)

unfoldable pub checks_of : String → Reply → List Check
checks_of operation r = elim r.checks [
  | [] ↦ record { name = operation; passed = r.succeeded } ∷ []
  | c ∷ cs ↦ c ∷ cs
]

-- `require_lease`
unfoldable pub require_lease : ℕ → String → Run → Result (Unit {0})
require_lease now conductor_id run = elim run.lease [
  | none ↦ err lease_error
  | some lease ↦ do
    guard (str_eq lease.conductor_id conductor_id) lease_error
    guard (ltb now lease.expires_at) lease_error
]

abbrev pub Op : Type 0
Op = Tx → Result (Tx × Reply)

-- The end of `_mutate`, once the operation has its result.
unfoldable pub commit : String → Bool → Run → Tx → Reply → Store → Answer × Store
unfolding append_events save checks_of
commit operation dry_run before tx reply s =
    let done : Envelope = record {
      operation = operation;
      succeeded = reply.succeeded;
      changed = false;
      checks = checks_of operation reply;
      actions = reply.actions;
      checkpoint = none;
    } in
    if dry_run
    then (returned done, s)
    else let (work, s') = append_events tx.events tx.run s in
      let changed = not (is_nil tx.events) in
      (
        returned (record done { changed = changed; checkpoint = some before.last_event_seq }),
        if changed then save work s' else s',
      )

unfoldable pub run_op : String → Bool → Op → Run → Store → Answer × Store
unfolding commit caught
run_op operation dry_run op run s = elim (op (begin run)) [
  | err e ↦ (caught operation e, s)
  | ok (tx, reply) ↦ commit operation dry_run run tx reply s
]

-- `_mutate`, for a run whose id is valid.
unfoldable pub mutate :
    (now : ℕ) (operation conductor_id : String) (dry_run needs_lease : Bool)
    → Op
    → Store
    → Answer × Store
unfolding load require_lease run_op
mutate now operation conductor_id dry_run needs_lease op s = elim (load s) [
  | err e ↦ (returned (refused_call operation "run_exists"), s)
  | ok run ↦ elim (if needs_lease then require_lease now conductor_id run else ok tt) [
    | err e ↦ (returned (refused_call operation "lease_held"), s)
    | ok _ ↦ run_op operation dry_run op run s
  ]
]
