-- ===== src/Runs/Manager/Commands.antt =====
-- The public mutations of `RunManager` in src/openclaw_ecc_orchestrator/runs/manager.py as one type of
-- commands, each with the name, the lease rule and the inner function that its method hands to
-- `_mutate`.
use openclaw_ecc_orchestrato.Prelude.{ℕ, String, Bool, true, false, Option}
use openclaw_ecc_orchestrato.Runs.Result.{Result}
use openclaw_ecc_orchestrato.Runs.Document.{ℤ, Process, Note, Run}
use openclaw_ecc_orchestrato.Runs.Manager.Store.{Store, Answer, Op, mutate}
use openclaw_ecc_orchestrato.Runs.Liveness.{Liveness, Probe}
use openclaw_ecc_orchestrato.Runs.Manager.Leases.{
  acquire_lease, renew_lease, release_lease, transfer_lease,
}
use openclaw_ecc_orchestrato.Runs.Manager.Assign.{Selection, Router, assign_unit, reassign_unit}
use openclaw_ecc_orchestrato.Runs.Manager.Progress.{
  Report, HandoffDoc, transition, record_process, record_process_exit, surrender_unit,
  record_workspace, annotate_unit, record_handoff, record_usage,
}
use openclaw_ecc_orchestrato.Runs.Manager.Resume.{resume}

-- What the manager is built with, and what it reads of the world during one call.
pub record World : Type 0 where
  pub now : ℕ
  pub lease_ttl : ℕ
  pub fresh_id : String
  pub is_alive : Process → Liveness
  pub probe : Probe
  pub router : Router
  pub veto : Run → String → Result (Unit {0})

pub data Command : Type 0 where
  acquire : (ttl : Option ℕ) → Command
  renew : (ttl : Option ℕ) → Command
  release : Command
  transfer : (to : String) (ttl : Option ℕ) (reason : String) → Command
  move : (uid target : String) (reason : Option String) → Command
  give : (uid worker_id : String) (selection : Selection) → Command
  regive : (uid new_owner reason : String) (selection : Selection) → Command
  set_process : (uid : String) (process : Process) → Command
  set_exit : (uid : String) (exit_code signal : Option ℤ) (timed_out was_cancelled : Bool) → Command
  surrender : (uid reason : String) (detail : Option String) → Command
  set_handoff : (uid : String) (report : Report) (doc : HandoffDoc) (head : Option String) → Command
  set_workspace : (uid workspace : String) → Command
  set_note : (uid key : String) (value : Note) → Command
  use_budget : (uid : String) (minutes cost : ℤ) → Command
  take_over : (ttl : Option ℕ) → Command

-- `surrender_unit`, `acquire_lease` and `resume` alone do not need the lease.
unfoldable pub needs_lease : Command → Bool
needs_lease (acquire ttl) = false
needs_lease (surrender uid reason detail) = false
needs_lease (take_over ttl) = false
needs_lease _ = true

unfoldable pub operation_name : Command → String
operation_name (acquire ttl) = "lease.acquire"
operation_name (renew ttl) = "lease.renew"
operation_name release = "lease.release"
operation_name (transfer to ttl reason) = "lease.transfer"
operation_name (move uid target reason) = "unit.transition"
operation_name (give uid worker_id selection) = "unit.assign"
operation_name (regive uid new_owner reason selection) = "unit.reassign"
operation_name (set_process uid process) = "unit.record_process"
operation_name (set_exit uid exit_code signal timed_out was_cancelled) = "unit.record_process_exit"
operation_name (surrender uid reason detail) = "unit.surrender"
operation_name (set_handoff uid report doc head) = "unit.record_handoff"
operation_name (set_workspace uid workspace) = "unit.record_workspace"
operation_name (set_note uid key value) = "unit.annotate"
operation_name (use_budget uid minutes cost) = "unit.record_usage"
operation_name (take_over ttl) = "run.resume"

unfoldable pub perform : World → String → Command → Op
perform w c (acquire ttl) = acquire_lease w.now w.lease_ttl w.fresh_id c ttl
perform w c (renew ttl) = renew_lease w.now w.lease_ttl w.fresh_id c ttl
perform w c release = release_lease w.now w.lease_ttl w.fresh_id c
perform w c (transfer to ttl reason) = transfer_lease w.now w.lease_ttl w.fresh_id c to ttl reason
perform w c (move uid target reason) = transition w.now c uid target reason
perform w c (give uid worker_id selection) =
    assign_unit w.now c w.router selection w.veto uid worker_id
perform w c (regive uid new_owner reason selection) =
    reassign_unit w.now c w.router selection w.fresh_id uid new_owner reason
perform w c (set_process uid process) = record_process w.now c w.probe uid process
perform w c (set_exit uid exit_code signal timed_out was_cancelled) =
    record_process_exit w.now c uid exit_code signal timed_out was_cancelled
perform w c (surrender uid reason detail) = surrender_unit w.now c uid reason detail
perform w c (set_handoff uid report doc head) = record_handoff w.now c uid report doc head
perform w c (set_workspace uid workspace) = record_workspace w.now c uid workspace
perform w c (set_note uid key value) = annotate_unit w.now c uid key value
perform w c (use_budget uid minutes cost) = record_usage w.now c uid minutes cost
perform w c (take_over ttl) = resume w.is_alive w.now c w.lease_ttl w.fresh_id ttl

-- One call of the manager by the conductor `c`.
unfoldable pub call : World → String → (dry_run : Bool) → Command → Store → Answer × Store
unfolding operation_name needs_lease perform mutate
call w c dry_run cmd s =
    mutate w.now (operation_name cmd) c dry_run (needs_lease cmd) (perform w c cmd) s
