-- ===== src/MergeQueue/Dispatch/Guarded.antt =====
-- The overlap check under the run's lock, `_guard` of
-- src/openclaw_ecc_orchestrator/merge_queue/dispatch.py, within `assign_unit` of the manager.
use openclaw_ecc_orchestrato.Prelude.{◌⊎◌, All, String, ◌≡◌, some, List}
use openclaw_ecc_orchestrato.MergeQueue.Dispatch.{plan_entry, split_units}
use openclaw_ecc_orchestrato.MergeQueue.Dispatch.Parallel.{Parallel}
use openclaw_ecc_orchestrato.Runs.State.{
  State, assigned, running, verifying, reviewing, queued_for_merge,
}
use openclaw_ecc_orchestrato.Runs.Result.{ok}
use openclaw_ecc_orchestrato.Runs.Document.{PlanUnit, Run}
use openclaw_ecc_orchestrato.Runs.Manager.Tx.{Tx}

-- The unit of the plan with this id may run beside every unit that is active.
abbrev Beside : String → Run → Type 0
Beside uid run =
    (u : PlanUnit) × (busy : List PlanUnit) × (waiting : List PlanUnit) × (plan_entry uid run.plan
      ≡ some u)
    × (split_units run ≡ ok (busy, waiting))
    × All (Parallel u) busy

-- The states of a unit that a worker has, or that waits for its merge.
abbrev pub IsActive : State → Type 0
IsActive s =
    (s ≡ assigned)
    ⊎ ((s ≡ running) ⊎ ((s ≡ verifying) ⊎ ((s ≡ reviewing) ⊎ (s ≡ queued_for_merge))))
