-- ===== src/Runs/Manager/Resume.antt =====
-- `resume` of src/openclaw_ecc_orchestrator/runs/manager.py: the run is taken over, and the units whose
-- runner may have been at work are looked at. `is_alive` is the manager's liveness check, which
-- Runs/Liveness.antt models.
use openclaw_ecc_orchestrato.Prelude.{
  if◌then◌else◌, is_some, sorted, ℕ, String, not, Option, none, some, List, [], ◌∷◌, ◌++◌, map,
}
use openclaw_ecc_orchestrato.Prelude.Dict.{get, keys}
use openclaw_ecc_orchestrato.Runs.State.{needs_user, interrupted, one_of, in_flight}
use openclaw_ecc_orchestrato.Runs.Result.{
  lease_error, key_error, Result, ok, ◌>>=◌, ◌>>◌, guard, require,
}
use openclaw_ecc_orchestrato.Runs.Document.{Process, UnitRecord, run_resumed}
use openclaw_ecc_orchestrato.Runs.Manager.Tx.{Action, plain, Tx, add, set_state}
use openclaw_ecc_orchestrato.Runs.Manager.Store.{Op}
use openclaw_ecc_orchestrato.Runs.Manager.Leases.{lease_blocker, holder_of, take_lease}
use openclaw_ecc_orchestrato.Runs.Liveness.{Liveness, dead, alive, unverified}

-- What to do with a unit in flight.
pub data Verdict : Type 0 where
  leave : Verdict
  ask : Verdict
  interrupt : Verdict

-- The units that were interrupted and those whose worker could not be identified.
pub record Found : Type 0 where
  pub interrupted_units : List String
  pub unverified : List String

module _ (is_alive : Process → Liveness) where
  judge_process : Process → Verdict
  judge_process proc =
      if proc.finished
      then interrupt
      else elim (is_alive proc) [ alive ↦ leave | unverified ↦ ask | dead ↦ interrupt ]

  unfoldable pub judge : UnitRecord → Verdict
  unfolding judge_process in_flight
  judge unit =
      if one_of unit.state in_flight
      then elim unit.process [ none ↦ interrupt | some proc ↦ judge_process proc ]
      else leave

  module _ (now : ℕ) (conductor_id : String) where
    unfoldable pub apply_verdict : String → Verdict → Found → Tx → Result (Tx × Found)
    unfolding set_state
    apply_verdict uid leave found tx = ok (tx, found)
    apply_verdict uid ask found tx = do
      tx' ← set_state now conductor_id uid needs_user (some "liveness_unverified") tx
      ok (tx', record found { unverified = found.unverified ++ uid ∷ [] })
    apply_verdict uid interrupt found tx = do
      tx' ← set_state now conductor_id uid interrupted (some "process_gone") tx
      ok (tx', record found { interrupted_units = found.interrupted_units ++ uid ∷ [] })

    -- The loop over `sorted(run["units"])`.
    unfoldable pub examine : List String → Found → Tx → Result (Tx × Found)
    unfolding apply_verdict judge
    examine [] found tx = ok (tx, found)
    examine (uid ∷ uids) found tx = do
      unit ← require (get uid tx.run.units) key_error
      (tx', found') ← apply_verdict uid (judge unit) found tx
      examine uids found' tx'

    abbrev pub nothing_found : Found
    nothing_found = record { interrupted_units = []; unverified = [] }

    resume_actions : Found → List Action
    resume_actions found =
        map (λ uid. record { kind = "reassign_interrupted_unit"; unit_id = some uid })
          found.interrupted_units
        ++ map (λ uid. record { kind = "verify_worker_process"; unit_id = some uid })
            found.unverified

    -- `resume`, its guard passed: what follows on the lease that was taken.
    unfoldable pub survey : (previous : Option String) → Op
    unfolding examine resume_actions
    survey previous tx = do
      (tx', found) ← examine (sorted (keys tx.run.units)) nothing_found tx
      let last = run_resumed conductor_id previous found.interrupted_units found.unverified
      ok (add last tx', record plain { actions = resume_actions found })

    unfoldable pub resume : (lease_ttl : ℕ) (fresh_id : String) → Option ℕ → Op
    unfolding lease_blocker take_lease survey
    resume lease_ttl fresh_id ttl tx = do
      guard (not (is_some (lease_blocker now tx.run conductor_id))) lease_error
      survey (holder_of tx.run.lease)
          (take_lease now lease_ttl fresh_id conductor_id ttl "resume" tx)
