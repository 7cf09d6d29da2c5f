-- ===== src/Runs/Manager/Leases.antt =====
-- The lease operations of src/openclaw_ecc_orchestrator/runs/manager.py, and `resume`. `fresh_id` is what
-- `id_gen` returns, with its prefix.
use openclaw_ecc_orchestrato.Prelude.{
  ltb, if◌then◌else◌, is_some, or_else, str_eq, ℕ, ◌+◌, String, Bool, not, ◌&&◌, Option, none, some,
  List, [], ◌∷◌, ◌++◌,
}
use openclaw_ecc_orchestrato.Runs.Result.{lease_error, key_error, ok, ◌>>=◌, ◌>>◌, guard, require}
use openclaw_ecc_orchestrato.Runs.Document.{
  Lease, Handoff, Run, lease_acquired, lease_renewed, lease_released, lease_transferred,
}
use openclaw_ecc_orchestrato.Runs.Manager.Tx.{plain, Tx, add, with_run}
use openclaw_ecc_orchestrato.Runs.Manager.Store.{Op}
use mathlib.Core.Option

-- `_lease`: with no `ttl` of its own, the manager's.
unfoldable pub new_lease : (now lease_ttl : ℕ) → String → Option ℕ → Lease
new_lease now lease_ttl conductor_id ttl = record {
  conductor_id = conductor_id;
  acquired_at = now;
  expires_at = now + or_else ttl lease_ttl;
}

-- An empty id is falsy, and is no holder.
blocks : ℕ → String → Lease → Bool
blocks now conductor_id lease =
    not (str_eq lease.conductor_id "")
    && (not (str_eq lease.conductor_id conductor_id) && ltb now lease.expires_at)

-- `_lease_blocker`
unfoldable pub lease_blocker : ℕ → Run → String → Option String
unfolding blocks
lease_blocker now run conductor_id = elim run.lease [
  | none ↦ none
  | some lease ↦ if blocks now conductor_id lease then some lease.conductor_id else none
]

abbrev pub holder_of : Option Lease → Option String
holder_of none = none
holder_of (some lease) = some lease.conductor_id

unfoldable pub conductor_handoff : ℕ → String → String → String → String → Handoff
conductor_handoff now fresh_id from to reason = record {
  id = fresh_id;
  unit_id = none;
  from = some from;
  to = to;
  reason = reason;
  previous_state = none;
  process = none;
  workspace = none;
  at = now;
}

-- `previous and previous != conductor_id`
unfoldable pub changed_holder : Option String → String → Option String
changed_holder none conductor_id = none
changed_holder (some p) conductor_id =
    if str_eq p "" then none else if str_eq p conductor_id then none else some p

unfoldable pub append_optional : Option Handoff → List Handoff → List Handoff
append_optional none hs = hs
append_optional (some h) hs = hs ++ h ∷ []

module _ (now lease_ttl : ℕ) (fresh_id conductor_id : String) where
  -- The lease is taken, and with another holder before, a handoff is recorded.
  unfoldable pub take_lease : Option ℕ → String → Tx → Tx
  unfolding new_lease conductor_handoff changed_holder append_optional
  take_lease ttl reason tx =
      let previous = holder_of tx.run.lease in
      let lease = some (new_lease now lease_ttl conductor_id ttl) in
      let handoff =
        Option.map (λ p. conductor_handoff now fresh_id p conductor_id reason)
          (changed_holder previous conductor_id) in
      add (lease_acquired lease previous handoff) (
        with_run
          (record tx.run { lease = lease; handoffs = append_optional handoff tx.run.handoffs }) tx)

  -- `acquire_lease`
  unfoldable pub acquire_lease : Option ℕ → Op
  unfolding lease_blocker take_lease
  acquire_lease ttl tx = do
    guard (not (is_some (lease_blocker now tx.run conductor_id))) lease_error
    ok (take_lease ttl "lease_expired" tx, plain)

  -- `renew_lease`
  unfoldable pub renew_lease : Option ℕ → Op
  unfolding new_lease
  renew_lease ttl tx =
      let lease = some (new_lease now lease_ttl conductor_id ttl) in
      ok (add (lease_renewed lease) (with_run (record tx.run { lease = lease }) tx), plain)

  -- `release_lease`; `run["lease"]` of a run with no lease is a `TypeError`, which passes through.
  unfoldable pub release_lease : Op
  release_lease tx = do
    lease ← require tx.run.lease key_error
    let released = some (record lease { expires_at = now })
    ok (add (lease_released released) (with_run (record tx.run { lease = released }) tx), plain)

  -- `transfer_lease`, from `conductor_id`.
  unfoldable pub transfer_lease : String → Option ℕ → String → Op
  unfolding new_lease conductor_handoff
  transfer_lease to ttl reason tx =
      let lease = some (new_lease now lease_ttl to ttl) in
      let handoff = conductor_handoff now fresh_id conductor_id to reason in
      ok (
        add (lease_transferred lease handoff) (
            with_run (record tx.run { lease = lease; handoffs = tx.run.handoffs ++ handoff ∷ [] })
              tx),
        plain,
      )
