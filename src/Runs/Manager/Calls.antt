-- ===== src/Runs/Manager/Calls.antt =====
-- A call of the manager as a whole, src/openclaw_ecc_orchestrator/runs/manager.py: when it writes, and
-- what a crash in the middle of its writes leaves.
use openclaw_ecc_orchestrato.Prelude.{
  if◌then◌else◌, Bool-cases, is_nil, ℕ, ◌<◌, String, ◌≡◌, refl, ap, ◌⊎◌, inl, inr, Bool, true,
  false, Option, none, some, List, [], ◌∷◌, arith, eq_iff,
}
use openclaw_ecc_orchestrato.Runs.Result.{ok, Result-cases}
use openclaw_ecc_orchestrato.Runs.Document.{Lease, Run, EventData}
use openclaw_ecc_orchestrato.Runs.Replay.{apply_events, replay_data}
use openclaw_ecc_orchestrato.Runs.Manager.Tx.{Reply, Tx, begin}
use openclaw_ecc_orchestrato.Runs.Manager.Store.{
  Store, last_seq, append_event, read_events, load, append_events, save, require_lease, commit,
  run_op, mutate,
}
use openclaw_ecc_orchestrato.Runs.Manager.Commands.{
  World, Command, needs_lease, operation_name, perform, call,
}
use openclaw_ecc_orchestrato.Runs.Manager.Describing.{IsFresh}
use openclaw_ecc_orchestrato.Runs.Manager.Described.{perform-Describes}
use openclaw_ecc_orchestrato.Runs.Manager.Recovery.{
  IsSound, at_seq, keep_none, load-eq, load-append_events,
}

load-append_all :
    (ds : List EventData) (run work : Run) (s : Store)
    → IsSound s
    → load s ≡ ok run
    → replay_data ds run ≡ work
    → load (append_events ds work s).1 ≡ ok (append_events ds work s).0
unfolding append_events replay_data
load-append_all [] run work s sound h tracked = rw (← tracked) h
load-append_all (d ∷ ds) run work s sound h tracked =
    load-append_events (d ∷ ds) run (at_seq run.last_event_seq work) s sound h
      (ap (at_seq 0) tracked) refl

append_events-seq :
    (ds : List EventData) (work : Run) (s : Store)
    → work.last_event_seq ≡ last_seq s
    → (append_events ds work s).0.last_event_seq ≡ last_seq (append_events ds work s).1
unfolding append_events
append_events-seq [] work s h = h
append_events-seq (d ∷ ds) work s h =
    append_events-seq ds (at_seq (last_seq (append_event d s)) work) (append_event d s) refl

-- The run that is saved as the snapshot, with the number of the last event of the log, is the run that
-- is loaded.
pub load-save :
    (work : Run) (s : Store) → work.last_event_seq ≡ last_seq s → load (save work s) ≡ ok work
unfolding save apply_events read_events last_seq
load-save work s h =
    load-eq (save work s) work (some work) [] refl
      (keep_none work.last_event_seq s.log (omega arith)) refl

save-IsSound : (work : Run) (s : Store) → work.last_event_seq ≡ last_seq s → IsSound (save work s)
unfolding save last_seq
save-IsSound work s h = omega arith

-- The lease rule of a command is met.
abbrev pub Permits : World → String → Command → Run → Type 0
Permits w c cmd run = (if needs_lease cmd then require_lease w.now c run else ok tt) ≡ ok tt

-- The run and the store after the events of a transaction are appended, and before the snapshot is
-- saved.
abbrev pub appended : Tx → Store → Run × Store
appended tx s = append_events tx.events tx.run s

appended-nil : (tx : Tx) (s : Store) → [] ≡ tx.events → (appended tx s).1 ≡ s
unfolding append_events
appended-nil tx s e = rw (← e) refl

appended-seq :
    (d : EventData) (ds : List EventData) (tx : Tx) (s : Store)
    → d ∷ ds ≡ tx.events
    → (appended tx s).0.last_event_seq ≡ last_seq (appended tx s).1
unfolding append_events
appended-seq d ds tx s e =
    let s' = append_event d s in
    rw (← e) (append_events-seq ds (at_seq (last_seq s') tx.run) s' refl)

module _ (w : World) (c : String) (cmd : Command) (s : Store) (run : Run) (tx : Tx) (reply : Reply)
    (loaded : load s ≡ ok run) (permits : Permits w c cmd run)
    (performed : perform w c cmd (begin run) ≡ ok (tx, reply)) where
  call-commit :
      (dry_run : Bool) → call w c dry_run cmd s ≡ commit (operation_name cmd) dry_run run tx reply s
  unfolding call mutate run_op
  call-commit dry_run = ground (arith, loaded, permits, performed)

  committed :
      (es : List EventData)
      → es ≡ tx.events
      → (call w c false cmd s).1
        ≡ (if is_nil es then s else save (appended tx s).0 (appended tx s).1)
  unfolding commit append_events
  committed [] e = rw (call-commit false, ← e) refl
  committed (d ∷ ds) e = rw (call-commit false, ← e) refl

  -- Once the events of a call are in the log, the snapshot may be saved or not: the run that is
  -- loaded is the same, and it is the run that the call saves.
  durable :
      IsSound s
      → IsFresh w.fresh_id run
      → (load (appended tx s).1 ≡ ok (appended tx s).0)
        × (load (call w c false cmd s).1 ≡ ok (appended tx s).0)
        × IsSound (call w c false cmd s).1
  durable sound fresh = split tx.events refl
    where
      tracked : replay_data tx.events run ≡ tx.run
      tracked = perform-Describes w c cmd run fresh tx reply performed

      before : load (appended tx s).1 ≡ ok (appended tx s).0
      before = load-append_all tx.events run tx.run s sound loaded tracked

      split :
          (es : List EventData)
          → es ≡ tx.events
          → (load (appended tx s).1 ≡ ok (appended tx s).0)
            × (load (call w c false cmd s).1 ≡ ok (appended tx s).0)
            × IsSound (call w c false cmd s).1
      split [] e = (
        before,
        rw (committed [] e) (rw (appended-nil tx s e) at before),
        rw (committed [] e) sound,
      )
      split (d ∷ ds) e = (
        before,
        rw (committed (d ∷ ds) e)
            (load-save (appended tx s).0 (appended tx s).1 (appended-seq d ds tx s e)),
        rw (committed (d ∷ ds) e)
            (save-IsSound (appended tx s).0 (appended tx s).1 (appended-seq d ds tx s e)),
      )

-- A crash after the events of a call are appended, and before the snapshot is saved, loses nothing:
-- for every command that the lease rule permits and that raises nothing, the run loaded after the
-- crash is the one loaded after the whole call, it is the command's run with the number of its last
-- event, and the snapshot stays not ahead of the log. The snapshot is not ahead before, and the id of
-- a new handoff is fresh.
pub call-survives_crash :
    (w : World) (c : String) (cmd : Command) (s : Store) (run : Run) (tx : Tx) (reply : Reply)
    → load s ≡ ok run
    → Permits w c cmd run
    → perform w c cmd (begin run) ≡ ok (tx, reply)
    → IsSound s
    → IsFresh w.fresh_id run
    → (load (appended tx s).1 ≡ ok (appended tx s).0)
      × (load (call w c false cmd s).1 ≡ ok (appended tx s).0)
      × IsSound (call w c false cmd s).1
call-survives_crash = durable

-- The conductor holds the lease of the run, and it has not expired.
pub record HoldsLease (now : ℕ) (c : String) (run : Run) : Type 0 where
  pub lease : Lease
  pub held : run.lease ≡ some lease
  pub own : lease.conductor_id ≡ c
  pub live : now < lease.expires_at

-- What a call that writes has got through.
pub record Authorised (w : World) (c : String) (dry_run : Bool) (cmd : Command) (s : Store)
    : Type 0 where
  pub real : dry_run ≡ false
  pub run : Run
  pub found : load s ≡ ok run
  pub lease : (needs_lease cmd ≡ false) ⊎ HoldsLease w.now c run
  pub tx : Tx
  pub reply : Reply
  pub performed : perform w c cmd (begin run) ≡ ok (tx, reply)

lease_test→HoldsLease :
    (now : ℕ) (c : String) (run : Run) (o : Option Lease)
    → run.lease ≡ o
    → require_lease now c run ≡ ok tt
    → HoldsLease now c run
unfolding require_lease
lease_test→HoldsLease now c run none e h = ground arith
lease_test→HoldsLease now c run (some lease) e h = record {
  lease = lease;
  held = e;
  own = ground (arith, eq_iff lease.conductor_id c);
  live = ground arith;
}

Permits→HoldsLease :
    (w : World) (c : String) (cmd : Command) (run : Run)
    → Permits w c cmd run
    → needs_lease cmd ≡ true
    → HoldsLease w.now c run
Permits→HoldsLease w c cmd run permits needs =
    lease_test→HoldsLease w.now c run run.lease refl (rw needs at permits)

-- A call either leaves the store as it is, or it is no dry run, has found the run, raised nothing, and
-- its caller holds the unexpired lease where the command needs it.
pub call-Authorised :
    (w : World) (c : String) (dry_run : Bool) (cmd : Command) (s : Store)
    → ((call w c dry_run cmd s).1 ≡ s) ⊎ Authorised w c dry_run cmd s
unfolding call mutate run_op commit
call-Authorised w c true cmd s = inl (ground arith)
call-Authorised w c false cmd s = elim (Result-cases (load s)) [
  | inl (e, missing) ↦ inl (ground (arith, missing))
  | inr (run, found) ↦
      elim (Result-cases (if needs_lease cmd then require_lease w.now c run else ok tt)) [
        | inl (e, refused) ↦ inl (ground (arith, found, refused))
        | inr (_, permits) ↦ elim (Result-cases (perform w c cmd (begin run))) [
          | inl (e, raised) ↦ inl (ground (arith, found, permits, raised))
          | inr ((tx, reply), performed) ↦ inr (record {
            real = refl;
            run = run;
            found = found;
            lease = elim (Bool-cases (needs_lease cmd)) [
              | inl needs ↦ inr (Permits→HoldsLease w c cmd run permits needs)
              | inr free ↦ inl free
            ];
            tx = tx;
            reply = reply;
            performed = performed;
          })
        ]
      ]
]
