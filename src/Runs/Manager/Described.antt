-- ===== src/Runs/Manager/Described.antt =====
-- The events of every command of the manager, replayed over the run before it, give the run after it.
use openclaw_ecc_orchestrato.Prelude.{
  is_some, has, sorted, opt_eq, ℕ, String, ◌≡◌, ◌∙◌, not, ◌||◌, Option, none, some, [], ◌∷◌, ◌++◌,
  arith,
}
use openclaw_ecc_orchestrato.Prelude.Dict.{keys}
use openclaw_ecc_orchestrato.Runs.State.{ready, state_eq, one_of}
use openclaw_ecc_orchestrato.Runs.Result.{
  illegal_transition, run_error, lease_error, Result, ok, ◌>>=◌, ◌>>◌, guard, >>=-eq-ok, >>=-elim,
  guard-elim,
}
use openclaw_ecc_orchestrato.Runs.Document.{
  Process, Note, UnitRecord, Run, handoff_recorded, run_resumed,
}
use openclaw_ecc_orchestrato.Runs.Replay.{apply_data, replay_data}
use openclaw_ecc_orchestrato.Runs.Manager.Tx.{Reply, plain, Tx, begin, add, with_run, unit_of, edit}
use openclaw_ecc_orchestrato.Runs.Liveness.{Liveness}
use openclaw_ecc_orchestrato.Runs.Manager.Leases.{
  lease_blocker, holder_of, take_lease, acquire_lease, renew_lease, release_lease, transfer_lease,
}
use openclaw_ecc_orchestrato.Runs.Manager.Assign.{
  Selection, Router, plan_unit, reassignable, assign, assign_unit, unit_handoff, return_to_ready,
  hand_over, reassign_unit,
}
use openclaw_ecc_orchestrato.Runs.Manager.Progress.{
  Report, HandoffDoc, annotation_keys, record_process, record_process_exit, record_workspace,
  annotate_unit, record_handoff,
}
use openclaw_ecc_orchestrato.Runs.Manager.Resume.{examine, nothing_found, survey, resume}
use openclaw_ecc_orchestrato.Runs.Manager.Tracking.{IsTracked, begin-IsTracked, replay_data-add}
use openclaw_ecc_orchestrato.Runs.Manager.Commands.{
  World, Command, acquire, renew, release, transfer, move, give, regive, set_process, set_exit,
  surrender, set_handoff, set_workspace, set_note, use_budget, take_over, perform,
}
use openclaw_ecc_orchestrato.Runs.Manager.Describing.{
  IsFresh, take_lease-IsTracked, Describes, fst-injective, examine-IsTracked, assign-IsTracked,
}
use openclaw_ecc_orchestrato.Runs.Manager.Writes.{
  return_to_ready_events, handoff_recorded-IsTracked, then_return, transition-Describes,
  surrender_unit-Describes, record_usage-Describes,
}

module _ (now : ℕ) (c : String) (router : Router) (selection : Selection) where
  assign_unit-Describes :
      (veto : Run → String → Result (Unit {0})) (uid worker_id : String) (run : Run)
      → Describes run (assign_unit now c router selection veto uid worker_id)
  unfolding assign_unit
  assign_unit-Describes veto uid worker_id run tx reply e =
      >>=-elim (unit_of run uid) _ e λ unit _ e1.
        let owned = not (is_some unit.owner) || opt_eq unit.owner (some worker_id) in
        let last = veto run uid >>= λ _. assign now c router selection uid worker_id (begin run) in
        guard-elim (state_eq unit.state ready) illegal_transition (guard owned run_error >> last) e1
          λ _ e2. guard-elim owned run_error last e2 λ _ e3. >>=-elim (veto run uid) _ e3 λ _ _.
            assign-IsTracked now c router selection uid worker_id run (begin run) tx reply
              (begin-IsTracked run)

  hand_over-Describes :
      (fresh_id uid new_owner reason : String) (unit : UnitRecord) (run : Run)
      → IsFresh fresh_id run
      → Describes run (hand_over now c router selection fresh_id uid new_owner reason unit)
  unfolding hand_over unit_handoff
  hand_over-Describes fresh_id uid new_owner reason unit run fresh tx reply e =
      let h = unit_handoff now c router selection fresh_id uid new_owner reason unit in
      let cleared : UnitRecord = record unit { handoff_ref = some fresh_id; process = none } in
      let before =
        edit uid cleared
          (with_run (record run { handoffs = run.handoffs ++ h ∷ [] }) (begin run)) in
      >>=-elim (return_to_ready now c router selection uid fresh_id unit.state before) _ e
        λ tx2 back e1. >>=-elim (unit_of tx2.run uid) _ e1 λ stopped _ e2.
          let owned : UnitRecord = record stopped { owner = some new_owner } in
          assign-IsTracked now c router selection uid new_owner run
            (add (handoff_recorded uid owned h) (edit uid owned tx2)) tx reply
            (handoff_recorded-IsTracked now c uid h owned run cleared fresh (some fresh_id) tx2 (
              return_to_ready_events now c router selection uid fresh_id unit.state before tx2
                back))
            e2

  reassign_unit-Describes :
      (fresh_id uid new_owner reason : String) (run : Run)
      → IsFresh fresh_id run
      → Describes run (reassign_unit now c router selection fresh_id uid new_owner reason)
  unfolding reassign_unit
  reassign_unit-Describes fresh_id uid new_owner reason run fresh tx reply e =
      >>=-elim (unit_of run uid) _ e λ unit _ e1.
        guard-elim (one_of unit.state reassignable) run_error
          (hand_over now c router selection fresh_id uid new_owner reason unit (begin run)) e1
          λ _. hand_over-Describes fresh_id uid new_owner reason unit run fresh tx reply

module _ (now lease_ttl : ℕ) (fresh_id c : String) where
  survey-IsTracked :
      (is_alive : Process → Liveness) (previous : Option String) (base : Run) (tx tx' : Tx)
      (reply : Reply)
      → IsTracked base tx
      → survey is_alive now c previous tx ≡ ok (tx', reply)
      → IsTracked base tx'
  unfolding survey apply_data
  survey-IsTracked is_alive previous base tx tx' reply h e =
      let uids = sorted (keys tx.run.units) in
      let ((tx1, found), seen, e1) =
        >>=-eq-ok (examine is_alive now c uids (nothing_found is_alive now c) tx) _ e in
      let tracked =
        examine-IsTracked is_alive now c uids (nothing_found is_alive now c) found base tx tx1 h
          seen in
      rw (← fst-injective e1) (
        replay_data-add (run_resumed c previous found.interrupted_units found.unverified) base tx1
        ∙ tracked)

  resume-Describes :
      (is_alive : Process → Liveness) (ttl : Option ℕ) (run : Run)
      → IsFresh fresh_id run
      → Describes run (resume is_alive now c lease_ttl fresh_id ttl)
  unfolding resume
  resume-Describes is_alive ttl run fresh tx reply e =
      let taken = take_lease now lease_ttl fresh_id c ttl "resume" (begin run) in
      guard-elim (not (is_some (lease_blocker now run c))) lease_error
        (survey is_alive now c (holder_of run.lease) taken) e
        λ _.
          survey-IsTracked is_alive (holder_of run.lease) run taken tx reply
            (take_lease-IsTracked now lease_ttl fresh_id c ttl "resume" run fresh)

  acquire_lease-Describes :
      (ttl : Option ℕ) (run : Run)
      → IsFresh fresh_id run
      → Describes run (acquire_lease now lease_ttl fresh_id c ttl)
  unfolding acquire_lease
  acquire_lease-Describes ttl run fresh tx reply e =
      let taken = take_lease now lease_ttl fresh_id c ttl "lease_expired" (begin run) in
      guard-elim (not (is_some (lease_blocker now run c))) lease_error (ok (taken, plain)) e
        λ _ done.
          rw (← fst-injective done)
            (take_lease-IsTracked now lease_ttl fresh_id c ttl "lease_expired" run fresh)

  leases-Describe :
      (ttl : Option ℕ) (to reason : String) (run : Run)
      → IsFresh fresh_id run
      → Describes run (renew_lease now lease_ttl fresh_id c ttl)
        × Describes run (release_lease now lease_ttl fresh_id c)
        × Describes run (transfer_lease now lease_ttl fresh_id c to ttl reason)
  unfolding renew_lease release_lease transfer_lease replay_data apply_data
  leases-Describe ttl to reason run fresh =
      (λ tx reply e. ground arith, λ tx reply e. ground arith, λ tx reply e. ground (arith, fresh))

module _ (now : ℕ) (c : String) where
  record_handoff-Describes :
      (uid : String) (report : Report) (doc : HandoffDoc) (head : Option String) (run : Run)
      → Describes run (record_handoff now c uid report doc head)
  unfolding record_handoff
  record_handoff-Describes uid report doc head run tx reply e =
      >>=-elim (unit_of run uid) _ e λ unit _ e1.
        >>=-elim (plan_unit run uid) _ e1 λ p _ e2. then_return now c uid _ _ run tx reply e2

  annotate_unit-Describes :
      (uid key : String) (value : Note) (run : Run)
      → Describes run (annotate_unit now c uid key value)
  unfolding annotate_unit
  annotate_unit-Describes uid key value run tx reply e =
      guard-elim (has key annotation_keys) run_error _ e
        λ _ e1. then_return now c uid _ _ run tx reply e1

pub perform-Describes :
    (w : World) (c : String) (cmd : Command) (run : Run)
    → IsFresh w.fresh_id run
    → Describes run (perform w c cmd)
unfolding perform record_process record_process_exit record_workspace
perform-Describes w c (acquire ttl) run fresh =
    acquire_lease-Describes w.now w.lease_ttl w.fresh_id c ttl run fresh
perform-Describes w c (renew ttl) run fresh =
    (leases-Describe w.now w.lease_ttl w.fresh_id c ttl "" "" run fresh).0
perform-Describes w c release run fresh =
    (leases-Describe w.now w.lease_ttl w.fresh_id c none "" "" run fresh).1
perform-Describes w c (transfer to ttl reason) run fresh =
    (leases-Describe w.now w.lease_ttl w.fresh_id c ttl to reason run fresh).2
perform-Describes w c (move uid target reason) run fresh =
    transition-Describes w.now c uid target reason run
perform-Describes w c (give uid worker_id selection) run fresh =
    assign_unit-Describes w.now c w.router selection w.veto uid worker_id run
perform-Describes w c (regive uid new_owner reason selection) run fresh =
    reassign_unit-Describes w.now c w.router selection w.fresh_id uid new_owner reason run fresh
perform-Describes w c (set_process uid process) run fresh = then_return w.now c uid _ _ run
perform-Describes w c (set_exit uid exit_code signal timed_out was_cancelled) run fresh =
    then_return w.now c uid _ _ run
perform-Describes w c (surrender uid reason detail) run fresh =
    surrender_unit-Describes w.now c uid reason detail run
perform-Describes w c (set_handoff uid report doc head) run fresh =
    record_handoff-Describes w.now c uid report doc head run
perform-Describes w c (set_workspace uid workspace) run fresh = then_return w.now c uid _ _ run
perform-Describes w c (set_note uid key value) run fresh =
    annotate_unit-Describes w.now c uid key value run
perform-Describes w c (use_budget uid minutes cost) run fresh =
    record_usage-Describes w.now c uid minutes cost run
perform-Describes w c (take_over ttl) run fresh =
    resume-Describes w.now w.lease_ttl w.fresh_id c w.is_alive ttl run fresh

-- The events that a command adds say all that it writes: replayed over the run before the command,
-- they give the run after it. The command raises nothing, and no handoff has the fresh id yet.
pub perform-replay :
    (w : World) (c : String) (cmd : Command) (run : Run) (tx : Tx) (reply : Reply)
    → IsFresh w.fresh_id run
    → perform w c cmd (begin run) ≡ ok (tx, reply)
    → replay_data tx.events run ≡ tx.run
perform-replay w c cmd run tx reply fresh e = perform-Describes w c cmd run fresh tx reply e
