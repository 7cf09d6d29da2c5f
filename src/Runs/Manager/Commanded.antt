-- ===== src/Runs/Manager/Commanded.antt =====
-- The commands of the manager, all of them, by their small steps.
use openclaw_ecc_orchestrato.Prelude.{is_some, has, ℕ, String, ◌≡◌, refl, not, Option, none, arith}
use openclaw_ecc_orchestrato.Runs.Result.{
  run_error, lease_error, ok, ◌>>=◌, >>=-eq-ok, >>=-elim, guard-elim,
}
use openclaw_ecc_orchestrato.Runs.Document.{Process, Note, UnitRecord}
use openclaw_ecc_orchestrato.Runs.Manager.Tx.{Reply, Tx, unit_of}
use openclaw_ecc_orchestrato.Runs.Liveness.{Liveness}
use openclaw_ecc_orchestrato.Runs.Manager.Leases.{
  lease_blocker, holder_of, take_lease, acquire_lease, renew_lease, release_lease, transfer_lease,
}
use openclaw_ecc_orchestrato.Runs.Manager.Assign.{plan_unit}
use openclaw_ecc_orchestrato.Runs.Manager.Progress.{
  Report, HandoffDoc, annotation_keys, write_unit, record_process, record_process_exit,
  record_workspace, annotate_unit, record_handoff,
}
use openclaw_ecc_orchestrato.Runs.Manager.Resume.{survey, resume}
use openclaw_ecc_orchestrato.Runs.Manager.Commands.{
  World, Command, acquire, renew, release, transfer, move, give, regive, set_process, set_exit,
  surrender, set_handoff, set_workspace, set_note, use_budget, take_over, perform,
}
use openclaw_ecc_orchestrato.Runs.Manager.Describing.{fst-injective}
use openclaw_ecc_orchestrato.Runs.Manager.Steps.{
  Step, elsewhere, Reach, Reach-trans, one, write_unit-Reach,
}
use openclaw_ecc_orchestrato.Runs.Manager.Stepping.{survey-Reach}
use openclaw_ecc_orchestrato.Runs.Manager.Refinement.{
  assign_unit-Reach, reassign_unit-Reach, transition-Reach, surrender_unit-Reach,
  record_usage-Reach,
}

write_return-Reach :
    (now : ℕ) (c : String) (uid : String) (change : UnitRecord → UnitRecord) (reply : Reply)
    (tx tx' : Tx) (reply' : Reply)
    → ((unit : UnitRecord) → (change unit).state ≡ unit.state)
    → ◌>>=◌ {B = Tx × Reply} (write_unit now c uid change tx) (λ t. ok (t, reply))
      ≡ ok (tx', reply')
    → Reach tx.run tx'.run
write_return-Reach now c uid change reply tx tx' reply' keeps e =
    let (tx1, wrote, e1) = >>=-eq-ok (write_unit now c uid change tx) _ e in
    rw (← fst-injective e1) (write_unit-Reach now c uid change tx tx1 keeps wrote)

take_lease-units :
    (now lease_ttl : ℕ) (fresh_id c : String) (ttl : Option ℕ) (reason : String) (tx : Tx)
    → (take_lease now lease_ttl fresh_id c ttl reason tx).run.units ≡ tx.run.units
unfolding take_lease
take_lease-units now lease_ttl fresh_id c ttl reason tx = refl

leases-Reach :
    (now lease_ttl : ℕ) (fresh_id c : String) (ttl : Option ℕ) (to reason : String) (tx tx' : Tx)
    (reply : Reply)
    → (acquire_lease now lease_ttl fresh_id c ttl tx ≡ ok (tx', reply) → Step tx.run tx'.run)
      × (renew_lease now lease_ttl fresh_id c ttl tx ≡ ok (tx', reply) → Step tx.run tx'.run)
      × (release_lease now lease_ttl fresh_id c tx ≡ ok (tx', reply) → Step tx.run tx'.run)
      × (transfer_lease now lease_ttl fresh_id c to ttl reason tx ≡ ok (tx', reply)
          → Step tx.run tx'.run)
unfolding acquire_lease renew_lease release_lease transfer_lease
leases-Reach now lease_ttl fresh_id c ttl to reason tx tx' reply = (
  λ e. elsewhere (ground (arith, take_lease-units now lease_ttl fresh_id c ttl "lease_expired" tx)),
  λ e. elsewhere (ground arith),
  λ e. elsewhere (ground arith),
  λ e. elsewhere (ground arith),
)

resume-Reach :
    (is_alive : Process → Liveness) (now lease_ttl : ℕ) (fresh_id c : String) (ttl : Option ℕ)
    (tx tx' : Tx) (reply : Reply)
    → resume is_alive now c lease_ttl fresh_id ttl tx ≡ ok (tx', reply)
    → Reach tx.run tx'.run
unfolding resume
resume-Reach is_alive now lease_ttl fresh_id c ttl tx tx' reply e =
    let taken = take_lease now lease_ttl fresh_id c ttl "resume" tx in
    let first : Step tx.run taken.run =
      elsewhere (take_lease-units now lease_ttl fresh_id c ttl "resume" tx) in
    guard-elim (not (is_some (lease_blocker now tx.run c))) lease_error
      (survey is_alive now c (holder_of tx.run.lease) taken) e
      λ _ rest.
        Reach-trans (one first)
          (survey-Reach is_alive now c (holder_of tx.run.lease) taken tx' reply rest)

record_handoff-Reach :
    (now : ℕ) (c uid : String) (report : Report) (doc : HandoffDoc) (head : Option String)
    (tx tx' : Tx) (reply : Reply)
    → record_handoff now c uid report doc head tx ≡ ok (tx', reply)
    → Reach tx.run tx'.run
unfolding record_handoff
record_handoff-Reach now c uid report doc head tx tx' reply e =
    >>=-elim (unit_of tx.run uid) _ e λ unit _ e1.
      >>=-elim (plan_unit tx.run uid) _ e1
        λ p _ e2. write_return-Reach now c uid _ _ tx tx' reply (λ u. refl) e2

annotate_unit-Reach :
    (now : ℕ) (c uid key : String) (value : Note) (tx tx' : Tx) (reply : Reply)
    → annotate_unit now c uid key value tx ≡ ok (tx', reply)
    → Reach tx.run tx'.run
unfolding annotate_unit
annotate_unit-Reach now c uid key value tx tx' reply e =
    guard-elim (has key annotation_keys) run_error _ e
      λ _. write_return-Reach now c uid _ _ tx tx' reply (λ u. refl)

pub perform-Reach :
    (w : World) (c : String) (cmd : Command) (tx tx' : Tx) (reply : Reply)
    → perform w c cmd tx ≡ ok (tx', reply)
    → Reach tx.run tx'.run
unfolding perform record_process record_process_exit record_workspace
perform-Reach w c (acquire ttl) tx tx' reply e =
    one ((leases-Reach w.now w.lease_ttl w.fresh_id c ttl "" "" tx tx' reply).0 e)
perform-Reach w c (renew ttl) tx tx' reply e =
    one ((leases-Reach w.now w.lease_ttl w.fresh_id c ttl "" "" tx tx' reply).1 e)
perform-Reach w c release tx tx' reply e =
    one ((leases-Reach w.now w.lease_ttl w.fresh_id c none "" "" tx tx' reply).2 e)
perform-Reach w c (transfer to ttl reason) tx tx' reply e =
    one ((leases-Reach w.now w.lease_ttl w.fresh_id c ttl to reason tx tx' reply).3 e)
perform-Reach w c (move uid target reason) tx tx' reply e =
    transition-Reach w.now c uid target reason tx tx' reply e
perform-Reach w c (give uid worker_id selection) tx tx' reply e =
    assign_unit-Reach w.now c w.router selection w.veto uid worker_id tx tx' reply e
perform-Reach w c (regive uid new_owner reason selection) tx tx' reply e =
    reassign_unit-Reach w.now c w.router selection w.fresh_id uid new_owner reason tx tx' reply e
perform-Reach w c (set_process uid process) tx tx' reply e =
    write_return-Reach w.now c uid _ _ tx tx' reply (λ u. refl) e
perform-Reach w c (set_exit uid exit_code signal timed_out was_cancelled) tx tx' reply e =
    write_return-Reach w.now c uid _ _ tx tx' reply (λ u. refl) e
perform-Reach w c (surrender uid reason detail) tx tx' reply e =
    surrender_unit-Reach w.now c uid reason detail tx tx' reply e
perform-Reach w c (set_handoff uid report doc head) tx tx' reply e =
    record_handoff-Reach w.now c uid report doc head tx tx' reply e
perform-Reach w c (set_workspace uid workspace) tx tx' reply e =
    write_return-Reach w.now c uid _ _ tx tx' reply (λ u. refl) e
perform-Reach w c (set_note uid key value) tx tx' reply e =
    annotate_unit-Reach w.now c uid key value tx tx' reply e
perform-Reach w c (use_budget uid minutes cost) tx tx' reply e =
    record_usage-Reach w.now c uid minutes cost tx tx' reply e
perform-Reach w c (take_over ttl) tx tx' reply e =
    resume-Reach w.is_alive w.now w.lease_ttl w.fresh_id c ttl tx tx' reply e
