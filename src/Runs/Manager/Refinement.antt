-- ===== src/Runs/Manager/Refinement.antt =====
-- Every command of the manager refines the small steps of Runs/Manager/Steps.antt.
use openclaw_ecc_orchestrato.Prelude.{
  if◌then◌else◌, is_some, str_eq, opt_eq, ℕ, String, ◌≡◌, refl, sym, ap, not, ◌||◌, Option, none,
  some, [], ◌∷◌, ◌++◌,
}
use openclaw_ecc_orchestrato.Prelude.Dict.{get}
use openclaw_ecc_orchestrato.Runs.State.{
  State, ready, needs_user, state_eq, of_name, one_of, transitions, in_flight,
}
use openclaw_ecc_orchestrato.Runs.Result.{
  illegal_transition, run_error, Result, ok, ◌>>=◌, ◌>>◌, guard, require, >>=-eq-ok, if-eq-ok,
  ok-injective, >>=-elim, guard-elim,
}
use openclaw_ecc_orchestrato.Runs.Document.{ℤ, UnitRecord, Run, handoff_recorded}
use openclaw_ecc_orchestrato.Runs.Replay.{set_unit}
use openclaw_ecc_orchestrato.Runs.Manager.Tx.{
  Reply, Tx, add, with_run, unit_of, set_state, touch, edit,
}
use openclaw_ecc_orchestrato.Runs.Manager.Assign.{
  Selection, Router, reassignable, assign, assign_unit, unit_handoff, return_to_ready, hand_over,
  reassign_unit,
}
use openclaw_ecc_orchestrato.Runs.Manager.Progress.{
  transition, surrendered, give_up, started_here, surrender_unit, is_negative, over_cost,
  charge_over, with_usage, charge, record_usage,
}
use openclaw_ecc_orchestrato.Runs.Manager.Inversion.{unit_of-eq-ok}
use openclaw_ecc_orchestrato.Runs.Manager.Describing.{fst-injective}
use openclaw_ecc_orchestrato.Runs.Manager.Steps.{
  Step, edited, elsewhere, Reach, here, next, Reach-trans, one, set_state-Reach,
  edit-set_state-Reach,
}
use openclaw_ecc_orchestrato.Runs.Manager.Stepping.{assign-Reach}

module _ (now : ℕ) (c : String) (router : Router) (selection : Selection) where
  pub assign_unit-Reach :
      (veto : Run → String → Result (Unit {0})) (uid worker_id : String) (tx tx' : Tx)
      (reply : Reply)
      → assign_unit now c router selection veto uid worker_id tx ≡ ok (tx', reply)
      → Reach tx.run tx'.run
  unfolding assign_unit
  assign_unit-Reach veto uid worker_id tx tx' reply e =
      >>=-elim (unit_of tx.run uid) _ e λ unit _ e1.
        let owned = not (is_some unit.owner) || opt_eq unit.owner (some worker_id) in
        let last = veto tx.run uid >>= λ _. assign now c router selection uid worker_id tx in
        guard-elim (state_eq unit.state ready) illegal_transition (guard owned run_error >> last) e1
          λ _ e2. guard-elim owned run_error last e2 λ _ e3.
            >>=-elim (veto tx.run uid) _ e3
              λ _ _. assign-Reach now c router selection uid worker_id tx tx' reply

  return_to_ready-Reach :
      (uid fresh_id : String) (previous : State) (tx tx' : Tx)
      → return_to_ready now c router selection uid fresh_id previous tx ≡ ok tx'
      → Reach tx.run tx'.run
  unfolding return_to_ready
  return_to_ready-Reach uid fresh_id previous tx tx' e =
      if-eq-ok (state_eq previous ready) _ _ e (λ _ same. rw (← ok-injective same) here)
        (λ _. set_state-Reach now c uid ready (some fresh_id) tx tx')

  hand_over-Reach :
      (fresh_id uid new_owner reason : String) (unit : UnitRecord) (tx tx' : Tx) (reply : Reply)
      → get uid tx.run.units ≡ some unit
      → hand_over now c router selection fresh_id uid new_owner reason unit tx ≡ ok (tx', reply)
      → Reach tx.run tx'.run
  unfolding hand_over
  hand_over-Reach fresh_id uid new_owner reason unit tx tx' reply known e =
      let h = unit_handoff now c router selection fresh_id uid new_owner reason unit in
      let cleared : UnitRecord = record unit { handoff_ref = some fresh_id; process = none } in
      let tx1 = with_run (record tx.run { handoffs = tx.run.handoffs ++ h ∷ [] }) tx in
      let before = edit uid cleared tx1 in
      >>=-elim (return_to_ready now c router selection uid fresh_id unit.state before) _ e
        λ tx2 back e1. >>=-elim (unit_of tx2.run uid) _ e1 λ stopped k e2.
          let owned : UnitRecord = record stopped { owner = some new_owner } in
          let told = add (handoff_recorded uid owned h) (edit uid owned tx2) in
          let listed : Step tx.run tx1.run = elsewhere refl in
          let start = next (one listed) (edited uid unit cleared known refl refl) in
          Reach-trans start (
            Reach-trans (return_to_ready-Reach uid fresh_id unit.state before tx2 back) (
              Reach-trans (one (edited uid stopped owned (unit_of-eq-ok tx2.run uid k) refl refl))
                (assign-Reach now c router selection uid new_owner told tx' reply e2)))

  pub reassign_unit-Reach :
      (fresh_id uid new_owner reason : String) (tx tx' : Tx) (reply : Reply)
      → reassign_unit now c router selection fresh_id uid new_owner reason tx ≡ ok (tx', reply)
      → Reach tx.run tx'.run
  unfolding reassign_unit
  reassign_unit-Reach fresh_id uid new_owner reason tx tx' reply e =
      >>=-elim (unit_of tx.run uid) _ e λ unit k e1.
        guard-elim (one_of unit.state reassignable) run_error
          (hand_over now c router selection fresh_id uid new_owner reason unit tx) e1
          λ _.
            hand_over-Reach fresh_id uid new_owner reason unit tx tx' reply
              (unit_of-eq-ok tx.run uid k)

module _ (now : ℕ) (c : String) where
  pub transition-Reach :
      (uid target : String) (reason : Option String) (tx tx' : Tx) (reply : Reply)
      → transition now c uid target reason tx ≡ ok (tx', reply)
      → Reach tx.run tx'.run
  unfolding transition
  transition-Reach uid target reason tx tx' reply e =
      if-eq-ok (str_eq target "assigned") _ _ e (λ _ bad. cc)
        (λ _ e1.
          let (unit, _, e2) = >>=-eq-ok (unit_of tx.run uid) _ e1 in
          let (to, _, e3) = >>=-eq-ok (require (of_name target) illegal_transition) _ e2 in
          let (tx1, set, e4) = >>=-eq-ok (set_state now c uid to reason tx) _ e3 in
          rw (← fst-injective e4) (set_state-Reach now c uid to reason tx tx1 set))

  give_up-Reach :
      (uid reason : String) (detail : Option String) (unit : UnitRecord) (tx tx' : Tx)
      (reply : Reply)
      → get uid tx.run.units ≡ some unit
      → give_up now c uid reason detail unit tx ≡ ok (tx', reply)
      → Reach tx.run tx'.run
  unfolding give_up surrendered
  give_up-Reach uid reason detail unit tx tx' reply known e =
      let given = surrendered now c detail unit in
      let (tx1, set, e1) =
        >>=-eq-ok (set_state now c uid needs_user (some reason) (edit uid given tx)) _ e in
      rw (← fst-injective e1)
        (edit-set_state-Reach now c uid unit given needs_user (some reason) tx tx1 known refl set)

  pub surrender_unit-Reach :
      (uid reason : String) (detail : Option String) (tx tx' : Tx) (reply : Reply)
      → surrender_unit now c uid reason detail tx ≡ ok (tx', reply)
      → Reach tx.run tx'.run
  unfolding surrender_unit
  surrender_unit-Reach uid reason detail tx tx' reply e =
      >>=-elim (unit_of tx.run uid) _ e λ unit k e1.
        let flying = guard (one_of unit.state in_flight) run_error in
        let rest = give_up now c uid reason detail unit tx in
        guard-elim (started_here now c unit) run_error (flying >> rest) e1 λ _ e2.
          guard-elim (one_of unit.state in_flight) run_error rest e2
            λ _. give_up-Reach uid reason detail unit tx tx' reply (unit_of-eq-ok tx.run uid k)

  charge_over-Reach :
      (uid : String) (unit : UnitRecord) (tx tx' : Tx) (reply : Reply)
      → charge_over now c uid unit tx ≡ ok (tx', reply)
      → Reach tx.run tx'.run
  unfolding charge_over
  charge_over-Reach uid unit tx tx' reply e =
      let (tx1, e1, e2) =
        >>=-eq-ok (if one_of needs_user (transitions unit.state) then _ else _) _ e in
      rw (← fst-injective e2) (
        if-eq-ok (one_of needs_user (transitions unit.state)) _ _ e1
          (λ _. set_state-Reach now c uid needs_user (some "budget_exhausted") tx tx1)
          (λ _ same. rw (← ok-injective same) here))

  charge-Reach :
      (uid : String) (unit used : UnitRecord) (tx tx' : Tx) (reply : Reply)
      → get uid tx.run.units ≡ some unit
      → used.state ≡ unit.state
      → charge now c uid used tx ≡ ok (tx', reply)
      → Reach tx.run tx'.run
  unfolding charge touch
  charge-Reach uid unit used tx tx' reply known same e =
      let (tx1, touched, e1) = >>=-eq-ok (touch uid (edit uid used tx)) _ e in
      let (_, _, e2) = >>=-eq-ok (unit_of (set_unit uid used tx.run) uid) _ touched in
      let first = one (edited uid unit used known same (ap (λ t. t.run) (sym (ok-injective e2)))) in
      if-eq-ok (over_cost now c used) _ _ e1
        (λ _ rest. Reach-trans first (charge_over-Reach uid used tx1 tx' reply rest))
        (λ _ done. rw (← fst-injective done) first)

  pub record_usage-Reach :
      (uid : String) (minutes cost : ℤ) (tx tx' : Tx) (reply : Reply)
      → record_usage now c uid minutes cost tx ≡ ok (tx', reply)
      → Reach tx.run tx'.run
  unfolding record_usage with_usage
  record_usage-Reach uid minutes cost tx tx' reply e =
      >>=-elim (unit_of tx.run uid) _ e λ unit k e1.
        let used = with_usage now c minutes cost unit in
        guard-elim (not (is_negative now c minutes || is_negative now c cost)) run_error
          (charge now c uid used tx) e1
          λ _. charge-Reach uid unit used tx tx' reply (unit_of-eq-ok tx.run uid k) refl
