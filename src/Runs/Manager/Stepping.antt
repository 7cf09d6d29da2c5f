-- ===== src/Runs/Manager/Stepping.antt =====
-- Every command of the manager moves the run by small steps alone.
use openclaw_ecc_orchestrato.Prelude.{
  sorted, ℕ, String, ◌≡◌, refl, Option, none, some, List, [], ◌∷◌,
}
use openclaw_ecc_orchestrato.Prelude.Dict.{get, keys}
use openclaw_ecc_orchestrato.Runs.State.{assigned, needs_user, interrupted}
use openclaw_ecc_orchestrato.Runs.Result.{key_error, ok, require, >>=-eq-ok, if-eq-ok}
use openclaw_ecc_orchestrato.Runs.Document.{Process, Routing, UnitRecord}
use openclaw_ecc_orchestrato.Runs.Manager.Tx.{Reply, Tx, unit_of, set_state, edit}
use openclaw_ecc_orchestrato.Runs.Liveness.{Liveness}
use openclaw_ecc_orchestrato.Runs.Manager.Assign.{
  Selection, Router, routing_record, budget_exhausted, charged, stop_for_user, assign_routed,
  assign,
}
use openclaw_ecc_orchestrato.Runs.Manager.Resume.{
  Verdict, leave, ask, interrupt, Found, judge, apply_verdict, examine, nothing_found, survey,
}
use openclaw_ecc_orchestrato.Runs.Manager.Inversion.{unit_of-eq-ok}
use openclaw_ecc_orchestrato.Runs.Manager.Describing.{fst-injective}
use openclaw_ecc_orchestrato.Runs.Manager.Steps.{
  Reach, here, Reach-trans, set_state-Reach, edit-set_state-Reach,
}

module _ (is_alive : Process → Liveness) (now : ℕ) (c : String) where
  apply_verdict-Reach :
      (uid : String) (v : Verdict) (found found' : Found) (tx tx' : Tx)
      → apply_verdict is_alive now c uid v found tx ≡ ok (tx', found')
      → Reach tx.run tx'.run
  unfolding apply_verdict
  apply_verdict-Reach uid leave found found' tx tx' e = rw (← fst-injective e) here
  apply_verdict-Reach uid ask found found' tx tx' e =
      let (tx1, set, e1) = >>=-eq-ok (set_state now c uid needs_user _ tx) _ e in
      rw (← fst-injective e1) (set_state-Reach now c uid needs_user _ tx tx1 set)
  apply_verdict-Reach uid interrupt found found' tx tx' e =
      let (tx1, set, e1) = >>=-eq-ok (set_state now c uid interrupted _ tx) _ e in
      rw (← fst-injective e1) (set_state-Reach now c uid interrupted _ tx tx1 set)

  examine-Reach :
      (uids : List String) (found found' : Found) (tx tx' : Tx)
      → examine is_alive now c uids found tx ≡ ok (tx', found')
      → Reach tx.run tx'.run
  unfolding examine
  examine-Reach [] found found' tx tx' e = rw (← fst-injective e) here
  examine-Reach (uid ∷ uids) found found' tx tx' e =
      let (unit, _, e1) = >>=-eq-ok (require (get uid tx.run.units) key_error) _ e in
      let v = judge is_alive unit in
      let ((tx1, found1), first, e2) =
        >>=-eq-ok (apply_verdict is_alive now c uid v found tx) _ e1 in
      Reach-trans (apply_verdict-Reach uid v found found1 tx tx1 first)
        (examine-Reach uids found1 found' tx1 tx' e2)

  pub survey-Reach :
      (previous : Option String) (tx tx' : Tx) (reply : Reply)
      → survey is_alive now c previous tx ≡ ok (tx', reply)
      → Reach tx.run tx'.run
  unfolding survey
  survey-Reach previous tx tx' reply e =
      let uids = sorted (keys tx.run.units) in
      let nothing = nothing_found is_alive now c in
      let ((tx1, found), seen, e1) = >>=-eq-ok (examine is_alive now c uids nothing tx) _ e in
      rw (← fst-injective e1) (examine-Reach uids nothing found tx tx1 seen)

module _ (now : ℕ) (c : String) (router : Router) (selection : Selection) where
  stop_for_user-Reach :
      (uid reason check_name kind : String) (tx tx' : Tx) (reply : Reply)
      → stop_for_user now c router selection uid reason check_name kind tx ≡ ok (tx', reply)
      → Reach tx.run tx'.run
  unfolding stop_for_user
  stop_for_user-Reach uid reason check_name kind tx tx' reply e =
      let (tx1, set, e1) = >>=-eq-ok (set_state now c uid needs_user _ tx) _ e in
      rw (← fst-injective e1) (set_state-Reach now c uid needs_user _ tx tx1 set)

  assign_routed-Reach :
      (uid worker_id : String) (unit : UnitRecord) (r : Option Routing) (tx tx' : Tx)
      (reply : Reply)
      → get uid tx.run.units ≡ some unit
      → assign_routed now c router selection uid worker_id unit r tx ≡ ok (tx', reply)
      → Reach tx.run tx'.run
  unfolding assign_routed charged
  assign_routed-Reach uid worker_id unit none tx tx' reply known e =
      stop_for_user-Reach uid _ _ _ tx tx' reply e
  assign_routed-Reach uid worker_id unit (some r) tx tx' reply known e =
      if-eq-ok (budget_exhausted unit (some r.tier)) _ _ e
        (λ _. stop_for_user-Reach uid _ _ _ tx tx' reply)
        (λ _ e1.
          let paid = charged worker_id r unit in
          let (tx1, set, e2) = >>=-eq-ok (set_state now c uid assigned _ (edit uid paid tx)) _ e1 in
          rw (← fst-injective e2)
            (edit-set_state-Reach now c uid unit paid assigned _ tx tx1 known refl set))

  pub assign-Reach :
      (uid worker_id : String) (tx tx' : Tx) (reply : Reply)
      → assign now c router selection uid worker_id tx ≡ ok (tx', reply)
      → Reach tx.run tx'.run
  unfolding assign
  assign-Reach uid worker_id tx tx' reply e =
      let (unit, k, e1) = >>=-eq-ok (unit_of tx.run uid) _ e in
      let (r, _, e2) = >>=-eq-ok (routing_record router tx.run unit uid selection) _ e1 in
      assign_routed-Reach uid worker_id unit r tx tx' reply (unit_of-eq-ok tx.run uid k) e2
