-- ===== src/Runs/Manager/Writes.antt =====
-- `reassign_unit`, the recording operations and, with them, every command of the manager: the events
-- of a command, replayed over the run before it, give the run after it.
use openclaw_ecc_orchestrato.Prelude.{
  if◌then◌else◌, str_eq, ℕ, String, ◌≡◌, refl, sym, ◌∙◌, ◌⊎◌, inl, inr, not, ◌||◌, Option, some, [],
  ◌∷◌, ◌++◌,
}
use openclaw_ecc_orchestrato.Prelude.Dict.{put-put}
use openclaw_ecc_orchestrato.Runs.State.{
  State, ready, needs_user, state_eq, of_name, one_of, transitions, in_flight,
}
use openclaw_ecc_orchestrato.Runs.Result.{
  illegal_transition, run_error, ok, ◌>>=◌, ◌>>◌, guard, require, >>=-eq-ok, if-eq-ok, ok-injective,
  >>=-elim, guard-elim,
}
use openclaw_ecc_orchestrato.Runs.Document.{ℤ, UnitRecord, Handoff, Run, handoff_recorded}
use openclaw_ecc_orchestrato.Runs.Replay.{apply_data, replay_data}
use openclaw_ecc_orchestrato.Runs.Manager.Tx.{
  Reply, Tx, begin, add, with_run, unit_of, write_state, change_state, set_state, touch, edit,
}
use openclaw_ecc_orchestrato.Runs.Manager.Assign.{Selection, Router, return_to_ready}
use openclaw_ecc_orchestrato.Runs.Manager.Progress.{
  transition, write_unit, surrendered, give_up, started_here, surrender_unit, is_negative,
  over_cost, charge_over, with_usage, charge, record_usage,
}
use openclaw_ecc_orchestrato.Runs.Manager.Tracking.{
  IsTracked, IsBehind, begin-IsTracked, IsTracked→IsBehind, edit-IsBehind, set_state-IsTracked,
  touch-IsTracked,
}
use openclaw_ecc_orchestrato.Runs.Manager.Inversion.{change_state-eq-ok}
use openclaw_ecc_orchestrato.Runs.Manager.Describing.{IsFresh, Describes, fst-injective}

-- What `return_to_ready` adds: nothing, or the event of one change of state.
pub return_to_ready_events :
    (now : ℕ) (c : String) (router : Router) (selection : Selection) (uid fresh_id : String)
    (previous : State) (tx tx' : Tx)
    → return_to_ready now c router selection uid fresh_id previous tx ≡ ok tx'
    → (tx' ≡ tx)
      ⊎ ((unit : UnitRecord) × (tx' ≡ write_state now c uid ready (some fresh_id) unit tx))
unfolding return_to_ready set_state
return_to_ready_events now c router selection uid fresh_id previous tx tx' e =
    if-eq-ok (state_eq previous ready) _ _ e (λ _ same. inl (sym (ok-injective same)))
      (λ _ e1.
        let (tx1, changed, e2) = >>=-eq-ok (change_state now c uid ready (some fresh_id) tx) _ e1 in
        let done =
          change_state-eq-ok now c uid ready (some fresh_id) {tx = tx} {tx' = tx1} changed in
        inr (done.unit, sym (ok-injective e2) ∙ done.written))

module _ (now : ℕ) (c : String) (uid : String) (h : Handoff) (owned : UnitRecord) (run : Run)
    (cleared : UnitRecord) (fresh : IsFresh h.id run) where
  -- The transaction before the event of the handoff: the handoff and the cleared unit are written.
  abbrev pub handed_over : Tx
  handed_over =
      edit uid cleared (with_run (record run { handoffs = run.handoffs ++ h ∷ [] }) (begin run))

  pub handoff_recorded-IsTracked :
      (reason : Option String) (tx' : Tx)
      → (tx' ≡ handed_over)
        ⊎ ((unit : UnitRecord) × (tx' ≡ write_state now c uid ready reason unit handed_over))
      → IsTracked run (add (handoff_recorded uid owned h) (edit uid owned tx'))
  unfolding replay_data apply_data write_state
  handoff_recorded-IsTracked reason tx' (inl same) = rw same (rw fresh (rw put-put refl))
  handoff_recorded-IsTracked reason tx' (inr (unit, changed)) = rw changed (rw fresh (simp put-put))

module _ (now : ℕ) (c : String) where
  pub write_unit-IsTracked :
      (uid : String) (change : UnitRecord → UnitRecord) (base : Run) (tx tx' : Tx)
      → IsTracked base tx
      → write_unit now c uid change tx ≡ ok tx'
      → IsTracked base tx'
  unfolding write_unit
  write_unit-IsTracked uid change base tx tx' h e =
      let (unit, _, e1) = >>=-eq-ok (unit_of tx.run uid) _ e in
      touch-IsTracked uid base (edit uid (change unit) tx) tx'
        (edit-IsBehind uid (change unit) base tx (IsTracked→IsBehind uid base tx h)) e1

  -- An operation that writes one unit and returns.
  pub then_return :
      (uid : String) (change : UnitRecord → UnitRecord) (reply : Reply) (run : Run) (tx : Tx)
      (reply' : Reply)
      → ◌>>=◌ {B = Tx × Reply} (write_unit now c uid change (begin run)) (λ tx'. ok (tx', reply))
        ≡ ok (tx, reply')
      → IsTracked run tx
  then_return uid change reply run tx reply' e =
      let (tx1, wrote, e1) = >>=-eq-ok (write_unit now c uid change (begin run)) _ e in
      rw (← fst-injective e1)
        (write_unit-IsTracked uid change run (begin run) tx1 (begin-IsTracked run) wrote)

  set_state-begin-IsTracked :
      (uid : String) (target : State) (reason : Option String) (run : Run) (tx' : Tx)
      → set_state now c uid target reason (begin run) ≡ ok tx'
      → IsTracked run tx'
  set_state-begin-IsTracked uid target reason run tx' =
      set_state-IsTracked now c uid target reason run (begin run) tx'
        (IsTracked→IsBehind uid run (begin run) (begin-IsTracked run))

  pub transition-Describes :
      (uid target : String) (reason : Option String) (run : Run)
      → Describes run (transition now c uid target reason)
  unfolding transition
  transition-Describes uid target reason run tx reply e =
      if-eq-ok (str_eq target "assigned") _ _ e (λ _ bad. cc)
        (λ _ e1.
          let (unit, _, e2) = >>=-eq-ok (unit_of run uid) _ e1 in
          let (to, _, e3) = >>=-eq-ok (require (of_name target) illegal_transition) _ e2 in
          let (tx1, set, e4) = >>=-eq-ok (set_state now c uid to reason (begin run)) _ e3 in
          rw (← fst-injective e4) (set_state-begin-IsTracked uid to reason run tx1 set))

  edited_begin-IsBehind :
      (uid : String) (unit : UnitRecord) (run : Run) → IsBehind uid run (edit uid unit (begin run))
  edited_begin-IsBehind uid unit run =
      edit-IsBehind uid unit run (begin run)
        (IsTracked→IsBehind uid run (begin run) (begin-IsTracked run))

  give_up-Describes :
      (uid reason : String) (detail : Option String) (unit : UnitRecord) (run : Run)
      → Describes run (give_up now c uid reason detail unit)
  unfolding give_up
  give_up-Describes uid reason detail unit run tx reply e =
      let given = edit uid (surrendered now c detail unit) (begin run) in
      let (tx1, set, e1) = >>=-eq-ok (set_state now c uid needs_user (some reason) given) _ e in
      rw (← fst-injective e1) (
        set_state-IsTracked now c uid needs_user (some reason) run given tx1
          (edited_begin-IsBehind uid (surrendered now c detail unit) run) set)

  pub surrender_unit-Describes :
      (uid reason : String) (detail : Option String) (run : Run)
      → Describes run (surrender_unit now c uid reason detail)
  unfolding surrender_unit
  surrender_unit-Describes uid reason detail run tx reply e =
      >>=-elim (unit_of run uid) _ e λ unit _ e1.
        let flying = guard (one_of unit.state in_flight) run_error in
        let rest = give_up now c uid reason detail unit (begin run) in
        guard-elim (started_here now c unit) run_error (flying >> rest) e1 λ _ e2.
          guard-elim (one_of unit.state in_flight) run_error rest e2
            λ _. give_up-Describes uid reason detail unit run tx reply

  charge_over-IsTracked :
      (uid : String) (unit : UnitRecord) (run : Run) (tx tx' : Tx) (reply : Reply)
      → IsTracked run tx
      → charge_over now c uid unit tx ≡ ok (tx', reply)
      → IsTracked run tx'
  unfolding charge_over
  charge_over-IsTracked uid unit run tx tx' reply h e =
      let (tx1, e1, e2) =
        >>=-eq-ok (if one_of needs_user (transitions unit.state) then _ else _) _ e in
      rw (← fst-injective e2) (
        if-eq-ok (one_of needs_user (transitions unit.state)) _ _ e1
          (λ _.
            set_state-IsTracked now c uid needs_user (some "budget_exhausted") run tx tx1
              (IsTracked→IsBehind uid run tx h))
          (λ _ same. rw (← ok-injective same) h))

  charge-Describes :
      (uid : String) (used : UnitRecord) (run : Run) → Describes run (charge now c uid used)
  unfolding charge
  charge-Describes uid used run tx reply e =
      let (tx1, touched, e1) = >>=-eq-ok (touch uid (edit uid used (begin run))) _ e in
      let tracked =
        touch-IsTracked uid run (edit uid used (begin run)) tx1 (edited_begin-IsBehind uid used run)
          touched in
      if-eq-ok (over_cost now c used) _ _ e1
        (λ _. charge_over-IsTracked uid used run tx1 tx reply tracked)
        (λ _ done. rw (← fst-injective done) tracked)

  pub record_usage-Describes :
      (uid : String) (minutes cost : ℤ) (run : Run)
      → Describes run (record_usage now c uid minutes cost)
  unfolding record_usage
  record_usage-Describes uid minutes cost run tx reply e =
      >>=-elim (unit_of run uid) _ e λ unit _ e1.
        let used = with_usage now c minutes cost unit in
        guard-elim (not (is_negative now c minutes || is_negative now c cost)) run_error
          (charge now c uid used (begin run)) e1 λ _. charge-Describes uid used run tx reply
