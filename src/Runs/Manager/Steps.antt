-- ===== src/Runs/Manager/Steps.antt =====
-- The manager's operations as small steps on the run: a unit is written without a change of state, a
-- unit makes one legal change of state, or something other than the units is written.
use openclaw_ecc_orchestrato.Prelude.{
  sorted, ℕ, String, ◌≡◌, refl, sym, ap, true, not, ◌||◌, Option, some, List, [], ◌∷◌,
}
use openclaw_ecc_orchestrato.Prelude.Dict.{get, keys}
use openclaw_ecc_orchestrato.Runs.State.{
  State, pending, ready, verifying, merged, state_eq, check_transition,
}
use openclaw_ecc_orchestrato.Runs.Result.{key_error, ok, require, >>=-eq-ok, if-eq-ok, ok-injective}
use openclaw_ecc_orchestrato.Runs.Document.{UnitRecord, Run}
use openclaw_ecc_orchestrato.Runs.Replay.{set_unit}
use openclaw_ecc_orchestrato.Runs.Manager.Tx.{
  Tx, unit_of, has_valid_handoff, moved, all_merged, write_state, change_state, promote_one,
  promote, promote_ready, set_state, touch, edit,
}
use openclaw_ecc_orchestrato.Runs.Manager.Progress.{write_unit}
use openclaw_ecc_orchestrato.Runs.Manager.Inversion.{unit_of-eq-ok, change_state-eq-ok}

pub data Step (run : Run) (run' : Run) : Type 0 where
  edited :
      (uid : String) (unit unit' : UnitRecord)
      → get uid run.units ≡ some unit
      → unit'.state ≡ unit.state
      → run' ≡ set_unit uid unit' run
      → Step run run'
  changed :
      (uid : String) (unit : UnitRecord) (target : State) (now : ℕ) (c : String)
      (reason : Option String)
      → get uid run.units ≡ some unit
      → check_transition unit.state target ≡ ok tt
      → (not (state_eq target verifying) || has_valid_handoff unit) ≡ true
      → run' ≡ set_unit uid (moved now c target reason unit) run
      → Step run run'
  elsewhere : run'.units ≡ run.units → Step run run'

pub data Reach (run : Run) : Run → Type 0 where
  here : Reach run run
  next : {mid last : Run} → Reach run mid → Step mid last → Reach run last

pub Reach-trans : {a b d : Run} → Reach a b → Reach b d → Reach a d
Reach-trans r here = r
Reach-trans r (next s st) = next (Reach-trans r s) st

pub one : {a b : Run} → Step a b → Reach a b
one st = next here st

module _ (now : ℕ) (c : String) where
  pub change_state-Reach :
      (uid : String) (target : State) (reason : Option String) (tx tx' : Tx)
      → change_state now c uid target reason tx ≡ ok tx'
      → Reach tx.run tx'.run
  unfolding write_state
  change_state-Reach uid target reason tx tx' e =
      let done = change_state-eq-ok now c uid target reason {tx = tx} {tx' = tx'} e in
      one (
        changed uid done.unit target now c reason done.known done.legal done.handed
          (ap (λ t. t.run) done.written))

  promote_one-Reach :
      (uid : String) (unit : UnitRecord) (tx tx' : Tx)
      → promote_one now c uid unit tx ≡ ok tx'
      → Reach tx.run tx'.run
  unfolding promote_one
  promote_one-Reach uid unit tx tx' e =
      if-eq-ok (state_eq unit.state pending) _ _ e
        (λ _ e1.
          let (met, _, e2) = >>=-eq-ok (all_merged tx.run unit.depends_on) _ e1 in
          if-eq-ok met _ _ e2
            (λ _. change_state-Reach uid ready (some "dependencies_merged") tx tx')
            (λ _ same. rw (← ok-injective same) here))
        (λ _ same. rw (← ok-injective same) here)

  promote-Reach :
      (uids : List String) (tx tx' : Tx) → promote now c uids tx ≡ ok tx' → Reach tx.run tx'.run
  unfolding promote
  promote-Reach [] tx tx' e = rw (← ok-injective e) here
  promote-Reach (uid ∷ uids) tx tx' e =
      let (unit, _, e1) = >>=-eq-ok (require (get uid tx.run.units) key_error) _ e in
      let (tx1, done, e2) = >>=-eq-ok (promote_one now c uid unit tx) _ e1 in
      Reach-trans (promote_one-Reach uid unit tx tx1 done) (promote-Reach uids tx1 tx' e2)

  pub set_state-Reach :
      (uid : String) (target : State) (reason : Option String) (tx tx' : Tx)
      → set_state now c uid target reason tx ≡ ok tx'
      → Reach tx.run tx'.run
  unfolding set_state promote_ready
  set_state-Reach uid target reason tx tx' e =
      let (tx1, moved_on, e1) = >>=-eq-ok (change_state now c uid target reason tx) _ e in
      let first = change_state-Reach uid target reason tx tx1 moved_on in
      if-eq-ok (state_eq target merged) _ _ e1
        (λ _ rest. Reach-trans first (promote-Reach (sorted (keys tx1.run.units)) tx1 tx' rest))
        (λ _ same. rw (← ok-injective same) first)

  -- A unit that is written in place, and then changes its state.
  pub edit-set_state-Reach :
      (uid : String) (unit unit' : UnitRecord) (target : State) (reason : Option String)
      (tx tx' : Tx)
      → get uid tx.run.units ≡ some unit
      → unit'.state ≡ unit.state
      → set_state now c uid target reason (edit uid unit' tx) ≡ ok tx'
      → Reach tx.run tx'.run
  edit-set_state-Reach uid unit unit' target reason tx tx' known same e =
      Reach-trans (one (edited uid unit unit' known same refl))
        (set_state-Reach uid target reason (edit uid unit' tx) tx' e)

  pub write_unit-Reach :
      (uid : String) (change : UnitRecord → UnitRecord) (tx tx' : Tx)
      → ((unit : UnitRecord) → (change unit).state ≡ unit.state)
      → write_unit now c uid change tx ≡ ok tx'
      → Reach tx.run tx'.run
  unfolding write_unit touch
  write_unit-Reach uid change tx tx' keeps e =
      let (unit, k, e1) = >>=-eq-ok (unit_of tx.run uid) _ e in
      let (unit', _, e2) = >>=-eq-ok (unit_of (set_unit uid (change unit) tx.run) uid) _ e1 in
      one (
        edited uid unit (change unit) (unit_of-eq-ok tx.run uid k) (keeps unit)
          (ap (λ t. t.run) (sym (ok-injective e2))))
