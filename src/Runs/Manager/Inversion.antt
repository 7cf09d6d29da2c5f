-- ===== src/Runs/Manager/Inversion.antt =====
-- What it takes for `_set_state` and its helpers to succeed, and what they then do.
use openclaw_ecc_orchestrato.Prelude.{
  ℕ, String, ◌≡◌, refl, Bool, true, false, not, ◌||◌, Option, some, arith,
}
use openclaw_ecc_orchestrato.Prelude.Dict.{get}
use openclaw_ecc_orchestrato.Runs.State.{State, verifying, state_eq, check_transition}
use openclaw_ecc_orchestrato.Runs.Result.{run_error, ok, ◌>>◌, guard, >>=-eq-ok}
use openclaw_ecc_orchestrato.Runs.Document.{UnitRecord, Run}
use openclaw_ecc_orchestrato.Runs.Manager.Tx.{
  Tx, unit_of, has_valid_handoff, write_state, change_state,
}

-- A change of state that went through.
pub record Changed (now : ℕ) (c : String) (uid : String) (target : State) (reason : Option String)
    (tx tx' : Tx) : Type 0 where
  pub unit : UnitRecord
  pub known : get uid tx.run.units ≡ some unit
  pub legal : check_transition unit.state target ≡ ok tt
  pub handed : (not (state_eq target verifying) || has_valid_handoff unit) ≡ true
  pub written : tx' ≡ write_state now c uid target reason unit tx

pub unit_of-eq-ok :
    (run : Run) (uid : String) {unit : UnitRecord}
    → unit_of run uid ≡ ok unit
    → get uid run.units ≡ some unit
unfolding unit_of
unit_of-eq-ok run uid h = ground arith

guard-eq-ok : (b : Bool) {x : Unit {0}} → guard b run_error ≡ ok x → b ≡ true
guard-eq-ok true h = refl
guard-eq-ok false h = cc

module _ (now : ℕ) (c : String) (uid : String) (target : State) (reason : Option String)
    {tx tx' : Tx} where
  change_state_rest :
      (unit : UnitRecord)
      → get uid tx.run.units ≡ some unit
      → (do
        check_transition unit.state target
        guard (not (state_eq target verifying) || has_valid_handoff unit) run_error
        ok (write_state now c uid target reason unit tx))
        ≡ ok tx'
      → Changed now c uid target reason tx tx'
  change_state_rest unit k e =
      let (u, legal, e') =
        >>=-eq-ok (check_transition unit.state target)
          (λ _.
            guard (not (state_eq target verifying) || has_valid_handoff unit) run_error
            >> ok (write_state now c uid target reason unit tx))
          e in
      let (v, handed, e'') =
        >>=-eq-ok (guard (not (state_eq target verifying) || has_valid_handoff unit) run_error)
          (λ _. ok (write_state now c uid target reason unit tx)) e' in
      record {
        unit = unit;
        known = k;
        legal = legal;
        handed = guard-eq-ok (not (state_eq target verifying) || has_valid_handoff unit) handed;
        written = cc;
      }

  pub change_state-eq-ok :
      change_state now c uid target reason tx ≡ ok tx' → Changed now c uid target reason tx tx'
  unfolding change_state
  change_state-eq-ok e =
      let (unit, k, e') =
        >>=-eq-ok (unit_of tx.run uid)
          (λ unit.
            check_transition unit.state target
            >> (guard (not (state_eq target verifying) || has_valid_handoff unit) run_error
                >> ok (write_state now c uid target reason unit tx)))
          e in
      change_state_rest unit (unit_of-eq-ok tx.run uid k) e'
