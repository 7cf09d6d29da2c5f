-- ===== src/Runs/Manager/Tracking.antt =====
-- The events of a transaction describe its run: replayed over the run before, they give the run
-- after. That holds of every helper of src/openclaw_ecc_orchestrator/runs/manager.py that adds an event.
use openclaw_ecc_orchestrato.Prelude.{
  sorted, ℕ, String, ◌≡◌, refl, ap, ◌∙◌, Option, some, List, [], ◌∷◌,
}
use openclaw_ecc_orchestrato.Prelude.Dict.{get, keys, put-put, put-get}
use openclaw_ecc_orchestrato.Runs.State.{State, pending, ready, merged, state_eq}
use openclaw_ecc_orchestrato.Runs.Result.{key_error, ok, require, >>=-eq-ok, if-eq-ok, ok-injective}
use openclaw_ecc_orchestrato.Runs.Document.{UnitRecord, Run, EventData, state_changed, unit_updated}
use openclaw_ecc_orchestrato.Runs.Replay.{set_unit, apply_data, replay_data, replay_data-append}
use openclaw_ecc_orchestrato.Runs.Manager.Tx.{
  Tx, begin, add, with_run, unit_of, moved, all_merged, write_state, change_state, promote_one,
  promote, promote_ready, set_state, touch, edit,
}
use openclaw_ecc_orchestrato.Runs.Manager.Inversion.{unit_of-eq-ok, change_state-eq-ok}

abbrev pub IsTracked : Run → Tx → Type 0
IsTracked base tx = replay_data tx.events base ≡ tx.run

-- The same but for the unit `uid`, which was written in place and has no event yet.
abbrev pub IsBehind : String → Run → Tx → Type 0
IsBehind uid base tx =
    (unit : UnitRecord) → set_unit uid unit (replay_data tx.events base) ≡ set_unit uid unit tx.run

pub begin-IsTracked : (run : Run) → IsTracked run (begin run)
unfolding replay_data
begin-IsTracked run = refl

pub IsTracked→IsBehind :
    (uid : String) (base : Run) (tx : Tx) → IsTracked base tx → IsBehind uid base tx
IsTracked→IsBehind uid base tx h unit = ap (set_unit uid unit) h

pub edit-IsBehind :
    (uid : String) (unit : UnitRecord) (base : Run) (tx : Tx)
    → IsBehind uid base tx
    → IsBehind uid base (edit uid unit tx)
edit-IsBehind uid unit base tx h v = rw put-put (h v)

-- Writing a unit back changes nothing.
set_unit-get :
    (uid : String) (unit : UnitRecord) (run : Run)
    → get uid run.units ≡ some unit
    → set_unit uid unit run ≡ run
set_unit-get uid unit run h = rw (put-get uid unit run.units h)

-- One more event, in terms of the replay before it.
pub replay_data-add :
    (d : EventData) (base : Run) (tx : Tx)
    → replay_data (add d tx).events base ≡ apply_data d (replay_data tx.events base)
unfolding replay_data
replay_data-add d base tx = replay_data-append tx.events (d ∷ []) base

module _ (now : ℕ) (c : String) where
  write_state-IsTracked :
      (uid : String) (target : State) (reason : Option String) (unit : UnitRecord) (base : Run)
      (tx : Tx)
      → IsBehind uid base tx
      → IsTracked base (write_state now c uid target reason unit tx)
  unfolding write_state apply_data
  write_state-IsTracked uid target reason unit base tx h =
      let unit' = moved now c target reason unit in
      replay_data-add (state_changed uid unit.state target reason c unit') base
        (with_run (set_unit uid unit' tx.run) tx)
      ∙ h unit'

  pub change_state-IsTracked :
      (uid : String) (target : State) (reason : Option String) (base : Run) (tx tx' : Tx)
      → IsBehind uid base tx
      → change_state now c uid target reason tx ≡ ok tx'
      → IsTracked base tx'
  change_state-IsTracked uid target reason base tx tx' h e =
      let done = change_state-eq-ok now c uid target reason {tx = tx} {tx' = tx'} e in
      rw done.written (write_state-IsTracked uid target reason done.unit base tx h)

  promote_one-IsTracked :
      (uid : String) (unit : UnitRecord) (base : Run) (tx tx' : Tx)
      → IsTracked base tx
      → promote_one now c uid unit tx ≡ ok tx'
      → IsTracked base tx'
  unfolding promote_one
  promote_one-IsTracked uid unit base tx tx' h e =
      if-eq-ok (state_eq unit.state pending) _ _ e
        (λ _ e1.
          let (met, _, e2) = >>=-eq-ok (all_merged tx.run unit.depends_on) _ e1 in
          if-eq-ok met _ _ e2
            (λ _.
              change_state-IsTracked uid ready (some "dependencies_merged") base tx tx'
                (IsTracked→IsBehind uid base tx h))
            (λ _ same. rw (← ok-injective same) h))
        (λ _ same. rw (← ok-injective same) h)

  promote-IsTracked :
      (uids : List String) (base : Run) (tx tx' : Tx)
      → IsTracked base tx
      → promote now c uids tx ≡ ok tx'
      → IsTracked base tx'
  unfolding promote
  promote-IsTracked [] base tx tx' h e = rw (← ok-injective e) h
  promote-IsTracked (uid ∷ uids) base tx tx' h e =
      let (unit, _, e1) = >>=-eq-ok (require (get uid tx.run.units) key_error) _ e in
      let (tx1, one, e2) = >>=-eq-ok (promote_one now c uid unit tx) _ e1 in
      promote-IsTracked uids base tx1 tx' (promote_one-IsTracked uid unit base tx tx1 h one) e2

  -- `_set_state`, with all that a merge promotes.
  pub set_state-IsTracked :
      (uid : String) (target : State) (reason : Option String) (base : Run) (tx tx' : Tx)
      → IsBehind uid base tx
      → set_state now c uid target reason tx ≡ ok tx'
      → IsTracked base tx'
  unfolding set_state promote_ready
  set_state-IsTracked uid target reason base tx tx' h e =
      let (tx1, changed, e1) = >>=-eq-ok (change_state now c uid target reason tx) _ e in
      let tracked = change_state-IsTracked uid target reason base tx tx1 h changed in
      if-eq-ok (state_eq target merged) _ _ e1
        (λ _. promote-IsTracked (sorted (keys tx1.run.units)) base tx1 tx' tracked)
        (λ _ same. rw (← ok-injective same) tracked)

pub touch-IsTracked :
    (uid : String) (base : Run) (tx tx' : Tx)
    → IsBehind uid base tx
    → touch uid tx ≡ ok tx'
    → IsTracked base tx'
unfolding touch apply_data
touch-IsTracked uid base tx tx' h e =
    let (unit, k, e1) = >>=-eq-ok (unit_of tx.run uid) _ e in
    let known = unit_of-eq-ok tx.run uid k in
    rw (← ok-injective e1) (
      replay_data-add (unit_updated uid unit) base tx ∙ h unit ∙ set_unit-get uid unit tx.run known)
