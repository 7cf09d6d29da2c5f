-- ===== src/Runs/Manager/Invariants.antt =====
-- What follows of every command of the manager from its small steps: a unit moves along legal
-- transitions only, and a finished unit is left alone.
use openclaw_ecc_orchestrato.Prelude.{
  Bool-cases, str_eq, String, ◌≡◌, refl, sym, ap, ◌∙◌, ◌⊎◌, inl, inr, some, List, [], ◌∷◌, ◌++◌,
  arith, eq_iff,
}
use openclaw_ecc_orchestrato.Prelude.Dict.{get, put, get-put_self, get-put_ne}
use openclaw_ecc_orchestrato.Runs.State.{State, merged, cancelled, transitions, check_transition}
use openclaw_ecc_orchestrato.Runs.Result.{ok}
use openclaw_ecc_orchestrato.Runs.Document.{UnitRecord, Run}
use openclaw_ecc_orchestrato.Runs.Replay.{set_unit}
use openclaw_ecc_orchestrato.Runs.Manager.Tx.{Reply, Tx, begin, moved}
use openclaw_ecc_orchestrato.Runs.Manager.Commands.{World, Command, perform}
use openclaw_ecc_orchestrato.Runs.Manager.Steps.{
  Step, edited, changed, elsewhere, Reach, here, next,
}
use openclaw_ecc_orchestrato.Runs.State.Walks.{Walk}
use openclaw_ecc_orchestrato.Runs.Manager.Commanded.{perform-Reach}

-- The states of a walk from `s` end in `t`.
abbrev last_of : State → List State → State
last_of s [] = s
last_of s (t ∷ ts) = last_of t ts

-- The unit `uid` is still there, and its state was reached by legal transitions.
pub record Moved (uid : String) (unit : UnitRecord) (run : Run) : Type 0 where
  pub unit' : UnitRecord
  pub there : get uid run.units ≡ some unit'
  pub path : List State
  pub walk : Walk unit.state path
  pub end : last_of unit.state path ≡ unit'.state

Walk-snoc :
    (s t : State) (ts : List State)
    → Walk s ts
    → check_transition (last_of s ts) t ≡ ok tt
    → Walk s (ts ++ t ∷ [])
Walk-snoc s t [] w h = (h, tt)
Walk-snoc s t (x ∷ ts) w h = (w.0, Walk-snoc x t ts w.1 h)

last_of-snoc : (s t : State) (ts : List State) → last_of s (ts ++ t ∷ []) ≡ t
last_of-snoc s t [] = refl
last_of-snoc s t (x ∷ ts) = last_of-snoc x t ts

module _ (uid : String) (unit : UnitRecord) where
  -- A unit is written, its own state as before or by one legal transition further on.
  Moved-write :
      (k : String) (old new : UnitRecord) (run : Run)
      → get k run.units ≡ some old
      → (new.state ≡ old.state) ⊎ (check_transition old.state new.state ≡ ok tt)
      → Moved uid unit run
      → Moved uid unit (set_unit k new run)
  Moved-write k old new run known how m = elim (Bool-cases (str_eq k uid)) [
    | inl same ↦
        let k_is : k ≡ uid = (eq_iff k uid).0 same in
        let at : m.unit' ≡ old = cc (m.there, known, k_is) in
        let there : get uid (put k new run.units) ≡ some new =
          rw (← k_is) (get-put_self k new run.units) in
        elim how [
          | inl kept ↦ record {
            unit' = new;
            there = there;
            path = m.path;
            walk = m.walk;
            end = m.end ∙ (ap (λ (u : UnitRecord). u.state) at ∙ sym kept);
          }
          | inr legal ↦
              let end : last_of unit.state m.path ≡ old.state =
                m.end ∙ ap (λ (u : UnitRecord). u.state) at in
              record {
                unit' = new;
                there = there;
                path = m.path ++ new.state ∷ [];
                walk = Walk-snoc unit.state new.state m.path m.walk (rw end legal);
                end = last_of-snoc unit.state new.state m.path;
              }
        ]
    | inr other ↦ record {
      unit' = m.unit';
      there = get-put_ne k uid new run.units other ∙ m.there;
      path = m.path;
      walk = m.walk;
      end = m.end;
    }
  ]

  Moved-Step : {run run' : Run} → Step run run' → Moved uid unit run → Moved uid unit run'
  unfolding moved
  Moved-Step {run} (edited k old new known same e) m =
      rw e (Moved-write k old new run known (inl same) m)
  Moved-Step {run} (changed k old target now c reason known legal handed e) m =
      rw e (Moved-write k old (moved now c target reason old) run known (inr legal) m)
  Moved-Step (elsewhere same) m = record {
    unit' = m.unit';
    there = rw same m.there;
    path = m.path;
    walk = m.walk;
    end = m.end;
  }

  Moved-Reach : {run run' : Run} → Moved uid unit run → Reach run run' → Moved uid unit run'
  Moved-Reach m here = m
  Moved-Reach m (next r st) = Moved-Step st (Moved-Reach m r)

-- After every command that raises nothing, a unit that was there before is still there, and its state
-- was reached from the one before by legal transitions.
pub perform-Moved :
    (w : World) (c : String) (cmd : Command) (run : Run) (tx : Tx) (reply : Reply) (uid : String)
    (unit : UnitRecord)
    → get uid run.units ≡ some unit
    → perform w c cmd (begin run) ≡ ok (tx, reply)
    → Moved uid unit tx.run
perform-Moved w c cmd run tx reply uid unit known e =
    Moved-Reach uid unit (record { unit' = unit; there = known; path = []; walk = tt; end = refl })
      (perform-Reach w c cmd (begin run) tx reply e)

no_step : (s t : State) → transitions s ≡ [] → ¬ (check_transition s t ≡ ok tt)
unfolding check_transition
no_step s t h w = ground arith

stuck_at_end : (s : State) (ts : List State) → transitions s ≡ [] → Walk s ts → last_of s ts ≡ s
unfolding check_transition
stuck_at_end s [] h w = refl
stuck_at_end s (t ∷ ts) h w = absurd (no_step s t h w.0)

no_way_out : (s : State) → (s ≡ merged) ⊎ (s ≡ cancelled) → transitions s ≡ []
unfolding transitions
no_way_out s (inl e) = ap transitions e
no_way_out s (inr e) = ap transitions e

-- A unit that is merged or cancelled is still there and in that state after every command that raises
-- nothing.
pub perform-terminal :
    (w : World) (c : String) (cmd : Command) (run : Run) (tx : Tx) (reply : Reply) (uid : String)
    (unit : UnitRecord)
    → get uid run.units ≡ some unit
    → (unit.state ≡ merged) ⊎ (unit.state ≡ cancelled)
    → perform w c cmd (begin run) ≡ ok (tx, reply)
    → (unit' : UnitRecord) × (get uid tx.run.units ≡ some unit') × (unit'.state ≡ unit.state)
perform-terminal w c cmd run tx reply uid unit known end e =
    let m = perform-Moved w c cmd run tx reply uid unit known e in
    (
      m.unit',
      m.there,
      sym m.end ∙ stuck_at_end unit.state m.path (no_way_out unit.state end) m.walk,
    )
