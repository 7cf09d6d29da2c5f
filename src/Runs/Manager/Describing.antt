-- ===== src/Runs/Manager/Describing.antt =====
-- Every command of the manager adds events that describe all that it writes.
use openclaw_ecc_orchestrato.Prelude.{
  ℕ, String, ◌≡◌, refl, ap, false, Option, none, some, List, [], ◌∷◌, arith,
}
use openclaw_ecc_orchestrato.Prelude.Dict.{get}
use openclaw_ecc_orchestrato.Runs.State.{assigned, needs_user, interrupted}
use openclaw_ecc_orchestrato.Runs.Result.{key_error, ok, require, >>=-eq-ok, if-eq-ok, ok-injective}
use openclaw_ecc_orchestrato.Runs.Document.{Process, Routing, UnitRecord, Handoff, Run}
use openclaw_ecc_orchestrato.Runs.Replay.{has_handoff, add_optional, apply_data, replay_data}
use openclaw_ecc_orchestrato.Runs.Manager.Tx.{Reply, Tx, begin, unit_of, set_state, edit}
use openclaw_ecc_orchestrato.Runs.Manager.Store.{Op}
use openclaw_ecc_orchestrato.Runs.Liveness.{Liveness}
use openclaw_ecc_orchestrato.Runs.Manager.Leases.{append_optional, take_lease}
use openclaw_ecc_orchestrato.Runs.Manager.Assign.{
  Selection, Router, routing_record, budget_exhausted, charged, stop_for_user, assign_routed,
  assign,
}
use openclaw_ecc_orchestrato.Runs.Manager.Resume.{
  Verdict, leave, ask, interrupt, Found, judge, apply_verdict, examine,
}
use openclaw_ecc_orchestrato.Runs.Manager.Tracking.{
  IsTracked, IsTracked→IsBehind, edit-IsBehind, set_state-IsTracked,
}

-- No handoff of the run has the id that `id_gen` returns.
abbrev pub IsFresh : String → Run → Type 0
IsFresh id run = has_handoff id run.handoffs ≡ false

add_optional-append :
    (o : Option Handoff) (run : Run)
    → ((h : Handoff) → o ≡ some h → IsFresh h.id run)
    → add_optional o run ≡ record run { handoffs = append_optional o run.handoffs }
unfolding add_optional append_optional
add_optional-append none run f = refl
add_optional-append (some h) run f = rw (f h refl)

module _ (now lease_ttl : ℕ) (fresh_id c : String) where
  pub take_lease-IsTracked :
      (ttl : Option ℕ) (reason : String) (run : Run)
      → IsFresh fresh_id run
      → IsTracked run (take_lease now lease_ttl fresh_id c ttl reason (begin run))
  unfolding take_lease replay_data apply_data
  take_lease-IsTracked ttl reason run fresh = ground (arith, fresh)

abbrev pub Describes : Run → Op → Type 0
Describes run op = (tx : Tx) (reply : Reply) → op (begin run) ≡ ok (tx, reply) → IsTracked run tx

pub fst-injective {ℓ} : {A B : Type ℓ} {p q : A × B} → ok p ≡ ok q → p.0 ≡ q.0
fst-injective h = ap (λ p. p.0) (ok-injective h)

module _ (is_alive : Process → Liveness) (now : ℕ) (c : String) where
  apply_verdict-IsTracked :
      (uid : String) (v : Verdict) (found found' : Found) (base : Run) (tx tx' : Tx)
      → IsTracked base tx
      → apply_verdict is_alive now c uid v found tx ≡ ok (tx', found')
      → IsTracked base tx'
  unfolding apply_verdict
  apply_verdict-IsTracked uid leave found found' base tx tx' h e = rw (← fst-injective e) h
  apply_verdict-IsTracked uid ask found found' base tx tx' h e =
      let (tx1, set, e1) = >>=-eq-ok (set_state now c uid needs_user _ tx) _ e in
      rw (← fst-injective e1) (
        set_state-IsTracked now c uid needs_user _ base tx tx1 (IsTracked→IsBehind uid base tx h)
          set)
  apply_verdict-IsTracked uid interrupt found found' base tx tx' h e =
      let (tx1, set, e1) = >>=-eq-ok (set_state now c uid interrupted _ tx) _ e in
      rw (← fst-injective e1) (
        set_state-IsTracked now c uid interrupted _ base tx tx1 (IsTracked→IsBehind uid base tx h)
          set)

  pub examine-IsTracked :
      (uids : List String) (found found' : Found) (base : Run) (tx tx' : Tx)
      → IsTracked base tx
      → examine is_alive now c uids found tx ≡ ok (tx', found')
      → IsTracked base tx'
  unfolding examine
  examine-IsTracked [] found found' base tx tx' h e = rw (← fst-injective e) h
  examine-IsTracked (uid ∷ uids) found found' base tx tx' h e =
      let (unit, _, e1) = >>=-eq-ok (require (get uid tx.run.units) key_error) _ e in
      let ((tx1, found1), one, e2) =
        >>=-eq-ok (apply_verdict is_alive now c uid (judge is_alive unit) found tx) _ e1 in
      examine-IsTracked uids found1 found' base tx1 tx'
        (apply_verdict-IsTracked uid (judge is_alive unit) found found1 base tx tx1 h one) e2

module _ (now : ℕ) (c : String) (router : Router) (selection : Selection) where
  stop_for_user-IsTracked :
      (uid reason check_name kind : String) (base : Run) (tx tx' : Tx) (reply : Reply)
      → IsTracked base tx
      → stop_for_user now c router selection uid reason check_name kind tx ≡ ok (tx', reply)
      → IsTracked base tx'
  unfolding stop_for_user
  stop_for_user-IsTracked uid reason check_name kind base tx tx' reply h e =
      let (tx1, set, e1) = >>=-eq-ok (set_state now c uid needs_user _ tx) _ e in
      rw (← fst-injective e1) (
        set_state-IsTracked now c uid needs_user _ base tx tx1 (IsTracked→IsBehind uid base tx h)
          set)

  assign_routed-IsTracked :
      (uid worker_id : String) (unit : UnitRecord) (r : Option Routing) (base : Run) (tx tx' : Tx)
      (reply : Reply)
      → IsTracked base tx
      → assign_routed now c router selection uid worker_id unit r tx ≡ ok (tx', reply)
      → IsTracked base tx'
  unfolding assign_routed
  assign_routed-IsTracked uid worker_id unit none base tx tx' reply h e =
      stop_for_user-IsTracked uid _ _ _ base tx tx' reply h e
  assign_routed-IsTracked uid worker_id unit (some r) base tx tx' reply h e =
      if-eq-ok (budget_exhausted unit (some r.tier)) _ _ e
        (λ _. stop_for_user-IsTracked uid _ _ _ base tx tx' reply h)
        (λ _ e1.
          let paid = edit uid (charged worker_id r unit) tx in
          let (tx1, set, e2) = >>=-eq-ok (set_state now c uid assigned _ paid) _ e1 in
          rw (← fst-injective e2) (
            set_state-IsTracked now c uid assigned _ base paid tx1
              (edit-IsBehind uid (charged worker_id r unit) base tx
                (IsTracked→IsBehind uid base tx h))
              set))

  pub assign-IsTracked :
      (uid worker_id : String) (base : Run) (tx tx' : Tx) (reply : Reply)
      → IsTracked base tx
      → assign now c router selection uid worker_id tx ≡ ok (tx', reply)
      → IsTracked base tx'
  unfolding assign
  assign-IsTracked uid worker_id base tx tx' reply h e =
      let (unit, _, e1) = >>=-eq-ok (unit_of tx.run uid) _ e in
      let (r, _, e2) = >>=-eq-ok (routing_record router tx.run unit uid selection) _ e1 in
      assign_routed-IsTracked uid worker_id unit r base tx tx' reply h e2
