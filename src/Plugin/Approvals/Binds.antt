-- ===== src/Plugin/Approvals/Binds.antt =====
-- A decision is accepted for the request that it binds, and for no other.
use openclaw_ecc_orchestrato.Prelude.{
  both_split, ltb, not, ◌&&◌, ℕ, ◌<◌, String, ◌≡◌, refl, ap, ◌⊎◌, inl, inr, true, eq_iff, Option,
  none, some, arith,
}
use openclaw_ecc_orchestrato.Prelude.Dict.{get}
use openclaw_ecc_orchestrato.Plugin.Approvals.{
  Value, null, other, text, run_id, unit_id, plan_action, plan_sha256, session_id, of_option,
  value_eq, Bound, head_check, matches, binding_fields, is_expired, is_pending, Request, Broker,
  Decision, all_ok, find_request, request_checks, decision_checks,
}
use openclaw_ecc_orchestrato.Plugin.Approvals.Brokering.{expire, resolve}
use openclaw_ecc_orchestrato.Plugin.Approvals.Once.{all_ok-front}

pub resolve-checked :
    (now : ℕ) (d : Decision) (st : Broker)
    → (resolve now d st).0.succeeded ≡ true
    → all_ok (decision_checks now d (expire now st)) ≡ true
unfolding resolve
resolve-checked now d st h = ground (arith, h)

-- What a request that a decision was accepted for had.
pub record Accepts (now : ℕ) (d : Decision) (id : String) (q : Request) : Type 0 where
  pub waits : is_pending q.status ≡ true
  pub live : now < q.expires_at
  pub run : d.claim run_id ≡ text q.bound.run
  pub unit : d.claim unit_id ≡ text q.bound.unit
  pub act : d.claim plan_action ≡ text q.bound.act
  pub plan : d.claim plan_sha256 ≡ text q.bound.plan
  pub session : d.claim session_id ≡ text q.bound.session
  pub head : (d.head ≡ none) ⊎ (d.head ≡ some (of_option q.bound.head))
  pub named : d.request_id ≡ text id

value_eq-eq : (a b : Value) → value_eq a b ≡ true → a ≡ b
value_eq-eq null null h = refl
value_eq-eq (text a) (text b) h = ap text ((eq_iff a b).0 h)
value_eq-eq null (text b) h = absurd (ground (arith, h))
value_eq-eq null other h = absurd (ground (arith, h))
value_eq-eq other b h = absurd (ground (arith, h))
value_eq-eq (text a) null h = absurd (ground (arith, h))
value_eq-eq (text a) other h = absurd (ground (arith, h))

head_check-eq :
    (o : Option Value) (b : Bound)
    → all_ok (head_check o b) ≡ true
    → (o ≡ none) ⊎ (o ≡ some (of_option b.head))
unfolding head_check
head_check-eq none b h = inl refl
head_check-eq (some v) b h = inr (ap some (value_eq-eq v (of_option b.head) (ground (arith, h))))

found-Accepts :
    (now : ℕ) (d : Decision) (id : String) (o : Option Request)
    → d.request_id ≡ text id
    → all_ok (request_checks now d o) ≡ true
    → (q : Request) × (o ≡ some q) × Accepts now d id q
unfolding request_checks
found-Accepts now d id none named ok = absurd (ground (arith, ok))
found-Accepts now d id (some q) named ok =
    let open_still = not (is_expired q.status) && ltb now q.expires_at in
    let bound = matches binding_fields d.claim q.bound in
    let head = all_ok (head_check d.head q.bound) in
    let (waits, rest) = both_split (is_pending q.status) (open_still && (bound && head)) ok in
    let (live, more) = both_split open_still (bound && head) rest in
    let (binds, head_ok) = both_split bound head more in
    (
      q,
      refl,
      record {
        waits = waits;
        live = ground (arith, live);
        run = value_eq-eq (d.claim run_id) (text q.bound.run) (ground (arith, binds));
        unit = value_eq-eq (d.claim unit_id) (text q.bound.unit) (ground (arith, binds));
        act = value_eq-eq (d.claim plan_action) (text q.bound.act) (ground (arith, binds));
        plan = value_eq-eq (d.claim plan_sha256) (text q.bound.plan) (ground (arith, binds));
        session = value_eq-eq (d.claim session_id) (text q.bound.session) (ground (arith, binds));
        head = head_check-eq d.head q.bound head_ok;
        named = named;
      },
    )

pub checks-front :
    (now : ℕ) (d : Decision) (st : Broker)
    → all_ok (decision_checks now d st) ≡ true
    → all_ok (request_checks now d (find_request d.request_id st)) ≡ true
unfolding decision_checks
checks-front now d st h = all_ok-front (request_checks now d (find_request d.request_id st)) _ h

none_refused : (now : ℕ) (d : Decision) → ¬ (all_ok (request_checks now d none) ≡ true)
unfolding request_checks
none_refused now d ok = ground (arith, ok)

value-cases :
    (v : Value) → ((id : String) × (v ≡ text id)) ⊎ ((st : Broker) → find_request v st ≡ none)
unfolding find_request
value-cases (text id) = inl (id, refl)
value-cases null = inr (λ st. refl)
value-cases other = inr (λ st. refl)

-- A decision that is accepted names a request which, after the expiry of what is due, is pending and
-- unexpired; the run, the unit, the action, the plan and the session of the decision are those that the
-- request binds, and so is its head, where it gives one.
pub resolve-Accepts :
    (now : ℕ) (d : Decision) (st : Broker)
    → (resolve now d st).0.succeeded ≡ true
    → (id : String) × (q : Request) × (get id (expire now st).requests ≡ some q)
      × Accepts now d id q
unfolding find_request
resolve-Accepts now d st h =
    let ok = checks-front now d (expire now st) (resolve-checked now d st h) in
    elim (value-cases d.request_id) [
      | inl (id, named) ↦
          let there : find_request d.request_id (expire now st) ≡ get id (expire now st).requests =
            ap (λ v. find_request v (expire now st)) named in
          let (q, found, a) =
            found-Accepts now d id (get id (expire now st).requests) named (rw there at ok) in
          (id, q, found, a)
      | inr missing ↦ absurd (none_refused now d (rw (missing (expire now st)) at ok))
    ]
