-- ===== src/Routing/Escalation/Ending.antt =====
-- The attempts of a unit come to an end.
use openclaw_ecc_orchestrato.Prelude.{
  Bool-cases, length, All, length-append, ℕ, zero, suc, ◌+◌, ◌-◌, ◌≤◌, ◌<◌, ◌≡◌, refl, ap, ◌∙◌, ◌⊎◌,
  inl, inr, true, false, Option, List, [], ◌∷◌, arith,
}
use openclaw_ecc_orchestrato.Routing.Escalation.{
  AttemptOutcome, Controller, attempts_per_tier, finished, grant, spend_reserve, Limits,
  at_least_one, blank_controller, new_controller,
}
use openclaw_ecc_orchestrato.Routing.Escalation.Deciding.{
  raised, go_up, try_repair, leave_tier, mark_time, after_fail, decide, booked, recorded,
  record_cost, record_attempt, replay_attempts,
}
use openclaw_ecc_orchestrato.Routing.Escalation.Bounds.{
  attempt_limit, IsBounded, length-mark_last, decide-IsBounded, booked-Within,
  spend_reserve-IsBounded, IsBounded-length,
}
use openclaw_ecc_orchestrato.Routing.Breaker.{Breaker}
use openclaw_ecc_orchestrato.Runs.Document.{pos, clamp}

length-spend_reserve : (c : Controller) → (spend_reserve c).history ≡ c.history
unfolding spend_reserve grant
length-spend_reserve c = ground arith

length-decide :
    (now : ℕ) (o : AttemptOutcome) (c : Controller)
    → length (decide now o c).history ≡ length c.history
unfolding decide after_fail try_repair leave_tier go_up raised mark_time
length-decide now o c = ground (arith, length-mark_last c.history)

length-booked :
    (now cost : ℕ) (o : AttemptOutcome) (c : Controller)
    → length (booked now cost o c).history ≡ length c.history + 1
unfolding booked
length-booked now cost o c = length-append c.history _

-- The cost of an attempt is a number that `record` takes.
abbrev pub IsPaid : AttemptOutcome → Type 0
IsPaid o = (n : ℕ) × (o.cost_usd ≡ pos n)

record_attempt-IsBounded :
    (limit now : ℕ) (o : AttemptOutcome) (c : Controller)
    → IsPaid o
    → finished c ≡ false
    → IsBounded limit c
    → (c' : Controller) × (record_attempt now o c ≡ recorded c')
      × IsBounded limit c'
      × (length c'.history ≡ length c.history + 1)
unfolding record_attempt record_cost
record_attempt-IsBounded limit now o c (cost, paid) asks (w, next) =
    let booking = booked now cost o c in
    let decided = decide now o booking in
    (
      spend_reserve decided,
      ground (arith, paid, asks),
      spend_reserve-IsBounded limit decided
          (decide-IsBounded limit now o booking (booked-Within limit now cost o c w (next asks))),
      ap length (length-spend_reserve decided)
          ∙ (length-decide now o booking ∙ length-booked now cost o c),
    )

-- Where the loop of `replay` ends.
pub record Ended (limit now : ℕ) (os : List AttemptOutcome) (c : Controller) : Type 0 where
  pub after : Controller
  pub is_recorded : replay_attempts now os c ≡ recorded after
  pub bounded : IsBounded limit after
  pub counted : finished after ≡ false → length after.history ≡ length c.history + length os

replay_attempts-next :
    (now : ℕ) (o : AttemptOutcome) (os : List AttemptOutcome) (c c' : Controller)
    → finished c ≡ false
    → record_attempt now o c ≡ recorded c'
    → replay_attempts now (o ∷ os) c ≡ replay_attempts now os c'
unfolding replay_attempts
replay_attempts-next now o os c c' asks one = ground (arith, asks, one)

replay_attempts-Ended :
    (limit now : ℕ) (os : List AttemptOutcome) (c : Controller)
    → All IsPaid os
    → IsBounded limit c
    → Ended limit now os c
unfolding replay_attempts
replay_attempts-Ended limit now [] c paid b = record {
  after = c;
  is_recorded = refl;
  bounded = b;
  counted = λ _. omega arith;
}
replay_attempts-Ended limit now (o ∷ os) c paid b = elim (Bool-cases (finished c)) [
  | inl over ↦ record {
    after = c;
    is_recorded = rw over refl;
    bounded = b;
    counted = λ asks. ground (arith, asks, over);
  }
  | inr asks ↦
      let (c1, one, b1, longer) = record_attempt-IsBounded limit now o c paid.0 asks b in
      let rest = replay_attempts-Ended limit now os c1 paid.1 b1 in
      record {
        after = rest.after;
        is_recorded = replay_attempts-next now o os c c1 asks one ∙ rest.is_recorded;
        bounded = rest.bounded;
        counted = λ asks1. omega (arith, rest.counted asks1, longer);
      }
]

abbrev pub reserved : ℕ → Controller → Controller
reserved extra c = record c { reserve_grant = extra }

-- The attempts that the limits of a unit allow, with the owner's grant.
abbrev pub limit_of : Limits → (extra start top : ℕ) → ℕ
limit_of limits extra start top =
    attempt_limit (at_least_one (clamp limits.attempts)) extra (top - start)

at_least_one-positive : (n : ℕ) → 1 ≤ at_least_one n
at_least_one-positive zero = omega arith
at_least_one-positive (suc n) = omega arith

history-new_controller :
    (now : ℕ) (limits : Limits) (start top : ℕ) (costs : ℕ → Option ℕ) (b : Option Breaker)
    → (new_controller now limits start top costs b).history ≡ []
unfolding new_controller blank_controller
history-new_controller now limits start top costs b = refl

new_controller-IsBounded :
    (now : ℕ) (limits : Limits) (start top extra : ℕ) (costs : ℕ → Option ℕ) (b : Option Breaker)
    → start ≤ top
    → IsBounded
        (attempt_limit (at_least_one (clamp limits.attempts)) extra (top - start))
        (reserved extra (new_controller now limits start top costs b))
unfolding new_controller blank_controller attempts_per_tier
new_controller-IsBounded now limits start top extra costs b h =
    let positive : 1 ≤ at_least_one (clamp limits.attempts) =
      at_least_one-positive (clamp limits.attempts) in
    (
      record {
        ahead = top - start;
        low = omega arith;
        high = omega arith;
        budget = positive;
        used = omega arith;
        room = omega arith;
      },
      λ _. ground (arith, positive),
    )

-- A new controller, with any reserve of attempts granted by the owner, takes any sequence of outcomes
-- whose costs are not negative: `record` refuses none, the tier stays between the start tier and the
-- maximum tier, and the attempts are within the limit; after as many outcomes as the limit, it has
-- finished.
pub escalation-ends :
    (now later : ℕ) (limits : Limits) (start top extra : ℕ) (costs : ℕ → Option ℕ)
    (b : Option Breaker) (os : List AttemptOutcome)
    → start ≤ top
    → All IsPaid os
    → (c : Controller) × (replay_attempts later os
          (reserved extra (new_controller now limits start top costs b))
        ≡ recorded c)
      × (c.start_tier ≤ c.tier × c.tier ≤ c.maximum_tier)
      × (length c.history ≤ limit_of limits extra start top)
      × ((finished c ≡ true) ⊎ (length os < limit_of limits extra start top))
escalation-ends now later limits start top extra costs b os h paid =
    let c0 = reserved extra (new_controller now limits start top costs b) in
    let limit = limit_of limits extra start top in
    let e =
      replay_attempts-Ended limit later os c0 paid
        (new_controller-IsBounded now limits start top extra costs b h) in
    let w = e.bounded.0 in
    let most = IsBounded-length limit e.after e.bounded in
    (
      e.after,
      e.is_recorded,
      (w.low, omega (arith, w.high)),
      most.0,
      elim (Bool-cases (finished e.after)) [
        | inl over ↦ inl over
        | inr asks ↦ inr (
            omega (
              arith,
              most.1 asks,
              e.counted asks,
              ap length (history-new_controller now limits start top costs b),
            ))
      ],
    )
