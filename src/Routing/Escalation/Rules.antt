-- ===== src/Routing/Escalation/Rules.antt =====
-- When the escalation controller goes up a tier, and when it asks for another attempt.
use openclaw_ecc_orchestrato.Prelude.{
  ltb, leb, if◌then◌else◌, if-elim, ℕ, ◌+◌, ◌<◌, ◌≤◌, inl, inr, Option, ◌≡◌, refl, sym, ◌∙◌, subst,
  ◌⊎◌, true, false, ◌&&◌, none, some, arith,
}
use openclaw_ecc_orchestrato.Routing.Escalation.{
  AttemptOutcome, Act, repair, done, stop, repair_kind, Why, passed_verification, cost_exhausted,
  projected_cost, repair_cost, repairing, after_failure, maximum_reached, not_objective,
  target_cost, Pending, Controller, attempts_per_tier, is_open_act, finished, action, fits, grant,
  spend_reserve,
}
use openclaw_ecc_orchestrato.Routing.Escalation.Deciding.{
  settle, raised, go_up, dearer, can_escalate, try_repair, leave_tier, mark_time, after_fail,
  decide, booked, already_finished, recorded, record_cost, record_attempt,
}
use openclaw_ecc_orchestrato.Runs.Document.{ℤ, pos, negsuc}

decide-tier :
    (now : ℕ) (o : AttemptOutcome) (c : Controller)
    → ((decide now o c).tier ≡ c.tier)
      ⊎ (((decide now o c).tier ≡ c.tier + 1)
          × (o.objective_failure ≡ true)
          × (o.passed ≡ false)
          × c.tier < c.maximum_tier)
unfolding decide after_fail try_repair leave_tier go_up raised mark_time can_escalate
decide-tier now o c = ground arith

spend_reserve-tier : (c : Controller) → (spend_reserve c).tier ≡ c.tier
unfolding spend_reserve grant
spend_reserve-tier c = ground arith

booked-same :
    (now cost : ℕ) (o : AttemptOutcome) (c : Controller)
    → ((booked now cost o c).tier ≡ c.tier)
      × ((booked now cost o c).maximum_tier ≡ c.maximum_tier)
      × ((booked now cost o c).reserve_grant ≡ c.reserve_grant)
unfolding booked
booked-same now cost o c = (refl, refl, refl)

record_attempt-recorded :
    (now : ℕ) (o : AttemptOutcome) (c c' : Controller)
    → record_attempt now o c ≡ recorded c'
    → (finished c ≡ false) × (cost : ℕ) × (c' ≡ spend_reserve (decide now o (booked now cost o c)))
unfolding record_attempt record_cost
record_attempt-recorded now o c c' e = go o.cost_usd e
  where
    go :
        (cost : ℤ)
        → (if finished c then already_finished else record_cost now o c cost) ≡ recorded c'
        → (finished c ≡ false) × (n : ℕ) × (c' ≡ spend_reserve (decide now o (booked now n o c)))
    go (pos n) h = (ground (arith, h), n, ground (arith, h))
    go (negsuc n) h = absurd (ground (arith, h))

-- An attempt that is recorded leaves the tier, or raises it by one, and that only when it was an
-- objective failure, did not pass, and was made below the maximum tier.
pub escalation-objective :
    (now : ℕ) (o : AttemptOutcome) (c c' : Controller)
    → record_attempt now o c ≡ recorded c'
    → (c'.tier ≡ c.tier)
      ⊎ ((c'.tier ≡ c.tier + 1)
          × (o.objective_failure ≡ true)
          × (o.passed ≡ false)
          × c.tier < c.maximum_tier)
escalation-objective now o c c' e =
    let (_, cost, same) = record_attempt-recorded now o c c' e in
    ground (
      arith,
      same,
      spend_reserve-tier (decide now o (booked now cost o c)),
      decide-tier now o (booked now cost o c),
      booked-same now cost o c,
    )

spend_reserve-none : (c : Controller) → c.reserve_grant ≡ 0 → spend_reserve c ≡ c
unfolding spend_reserve
spend_reserve-none c h = ground (arith, h)

decide-reserve :
    (now : ℕ) (o : AttemptOutcome) (c : Controller)
    → (decide now o c).reserve_grant ≡ c.reserve_grant
unfolding decide after_fail try_repair leave_tier go_up raised mark_time
decide-reserve now o c = ground arith

-- The estimate of the next attempt, where there is one, and what is spent are within the maximum cost, with
-- the tolerance of 1, and the budget is not used up.
abbrev pub Affordable : Controller → Type 0
Affordable c =
    ((c.tier_costs c.tier ≡ none)
      ⊎ ((est : ℕ) × (c.tier_costs c.tier ≡ some est) × est + c.spent ≤ c.max_cost + 1))
    × c.spent + 1 < c.max_cost

abbrev Room : (spent max_cost : ℕ) → Option ℕ → Type 0
Room spent max_cost o = (o ≡ none) ⊎ ((est : ℕ) × (o ≡ some est) × est + spent ≤ max_cost + 1)

estimate-Room :
    (spent max_cost : ℕ) (o : Option ℕ)
    → elim o [ none ↦ true | some est ↦ leb (est + spent) (max_cost + 1) ] ≡ true
    → Room spent max_cost o
estimate-Room spent max_cost none h = inl refl
estimate-Room spent max_cost (some est) h = inr (est, refl, ground (arith, h))

fits-Room :
    (tier : ℕ) (c : Controller) → fits tier c ≡ true → Room c.spent c.max_cost (c.tier_costs tier)
unfolding fits
fits-Room tier c h = estimate-Room c.spent c.max_cost (c.tier_costs tier) h

abbrev Asking : Controller → Type 0
Asking c = finished c ≡ false → Affordable c

halt-Asking :
    (act : Act) (why : Why) (c : Controller)
    → is_open_act act ≡ false
    → Asking (settle (action act why none c) c)
unfolding action
halt-Asking act why c h asks = absurd (ground (arith, h, asks))

fits-raised :
    (now : ℕ) (why : Why) (c : Controller)
    → fits (c.tier + 1) c ≡ true
    → Room
        (raised now why c).spent
        (raised now why c).max_cost
        ((raised now why c).tier_costs (raised now why c).tier)
unfolding raised
fits-raised now why c h = fits-Room (c.tier + 1) c h

left_raised :
    (now : ℕ) (why : Why) (c : Controller)
    → c.spent + 1 < c.max_cost
    → (raised now why c).spent + 1 < (raised now why c).max_cost
unfolding raised
left_raised now why c h = h

go_up-Asking :
    (now : ℕ) (why : Why) (c : Controller) → c.spent + 1 < c.max_cost → Asking (go_up now why c)
unfolding go_up
go_up-Asking now why c left =
    if-elim Asking (fits (c.tier + 1) c) _ _
      (λ fit _. (fits-raised now why c fit, left_raised now why c left))
      λ _. halt-Asking stop target_cost c refl

settle-Asking :
    (p : Pending) (c : Controller)
    → c.spent + 1 < c.max_cost
    → fits c.tier c ≡ true
    → Asking (settle p c)
unfolding fits
settle-Asking p c left fit asks = (fits-Room c.tier c fit, left)

after_fail-Asking : (now : ℕ) (o : AttemptOutcome) (c : Controller) → Asking (after_fail now o c)
unfolding after_fail try_repair leave_tier
after_fail-Asking now o c =
    if-elim Asking (leb c.max_cost (c.spent + 1)) _ _ (λ _. halt-Asking stop cost_exhausted c refl)
      λ more.
        let left : c.spent + 1 < c.max_cost = ground (arith, more) in
        if-elim Asking (ltb c.attempts_at_tier (attempts_per_tier c)) _ _
          (λ _.
            if-elim Asking (can_escalate o c && dearer c) _ _
              (λ _. go_up-Asking now projected_cost c left)
              λ _.
                if-elim Asking (fits c.tier c) _ _
                  (λ fit. settle-Asking (action repair repairing (some repair_kind) c) c left fit)
                  λ _. halt-Asking stop repair_cost c refl)
          λ _.
            if-elim Asking (can_escalate o c) _ _ (λ _. go_up-Asking now after_failure c left)
              λ _.
                halt-Asking stop (if o.objective_failure then maximum_reached else not_objective) c
                  refl

decide-Asking : (now : ℕ) (o : AttemptOutcome) (c : Controller) → Asking (decide now o c)
unfolding decide
decide-Asking now o c =
    if-elim Asking o.passed _ _ (λ _. halt-Asking done passed_verification c refl)
      λ _. after_fail-Asking now o (mark_time now c)

-- With no grant in reserve, an attempt that is recorded is followed by another one only when the budget
-- is not used up and the estimate for the tier, where one is known, fits in what is left of it.
pub escalation-Affordable :
    (now : ℕ) (o : AttemptOutcome) (c c' : Controller)
    → record_attempt now o c ≡ recorded c'
    → c.reserve_grant ≡ 0
    → finished c' ≡ false
    → Affordable c'
escalation-Affordable now o c c' e none_left asks =
    let (_, cost, same) = record_attempt-recorded now o c c' e in
    let decided = decide now o (booked now cost o c) in
    let as_decided : c' ≡ decided =
      same
      ∙ spend_reserve-none decided (
          decide-reserve now o (booked now cost o c)
          ∙ ((booked-same now cost o c).2 ∙ none_left)) in
    subst Asking (sym as_decided) (decide-Asking now o (booked now cost o c)) asks
