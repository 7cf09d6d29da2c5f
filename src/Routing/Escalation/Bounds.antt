-- ===== src/Routing/Escalation/Bounds.antt =====
-- The escalation controller stays within its tiers and within its attempts.
use openclaw_ecc_orchestrato.Prelude.{
  ltb, leb, ltb→lt, if-elim, length, length-append, ℕ, suc, ◌+◌, ◌-◌, ◌*◌, ◌≤◌, ◌<◌, ◌≡◌, refl, ap,
  subst, true, false, ◌&&◌, Option, none, some, List, [], ◌∷◌, arith,
}
use openclaw_ecc_orchestrato.Routing.Escalation.{
  AttemptOutcome, Act, repair, escalate, done, stop, Kind, implementation_kind, repair_kind, Why,
  passed_verification, cost_exhausted, projected_cost, repair_cost, repairing, after_failure,
  target_cost, owner_granted, Pending, Entry, Controller, capped, attempts_per_tier, is_open_act,
  is_stop, finished, action, fits, grant, spend_reserve,
}
use openclaw_ecc_orchestrato.Routing.Escalation.Deciding.{
  settle, raised, go_up, dearer, can_escalate, try_repair, leave_tier, mark_last, mark_time,
  after_fail, decide, booked,
}

-- The attempts that a unit may use from its start tier on: those of every tier below the maximum, then
-- those of the maximum, with the owner's grant at each.
abbrev pub attempt_limit : (budget extra ahead : ℕ) → ℕ
attempt_limit budget extra ahead = ahead * (capped budget + extra) + (budget + extra)

abbrev pub extra_of : Controller → ℕ
extra_of c = c.owner_extra + c.reserve_grant

-- The tiers and the attempts of a controller are within bounds, and so many tiers are ahead of it.
pub record Within (limit : ℕ) (c : Controller) : Type 0 where
  pub ahead : ℕ
  pub low : c.start_tier ≤ c.tier
  pub high : c.tier + ahead ≡ c.maximum_tier
  pub budget : 1 ≤ c.budget_attempts
  pub used :
      length c.history + attempt_limit c.budget_attempts (extra_of c) ahead
      ≤ limit + c.attempts_at_tier
  pub room : c.attempts_at_tier ≤ attempts_per_tier c

-- While the controller asks for an attempt, the tier has one left.
abbrev pub HasNext : Controller → Type 0
HasNext c = finished c ≡ false → c.attempts_at_tier < attempts_per_tier c

abbrev pub IsBounded : ℕ → Controller → Type 0
IsBounded limit c = Within limit c × HasNext c

per_tier-settle :
    (p : Pending) (c : Controller) → attempts_per_tier (settle p c) ≡ attempts_per_tier c
unfolding attempts_per_tier
per_tier-settle p c = refl

settle-IsBounded :
    (limit : ℕ) (p : Pending) (c : Controller)
    → Within limit c
    → (is_open_act p.act ≡ true → c.attempts_at_tier < attempts_per_tier c)
    → IsBounded limit (settle p c)
unfolding attempts_per_tier
settle-IsBounded limit p c w h = (
  record {
    ahead = w.ahead;
    low = w.low;
    high = w.high;
    budget = w.budget;
    used = w.used;
    room = w.room;
  },
  λ asks. h (ground (arith, asks)),
)

action-act :
    (act : Act) (why : Why) (kind : Option Kind) (c : Controller)
    → (action act why kind c).act ≡ act
unfolding action
action-act act why kind c = refl

halt-IsBounded :
    (limit : ℕ) (act : Act) (why : Why) (c : Controller)
    → is_open_act act ≡ false
    → Within limit c
    → IsBounded limit (settle (action act why none c) c)
unfolding action
halt-IsBounded limit act why c closed w =
    settle-IsBounded limit (action act why none c) c w (λ asks. ground (arith, asks, closed))

-- One tier up, the attempts that the tier below had left are gone.
raise_used :
    (seen k f limit at ahead : ℕ)
    → at ≤ k
    → seen + (suc ahead * k + f) ≤ limit + at
    → seen + (ahead * k + f) ≤ limit
raise_used seen k f limit at ahead h used = omega arith

per_tier-bounds :
    (c : Controller)
    → (1 ≤ c.budget_attempts → 1 ≤ attempts_per_tier c)
      × (c.tier < c.maximum_tier → attempts_per_tier c ≡ capped c.budget_attempts + c.owner_extra)
unfolding attempts_per_tier
per_tier-bounds c = ground arith

raised-Within :
    (limit now : ℕ) (why : Why) (c : Controller)
    → Within limit c
    → c.tier < c.maximum_tier
    → Within limit (raised now why c)
unfolding raised
raised-Within limit now why c w below =
    let room : c.attempts_at_tier ≤ capped c.budget_attempts + (c.owner_extra + c.reserve_grant) =
      omega (arith, w.room, (per_tier-bounds c).1 below) in
    let less : w.ahead ≡ suc (w.ahead - 1) = omega (arith, w.high) in
    record {
      ahead = w.ahead - 1;
      low = omega (arith, w.low);
      high = omega (arith, w.high);
      budget = w.budget;
      used = omega (
        arith,
        raise_used (length c.history) (capped c.budget_attempts + extra_of c)
            (c.budget_attempts + extra_of c) limit c.attempts_at_tier (w.ahead - 1) room
            (subst
              (λ n.
                length c.history + attempt_limit c.budget_attempts (extra_of c) n
                ≤ limit + c.attempts_at_tier)
              less w.used),
      );
      room = omega arith;
    }

raised-HasNext :
    (now : ℕ) (why : Why) (c : Controller)
    → 1 ≤ c.budget_attempts
    → (raised now why c).attempts_at_tier < attempts_per_tier (raised now why c)
unfolding raised
raised-HasNext now why c h = (per_tier-bounds (raised now why c)).0 h

go_up-IsBounded :
    (limit now : ℕ) (why : Why) (c : Controller)
    → Within limit c
    → c.tier < c.maximum_tier
    → IsBounded limit (go_up now why c)
unfolding go_up
go_up-IsBounded limit now why c w below =
    if-elim (IsBounded limit) (fits (c.tier + 1) c) _ _
      (λ _.
        settle-IsBounded limit (action escalate why (some implementation_kind) (raised now why c))
          (raised now why c) (raised-Within limit now why c w below)
          (λ _. raised-HasNext now why c w.budget))
      (λ _. halt-IsBounded limit stop target_cost c refl w)

can_escalate-below :
    (o : AttemptOutcome) (c : Controller)
    → can_escalate o c ≡ true
    → (c.tier < c.maximum_tier) × (o.objective_failure ≡ true)
unfolding can_escalate
can_escalate-below o c h = ground arith

try_repair-IsBounded :
    (limit now : ℕ) (o : AttemptOutcome) (c : Controller)
    → Within limit c
    → c.attempts_at_tier < attempts_per_tier c
    → IsBounded limit (try_repair now o c)
unfolding try_repair
try_repair-IsBounded limit now o c w room =
    if-elim (IsBounded limit) (can_escalate o c && dearer c) _ _
      (λ up.
        go_up-IsBounded limit now projected_cost c w ((can_escalate-below o c (ground arith)).0))
      λ _.
        if-elim (IsBounded limit) (fits c.tier c) _ _
          (λ _.
            settle-IsBounded limit (action repair repairing (some repair_kind) c) c w (λ _. room))
          λ _. halt-IsBounded limit stop repair_cost c refl w

leave_tier-IsBounded :
    (limit now : ℕ) (o : AttemptOutcome) (c : Controller)
    → Within limit c
    → IsBounded limit (leave_tier now o c)
unfolding leave_tier
leave_tier-IsBounded limit now o c w =
    if-elim (IsBounded limit) (can_escalate o c) _ _
      (λ up. go_up-IsBounded limit now after_failure c w ((can_escalate-below o c up).0))
      λ _. halt-IsBounded limit stop _ c refl w

after_fail-IsBounded :
    (limit now : ℕ) (o : AttemptOutcome) (c : Controller)
    → Within limit c
    → IsBounded limit (after_fail now o c)
unfolding after_fail
after_fail-IsBounded limit now o c w =
    if-elim (IsBounded limit) (leb c.max_cost (c.spent + 1)) _ _
      (λ _. halt-IsBounded limit stop cost_exhausted c refl w)
      λ _.
        if-elim (IsBounded limit) (ltb c.attempts_at_tier (attempts_per_tier c)) _ _
          (λ room.
            try_repair-IsBounded limit now o c w
              (ltb→lt c.attempts_at_tier (attempts_per_tier c) room))
          λ _. leave_tier-IsBounded limit now o c w

pub length-mark_last : (es : List Entry) → length (mark_last es) ≡ length es
length-mark_last [] = refl
length-mark_last (e ∷ []) = refl
length-mark_last (e ∷ f ∷ rest) = ap suc (length-mark_last (f ∷ rest))

mark_time-Within :
    (limit now : ℕ) (c : Controller) → Within limit c → Within limit (mark_time now c)
unfolding mark_time attempts_per_tier
mark_time-Within limit now c w =
    if-elim (Within limit) (leb c.max_seconds (now - c.started_at)) _ _
      (λ _. record {
        ahead = w.ahead;
        low = w.low;
        high = w.high;
        budget = w.budget;
        used = rw length-mark_last w.used;
        room = w.room;
      })
      λ _. w

pub decide-IsBounded :
    (limit now : ℕ) (o : AttemptOutcome) (c : Controller)
    → Within limit c
    → IsBounded limit (decide now o c)
unfolding decide
decide-IsBounded limit now o c w =
    if-elim (IsBounded limit) o.passed _ _
      (λ _. halt-IsBounded limit done passed_verification c refl w)
      λ _. after_fail-IsBounded limit now o (mark_time now c) (mark_time-Within limit now c w)

pub booked-Within :
    (limit now cost : ℕ) (o : AttemptOutcome) (c : Controller)
    → Within limit c
    → c.attempts_at_tier < attempts_per_tier c
    → Within limit (booked now cost o c)
unfolding booked attempts_per_tier
booked-Within limit now cost o c w next = record {
  ahead = w.ahead;
  low = w.low;
  high = w.high;
  budget = w.budget;
  used = rw length-append (omega (arith, w.used));
  room = omega (arith, next);
}

per_tier-more :
    (n : ℕ) (c : Controller)
    → attempts_per_tier (record c { owner_extra = c.owner_extra + n; reserve_grant = 0 })
      ≡ attempts_per_tier c + n
unfolding attempts_per_tier
per_tier-more n c = ground arith

-- The reserve is spent: the attempts that it adds were counted from the start.
granted-Within :
    (limit : ℕ) (c : Controller)
    → Within limit c
    → Within limit (record c { owner_extra = c.owner_extra + c.reserve_grant; reserve_grant = 0 })
granted-Within limit c w = record {
  ahead = w.ahead;
  low = w.low;
  high = w.high;
  budget = w.budget;
  used = omega (arith, w.used);
  room = omega (arith, w.room, per_tier-more c.reserve_grant c);
}

reopened-IsBounded :
    (limit : ℕ) (c : Controller)
    → 0 < c.reserve_grant
    → Within limit c
    → IsBounded limit (grant c.reserve_grant (record c { reserve_grant = 0 }))
unfolding grant
reopened-IsBounded limit c positive w =
    let more : Controller = record c {
      owner_extra = c.owner_extra + c.reserve_grant;
      reserve_grant = 0;
    } in
    let next : more.attempts_at_tier < attempts_per_tier more =
      omega (arith, w.room, per_tier-more c.reserve_grant c) in
    if-elim (IsBounded limit) (is_stop c.pending.act) _ _
      (λ _.
        settle-IsBounded limit (action repair owner_granted (some repair_kind) more) more
          (granted-Within limit c w) (λ _. next))
      λ _. (granted-Within limit c w, λ _. next)

pub spend_reserve-IsBounded :
    (limit : ℕ) (c : Controller) → IsBounded limit c → IsBounded limit (spend_reserve c)
unfolding spend_reserve
spend_reserve-IsBounded limit c (w, next) =
    if-elim (IsBounded limit) (ltb 0 c.reserve_grant && is_stop c.pending.act) _ _
      (λ h. reopened-IsBounded limit c (ground arith) w) λ _. (w, next)

-- No more attempts are made than the limit, and while another is asked for, fewer.
pub IsBounded-length :
    (limit : ℕ) (c : Controller)
    → IsBounded limit c
    → (length c.history ≤ limit) × (finished c ≡ false → length c.history < limit)
unfolding attempts_per_tier
IsBounded-length limit c (w, next) =
    let most : attempts_per_tier c ≤ c.budget_attempts + extra_of c = ground arith in
    (omega (arith, w.used, w.room, most), λ asks. omega (arith, w.used, next asks, most))
