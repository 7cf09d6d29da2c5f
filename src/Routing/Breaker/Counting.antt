-- ===== src/Routing/Breaker/Counting.antt =====
-- The breaker against an independent count: the failures of a provider since its last success.
use openclaw_ecc_orchestrato.Prelude.{
  leb, if◌then◌else◌, leb→le, Bool-cases, Option-cases, is_some, or_else, str_eq, ℕ, ◌+◌, ◌≤◌, ◌<◌,
  String, ◌≡◌, refl, sym, ◌∙◌, subst, ◌↔◌, ◌⊎◌, inl, inr, true, ◌&&◌, none, some, List, [], ◌∷◌,
  arith, eq_iff,
}
use openclaw_ecc_orchestrato.Prelude.Dict.{get, get-put, get-pop}
use openclaw_ecc_orchestrato.Routing.Breaker.{
  Breaker, closed, half_open, is_opened, new_breaker, position_of, position, failure_count, reopen,
  count_failure, record_failure, record_success,
}

-- What is told to the breaker, in order.
pub data Outcome : Type 0 where
  failure : (now : ℕ) (provider : String) → Outcome
  success : (provider : String) → Outcome

unfoldable pub tell : Outcome → Breaker → Breaker
unfolding record_failure record_success
tell (failure now provider) b = record_failure now provider b
tell (success provider) b = record_success provider b

unfoldable pub tell_all : List Outcome → Breaker → Breaker
unfolding tell
tell_all [] b = b
tell_all (o ∷ os) b = tell_all os (tell o b)

-- The failures of `p` after `n` that have been seen.
count_one : String → Outcome → ℕ → ℕ
count_one p (failure now q) n = if str_eq q p then n + 1 else n
count_one p (success q) n = if str_eq q p then 0 else n

unfoldable pub failures_since : String → List Outcome → ℕ → ℕ
unfolding count_one
failures_since p [] n = n
failures_since p (o ∷ os) n = failures_since p os (count_one p o n)

-- The breaker agrees with `n` failures of `p` since its last success.
pub record Agrees (p : String) (n : ℕ) (b : Breaker) : Type 0 where
  pub positive : 1 ≤ b.failure_threshold
  pub counted : n < b.failure_threshold → failure_count p b ≡ n
  pub full : b.failure_threshold ≤ n → b.failure_threshold ≤ failure_count p b
  pub tripped : is_some (get p b.opened_at) ≡ leb b.failure_threshold n

threshold-tell : (o : Outcome) (b : Breaker) → (tell o b).failure_threshold ≡ b.failure_threshold
unfolding tell
threshold-tell (failure now q) b = ground arith
threshold-tell (success q) b = refl

get-reopen :
    (now : ℕ) (q p : String) (b : Breaker)
    → get p (reopen now q b).opened_at ≡ (if str_eq q p then some now else get p b.opened_at)
unfolding reopen
get-reopen now q p b = get-put q p now b.opened_at

failure_count-reopen :
    (now : ℕ) (q p : String) (b : Breaker) → failure_count p (reopen now q b) ≡ failure_count p b
unfolding reopen failure_count
failure_count-reopen now q p b = refl

failure_count-count_failure :
    (now : ℕ) (q p : String) (b : Breaker)
    → failure_count p (count_failure now q b)
      ≡ (if str_eq q p then failure_count p b + 1 else failure_count p b)
unfolding count_failure failure_count reopen
failure_count-count_failure now q p b =
    ground (arith, eq_iff q p, get-put q p (or_else (get q b.failures) 0 + 1) b.failures)

get-count_failure :
    (now : ℕ) (q p : String) (b : Breaker)
    → get p (count_failure now q b).opened_at ≡ (
        if leb b.failure_threshold (failure_count q b + 1) && str_eq q p
        then some now
        else get p b.opened_at)
unfolding count_failure reopen
get-count_failure now q p b = ground (arith, get-put q p now b.opened_at)

threshold-count_failure :
    (now : ℕ) (q : String) (b : Breaker)
    → (count_failure now q b).failure_threshold ≡ b.failure_threshold
unfolding count_failure reopen
threshold-count_failure now q b = ground arith

threshold-reopen :
    (now : ℕ) (q : String) (b : Breaker) → (reopen now q b).failure_threshold ≡ b.failure_threshold
unfolding reopen
threshold-reopen now q b = refl

reopen-Agrees :
    (now : ℕ) (q p : String) (n : ℕ) (b : Breaker)
    → Agrees p n b
    → (q ≡ p → b.failure_threshold ≤ n)
    → Agrees p (count_one p (failure now q) n) (reopen now q b)
unfolding count_one
reopen-Agrees now q p n b a h =
    let same = failure_count-reopen now q p b in
    let limit = threshold-reopen now q b in
    record {
      positive = rw limit a.positive;
      counted = rw (same, limit) (ground (arith, eq_iff q p, a.counted));
      full = rw (same, limit) (ground (arith, eq_iff q p, a.full));
      tripped = rw (get-reopen, limit) (ground (arith, eq_iff q p, a.tripped));
    }

count_failure-Agrees :
    (now : ℕ) (q p : String) (n : ℕ) (b : Breaker)
    → Agrees p n b
    → Agrees p (count_one p (failure now q) n) (count_failure now q b)
unfolding count_one
count_failure-Agrees now q p n b a =
    let count = failure_count-count_failure now q p b in
    let limit = threshold-count_failure now q b in
    record {
      positive = rw limit a.positive;
      counted = rw (count, limit) (ground (arith, eq_iff q p, a.counted));
      full = rw (count, limit) (ground (arith, eq_iff q p, a.full, a.counted));
      tripped =
          rw (get-count_failure, limit) (ground (arith, eq_iff q p, a.tripped, a.counted, a.full));
    }

record_failure-cases :
    (now : ℕ) (q : String) (b : Breaker)
    → ((is_some (get q b.opened_at) ≡ true) × (record_failure now q b ≡ reopen now q b))
      ⊎ (record_failure now q b ≡ count_failure now q b)
unfolding record_failure position position_of
record_failure-cases now q b = elim (Option-cases (get q b.opened_at)) [
  | inl none_yet ↦ inr (ground (arith, none_yet))
  | inr (opened, e) ↦ elim (Bool-cases (leb (opened + b.cooldown) now)) [
    | inl late ↦ inl (rw e refl, ground (arith, e, late))
    | inr early ↦ inr (ground (arith, e, early))
  ]
]

failure-Agrees :
    (now : ℕ) (q p : String) (n : ℕ) (b : Breaker)
    → Agrees p n b
    → Agrees p (count_one p (failure now q) n) (record_failure now q b)
failure-Agrees now q p n b a = elim (record_failure-cases now q b) [
  | inl (tripped, e) ↦ rw e (
      reopen-Agrees now q p n b a
        (λ same. leb→le b.failure_threshold n (sym a.tripped ∙ rw (← same) tripped)))
  | inr e ↦ rw e (count_failure-Agrees now q p n b a)
]

success-Agrees :
    (q p : String) (n : ℕ) (b : Breaker)
    → Agrees p n b
    → Agrees p (count_one p (success q) n) (record_success q b)
unfolding record_success count_one failure_count
success-Agrees q p n b a = record {
  positive = a.positive;
  counted = ground (arith, eq_iff q p, get-put q p 0 b.failures, a.counted);
  full = ground (arith, eq_iff q p, get-put q p 0 b.failures, a.full, a.positive);
  tripped = ground (arith, eq_iff q p, get-pop q p b.opened_at, a.tripped, a.positive);
}

tell_all-Agrees :
    (os : List Outcome) (p : String) (n : ℕ) (b : Breaker)
    → Agrees p n b
    → Agrees p (failures_since p os n) (tell_all os b)
unfolding tell_all tell failures_since
tell_all-Agrees [] p n b a = a
tell_all-Agrees (failure now q ∷ os) p n b a =
    tell_all-Agrees os p (count_one p (failure now q) n) (record_failure now q b)
      (failure-Agrees now q p n b a)
tell_all-Agrees (success q ∷ os) p n b a =
    tell_all-Agrees os p (count_one p (success q) n) (record_success q b) (success-Agrees q p n b a)

new_breaker-Agrees :
    (threshold cooldown : ℕ) (p : String) (b : Breaker)
    → new_breaker threshold cooldown ≡ some b
    → Agrees p 0 b × (b.failure_threshold ≡ threshold)
unfolding new_breaker failure_count get
new_breaker-Agrees threshold cooldown p b e = ground (arith, e)

position-closed :
    (now : ℕ) (p : String) (n : ℕ) (b : Breaker)
    → Agrees p n b
    → (position now p b ≡ closed) ↔ (n < b.failure_threshold)
unfolding position position_of
position-closed now p n b a = ground (arith, a.tripped)

threshold-tell_all :
    (os : List Outcome) (b : Breaker) → (tell_all os b).failure_threshold ≡ b.failure_threshold
unfolding tell_all
threshold-tell_all [] b = refl
threshold-tell_all (o ∷ os) b = threshold-tell_all os (tell o b) ∙ threshold-tell o b

-- Whatever failures and successes of all providers a new breaker is told, at whatever times, it is
-- closed for a provider exactly when the provider has failed fewer than `failure_threshold` times
-- since its last success.
pub breaker-counts :
    (threshold cooldown now : ℕ) (os : List Outcome) (p : String) (b : Breaker)
    → new_breaker threshold cooldown ≡ some b
    → (position now p (tell_all os b) ≡ closed) ↔ (failures_since p os 0 < threshold)
breaker-counts threshold cooldown now os p b e =
    let (agrees, limit) = new_breaker-Agrees threshold cooldown p b e in
    subst (λ t. (position now p (tell_all os b) ≡ closed) ↔ (failures_since p os 0 < t))
      (threshold-tell_all os b ∙ limit)
      (position-closed now p (failures_since p os 0) (tell_all os b)
        (tell_all-Agrees os p 0 b agrees))

half_open-failure :
    (now : ℕ) (p : String) (b : Breaker)
    → position now p b ≡ half_open
    → record_failure now p b ≡ reopen now p b
unfolding record_failure
half_open-failure now p b h = ground (arith, h)

get-success :
    (p q : String) (b : Breaker)
    → get q (record_success p b).opened_at ≡ (if str_eq p q then none else get q b.opened_at)
unfolding record_success
get-success p q b = get-pop p q b.opened_at

cooldown-reopen : (now : ℕ) (p : String) (b : Breaker) → (reopen now p b).cooldown ≡ b.cooldown
unfolding reopen
cooldown-reopen now p b = refl

cooldown-success : (p : String) (b : Breaker) → (record_success p b).cooldown ≡ b.cooldown
unfolding record_success
cooldown-success p b = refl

position-reopen :
    (now later : ℕ) (p q : String) (b : Breaker)
    → position later q (reopen now p b) ≡ (
        if str_eq p q
        then (if leb (now + b.cooldown) later then half_open else is_opened)
        else position later q b)
unfolding position position_of
position-reopen now later p q b = ground (arith, get-reopen now p q b, cooldown-reopen now p b)

position-success :
    (later : ℕ) (p q : String) (b : Breaker)
    → position later q (record_success p b) ≡ (if str_eq p q then closed else position later q b)
unfolding position position_of
position-success later p q b = ground (arith, get-success p q b, cooldown-success p b)

-- The trial of a half-open breaker: when it fails, the breaker is open for its provider for a whole
-- cooldown from then, and half-open after it; when it succeeds, the breaker is closed.
pub half_open-trial :
    (now later : ℕ) (p : String) (b : Breaker)
    → position now p b ≡ half_open
    → ((position later p (record_failure now p b) ≡ is_opened) ↔ (later < now + b.cooldown))
      × ((position later p (record_failure now p b) ≡ half_open) ↔ (now + b.cooldown ≤ later))
      × (position later p (record_success p b) ≡ closed)
half_open-trial now later p b h =
    rw (half_open-failure now p b h)
      (ground (arith, eq_iff p p, position-reopen now later p p b, position-success later p p b))
