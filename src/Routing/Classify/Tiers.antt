-- ===== src/Routing/Classify/Tiers.antt =====
-- The bounds and the growth of the tiers that `classify` of
-- src/openclaw_ecc_orchestrator/routing/classify.py gives.
use mathlib.Core.Bool.{false≢true}
use openclaw_ecc_orchestrato.Prelude.{
  ltb, Option, none, some, Bool-cases, if◌then◌else◌, if-elim, keep, ℕ, ◌+◌, ◌≤◌, ◌≡◌, refl, ◌⊎◌,
  inl, inr, Bool, true, false, List, [], ◌∷◌, arith,
}
use openclaw_ecc_orchestrato.Prelude.Codes.{Text}
use openclaw_ecc_orchestrato.Routing.Classify.{
  Risk, Signal, mechanical_small, fixture_generation, many_files, many_modules, large_diff, topic,
  no_acceptance_test, previous_attempt_failed, all_signals, Score, gains, losses, total, score_of,
  score_to_tier, risk_floor, max, WorkUnit, DiffStats, fires, signals_of, risk_of, Classified,
  refused_unit, accepted_unit, choose_tier, classify_with, classify,
}

choose_tier-bounds :
    (score minimum maximum : ℕ)
    → minimum ≤ maximum
    → (minimum ≤ choose_tier score minimum maximum) × (choose_tier score minimum maximum ≤ maximum)
unfolding choose_tier
choose_tier-bounds score minimum maximum h = ground (arith, h)

-- The tiers of an accepted classification, from the floor of its risk up.
abbrev pub Ordered : WorkUnit → Classified → Type 0
Ordered u c =
    (risk_floor c.risk ≤ c.minimum_tier)
    × (u.initial_tier ≤ c.minimum_tier)
    × ((n : ℕ) × (c.chosen_tier ≡ some n) × (c.minimum_tier ≤ n) × (n ≤ c.maximum_tier))

-- A classification that is accepted was not refused for its floor.
pub classify_with-accepted :
    (P : Classified → Type 0) (u : WorkUnit) (d : DiffStats) (signals : List Signal) (risk : Risk)
    → (classify_with u d signals risk).accepted ≡ true
    → (risk_floor risk ≤ u.maximum_tier → P (accepted_unit u d signals risk))
    → P (classify_with u d signals risk)
unfolding classify_with refused_unit
classify_with-accepted P u d signals risk h k =
    if-elim (λ (c : Classified). c.accepted ≡ true → P c) (ltb u.maximum_tier (risk_floor risk))
      (refused_unit u signals risk) (accepted_unit u d signals risk)
      (λ _ no. absurd (false≢true no)) (λ fits _. k (ground (arith, fits))) h

-- Where a unit is accepted and its initial tier is at most its maximum, which the validator of work units
-- asks for, the floor of its risk and its initial tier are at most the minimum tier, that is at most the
-- chosen one, and that at most the maximum.
pub classify-Ordered :
    (lower : Text → Text) (patterns : List Text) (retry : Bool) (u : WorkUnit) (d : DiffStats)
    → u.initial_tier ≤ u.maximum_tier
    → (classify lower patterns retry u d).accepted ≡ true
    → Ordered u (classify lower patterns retry u d)
unfolding classify accepted_unit
classify-Ordered lower patterns retry u d valid accepted =
    let signals = signals_of lower retry u d in
    let risk = risk_of patterns u d in
    classify_with-accepted (Ordered u) u d signals risk accepted (λ fits.
      let floor = risk_floor risk in
      let low_enough : max floor u.initial_tier ≤ u.maximum_tier = ground (arith, fits, valid) in
      let (above, below) =
        choose_tier-bounds (score_to_tier (score_of signals)) (max floor u.initial_tier)
          u.maximum_tier low_enough in
      (ground arith, ground arith, (_, refl, above, below)))

total-keep :
    (points : Signal → ℕ) (f : Signal → Bool) (s : Signal) (l : List Signal)
    → total points (keep f (s ∷ l)) ≡ (if f s then points s else 0) + total points (keep f l)
total-keep points f s l =
    if-elim (λ k. total points k ≡ (if f s then points s else 0) + total points (keep f l)) (f s)
      (s ∷ keep f l) (keep f l) (λ h. ground (arith, h)) (λ h. ground (arith, h))

module _ (f g : Signal → Bool) (more : (s : Signal) → f s ≡ true → g s ≡ true) where
  gains-keep : (l : List Signal) → total gains (keep f l) ≤ total gains (keep g l)
  gains-keep [] = omega arith
  gains-keep (s ∷ l) =
      ground (arith, total-keep gains f s l, total-keep gains g s l, more s, gains-keep l)

module _ (f g : Signal → Bool) (free : (s : Signal) → (f s ≡ g s) ⊎ (losses s ≡ 0)) where
  losses-keep : (l : List Signal) → total losses (keep f l) ≡ total losses (keep g l)
  losses-keep [] = refl
  losses-keep (s ∷ l) =
      let split_f = total-keep losses f s l in
      let split_g = total-keep losses g s l in
      elim (free s) [
        | inl same ↦ ground (arith, same, split_f, split_g, losses-keep l)
        | inr nothing ↦ ground (arith, nothing, split_f, split_g, losses-keep l)
      ]

-- The signals that fire at the first attempt fire after a failed one.
fires-retry :
    (lower : Text → Text) (u : WorkUnit) (d : DiffStats) (s : Signal)
    → fires lower false u d s ≡ true
    → fires lower true u d s ≡ true
unfolding fires
fires-retry lower u d previous_attempt_failed h = refl
fires-retry lower u d mechanical_small h = h
fires-retry lower u d fixture_generation h = h
fires-retry lower u d many_files h = h
fires-retry lower u d many_modules h = h
fires-retry lower u d large_diff h = h
fires-retry lower u d (topic t) h = h
fires-retry lower u d no_acceptance_test h = h

fires-free :
    (lower : Text → Text) (u : WorkUnit) (d : DiffStats) (s : Signal)
    → (fires lower false u d s ≡ fires lower true u d s) ⊎ (losses s ≡ 0)
unfolding fires
fires-free lower u d previous_attempt_failed = inr refl
fires-free lower u d mechanical_small = inl refl
fires-free lower u d fixture_generation = inl refl
fires-free lower u d many_files = inl refl
fires-free lower u d many_modules = inl refl
fires-free lower u d large_diff = inl refl
fires-free lower u d (topic t) = inl refl
fires-free lower u d no_acceptance_test = inl refl

score_to_tier_mono :
    (a b : Score) → a.gained ≤ b.gained → a.lost ≡ b.lost → score_to_tier a ≤ score_to_tier b
unfolding score_to_tier
score_to_tier_mono a b h e = ground (arith, h, e)

choose_tier_mono :
    (a b minimum maximum : ℕ)
    → a ≤ b
    → choose_tier a minimum maximum ≤ choose_tier b minimum maximum
unfolding choose_tier
choose_tier_mono a b minimum maximum h = ground (arith, h)

score_of-retry :
    (lower : Text → Text) (u : WorkUnit) (d : DiffStats)
    → score_to_tier (score_of (signals_of lower false u d))
      ≤ score_to_tier (score_of (signals_of lower true u d))
unfolding score_of signals_of
score_of-retry lower u d =
    let before = fires lower false u d in
    let after = fires lower true u d in
    score_to_tier_mono (score_of (keep before all_signals)) (score_of (keep after all_signals))
      (gains-keep before after (fires-retry lower u d) all_signals)
      (losses-keep before after (fires-free lower u d) all_signals)

-- No tier, or at least the tier.
abbrev pub NotBelow : Option ℕ → Option ℕ → Type 0
NotBelow none none = Unit
NotBelow (some a) (some b) = a ≤ b
NotBelow _ _ = ⊥

-- What a failed attempt leaves, or raises.
abbrev pub Raised : Classified → Classified → Type 0
Raised before after =
    NotBelow before.chosen_tier after.chosen_tier
    × (before.risk ≡ after.risk)
    × (before.minimum_tier ≡ after.minimum_tier)

classify_with-Raised :
    (u : WorkUnit) (d : DiffStats) (risk : Risk) (old new : List Signal)
    → score_to_tier (score_of old) ≤ score_to_tier (score_of new)
    → Raised (classify_with u d old risk) (classify_with u d new risk)
unfolding classify_with refused_unit accepted_unit
classify_with-Raised u d risk old new h = elim (Bool-cases (ltb u.maximum_tier (risk_floor risk))) [
  | inl refused ↦ rw refused (tt, refl, refl)
  | inr fits ↦
      rw fits
        (choose_tier_mono _ _ (max (risk_floor risk) u.initial_tier) u.maximum_tier h, refl, refl)
]

-- After a failed attempt a unit is refused as before, or is given at least the tier of before; its risk and
-- its minimum tier stay.
pub classify-retry :
    (lower : Text → Text) (patterns : List Text) (u : WorkUnit) (d : DiffStats)
    → Raised (classify lower patterns false u d) (classify lower patterns true u d)
unfolding classify
classify-retry lower patterns u d =
    classify_with-Raised u d (risk_of patterns u d) (signals_of lower false u d)
      (signals_of lower true u d) (score_of-retry lower u d)
