-- ===== src/Routing/Classify/Reviews.antt =====
-- The review that `classify` of src/openclaw_ecc_orchestrator/routing/classify.py asks for.
use openclaw_ecc_orchestrato.Routing.Classify.Tiers.{classify_with-accepted}
use openclaw_ecc_orchestrato.Prelude.{
  ◌++◌, ltb, ◌<◌, either_split, not, none, some, has, if-elim, any, keep, either_left, either_right,
  ◌≤◌, ◌≡◌, refl, sym, ap, ◌∙◌, subst, ◌⊎◌, inl, inr, Bool, true, false, ◌||◌, List, [], ◌∷◌, arith,
}
use openclaw_ecc_orchestrato.Prelude.Codes.{Text, text_eq, text_eq→eq}
use openclaw_ecc_orchestrato.Routing.Classify.Tokens.{
  Topic, database, security, concurrency, architecture, path_signal,
}
use openclaw_ecc_orchestrato.Routing.Classify.{
  Risk, low, medium, high, is_high, Signal, mechanical_small, fixture_generation, many_files,
  many_modules, large_diff, topic, no_acceptance_test, previous_attempt_failed, all_signals,
  risk_floor, WorkUnit, DiffStats, all_paths, raises, fires, signals_of, touched, risk_of,
  Classified, refused_unit, accepted_unit, holds_text, trait_name, asks_secrets, sensitive,
  is_small, tier_of_review, classify_with, classify,
}

-- The strictest review: of tier 2, independent of the author, and of a unit that does not count as small.
abbrev pub Strict : Classified → Type 0
Strict c =
    (c.review_tier ≡ some 2)
    × (c.requires_independent_review ≡ true)
    × (c.small_deterministic ≡ false)

accepted_unit-Strict :
    (u : WorkUnit) (d : DiffStats) (signals : List Signal) (risk : Risk)
    → (sensitive signals || is_high risk) ≡ true
    → Strict (accepted_unit u d signals risk)
unfolding accepted_unit tier_of_review is_small
accepted_unit-Strict u d signals high h = (ground arith, ground arith, ground arith)
accepted_unit-Strict u d signals low h =
    let found : sensitive signals ≡ true = ground (arith, h) in
    (ground (arith, found), ground (arith, found), ground (arith, found))
accepted_unit-Strict u d signals medium h =
    let found : sensitive signals ≡ true = ground (arith, h) in
    (ground (arith, found), ground (arith, found), ground (arith, found))

sensitive_cons : (s : Signal) (ss : List Signal) → sensitive ss ≡ true → sensitive (s ∷ ss) ≡ true
unfolding sensitive
sensitive_cons (topic database) ss h = refl
sensitive_cons (topic security) ss h = refl
sensitive_cons (topic architecture) ss h = refl
sensitive_cons (topic concurrency) ss h = h
sensitive_cons mechanical_small ss h = h
sensitive_cons fixture_generation ss h = h
sensitive_cons many_files ss h = h
sensitive_cons many_modules ss h = h
sensitive_cons large_diff ss h = h
sensitive_cons no_acceptance_test ss h = h
sensitive_cons previous_attempt_failed ss h = h

-- The topics whose review is the strictest.
abbrev pub is_sensitive : Topic → Bool
is_sensitive concurrency = false
is_sensitive _ = true

-- The topic is among the signals.
abbrev Listed : Topic → List Signal → Type 0
Listed t [] = ⊥
Listed t (s ∷ ss) = (s ≡ topic t) ⊎ Listed t ss

topic-sensitive :
    (t : Topic) (ss : List Signal) → is_sensitive t ≡ true → sensitive (topic t ∷ ss) ≡ true
unfolding sensitive
topic-sensitive database ss h = refl
topic-sensitive security ss h = refl
topic-sensitive architecture ss h = refl
topic-sensitive concurrency ss h = absurd (ground (arith, h))

sensitive-keep :
    (f : Signal → Bool) (t : Topic) (l : List Signal)
    → is_sensitive t ≡ true
    → f (topic t) ≡ true
    → Listed t l
    → sensitive (keep f l) ≡ true
sensitive-keep f t [] h fires there = absurd there
sensitive-keep f t (s ∷ l) h fires (inl same) =
    let chosen : f s ≡ true = ap f same ∙ fires in
    if-elim (λ k. sensitive k ≡ true) (f s) (s ∷ keep f l) (keep f l)
      (λ _.
        subst (λ x. sensitive (x ∷ keep f l) ≡ true) (sym same) (topic-sensitive t (keep f l) h))
      (λ no_fire. absurd (ground (arith, chosen, no_fire)))
sensitive-keep f t (s ∷ l) h fires (inr later) =
    let rest = sensitive-keep f t l h fires later in
    if-elim (λ k. sensitive k ≡ true) (f s) (s ∷ keep f l) (keep f l)
      (λ _. sensitive_cons s (keep f l) rest) (λ _. rest)

all_signals-Listed : (t : Topic) → Listed t all_signals
all_signals-Listed database = inr (inr (inr (inr (inr (inl refl)))))
all_signals-Listed security = inr (inr (inr (inr (inr (inr (inl refl))))))
all_signals-Listed concurrency = inr (inr (inr (inr (inr (inr (inr (inl refl)))))))
all_signals-Listed architecture = inr (inr (inr (inr (inr (inr (inr (inr (inl refl))))))))

fires_topic :
    (lower : Text → Text) (retry : Bool) (u : WorkUnit) (d : DiffStats) (t : Topic)
    → raises lower u d t ≡ true
    → fires lower retry u d (topic t) ≡ true
unfolding fires
fires_topic lower retry u d t h = h

signals_of-sensitive :
    (lower : Text → Text) (retry : Bool) (u : WorkUnit) (d : DiffStats) (t : Topic)
    → is_sensitive t ≡ true
    → raises lower u d t ≡ true
    → sensitive (signals_of lower retry u d) ≡ true
unfolding signals_of
signals_of-sensitive lower retry u d t h raised =
    sensitive-keep (fires lower retry u d) t all_signals h (fires_topic lower retry u d t raised)
      (all_signals-Listed t)

any-append : (f : Text → Bool) (xs ys : List Text) → any f (xs ++ ys) ≡ (any f xs || any f ys)
any-append f [] ys = refl
any-append f (x ∷ xs) ys = ground (arith, any-append f xs ys)

holds_text-any :
    (f : Text → Bool) (p : Text) (xs : List Text)
    → holds_text p xs ≡ true
    → f p ≡ true
    → any f xs ≡ true
holds_text-any f p [] h yes_p = absurd (ground (arith, h))
holds_text-any f p (x ∷ xs) h yes_p = elim (either_split (text_eq p x) (holds_text p xs) h) [
  | inl here ↦ either_left (any f xs) (ap f (sym (text_eq→eq p x here)) ∙ yes_p)
  | inr later ↦ either_right (f x) (holds_text-any f p xs later yes_p)
]

any-all_paths :
    (f : Text → Bool) (xs ds : List Text)
    → any f ds ≡ true
    → any f (xs ++ keep (λ p. not (holds_text p xs)) ds) ≡ true
any-all_paths f xs [] h = absurd (ground (arith, h))
any-all_paths f xs (p ∷ ds) h =
    let kept = keep (λ q. not (holds_text q xs)) ds in
    if-elim (λ l. any f (xs ++ l) ≡ true) (not (holds_text p xs)) (p ∷ kept) kept
      (λ _. elim (either_split (f p) (any f ds) h) [
        | inl here ↦
            any-append f xs (p ∷ kept) ∙ either_right (any f xs) (either_left (any f kept) here)
        | inr later ↦
            let there = sym (any-append f xs kept) ∙ any-all_paths f xs ds later in
            any-append f xs (p ∷ kept) ∙ ground (arith, there)
      ])
      (λ known. elim (either_split (f p) (any f ds) h) [
        | inl here ↦
            any-append f xs kept
            ∙ either_left (any f kept) (holds_text-any f p xs (ground (arith, known)) here)
        | inr later ↦ any-all_paths f xs ds later
      ])

-- The unit touches the topic: it has its trait, or a path of its scope or of the diff names it, or it is
-- security and the unit asks for secrets.
abbrev pub Touches : (Text → Text) → WorkUnit → DiffStats → Topic → Type 0
Touches lower u d t =
    (has (trait_name t) u.traits ≡ true)
    ⊎ ((any (λ p. path_signal lower p t) u.scope_files ≡ true)
        ⊎ ((any (λ p. path_signal lower p t) d.files ≡ true)
            ⊎ ((t ≡ security) × (u.secrets ≡ true))))

Touches-raises :
    (lower : Text → Text) (u : WorkUnit) (d : DiffStats) (t : Topic)
    → Touches lower u d t
    → raises lower u d t ≡ true
unfolding raises
Touches-raises lower u d t h =
    let trait = has (trait_name t) u.traits in
    let f : Text → Bool = λ p. path_signal lower p t in
    let news = keep (λ p. not (holds_text p u.scope_files)) d.files in
    elim h [
      | inl a ↦ either_left (any f (all_paths u d) || asks_secrets t u) a
      | inr (inl b) ↦ either_right trait (
          either_left (asks_secrets t u)
            (any-append f u.scope_files news ∙ either_left (any f news) b))
      | inr (inr (inl b)) ↦
          either_right trait
            (either_left (asks_secrets t u) (any-all_paths f u.scope_files d.files b))
      | inr (inr (inr (is, asks))) ↦
          either_right trait
            (either_right (any f (all_paths u d)) (ap (λ x. asks_secrets x u) is ∙ asks))
    ]

-- An accepted unit that touches a database, security or an interface, by a trait, by a path of its scope
-- or of the diff, or, for security, by asking for secrets, gets the strictest review.
pub classify-Strict :
    (lower : Text → Text) (patterns : List Text) (retry : Bool) (u : WorkUnit) (d : DiffStats)
    (t : Topic)
    → is_sensitive t ≡ true
    → Touches lower u d t
    → (classify lower patterns retry u d).accepted ≡ true
    → Strict (classify lower patterns retry u d)
unfolding classify
classify-Strict lower patterns retry u d t h touches accepted =
    let signals = signals_of lower retry u d in
    let found = signals_of-sensitive lower retry u d t h (Touches-raises lower u d t touches) in
    classify_with-accepted Strict u d signals (risk_of patterns u d) accepted
      (λ _. accepted_unit-Strict u d signals (risk_of patterns u d) (either_left _ found))

risk_of-high :
    (patterns : List Text) (u : WorkUnit) (d : DiffStats)
    → any (λ p. touched p (all_paths u d)) patterns ≡ true
    → risk_of patterns u d ≡ high
unfolding risk_of
risk_of-high patterns u d h = rw h refl

-- The risk is high. Below a maximum tier of 2 the unit is refused, with neither a tier nor a review; else it
-- is accepted at tier 2 at least, with the strictest review.
abbrev pub HighRisk : WorkUnit → Classified → Type 0
HighRisk u c =
    (c.risk ≡ high)
    × (((u.maximum_tier < 2)
          × (c.accepted ≡ false)
          × (c.chosen_tier ≡ none)
          × (c.review_tier ≡ none))
        ⊎ ((2 ≤ u.maximum_tier) × (c.accepted ≡ true) × (2 ≤ c.minimum_tier) × Strict c))

classify_with-HighRisk :
    (u : WorkUnit) (d : DiffStats) (signals : List Signal)
    → HighRisk u (classify_with u d signals high)
unfolding classify_with refused_unit accepted_unit risk_floor
classify_with-HighRisk u d signals =
    if-elim (HighRisk u) (ltb u.maximum_tier 2) (refused_unit u signals high)
      (accepted_unit u d signals high)
      (λ small. (refl, inl (ground (arith, small), refl, refl, refl)))
      (λ fits. (
        refl,
        inr (
          ground (arith, fits),
          refl,
          ground arith,
          accepted_unit-Strict u d signals high (either_right (sensitive signals) refl),
        ),
      ))

-- A unit one of whose paths a high risk pattern may touch has high risk: with a maximum tier below 2 it is
-- refused, and has neither a tier nor a review; otherwise it is accepted, its minimum tier is 2 at least, and
-- it gets the strictest review.
pub classify-HighRisk :
    (lower : Text → Text) (patterns : List Text) (retry : Bool) (u : WorkUnit) (d : DiffStats)
    → any (λ p. touched p (all_paths u d)) patterns ≡ true
    → HighRisk u (classify lower patterns retry u d)
unfolding classify
classify-HighRisk lower patterns retry u d h =
    let signals = signals_of lower retry u d in
    subst (λ r. HighRisk u (classify_with u d signals r)) (sym (risk_of-high patterns u d h))
      (classify_with-HighRisk u d signals)
