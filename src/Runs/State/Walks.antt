-- ===== src/Runs/State/Walks.antt =====
-- What every history of a unit, a walk along `TRANSITIONS`, goes through.
use openclaw_ecc_orchestrato.Prelude.{
  Bool-cases, ◌≡◌, refl, sym, ap, ◌≢◌, ◌⊎◌, inl, inr, true, false, List, [], ◌∷◌, arith,
}
use openclaw_ecc_orchestrato.Runs.Result.{ok}
use openclaw_ecc_orchestrato.Runs.State.{
  State, pending, reviewing, queued_for_merge, merged, cancelled, state_eq, one_of, transitions,
  terminal, check_transition,
}

-- The states that a unit enters after `s`, each by a legal transition.
abbrev pub Walk : State → List State → Type 0
Walk s [] = Unit
Walk s (t ∷ rest) = (check_transition s t ≡ ok tt) × Walk t rest

-- A state has no way out exactly when it is terminal, and any other can be cancelled.
pub transitions-terminal :
    (s : State)
    → (one_of s terminal ≡ true × (transitions s ≡ []))
      ⊎ ((one_of s terminal ≡ false) × (check_transition s cancelled ≡ ok tt))
unfolding transitions terminal check_transition
transitions-terminal pending = ground arith
transitions-terminal _ = ground arith

into_merged : (s : State) → check_transition s merged ≡ ok tt → s ≡ queued_for_merge
unfolding check_transition
into_merged pending h = ground arith
into_merged _ h = ground arith

into_queued : (s : State) → check_transition s queued_for_merge ≡ ok tt → s ≡ reviewing
unfolding check_transition
into_queued pending h = ground arith
into_queued _ h = ground arith

state_eq→eq : (s t : State) → state_eq s t ≡ true → s ≡ t
state_eq→eq pending t h = ground arith
state_eq→eq _ t h = ground arith

state_eq_refl : (s : State) → state_eq s s ≡ true
state_eq_refl pending = refl
state_eq_refl _ = refl

-- A state that only `a` leads into is entered after `a`.
one_of_gate :
    (a b : State) (into : (s : State) → check_transition s b ≡ ok tt → s ≡ a) (s : State)
    (ts : List State)
    → s ≢ a
    → Walk s ts
    → one_of b ts ≡ true
    → one_of a ts ≡ true
one_of_gate a b into s [] h w m = m
one_of_gate a b into s (t ∷ ts) h w m = elim (Bool-cases (state_eq a t)) [
  | inl here ↦ rw here refl
  | inr other ↦ elim (Bool-cases (state_eq b t)) [
    | inl at ↦ absurd (h (into s (rw (sym (state_eq→eq b t at)) at w.0)))
    | inr later ↦
        let t_ne : t ≢ a = λ e. cc (state_eq_refl a, ap (state_eq a) e, other) in
        let rest = one_of_gate a b into t ts t_ne w.1 (rw later at m) in rw other rest
  ]
]

-- A unit that is merged in its history, from `pending` on, has been queued for the merge, and has
-- been reviewed.
pub merged-needs_review :
    (ts : List State)
    → Walk pending ts
    → one_of merged ts ≡ true
    → (one_of queued_for_merge ts ≡ true) × (one_of reviewing ts ≡ true)
merged-needs_review ts w m =
    let queued = one_of_gate queued_for_merge merged into_merged pending ts (ground arith) w m in
    (queued, one_of_gate reviewing queued_for_merge into_queued pending ts (ground arith) w queued)
