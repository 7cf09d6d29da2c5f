-- ===== src/MergeQueue/Dispatch/Parallel.antt =====
-- No two units that overlap are chosen together, src/openclaw_ecc_orchestrator/merge_queue/dispatch.py.
use openclaw_ecc_orchestrato.Prelude.{
  if◌then◌else◌, if-elim, is_nil, All, str_eq, either_split, not-false, ◌⊎◌, inl, inr, false, ◌≡◌,
  refl, true, not, ◌||◌, List, [], ◌∷◌, arith, eq_iff,
}
use openclaw_ecc_orchestrato.MergeQueue.Conflicts.{scope_overlaps, clash}
use openclaw_ecc_orchestrato.MergeQueue.Conflicts.Meeting.{Apart, clash-Apart}
use openclaw_ecc_orchestrato.MergeQueue.Dispatch.{files, Hit, conflicts_with, Plan}
use openclaw_ecc_orchestrato.Runs.Document.{PlanUnit}

-- Two units that may run side by side: one unit, or two whose scopes do not overlap.
abbrev pub Parallel : PlanUnit → PlanUnit → Type 0
Parallel u o = (str_eq o.id u.id || not (clash (files u) (files o))) ≡ true

pub conflicts_with-Parallel :
    (u : PlanUnit) (others : List PlanUnit) → conflicts_with u others ≡ [] → All (Parallel u) others
unfolding conflicts_with clash
conflicts_with-Parallel u [] h = tt
conflicts_with-Parallel u (o ∷ others) h =
    let overlaps = scope_overlaps (files u) (files o) in
    let rest = conflicts_with u others in
    let hit : Hit = record { unit_id = o.id; overlaps = overlaps } in
    let Goal : List Hit → Type 0 = λ l. l ≡ [] → All (Parallel u) (o ∷ others) in
    if-elim Goal (str_eq o.id u.id) rest (if is_nil overlaps then rest else hit ∷ rest)
      (λ same e. (ground (arith, same), conflicts_with-Parallel u others e))
      (λ _.
        if-elim Goal (is_nil overlaps) rest (hit ∷ rest)
          (λ clear e. (ground (arith, clear), conflicts_with-Parallel u others e))
          (λ _ e. absurd cc))
      h

-- Each chosen unit may run beside every unit that is active, and beside every chosen one.
abbrev AllParallel : List PlanUnit → Plan → Type 0
AllParallel busy p = All (λ u. All (Parallel u) busy × All (Parallel u) p.chosen) p.chosen

pub is_nil-eq {ℓ} : {A : Type ℓ} (xs : List A) → is_nil xs ≡ true → xs ≡ []
is_nil-eq [] h = refl
is_nil-eq (x ∷ xs) h = absurd cc

-- One unit, or two whose scopes are not empty and name no file together.
abbrev pub Disjoint : PlanUnit → PlanUnit → Type 0
Disjoint u o =
    (o.id ≡ u.id)
    ⊎ ((is_nil (files u) ≡ false) × (is_nil (files o) ≡ false) × Apart (files u) (files o))

pub Parallel-Disjoint : (u o : PlanUnit) → Parallel u o → Disjoint u o
Parallel-Disjoint u o h =
    elim (either_split (str_eq o.id u.id) (not (clash (files u) (files o))) h) [
      | inl same ↦ inl ((eq_iff o.id u.id).0 same)
      | inr clear ↦ inr (clash-Apart (files u) (files o) (not-false _ clear))
    ]
