-- ===== src/MergeQueue/Dispatch/Progress.antt =====
-- How many units `plan_dispatch` of src/openclaw_ecc_orchestrator/merge_queue/dispatch.py chooses, and that it
-- chooses one where it can.
use mathlib.Core.Bool.{false≢true}
use mathlib.Core.List.{append-nil, append_assoc}
use openclaw_ecc_orchestrato.Prelude.{
  All, str_eq, String, zero, ◌≢◌, if◌then◌else◌, or_else, if-elim, length, is_nil, length-append, ℕ,
  suc, ◌+◌, ◌≤◌, ◌<◌, ◌≡◌, refl, sym, ap, ◌∙◌, subst, false, Option, none, some, List, [], ◌∷◌,
  ◌++◌, arith,
}
use openclaw_ecc_orchestrato.MergeQueue.Dispatch.Parallel.{is_nil-eq}
use openclaw_ecc_orchestrato.MergeQueue.Dispatch.{
  Deferred, conflicts_with, no_worker, scope_overlap, Plan, put_off, choose, full, consider, sweep,
  plan_dispatch,
}
use openclaw_ecc_orchestrato.Runs.Document.{PlanUnit}

-- The chosen units are at most the limit, and with those deferred they are `n`.
abbrev pub Counted : Option ℕ → ℕ → Plan → Type 0
Counted limit n p =
    ((most : ℕ) → limit ≡ some most → length p.chosen ≤ most)
    × (length p.chosen + length p.deferred ≡ n)

full_room : (limit : Option ℕ) (n most : ℕ) → full limit n ≡ false → limit ≡ some most → n < most
full_room none n most h e = cc
full_room (some limit) n most h e =
    let same : limit ≡ most = ap (λ o. or_else o 0) e in ground (arith, h, same)

consider-Counted :
    (busy : List PlanUnit) (limit : Option ℕ) (u : PlanUnit) (p : Plan) (n : ℕ)
    → Counted limit n p
    → Counted limit (n + 1) (consider busy limit u p)
unfolding consider
consider-Counted busy limit u p n (most, all_there) =
    let hits = conflicts_with u (busy ++ p.chosen) in
    let Goal : Plan → Type 0 = Counted limit (n + 1) in
    if-elim Goal (full limit (length p.chosen)) (put_off u [] no_worker p)
      (if is_nil hits then choose u p else put_off u hits scope_overlap p)
      (λ _. (most, omega (arith, all_there, length-append p.deferred (_ ∷ []))))
      (λ room.
        if-elim Goal (is_nil hits) (choose u p) (put_off u hits scope_overlap p)
          (λ _.
            let grown = length-append p.chosen (u ∷ []) in
            (
              λ m e. omega (arith, grown, full_room limit (length p.chosen) m room e),
              omega (arith, all_there, grown),
            ))
          (λ _. (most, omega (arith, all_there, length-append p.deferred (_ ∷ [])))))

sweep-Counted :
    (busy : List PlanUnit) (limit : Option ℕ) (us : List PlanUnit) (p : Plan) (n : ℕ)
    → Counted limit n p
    → Counted limit (n + length us) (sweep busy limit us p)
unfolding sweep
sweep-Counted busy limit [] p n h = subst (λ k. Counted limit k p) (omega arith) h
sweep-Counted busy limit (u ∷ us) p n h =
    subst (λ k. Counted limit k (sweep busy limit us (consider busy limit u p))) (omega arith)
      (sweep-Counted busy limit us (consider busy limit u p) (n + 1)
        (consider-Counted busy limit u p n h))

-- How often the id comes among units, and among what was deferred.
abbrev pub times : String → List PlanUnit → ℕ
times k [] = 0
times k (u ∷ us) = (if str_eq u.id k then 1 else 0) + times k us

abbrev pub times_deferred : String → List Deferred → ℕ
times_deferred k [] = 0
times_deferred k (d ∷ ds) = (if str_eq d.unit_id k then 1 else 0) + times_deferred k ds

times-append : (k : String) (us vs : List PlanUnit) → times k (us ++ vs) ≡ times k us + times k vs
times-append k [] vs = omega arith
times-append k (u ∷ us) vs = omega (arith, times-append k us vs)

times_deferred-append :
    (k : String) (ds es : List Deferred)
    → times_deferred k (ds ++ es) ≡ times_deferred k ds + times_deferred k es
times_deferred-append k [] es = omega arith
times_deferred-append k (d ∷ ds) es = omega (arith, times_deferred-append k ds es)

abbrev placed : String → Plan → ℕ
placed k p = times k p.chosen + times_deferred k p.deferred

consider-placed :
    (k : String) (busy : List PlanUnit) (limit : Option ℕ) (u : PlanUnit) (p : Plan)
    → placed k (consider busy limit u p) ≡ placed k p + times k (u ∷ [])
unfolding consider
consider-placed k busy limit u p =
    let hits = conflicts_with u (busy ++ p.chosen) in
    let Goal : Plan → Type 0 = λ q. placed k q ≡ placed k p + times k (u ∷ []) in
    if-elim Goal (full limit (length p.chosen)) (put_off u [] no_worker p)
      (if is_nil hits then choose u p else put_off u hits scope_overlap p)
      (λ _. omega (arith, times_deferred-append k p.deferred (_ ∷ [])))
      (λ _.
        if-elim Goal (is_nil hits) (choose u p) (put_off u hits scope_overlap p)
          (λ _. omega (arith, times-append k p.chosen (u ∷ [])))
          (λ _. omega (arith, times_deferred-append k p.deferred (_ ∷ []))))

sweep-placed :
    (k : String) (busy : List PlanUnit) (limit : Option ℕ) (us : List PlanUnit) (p : Plan)
    → placed k (sweep busy limit us p) ≡ placed k p + times k us
unfolding sweep
sweep-placed k busy limit [] p = omega arith
sweep-placed k busy limit (u ∷ us) p = omega (
  arith,
  sweep-placed k busy limit us (consider busy limit u p),
  consider-placed k busy limit u p,
)

-- `plan_dispatch` chooses no more units than the limit, and every candidate is either chosen or deferred under
-- its own id: an id comes among the chosen and the deferred together as often as among the candidates, and
-- there are as many of them as candidates.
pub plan_dispatch-Counted :
    (candidates busy : List PlanUnit) (limit : Option ℕ) (k : String)
    → Counted limit (length candidates) (plan_dispatch candidates busy limit)
      × (times k (plan_dispatch candidates busy limit).chosen
            + times_deferred k (plan_dispatch candidates busy limit).deferred
          ≡ times k candidates)
unfolding plan_dispatch
plan_dispatch-Counted candidates busy limit k =
    let none_yet : Plan = record { chosen = []; deferred = [] } in
    (
      subst (λ n. Counted limit n (sweep busy limit candidates none_yet)) (omega arith)
          (sweep-Counted busy limit candidates none_yet 0 (λ m e. omega arith, refl)),
      omega (arith, sweep-placed k busy limit candidates none_yet),
    )

-- The units chosen so far stay in front.
abbrev Keeps : List PlanUnit → List PlanUnit → Type 0
Keeps before after = (more : List PlanUnit) × (after ≡ before ++ more)

Keeps-refl : (us : List PlanUnit) → Keeps us us
Keeps-refl us = ([], sym (append-nil us))

Keeps-trans : (xs ys zs : List PlanUnit) → Keeps xs ys → Keeps ys zs → Keeps xs zs
Keeps-trans xs ys zs (m, e) (k, f) = (m ++ k, f ∙ ap (λ l. l ++ k) e ∙ append_assoc xs m k)

consider-Keeps :
    (busy : List PlanUnit) (limit : Option ℕ) (u : PlanUnit) (p : Plan)
    → Keeps p.chosen (consider busy limit u p).chosen
unfolding consider
consider-Keeps busy limit u p =
    let hits = conflicts_with u (busy ++ p.chosen) in
    let Goal : Plan → Type 0 = λ q. Keeps p.chosen q.chosen in
    if-elim Goal (full limit (length p.chosen)) (put_off u [] no_worker p)
      (if is_nil hits then choose u p else put_off u hits scope_overlap p)
      (λ _. Keeps-refl p.chosen)
      (λ _.
        if-elim Goal (is_nil hits) (choose u p) (put_off u hits scope_overlap p)
          (λ _. (u ∷ [], refl)) (λ _. Keeps-refl p.chosen))

sweep-Keeps :
    (busy : List PlanUnit) (limit : Option ℕ) (us : List PlanUnit) (p : Plan)
    → Keeps p.chosen (sweep busy limit us p).chosen
unfolding sweep
sweep-Keeps busy limit [] p = Keeps-refl p.chosen
sweep-Keeps busy limit (u ∷ us) p =
    Keeps-trans _ _ _ (consider-Keeps busy limit u p)
      (sweep-Keeps busy limit us (consider busy limit u p))

consider-first :
    (u : PlanUnit) (busy : List PlanUnit) (limit : Option ℕ) (p : Plan)
    → full limit 0 ≡ false
    → conflicts_with u busy ≡ []
    → p.chosen ≡ []
    → (consider busy limit u p).chosen ≡ u ∷ []
unfolding consider
consider-first u busy limit p room clear nothing =
    let hits = conflicts_with u (busy ++ p.chosen) in
    let Goal : Plan → Type 0 = λ q. q.chosen ≡ u ∷ [] in
    let no_hits : hits ≡ [] =
      ap (λ l. conflicts_with u (busy ++ l)) nothing
      ∙ (ap (conflicts_with u) (append-nil busy) ∙ clear) in
    let still_room : full limit (length p.chosen) ≡ false =
      ap (λ l. full limit (length l)) nothing ∙ room in
    if-elim Goal (full limit (length p.chosen)) (put_off u [] no_worker p)
      (if is_nil hits then choose u p else put_off u hits scope_overlap p)
      (λ h. absurd (false≢true (sym still_room ∙ h)))
      (λ _.
        if-elim Goal (is_nil hits) (choose u p) (put_off u hits scope_overlap p)
          (λ _. ap (λ l. l ++ u ∷ []) nothing)
          (λ h. absurd (false≢true (sym h ∙ ap is_nil no_hits))))

consider-blocked :
    (u : PlanUnit) (busy : List PlanUnit) (limit : Option ℕ) (p : Plan)
    → conflicts_with u busy ≢ []
    → p.chosen ≡ []
    → (consider busy limit u p).chosen ≡ []
unfolding consider
consider-blocked u busy limit p blocked nothing =
    let hits = conflicts_with u (busy ++ p.chosen) in
    let Goal : Plan → Type 0 = λ q. q.chosen ≡ [] in
    let same : hits ≡ conflicts_with u busy =
      ap (λ l. conflicts_with u (busy ++ l)) nothing ∙ ap (conflicts_with u) (append-nil busy) in
    if-elim Goal (full limit (length p.chosen)) (put_off u [] no_worker p)
      (if is_nil hits then choose u p else put_off u hits scope_overlap p) (λ _. nothing)
      (λ _.
        if-elim Goal (is_nil hits) (choose u p) (put_off u hits scope_overlap p)
          (λ h. absurd (blocked (sym same ∙ is_nil-eq hits h))) (λ _. nothing))

some_room : (limit : Option ℕ) → limit ≢ some 0 → full limit 0 ≡ false
some_room none h = refl
some_room (some zero) h = absurd (h refl)
some_room (some (suc n)) h = ground arith

sweep-reaches :
    (before : List PlanUnit) (u : PlanUnit) (us busy : List PlanUnit) (limit : Option ℕ) (p : Plan)
    → full limit 0 ≡ false
    → All (λ v. conflicts_with v busy ≢ []) before
    → conflicts_with u busy ≡ []
    → p.chosen ≡ []
    → Keeps (u ∷ []) (sweep busy limit (before ++ u ∷ us) p).chosen
unfolding sweep
sweep-reaches [] u us busy limit p room blocked clear nothing =
    let turn = consider busy limit u p in
    let (more, e) = sweep-Keeps busy limit us turn in
    (more, e ∙ ap (λ xs. xs ++ more) (consider-first u busy limit p room clear nothing))
sweep-reaches (v ∷ before) u us busy limit p room blocked clear nothing =
    sweep-reaches before u us busy limit (consider busy limit v p) room blocked.1 clear
      (consider-blocked v busy limit p blocked.0 nothing)

-- Unless the limit is 0, the first of the candidates that conflicts with no active unit, all those before it
-- doing so, is the first that is chosen.
pub plan_dispatch-progress :
    (before : List PlanUnit) (u : PlanUnit) (us busy : List PlanUnit) (limit : Option ℕ)
    → limit ≢ some 0
    → All (λ v. conflicts_with v busy ≢ []) before
    → conflicts_with u busy ≡ []
    → (more : List PlanUnit) × ((plan_dispatch (before ++ u ∷ us) busy limit).chosen ≡ u ∷ more)
unfolding plan_dispatch
plan_dispatch-progress before u us busy limit has_room blocked clear =
    sweep-reaches before u us busy limit (record { chosen = []; deferred = [] })
      (some_room limit has_room) blocked clear refl
