-- ===== src/Routing/Selection/Cheapest.antt =====
-- The runner that `select_runner` of src/openclaw_ecc_orchestrator/routing/selection.py chooses is a cheapest.
use openclaw_ecc_orchestrato.Prelude.{
  ◌≤◌, ◌++◌, leb→le, either_split, not-true, str_eq, ◌∙◌, Bool-cases, or_else, if-elim, keep, All,
  All-append, All-map, has, both_split, either_left, either_right, not-false, ℕ, String, ◌≡◌, refl,
  sym, ap, subst, ◌≢◌, ◌⊎◌, inl, inr, Bool, true, false, not, Option, none, some, List, [], ◌∷◌,
  arith, eq_iff,
}
use openclaw_ecc_orchestrato.Routing.Selection.{
  RunnerQuery, Candidate, Examined, rejected, eligible, examine_runner, accepted_of, all_candidates,
  cost_leb, same_cost, key_leb, insert_by_key, sort_by_key, primary, fallbacks, best, select_runner,
}
use openclaw_ecc_orchestrato.Routing.Registry.{Tidy}
use mathlib.Core.Bool.{false≢true}

cost_leb_trans :
    (a b c : Option ℕ) → cost_leb a b ≡ true → cost_leb b c ≡ true → cost_leb a c ≡ true
cost_leb_trans a b none h k = refl
cost_leb_trans a none (some n) h k = absurd (false≢true k)
cost_leb_trans none (some m) (some n) h k = absurd (false≢true h)
cost_leb_trans (some l) (some m) (some n) h k = ground (arith, h, k)

cost_leb-total : (a b : Option ℕ) → cost_leb a b ≡ false → cost_leb b a ≡ true
cost_leb-total a none h = absurd (ground (arith, h))
cost_leb-total none (some n) h = refl
cost_leb-total (some m) (some n) h = ground (arith, h)

key_leb-cost : (a b : Candidate) → key_leb a b ≡ true → cost_leb a.cost b.cost ≡ true
unfolding key_leb
key_leb-cost a b h = elim (Bool-cases (same_cost a.cost b.cost)) [
  | inl same ↦ (both_split _ _ same).0
  | inr differs ↦ ground (arith, h, differs)
]

key_leb-other : (a b : Candidate) → key_leb a b ≡ false → cost_leb b.cost a.cost ≡ true
unfolding key_leb
key_leb-other a b h = elim (Bool-cases (same_cost a.cost b.cost)) [
  | inl same ↦ (both_split _ _ same).1
  | inr differs ↦ cost_leb-total a.cost b.cost (ground (arith, h, differs))
]

-- No candidate of the list costs less.
abbrev pub Cheapest : Candidate → List Candidate → Type 0
Cheapest c cs = All (λ (d : Candidate). cost_leb c.cost d.cost ≡ true) cs

abbrev Sorted : List Candidate → Type 0
Sorted [] = Unit
Sorted (c ∷ cs) = Cheapest c cs × Sorted cs

Cheapest-trans :
    (c d : Candidate) (cs : List Candidate)
    → cost_leb c.cost d.cost ≡ true
    → Cheapest d cs
    → Cheapest c cs
Cheapest-trans c d cs h k = All-map _ _ cs (λ e l. cost_leb_trans c.cost d.cost e.cost h l) k

All-insert_by_key :
    (P : Candidate → Type 0) (c : Candidate) (cs : List Candidate)
    → P c
    → All P cs
    → All P (insert_by_key c cs)
All-insert_by_key P c [] h hs = (h, tt)
All-insert_by_key P c (d ∷ ds) h hs =
    if-elim (All P) (key_leb c d) (c ∷ d ∷ ds) (d ∷ insert_by_key c ds) (λ _. (h, hs))
      (λ _. (hs.0, All-insert_by_key P c ds h hs.1))

insert_by_key-Sorted :
    (c : Candidate) (cs : List Candidate) → Sorted cs → Sorted (insert_by_key c cs)
insert_by_key-Sorted c [] h = (tt, tt)
insert_by_key-Sorted c (d ∷ ds) h =
    if-elim Sorted (key_leb c d) (c ∷ d ∷ ds) (d ∷ insert_by_key c ds)
      (λ less. let l = key_leb-cost c d less in ((l, Cheapest-trans c d ds l h.0), h))
      (λ more.
        (All-insert_by_key _ c ds (key_leb-other c d more) h.0, insert_by_key-Sorted c ds h.1))

sort_by_key-Sorted : (cs : List Candidate) → Sorted (sort_by_key cs)
unfolding sort_by_key
sort_by_key-Sorted [] = tt
sort_by_key-Sorted (c ∷ cs) = insert_by_key-Sorted c (sort_by_key cs) (sort_by_key-Sorted cs)

All-sort_by_key : (P : Candidate → Type 0) (cs : List Candidate) → All P cs → All P (sort_by_key cs)
unfolding sort_by_key
All-sort_by_key P [] h = tt
All-sort_by_key P (c ∷ cs) h = All-insert_by_key P c (sort_by_key cs) h.0 (All-sort_by_key P cs h.1)

All-unsort :
    (P : Candidate → Type 0) (c : Candidate) (cs : List Candidate)
    → All P (insert_by_key c cs)
    → P c × All P cs
All-unsort P c [] = λ h. (h.0, tt)
All-unsort P c (d ∷ ds) =
    if-elim (λ l. All P l → P c × All P (d ∷ ds)) (key_leb c d) (c ∷ d ∷ ds)
      (d ∷ insert_by_key c ds) (λ _ h. (h.0, h.1))
      (λ _ h. let (front, rest) = All-unsort P c ds h.1 in (front, (h.0, rest)))

All-from_sorted : (P : Candidate → Type 0) (cs : List Candidate) → All P (sort_by_key cs) → All P cs
unfolding sort_by_key
All-from_sorted P [] h = tt
All-from_sorted P (c ∷ cs) h =
    let (front, rest) = All-unsort P c (sort_by_key cs) h in (front, All-from_sorted P cs rest)

All-keep :
    (P : Candidate → Type 0) (p : Candidate → Bool) (cs : List Candidate)
    → All P cs
    → All (λ c. P c × (p c ≡ true)) (keep p cs)
All-keep P p [] h = tt
All-keep P p (c ∷ cs) h =
    if-elim (All (λ d. P d × (p d ≡ true))) (p c) (c ∷ keep p cs) (keep p cs)
      (λ passes. ((h.0, passes), All-keep P p cs h.1)) (λ _. All-keep P p cs h.1)

cost_leb_refl : (a : Option ℕ) → cost_leb a a ≡ true
cost_leb_refl none = refl
cost_leb_refl (some n) = ground arith

-- The first of a sorted list has what all have, and is cheapest.
sorted-first :
    (P : Candidate → Type 0) (cs : List Candidate) (c : Candidate) (rest : List Candidate)
    → sort_by_key cs ≡ c ∷ rest
    → All P cs
    → P c × Cheapest c cs
sorted-first P cs c rest e h =
    let (front, _) = subst (All P) e (All-sort_by_key P cs h) in
    let (least, _) = subst Sorted e (sort_by_key-Sorted cs) in
    (front, All-from_sorted _ cs (subst (Cheapest c) (sym e) (cost_leb_refl c.cost, least)))

All-nothing : (cs : List Candidate) → All (λ _. ⊥) cs → cs ≡ []
All-nothing [] h = refl
All-nothing (c ∷ cs) h = absurd h.0

sorted-nil : (cs : List Candidate) → sort_by_key cs ≡ [] → cs ≡ []
sorted-nil cs e = All-nothing cs (All-from_sorted _ cs (subst (All (λ _. ⊥)) (sym e) tt))

some-none : {c : Candidate} → some c ≢ none
some-none e = cc

best-cases :
    {P : Type 0} (xs ys : List Candidate) (c : Candidate)
    → best xs ys ≡ some c
    → ((rest : List Candidate) → xs ≡ c ∷ rest → P)
    → ((rest : List Candidate) → xs ≡ [] → ys ≡ c ∷ rest → P)
    → P
best-cases [] [] c h first_one second_one = absurd (some-none (sym h))
best-cases [] (y ∷ ys) c h first_one second_one =
    second_one ys refl (ap (λ z. z ∷ ys) (ap (λ o. or_else o y) h))
best-cases (x ∷ xs) ys c h first_one second_one =
    first_one xs (ap (λ z. z ∷ xs) (ap (λ o. or_else o x) h))

-- A certified runner of which the loop makes this candidate.
abbrev pub From : Tidy → RunnerQuery → List String → Candidate → Type 0
From t a names c =
    (raw : String) × (has raw names ≡ true) × (examine_runner t a (t.normal raw) ≡ eligible c)

-- Of the primary candidates where there is one, and otherwise of the fallbacks, the candidate costs least.
abbrev Least : List Candidate → Candidate → Type 0
Least cs c =
    ((c.is_fallback ≡ false) × Cheapest c (keep (λ (d : Candidate). not d.is_fallback) cs))
    ⊎ ((keep (λ (d : Candidate). not d.is_fallback) cs ≡ [])
        × (c.is_fallback ≡ true)
        × Cheapest c (keep (λ (d : Candidate). d.is_fallback) cs))

-- The first cost is known and not above the second, or the second is not known.
abbrev pub CostsAtMost : Option ℕ → Option ℕ → Type 0
CostsAtMost a none = Unit
CostsAtMost none (some n) = ⊥
CostsAtMost (some m) (some n) = m ≤ n

-- The candidate is preferred to the other: a primary one to a fallback, and of two of a kind one that costs
-- no more.
abbrev pub Preferred : Candidate → Candidate → Type 0
Preferred c d =
    ((c.is_fallback ≡ false) × (d.is_fallback ≡ true))
    ⊎ ((c.is_fallback ≡ d.is_fallback) × CostsAtMost c.cost d.cost)

cost_leb-CostsAtMost : (a b : Option ℕ) → cost_leb a b ≡ true → CostsAtMost a b
cost_leb-CostsAtMost a none h = tt
cost_leb-CostsAtMost none (some n) h = false≢true h
cost_leb-CostsAtMost (some m) (some n) h = leb→le m n h

-- The candidate is in the list.
abbrev Among : Candidate → List Candidate → Type 0
Among d [] = ⊥
Among d (c ∷ cs) = (c ≡ d) ⊎ Among d cs

All-Among :
    (P : Candidate → Type 0) (d : Candidate) (cs : List Candidate) → All P cs → Among d cs → P d
All-Among P d (c ∷ cs) h (inl e) = subst P e h.0
All-Among P d (c ∷ cs) h (inr later) = All-Among P d cs h.1 later
All-Among P d [] h there = absurd there

Among-keep :
    (p : Candidate → Bool) (d : Candidate) (cs : List Candidate)
    → p d ≡ true
    → Among d cs
    → Among d (keep p cs)
Among-keep p d [] h there = there
Among-keep p d (c ∷ cs) h (inl e) =
    if-elim (Among d) (p c) (c ∷ keep p cs) (keep p cs) (λ _. inl e)
      (λ out. absurd (false≢true (sym out ∙ (ap p e ∙ h))))
Among-keep p d (c ∷ cs) h (inr later) =
    if-elim (Among d) (p c) (c ∷ keep p cs) (keep p cs) (λ _. inr (Among-keep p d cs h later))
      (λ _. Among-keep p d cs h later)

Among-append_left : (d : Candidate) (xs ys : List Candidate) → Among d xs → Among d (xs ++ ys)
Among-append_left d [] ys h = absurd h
Among-append_left d (x ∷ xs) ys (inl e) = inl e
Among-append_left d (x ∷ xs) ys (inr h) = inr (Among-append_left d xs ys h)

Among-append_right : (d : Candidate) (xs ys : List Candidate) → Among d ys → Among d (xs ++ ys)
Among-append_right d [] ys h = h
Among-append_right d (x ∷ xs) ys h = inr (Among-append_right d xs ys h)

Least-Preferred : (cs : List Candidate) (c d : Candidate) → Least cs c → Among d cs → Preferred c d
Least-Preferred cs c d (inl (plain, least)) there = elim (Bool-cases d.is_fallback) [
  | inl spare ↦ inl (plain, spare)
  | inr main ↦ inr (
    plain ∙ sym main,
    cost_leb-CostsAtMost c.cost d.cost (
        All-Among _ d _ least
          (Among-keep (λ (x : Candidate). not x.is_fallback) d cs (not-true main) there)),
  )
]
Least-Preferred cs c d (inr (no_main, spare, least)) there = elim (Bool-cases d.is_fallback) [
  | inl spare_too ↦ inr (
    spare ∙ sym spare_too,
    cost_leb-CostsAtMost c.cost d.cost (
        All-Among _ d _ least (Among-keep (λ (x : Candidate). x.is_fallback) d cs spare_too there)),
  )
  | inr main ↦ absurd (
      subst (Among d) no_main
        (Among-keep (λ (x : Candidate). not x.is_fallback) d cs (not-true main) there))
]

module _ (t : Tidy) (a : RunnerQuery) where
  accepted_of-From :
      (raw : String) (names : List String) (e : Examined)
      → examine_runner t a (t.normal raw) ≡ e
      → All (From t a (raw ∷ names)) (accepted_of t a e)
  accepted_of-From raw names (rejected why) h = tt
  accepted_of-From raw names (eligible c) h =
      ((raw, either_left _ ((eq_iff raw raw).1 refl), h), tt)

  all_candidates-From : (names : List String) → All (From t a names) (all_candidates t a names)
  unfolding all_candidates
  all_candidates-From [] = tt
  all_candidates-From (raw ∷ names) =
      All-append _ (accepted_of t a (examine_runner t a (t.normal raw))) (all_candidates t a names)
        (accepted_of-From raw names (examine_runner t a (t.normal raw)) refl)
        (All-map _ _ (all_candidates t a names) (λ c (r, there, e). (r, either_right _ there, e))
          (all_candidates-From names))

all_candidates-Among :
    (t : Tidy) (a : RunnerQuery) (names : List String) (raw : String) (d : Candidate)
    → has raw names ≡ true
    → examine_runner t a (t.normal raw) ≡ eligible d
    → Among d (all_candidates t a names)
unfolding all_candidates
all_candidates-Among t a [] raw d there h = absurd (ground (arith, there))
all_candidates-Among t a (name ∷ names) raw d there h =
    elim (either_split (str_eq name raw) (has raw names) there) [
      | inl here ↦
          let same = ap t.normal ((eq_iff name raw).0 here) in
          Among-append_left d (accepted_of t a (examine_runner t a (t.normal name)))
            (all_candidates t a names)
            (subst (λ e. Among d (accepted_of t a e)) (sym (ap (examine_runner t a) same ∙ h))
              (inl refl))
      | inr later ↦
          Among-append_right d (accepted_of t a (examine_runner t a (t.normal name)))
            (all_candidates t a names) (all_candidates-Among t a names raw d later h)
    ]

pub select_runner-chosen :
    (t : Tidy) (a : RunnerQuery) (c : Candidate)
    → select_runner t a ≡ some c
    → From t a a.certified c × Least (all_candidates t a a.certified) c
unfolding select_runner
select_runner-chosen t a c h =
    let cs = all_candidates t a a.certified in
    let from = all_candidates-From t a a.certified in
    let main = keep (λ (d : Candidate). not d.is_fallback) cs in
    let spare = keep (λ (d : Candidate). d.is_fallback) cs in
    best-cases (primary cs) (fallbacks cs) c h
      (λ rest e.
        let ((there, plain), least) = sorted-first _ main c rest e (All-keep _ _ cs from) in
        (there, inl (not-false _ plain, least)))
      (λ rest no_main e.
        let ((there, is_spare), least) = sorted-first _ spare c rest e (All-keep _ _ cs from) in
        (there, inr (sorted-nil main no_main, is_spare, least)))

-- A chosen runner is a certified and eligible one, and is preferred to every other certified one that is
-- eligible: a primary one to a fallback, and of two of a kind one that costs no more, where a cost that is not
-- known counts as the highest.
pub select_runner-Least :
    (t : Tidy) (a : RunnerQuery) (c : Candidate) (raw : String) (d : Candidate)
    → select_runner t a ≡ some c
    → has raw a.certified ≡ true
    → examine_runner t a (t.normal raw) ≡ eligible d
    → From t a a.certified c × Preferred c d
select_runner-Least t a c raw d h there ok =
    let (from, least) = select_runner-chosen t a c h in
    (
      from,
      Least-Preferred (all_candidates t a a.certified) c d least
          (all_candidates-Among t a a.certified raw d there ok),
    )
