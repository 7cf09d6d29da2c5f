-- ===== src/Runs/Dag/Complete.antt =====
-- The layers of a plan without a cycle are complete, src/openclaw_ecc_orchestrator/runs/dag.py. That there is no
-- cycle is stated by the units' being well founded.
use openclaw_ecc_orchestrato.Prelude.{
  Bool-cases, if-elim, length, all, keep, is_nil, All, has, has-sorted, str_eq, either_left,
  either_right, ℕ, zero, suc, ◌≤◌, ◌<◌, String, ◌≡◌, refl, sym, ap, ◌∙◌, subst, ◌⊎◌, inl, inr, Bool,
  true, false, not, ◌||◌, List, [], ◌∷◌, ◌++◌, arith, eq_iff,
}
use openclaw_ecc_orchestrato.Runs.Dag.{
  Table, ids_of, is_ready, next_layer, without, layers_from, layers_of, flat, deps_of,
}
use openclaw_ecc_orchestrato.Runs.Dag.Layers.{Holds, Supported, Holds-keep, next_layer-Supported}
use openclaw_ecc_orchestrato.Runs.Dag.Searching.{WellFounded, founded}
use mathlib.Core.Bool.{false≢true}

-- The table has one entry of a unit: its dependencies are those that are looked up.
abbrev pub Unambiguous : Table → Type 0
Unambiguous table = (uid : String) (ds : List String) → Holds table uid ds → deps_of table uid ≡ ds

-- Each entry of the first table is in the second.
abbrev pub Within : Table → Table → Type 0
Within remaining table =
    (uid : String) (ds : List String) → Holds remaining uid ds → Holds table uid ds

-- Each dependency is done, or in the table.
abbrev pub Rooted : Table → List String → Type 0
Rooted table done =
    (uid : String) (ds : List String) (d : String)
    → Holds table uid ds
    → has d ds ≡ true
    → (has d done ≡ true) ⊎ ((es : List String) × Holds table d es)

pub str_eq_refl : (s : String) → str_eq s s ≡ true
str_eq_refl s = ground (arith, eq_iff s s)

pub has-ids_of :
    (table : Table) (uid : String) (ds : List String)
    → Holds table uid ds
    → has uid (ids_of table) ≡ true
has-ids_of [] uid ds held = absurd held
has-ids_of (e ∷ table) uid ds (inl same) =
    either_left _ (subst (λ x. str_eq x.0 uid ≡ true) (sym same) (str_eq_refl uid))
has-ids_of (e ∷ table) uid ds (inr later) = either_right _ (has-ids_of table uid ds later)

keep-Holds :
    (p : String × List String → Bool) (table : Table) (uid : String) (ds : List String)
    → Holds table uid ds
    → p (uid, ds) ≡ true
    → Holds (keep p table) uid ds
keep-Holds p [] uid ds held h = absurd held
keep-Holds p (e ∷ table) uid ds (inl same) h =
    if-elim (λ k. Holds k uid ds) (p e) (e ∷ keep p table) (keep p table) (λ _. inl same)
      (λ no_pass. absurd (false≢true (sym no_pass ∙ ap p same ∙ h)))
keep-Holds p (e ∷ table) uid ds (inr later) h =
    let rest = keep-Holds p table uid ds later h in
    if-elim (λ k. Holds k uid ds) (p e) (e ∷ keep p table) (keep p table) (λ _. inr rest)
      (λ _. rest)

next_layer-ready :
    (remaining : Table) (done : List String) (uid : String) (ds : List String)
    → Holds remaining uid ds
    → is_ready done (uid, ds) ≡ true
    → has uid (next_layer remaining done) ≡ true
unfolding next_layer
next_layer-ready remaining done uid ds held ready =
    has-sorted uid _
    ∙ has-ids_of (keep (is_ready done) remaining) uid ds
        (keep-Holds (is_ready done) remaining uid ds held ready)

all-false :
    (p : String → Bool) (ds : List String)
    → all p ds ≡ false
    → (d : String) × (has d ds ≡ true) × (p d ≡ false)
all-false p [] h = absurd cc
all-false p (d ∷ ds) h = elim (Bool-cases (p d)) [
  | inr fails ↦ (d, either_left _ (str_eq_refl d), fails)
  | inl passes ↦
      let (x, there, fails) = all-false p ds (ground (arith, h, passes)) in
      (x, either_right _ there, fails)
]

has-nil : (uid : String) (l : List String) → is_nil l ≡ true → has uid l ≡ true → ⊥
has-nil uid [] h there = false≢true there
has-nil uid (x ∷ l) h there = false≢true h

-- A well founded unit that remains stands against an empty layer.
layer-some :
    (table remaining : Table) (done : List String)
    → Within remaining table
    → Unambiguous table
    → Rooted remaining done
    → is_nil (next_layer remaining done) ≡ true
    → (uid : String) → WellFounded table uid
    → (ds : List String) → Holds remaining uid ds
    → ⊥
layer-some table remaining done within one_entry rooted none_left uid (founded below) ds held =
    elim (Bool-cases (is_ready done (uid, ds))) [
      | inl ready ↦
          has-nil uid (next_layer remaining done) none_left
            (next_layer-ready remaining done uid ds held ready)
      | inr waits ↦
          let (d, needs, not_done) = all-false (λ x. has x done) ds waits in
          elim (rooted uid ds d held needs) [
            | inl is_done ↦ false≢true (sym not_done ∙ is_done)
            | inr (es, held_d) ↦
                let looked_up = ap (has d) (one_entry uid ds (within uid ds held)) ∙ needs in
                layer-some table remaining done within one_entry rooted none_left d
                  (below d looked_up (has-ids_of table d es (within d es held_d))) es held_d
          ]
    ]

length-keep :
    (p : String × List String → Bool) (table : Table) → length (keep p table) ≤ length table
length-keep p [] = omega arith
length-keep p (e ∷ table) =
    if-elim (λ k. length k ≤ suc (length table)) (p e) (e ∷ keep p table) (keep p table)
      (λ _. omega (arith, length-keep p table)) (λ _. omega (arith, length-keep p table))

length-keep_less :
    (p : String × List String → Bool) (table : Table) (uid : String) (ds : List String)
    → Holds table uid ds
    → p (uid, ds) ≡ false
    → length (keep p table) < length table
length-keep_less p [] uid ds held h = absurd held
length-keep_less p (e ∷ table) uid ds (inl same) h =
    if-elim (λ k. length k < suc (length table)) (p e) (e ∷ keep p table) (keep p table)
      (λ passes. absurd (false≢true (sym h ∙ sym (ap p same) ∙ passes)))
      (λ _. omega (arith, length-keep p table))
length-keep_less p (e ∷ table) uid ds (inr later) h =
    let rest = length-keep_less p table uid ds later h in
    if-elim (λ k. length k < suc (length table)) (p e) (e ∷ keep p table) (keep p table)
      (λ _. omega (arith, rest)) (λ _. omega (arith, rest))

first_of :
    (P : String → Type 0) (l : List String)
    → is_nil l ≡ false
    → All P l
    → (x : String) × P x × (has x l ≡ true)
first_of P [] h hs = absurd cc
first_of P (x ∷ l) h hs = (x, hs.0, either_left _ (str_eq_refl x))

without-shorter :
    (remaining : Table) (done : List String)
    → is_nil (next_layer remaining done) ≡ false
    → length (without (next_layer remaining done) remaining) < length remaining
without-shorter remaining done some_left =
    let layer = next_layer remaining done in
    let (uid, (ds, held, _), there) =
      first_of (Supported remaining done) layer some_left
        (next_layer-Supported remaining remaining done (λ uid ds held. held)) in
    length-keep_less _ remaining uid ds held (ap not there)

has-append : (d : String) (xs ys : List String) → has d (xs ++ ys) ≡ (has d xs || has d ys)
has-append d [] ys = refl
has-append d (x ∷ xs) ys = ground (arith, has-append d xs ys)

without-Rooted :
    (remaining : Table) (done layer : List String)
    → Rooted remaining done
    → Rooted (without layer remaining) (layer ++ done)
without-Rooted remaining done layer rooted uid ds d held needs =
    let (there, _) = Holds-keep _ remaining uid ds held in
    elim (rooted uid ds d there needs) [
      | inl is_done ↦ inl (has-append d layer done ∙ either_right _ is_done)
      | inr (es, held_d) ↦ elim (Bool-cases (has d layer)) [
        | inl chosen ↦ inl (has-append d layer done ∙ either_left _ chosen)
        | inr left ↦ inr (es, keep-Holds _ remaining d es held_d (ap not left))
      ]
    ]

module _ (table : Table) (one_entry : Unambiguous table)
    (all_founded : (uid : String) (ds : List String)
      → Holds table uid ds
      → WellFounded table uid) where
  layers_from_complete :
      (fuel : ℕ) (remaining : Table) (done : List String)
      → length remaining ≤ fuel
      → Within remaining table
      → Rooted remaining done
      → (layers_from fuel remaining done).1 ≡ []
  unfolding layers_from
  layers_from_complete zero [] done enough within rooted = refl
  layers_from_complete zero (e ∷ remaining) done enough within rooted =
      absurd (omega (arith, enough))
  layers_from_complete (suc fuel) [] done enough within rooted =
      let layer = next_layer [] done in
      let rest = layers_from fuel [] (layer ++ done) in
      if-elim (λ (r : List (List String) × Table). r.1 ≡ []) (is_nil layer) ([], [])
        (layer ∷ rest.0, rest.1) (λ _. refl)
        (λ _.
          layers_from_complete fuel [] (layer ++ done) (omega arith) within
            (λ uid ds d held. absurd held))
  layers_from_complete (suc fuel) (e ∷ remaining) done enough within rooted =
      let left : Table = e ∷ remaining in
      let layer = next_layer left done in
      let rest = layers_from fuel (without layer left) (layer ++ done) in
      if-elim (λ (r : List (List String) × Table). r.1 ≡ []) (is_nil layer) ([], left)
        (layer ∷ rest.0, rest.1)
        (λ none_left. absurd (
          layer-some table left done within one_entry rooted none_left e.0
            (all_founded e.0 e.1 (within e.0 e.1 (inl refl))) e.1 (inl refl)))
        (λ some_left.
          layers_from_complete fuel (without layer left) (layer ++ done)
            (omega (arith, enough, without-shorter left done some_left))
            (λ uid ds held.
              within uid ds (Holds-keep (λ x. not (has x.0 layer)) left uid ds held).0)
            (without-Rooted left done layer rooted))

-- A unit is in a layer, or left.
layers_from-covers :
    (fuel : ℕ) (remaining : Table) (done : List String) (uid : String) (ds : List String)
    → Holds remaining uid ds
    → (has uid (flat (layers_from fuel remaining done).0) ≡ true)
      ⊎ Holds (layers_from fuel remaining done).1 uid ds
unfolding layers_from
layers_from-covers zero remaining done uid ds held = inr held
layers_from-covers (suc fuel) remaining done uid ds held =
    let layer = next_layer remaining done in
    let rest = layers_from fuel (without layer remaining) (layer ++ done) in
    if-elim (λ (r : List (List String) × Table). (has uid (flat r.0) ≡ true) ⊎ Holds r.1 uid ds)
      (is_nil layer) ([], remaining) (layer ∷ rest.0, rest.1) (λ _. inr held)
      (λ _. elim (Bool-cases (has uid layer)) [
        | inl chosen ↦ inl (has-append uid layer (flat rest.0) ∙ either_left _ chosen)
        | inr left ↦
            elim (layers_from-covers fuel (without layer remaining) (layer ++ done) uid ds
              (keep-Holds _ remaining uid ds held (ap not left))) [
                | inl later ↦ inl (has-append uid layer (flat rest.0) ∙ either_right _ later)
                | inr remains ↦ inr remains
              ]
      ])

-- Every unit is in one of the layers: the rounds of the loop are enough.
pub layers_of_complete :
    (table : Table)
    → Unambiguous table
    → ((uid : String) (ds : List String) → Holds table uid ds → WellFounded table uid)
    → Rooted table []
    → (uid : String) (ds : List String) → Holds table uid ds
    → has uid (flat (layers_of table).0) ≡ true
unfolding layers_of
layers_of_complete table one_entry all_founded rooted uid ds held =
    elim (layers_from-covers (length table) table [] uid ds held) [
      | inl there ↦ there
      | inr remains ↦ absurd (
          subst (λ t. Holds t uid ds)
            (layers_from_complete table one_entry all_founded (length table) table [] (omega arith)
              (λ u es here. here) rooted)
            remains)
    ]
