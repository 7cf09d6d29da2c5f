-- ===== src/Runs/Dag/Accepted.antt =====
-- What an accepted analysis says of a plan, `analyze_plan` of
-- src/openclaw_ecc_orchestrator/runs/dag.py.
use mathlib.Core.Bool.{false≢true}
use openclaw_ecc_orchestrato.Prelude.{
  if◌then◌else◌, if-elim, is_nil, All, has, sorted, has-sorted, str_eq, either_split, String, ◌≡◌,
  refl, sym, ap, ◌∙◌, subst, ◌≢◌, inl, inr, true, false, ◌||◌, none, some, List, [], ◌∷◌, ◌++◌,
  arith, eq_iff,
}
use openclaw_ecc_orchestrato.Runs.Dag.{
  PlanEntry, no_object, no_id, unit, PlanError, invalid_id, duplicate_id, invalid_depends_on,
  missing_dependency, Table, ids_of, dedup, read_unit, read_units, missing_of, missing, layers_of,
  flat, Visited, clear, found, no_fuel, deps_of, find_cycle, cycle_errors, analyze_plan,
}
use openclaw_ecc_orchestrato.Runs.Dag.Layers.{Holds, Layered, layers_of-Layered}
use openclaw_ecc_orchestrato.Runs.Dag.Searching.{WellFounded}
use openclaw_ecc_orchestrato.Runs.Dag.Complete.{Unambiguous, Rooted, has-ids_of, layers_of_complete}
use openclaw_ecc_orchestrato.Runs.Dag.Cycles.{All-at, Sound, Decides, find_cycle-Decides}

has-append : (d : String) (xs ys : List String) → has d (xs ++ ys) ≡ (has d xs || has d ys)
has-append d [] ys = refl
has-append d (x ∷ xs) ys = ground (arith, has-append d xs ys)

-- No unit of the table is in it twice.
abbrev Distinct : Table → Type 0
Distinct [] = Unit
Distinct (e ∷ table) = (has e.0 (ids_of table) ≡ false) × Distinct table

ids_of-append : (xs ys : Table) → ids_of (xs ++ ys) ≡ ids_of xs ++ ids_of ys
ids_of-append [] ys = refl
ids_of-append (x ∷ xs) ys = ap (λ l. x.0 ∷ l) (ids_of-append xs ys)

Distinct-snoc :
    (table : Table) (uid : String) (ds : List String)
    → has uid (ids_of table) ≡ false
    → Distinct table
    → Distinct (table ++ (uid, ds) ∷ [])
Distinct-snoc [] uid ds fresh h = (refl, tt)
Distinct-snoc (e ∷ table) uid ds fresh h = (
  ap (has e.0) (ids_of-append table ((uid, ds) ∷ []))
      ∙ has-append e.0 (ids_of table) (uid ∷ [])
      ∙ ground (arith, h.0, fresh, eq_iff e.0 uid, eq_iff uid e.0),
  Distinct-snoc table uid ds (ground (arith, fresh)) h.1,
)

Distinct-Unambiguous : (table : Table) → Distinct table → Unambiguous table
Distinct-Unambiguous [] h uid ds held = absurd held
Distinct-Unambiguous (e ∷ table) h uid ds (inl same) =
    if-elim (λ l. l ≡ ds) (str_eq e.0 uid) e.1 (deps_of table uid) (λ _. ap (λ x. x.1) same)
      (λ differs. absurd (false≢true (sym differs ∙ (eq_iff e.0 uid).1 (ap (λ x. x.0) same))))
Distinct-Unambiguous (e ∷ table) h uid ds (inr later) =
    if-elim (λ l. l ≡ ds) (str_eq e.0 uid) e.1 (deps_of table uid)
      (λ is. absurd (
        false≢true (
          sym h.0
          ∙ subst (λ u. has u (ids_of table) ≡ true) (sym ((eq_iff e.0 uid).0 is))
              (has-ids_of table uid ds later))))
      (λ _. Distinct-Unambiguous table h.1 uid ds later)

read_unit-Distinct :
    (e : PlanEntry) (read : Table × List PlanError)
    → Distinct read.0
    → Distinct (read_unit e read).0
read_unit-Distinct no_object read h = h
read_unit-Distinct no_id read h = h
read_unit-Distinct (unit uid none) read h =
    let Goal : Table × List PlanError → Type 0 = λ r. Distinct r.0 in
    let put_in : Table × List PlanError =
      (read.0 ++ (uid, []) ∷ [], read.1 ++ invalid_depends_on uid ∷ []) in
    let twice : Table × List PlanError = (read.0, read.1 ++ duplicate_id uid ∷ []) in
    if-elim Goal (str_eq uid "") (read.0, read.1 ++ invalid_id ∷ [])
      (if has uid (ids_of read.0) then twice else put_in) (λ _. h)
      (λ _.
        if-elim Goal (has uid (ids_of read.0)) twice put_in (λ _. h)
          (λ fresh. Distinct-snoc read.0 uid [] fresh h))
read_unit-Distinct (unit uid (some raw)) read h =
    let Goal : Table × List PlanError → Type 0 = λ r. Distinct r.0 in
    let put_in : Table × List PlanError = (read.0 ++ (uid, dedup [] raw) ∷ [], read.1) in
    let twice : Table × List PlanError = (read.0, read.1 ++ duplicate_id uid ∷ []) in
    if-elim Goal (str_eq uid "") (read.0, read.1 ++ invalid_id ∷ [])
      (if has uid (ids_of read.0) then twice else put_in) (λ _. h)
      (λ _.
        if-elim Goal (has uid (ids_of read.0)) twice put_in (λ _. h)
          (λ fresh. Distinct-snoc read.0 uid (dedup [] raw) fresh h))

read_units-Distinct :
    (es : List PlanEntry) (read : Table × List PlanError)
    → Distinct read.0
    → Distinct (read_units es read).0
unfolding read_units
read_units-Distinct [] read h = h
read_units-Distinct (e ∷ es) read h =
    read_units-Distinct es (read_unit e read) (read_unit-Distinct e read h)

cons≢nil {ℓ} : {A : Type ℓ} {x : A} {xs : List A} → x ∷ xs ≢ []
cons≢nil e = cc

nil_split {ℓ} : {A : Type ℓ} (xs ys : List A) → xs ++ ys ≡ [] → (xs ≡ []) × (ys ≡ [])
nil_split [] ys h = (refl, h)
nil_split (x ∷ xs) ys h = absurd (cons≢nil h)

missing_of-nil :
    (known : List String) (uid : String) (ds : List String) (d : String)
    → missing_of known uid ds ≡ []
    → has d ds ≡ true
    → has d known ≡ true
missing_of-nil known uid [] d h there = absurd (false≢true there)
missing_of-nil known uid (x ∷ ds) d h there =
    let rest = missing_of known uid ds in
    if-elim (λ l. l ≡ [] → has d known ≡ true) (has x known) rest (missing_dependency uid x ∷ rest)
      (λ is_known e. elim (either_split _ _ there) [
        | inl same ↦ subst (λ u. has u known ≡ true) ((eq_iff x d).0 same) is_known
        | inr later ↦ missing_of-nil known uid ds d e later
      ])
      (λ _ e. absurd (cons≢nil e)) h

missing-nil :
    (known : List String) (table : Table) (uid : String) (ds : List String) (d : String)
    → missing known table ≡ []
    → Holds table uid ds
    → has d ds ≡ true
    → has d known ≡ true
unfolding missing
missing-nil known [] uid ds d h held there = absurd held
missing-nil known (e ∷ table) uid ds d h held there =
    let (here, later) = nil_split (missing_of known e.0 e.1) (missing known table) h in
    elim held [
      | inl same ↦
          missing_of-nil known e.0 e.1 d here (subst (λ x. has d x.1 ≡ true) (sym same) there)
      | inr held_later ↦ missing-nil known table uid ds d later held_later there
    ]

has-Holds :
    (table : Table) (uid : String)
    → has uid (ids_of table) ≡ true
    → (ds : List String) × Holds table uid ds
has-Holds [] uid h = absurd (false≢true h)
has-Holds (e ∷ table) uid h = elim (either_split _ _ h) [
  | inl same ↦ (e.1, inl (ap (λ u. (u, e.1)) ((eq_iff e.0 uid).0 same)))
  | inr later ↦ let (ds, held) = has-Holds table uid later in (ds, inr held)
]

no_cycle-Sound :
    (table : Table) (ids : List String) (v : Visited)
    → Decides table ids v
    → cycle_errors v ≡ []
    → All (Sound table) ids
no_cycle-Sound table ids clear h e = h
no_cycle-Sound table ids (found c) h e = absurd (cons≢nil e)
no_cycle-Sound table ids no_fuel h e = absurd h

nil-is_nil {ℓ} : {A : Type ℓ} (xs : List A) → is_nil xs ≡ true → xs ≡ []
nil-is_nil [] h = refl
nil-is_nil (x ∷ xs) h = absurd (false≢true h)

module _ (table : Table) (one_each : Distinct table)
    (none_missing : missing (ids_of table) table ≡ [])
    (no_cycle : cycle_errors (find_cycle table) ≡ []) where
  table-founded : (uid : String) (ds : List String) → Holds table uid ds → WellFounded table uid
  table-founded uid ds held =
      let known = has-ids_of table uid ds held in
      let sound =
        no_cycle-Sound table (sorted (ids_of table)) (find_cycle table) (find_cycle-Decides table)
          no_cycle in
      elim (All-at (Sound table) uid (sorted (ids_of table)) sound
        (has-sorted uid (ids_of table) ∙ known)) [
          | inl unknown ↦ absurd (false≢true (sym unknown ∙ known))
          | inr well ↦ well
        ]

  table-Rooted : Rooted table []
  table-Rooted uid ds d held needs =
      inr (has-Holds table d (missing-nil (ids_of table) table uid ds d none_missing held needs))

  table_complete :
      (uid : String) → has uid (ids_of table) ≡ true → has uid (flat (layers_of table).0) ≡ true
  table_complete uid known =
      let (ds, held) = has-Holds table uid known in
      layers_of_complete table (Distinct-Unambiguous table one_each) table-founded table-Rooted uid
        ds held

-- The units of a plan, as far as they can be read.
abbrev pub table_of : List PlanEntry → Table
table_of units = (read_units units ([], [])).0

-- Where a plan is accepted, each of its units is in the order, and the dependencies of a unit are in the layers
-- before its own.
pub analyze_plan-Layered :
    (units : List PlanEntry) (uid : String)
    → (analyze_plan units).accepted ≡ true
    → has uid (ids_of (table_of units)) ≡ true
    → (has uid (analyze_plan units).order ≡ true)
      × Layered (table_of units) [] (analyze_plan units).layers
unfolding analyze_plan
analyze_plan-Layered units uid accepted known =
    let read = read_units units ([], []) in
    let errors = read.1 ++ (missing (ids_of read.0) read.0 ++ cycle_errors (find_cycle read.0)) in
    let (_, checks) = nil_split read.1 _ (nil-is_nil errors accepted) in
    let (none_missing, no_cycle) = nil_split (missing (ids_of read.0) read.0) _ checks in
    let one_each = read_units-Distinct units ([], []) tt in
    let Goal : List (List String) → Type 0 =
      λ ls. (has uid (flat ls) ≡ true) × Layered read.0 [] ls in
    if-elim Goal (is_nil errors) (layers_of read.0).0 []
      (λ _.
        (table_complete read.0 one_each none_missing no_cycle uid known, layers_of-Layered read.0))
      (λ refused. absurd (false≢true (sym refused ∙ accepted)))
