-- ===== src/Runs/Dag/Layers.antt =====
-- The order of the layers of a plan, src/openclaw_ecc_orchestrator/runs/dag.py.
use openclaw_ecc_orchestrato.Prelude.{
  if-elim, length, all, keep, is_nil, All, has, All-sorted, ℕ, zero, suc, String, ◌≡◌, refl, sym,
  ap, ◌∙◌, ◌⊎◌, inl, inr, Bool, true, List, [], ◌∷◌, ◌++◌,
}
use openclaw_ecc_orchestrato.Runs.Dag.{
  Table, ids_of, is_ready, next_layer, without, layers_from, layers_of,
}

-- The unit is in the table, with these dependencies.
abbrev pub Holds : Table → String → List String → Type 0
Holds [] uid ds = ⊥
Holds (e ∷ table) uid ds = (e ≡ (uid, ds)) ⊎ Holds table uid ds

-- The unit is in the table, and all its dependencies are among the known units.
abbrev pub Supported : Table → List String → String → Type 0
Supported table known uid =
    (ds : List String) × Holds table uid ds × (all (λ d. has d known) ds ≡ true)

-- Each unit's dependencies are among the known units and those of the layers before it.
abbrev pub Layered : Table → List String → List (List String) → Type 0
Layered table known [] = Unit
Layered table known (l ∷ ls) = All (Supported table known) l × Layered table (l ++ known) ls

pub Holds-keep :
    (p : String × List String → Bool) (table : Table) (uid : String) (ds : List String)
    → Holds (keep p table) uid ds
    → Holds table uid ds × (p (uid, ds) ≡ true)
Holds-keep p [] uid ds = λ h. absurd h
Holds-keep p (e ∷ table) uid ds =
    if-elim (λ k. Holds k uid ds → Holds (e ∷ table) uid ds × (p (uid, ds) ≡ true)) (p e)
      (e ∷ keep p table) (keep p table)
      (λ passes h. elim h [
        | inl same ↦ (inl same, ap p (sym same) ∙ passes)
        | inr later ↦ let (held, ok) = Holds-keep p table uid ds later in (inr held, ok)
      ])
      (λ _ h. let (held, ok) = Holds-keep p table uid ds h in (inr held, ok))

All-ids_of :
    (P : String → Type 0) (table : Table)
    → ((uid : String) (ds : List String) → Holds table uid ds → P uid)
    → All P (ids_of table)
All-ids_of P [] h = tt
All-ids_of P ((uid, ds) ∷ table) h =
    (h uid ds (inl refl), All-ids_of P table (λ u es held. h u es (inr held)))

pub next_layer-Supported :
    (table remaining : Table) (done : List String)
    → ((uid : String) (ds : List String) → Holds remaining uid ds → Holds table uid ds)
    → All (Supported table done) (next_layer remaining done)
unfolding next_layer
next_layer-Supported table remaining done within = All-sorted _ _ (
    All-ids_of _ (keep (is_ready done) remaining) (λ uid ds held.
      let (there, ready) = Holds-keep (is_ready done) remaining uid ds held in
      (ds, within uid ds there, ready)))

layers_from-Layered :
    (fuel : ℕ) (table remaining : Table) (done : List String)
    → ((uid : String) (ds : List String) → Holds remaining uid ds → Holds table uid ds)
    → Layered table done (layers_from fuel remaining done).0
unfolding layers_from
layers_from-Layered zero table remaining done within = tt
layers_from-Layered (suc fuel) table remaining done within =
    let layer = next_layer remaining done in
    let rest = layers_from fuel (without layer remaining) (layer ++ done) in
    if-elim (λ (r : List (List String) × Table). Layered table done r.0) (is_nil layer)
      ([], remaining) (layer ∷ rest.0, rest.1) (λ _. tt)
      (λ _. (
        next_layer-Supported table remaining done within,
        layers_from-Layered fuel table (without layer remaining) (layer ++ done)
            (λ uid ds held. within uid ds (Holds-keep _ remaining uid ds held).0),
      ))

-- Every unit of a layer is one of the plan, and all its dependencies are in the layers before it.
pub layers_of-Layered : (table : Table) → Layered table [] (layers_of table).0
unfolding layers_of
layers_of-Layered table = layers_from-Layered (length table) table table [] (λ uid ds held. held)
