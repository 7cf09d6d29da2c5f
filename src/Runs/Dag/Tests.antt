-- ===== src/Runs/Dag/Tests.antt =====
-- Runs and instances for src/openclaw_ecc_orchestrator/runs/dag.py.
use openclaw_ecc_orchestrato.Prelude.{has, sorted, ◌≡◌, refl, true, none, some, List, [], ◌∷◌}
use openclaw_ecc_orchestrato.Prelude.Dict.{get, put}
use openclaw_ecc_orchestrato.Runs.Dag.{
  PlanEntry, no_id, unit, invalid_id, duplicate_id, missing_dependency, cycle, ids_of, read_units,
  find_cycle, analyze_plan,
}
use openclaw_ecc_orchestrato.Runs.Dag.Layers.{Layered}
use openclaw_ecc_orchestrato.Runs.Dag.Cycles.{Decides, find_cycle-Decides}
use openclaw_ecc_orchestrato.Runs.Dag.Accepted.{table_of, analyze_plan-Layered}

abbrev diamond : List PlanEntry
diamond =
    unit "d" (some ("b" ∷ "c" ∷ []))
    ∷ unit "b" (some ("a" ∷ "a" ∷ []))
    ∷ unit "c" (some ("a" ∷ []))
    ∷ unit "a" (some [])
    ∷ []

diamond_layers : (analyze_plan diamond).layers ≡ ("a" ∷ []) ∷ ("b" ∷ "c" ∷ []) ∷ ("d" ∷ []) ∷ []
unfolding analyze_plan sorted get put
diamond_layers = refl

abbrev ring : List PlanEntry
ring =
    unit "a" (some ("b" ∷ []))
    ∷ unit "b" (some ("c" ∷ []))
    ∷ unit "c" (some ("b" ∷ "x" ∷ []))
    ∷ no_id
    ∷ unit "a" none
    ∷ []

ring_errors :
    (analyze_plan ring).errors
    ≡ invalid_id ∷ duplicate_id "a" ∷ missing_dependency "c" "x" ∷ cycle ("b" ∷ "c" ∷ "b" ∷ []) ∷ []
unfolding analyze_plan sorted get put
ring_errors = refl

diamond_accepted : (analyze_plan diamond).accepted ≡ true
unfolding analyze_plan sorted get put
diamond_accepted = refl

d_known : has "d" (ids_of (table_of diamond)) ≡ true
unfolding read_units
d_known = refl

analyze_plan-Layered_example :
    (has "d" (analyze_plan diamond).order ≡ true)
    × Layered (table_of diamond) [] (analyze_plan diamond).layers
analyze_plan-Layered_example = analyze_plan-Layered diamond "d" diamond_accepted d_known

find_cycle-Decides_example :
    Decides (table_of ring) (sorted (ids_of (table_of ring))) (find_cycle (table_of ring))
find_cycle-Decides_example = find_cycle-Decides (table_of ring)
