-- ===== src/Runs/Dag.antt =====
-- src/openclaw_ecc_orchestrator/runs/dag.py: the analysis of a plan. A unit is what the code reads of it, its id
-- and its dependencies; the messages of the errors are left out, and so is the hash of the plan.
pub mod Accepted
pub mod Complete
pub mod Cycles
pub mod Layers
pub mod Searching
pub mod Tests
pub mod Walks
use openclaw_ecc_orchestrato.Prelude.{
  if◌then◌else◌, length, all, keep, is_nil, has, sorted, str_eq, ℕ, zero, suc, String, Bool, not,
  Option, none, some, List, [], ◌∷◌, ◌++◌, map,
}
use openclaw_ecc_orchestrato.Prelude.Dict.{Dict, get, put}

-- The entry of a plan: no object, an object without an id, or one with an id and its dependencies, `none` where
-- they are no list of texts.
pub data PlanEntry : Type 0 where
  no_object : PlanEntry
  no_id : PlanEntry
  unit : (id : String) → (depends_on : Option (List String)) → PlanEntry

pub data PlanError : Type 0 where
  invalid_unit invalid_id : PlanError
  duplicate_id invalid_depends_on : String → PlanError
  missing_dependency : (unit_id dependency : String) → PlanError
  cycle : List String → PlanError

-- The ids, each with its dependencies, in the order of the plan (`ids` and `deps`).
abbrev pub Table : Type 0
Table = List (String × List String)

abbrev pub ids_of : Table → List String
ids_of table = map (λ e. e.0) table

-- `list(dict.fromkeys(raw))`
abbrev pub dedup : (seen : List String) → List String → List String
dedup seen [] = []
dedup seen (d ∷ ds) =
    let skip = dedup seen ds in
    let take = dedup (d ∷ seen) ds in if has d seen then skip else d ∷ take

-- The first loop of `analyze_plan`: the table read so far, and the errors.
abbrev pub read_unit : PlanEntry → Table × List PlanError → Table × List PlanError
read_unit no_object (table, errors) = (table, errors ++ invalid_unit ∷ [])
read_unit no_id (table, errors) = (table, errors ++ invalid_id ∷ [])
read_unit (unit uid depends_on) (table, errors) =
    if str_eq uid ""
    then (table, errors ++ invalid_id ∷ [])
    else if has uid (ids_of table)
    then (table, errors ++ duplicate_id uid ∷ [])
    else elim depends_on [
      | none ↦ (table ++ (uid, []) ∷ [], errors ++ invalid_depends_on uid ∷ [])
      | some raw ↦ (table ++ (uid, dedup [] raw) ∷ [], errors)
    ]

unfoldable pub read_units : List PlanEntry → Table × List PlanError → Table × List PlanError
read_units [] read = read
read_units (e ∷ es) read = read_units es (read_unit e read)

abbrev pub missing_of : List String → String → List String → List PlanError
missing_of known uid [] = []
missing_of known uid (d ∷ ds) =
    let rest = missing_of known uid ds in
    if has d known then rest else missing_dependency uid d ∷ rest

-- The second loop.
unfoldable pub missing : List String → Table → List PlanError
missing known [] = []
missing known ((uid, ds) ∷ table) = missing_of known uid ds ++ missing known table

-- `ds <= done`
abbrev pub is_ready : List String → String × List String → Bool
is_ready done e = all (λ d. has d done) e.1

unfoldable pub next_layer : Table → List String → List String
next_layer remaining done = sorted (ids_of (keep (is_ready done) remaining))

-- `del remaining[uid]` for the units of a layer.
abbrev pub without : List String → Table → Table
without layer remaining = keep (λ e. not (has e.0 layer)) remaining

-- The loop over `remaining`: the layers, and what is left.
unfoldable pub layers_from : (fuel : ℕ) → Table → (done : List String) → List (List String) × Table
layers_from zero remaining done = ([], remaining)
layers_from (suc fuel) remaining done =
    let layer = next_layer remaining done in
    let rest = layers_from fuel (without layer remaining) (layer ++ done) in
    if is_nil layer then ([], remaining) else (layer ∷ rest.0, rest.1)

-- Each round takes a unit at least, so that as many rounds as units are enough.
unfoldable pub layers_of : Table → List (List String) × Table
unfolding layers_from next_layer
layers_of table = layers_from (length table) table []

abbrev pub flat : List (List String) → List String
flat [] = []
flat (l ∷ ls) = l ++ flat ls

-- The colors of the search for a cycle.
pub data Color : Type 0 where
  white grey black : Color

-- `color` and `stack`, whose top comes first here.
pub record Search : Type 0 where
  pub color : Dict Color
  pub stack : List String

-- What `visit` returns, or that the fuel is used up.
pub data Visited : Type 0 where
  clear : Visited
  found : List String → Visited
  no_fuel : Visited

-- `stack[stack.index(dep):]`, reversed.
abbrev pub since : String → List String → List String
since dep [] = []
since dep (x ∷ xs) = let rest = since dep xs in if str_eq x dep then x ∷ [] else x ∷ rest

abbrev pub reversed : List String → List String → List String
reversed [] acc = acc
reversed (x ∷ xs) acc = reversed xs (x ∷ acc)

abbrev pub closed_walk : String → List String → List String
closed_walk dep stack = reversed (since dep stack) [] ++ dep ∷ []

abbrev pub enter : String → Search → Search
enter node s = record { color = put node grey s.color; stack = node ∷ s.stack }

abbrev pub popped : List String → List String
popped [] = []
popped (x ∷ xs) = xs

abbrev pub finish_visit : String → Search → Search
finish_visit node s = record { color = put node black s.color; stack = popped s.stack }

-- What follows a visit: the rest of the loop, unless a cycle was found.
abbrev pub go_on {ℓ} :
    {A : Type ℓ} → (rest : Search → A) → (stop : Visited → Search → A) → Visited × Search → A
go_on rest stop (clear, s) = rest s
go_on rest stop (found c, s) = stop (found c) s
go_on rest stop (no_fuel, s) = stop no_fuel s

abbrev pub visit_dep :
    (go : String → Search → Visited × Search) (rest : Search → Visited × Search)
    → Search
    → String
    → Option Color
    → Visited × Search
visit_dep go rest s d none = rest s
visit_dep go rest s d (some black) = rest s
visit_dep go rest s d (some grey) = (found (closed_walk d s.stack), s)
visit_dep go rest s d (some white) = go_on rest (λ v s'. (v, s')) (go d s)

-- The loop over the dependencies of a node; `go` visits one.
unfoldable pub visit_deps :
    (go : String → Search → Visited × Search) → List String → Search → Visited × Search
visit_deps go [] s = (clear, s)
visit_deps go (d ∷ ds) s = visit_dep go (visit_deps go ds) s d (get d s.color)

abbrev pub deps_of : Table → String → List String
deps_of [] node = []
deps_of ((uid, ds) ∷ table) node =
    let rest = deps_of table node in if str_eq uid node then ds else rest

abbrev pub after_deps : String → Visited × Search → Visited × Search
after_deps node (clear, s) = (clear, finish_visit node s)
after_deps node (found c, s) = (found c, s)
after_deps node (no_fuel, s) = (no_fuel, s)

-- `visit`
unfoldable pub visit : ℕ → Table → String → Search → Visited × Search
visit zero table node s = (no_fuel, s)
visit (suc fuel) table node s =
    after_deps node (visit_deps (visit fuel table) (sorted (deps_of table node)) (enter node s))

abbrev pub all_white : List String → Dict Color
all_white [] = []
all_white (i ∷ is) = (i, white) ∷ all_white is

abbrev pub visit_root :
    (go : String → Search → Visited × Search) (rest : Search → Visited)
    → Search
    → String
    → Option Color
    → Visited
visit_root go rest s i (some white) = go_on rest (λ v s'. v) (go i s)
visit_root go rest s i (some grey) = rest s
visit_root go rest s i (some black) = rest s
visit_root go rest s i none = rest s

-- The loop over the nodes.
unfoldable pub visit_all :
    (go : String → Search → Visited × Search) → List String → Search → Visited
visit_all go [] s = clear
visit_all go (i ∷ is) s = visit_root go (visit_all go is) s i (get i s.color)

-- `_find_cycle`
unfoldable pub find_cycle : Table → Visited
unfolding visit_deps visit visit_all
find_cycle table =
    let ids = ids_of table in
    visit_all (visit (suc (length ids)) table) (sorted ids)
      (record { color = all_white ids; stack = [] })

abbrev pub cycle_errors : Visited → List PlanError
cycle_errors clear = []
cycle_errors (found c) = cycle c ∷ []
cycle_errors no_fuel = []

pub record Analysis : Type 0 where
  pub accepted : Bool
  pub errors : List PlanError
  pub layers : List (List String)
  pub order : List String

-- `analyze_plan`, of a list.
unfoldable pub analyze_plan : List PlanEntry → Analysis
unfolding read_units missing find_cycle layers_of
analyze_plan units =
    let (table, unreadable) = read_units units ([], []) in
    let errors = unreadable ++ (missing (ids_of table) table ++ cycle_errors (find_cycle table)) in
    let layers = if is_nil errors then (layers_of table).0 else [] in
    record { accepted = is_nil errors; errors = errors; layers = layers; order = flat layers }
