-- ===== src/MergeQueue/Dispatch/Tests.antt =====
-- Runs and instances for src/openclaw_ecc_orchestrator/merge_queue/dispatch.py and conflicts.py.
use openclaw_ecc_orchestrato.Prelude.{
  ℕ, Option, arith, ap, or_else, ◌≢◌, ◌+◌, String, ◌≡◌, refl, true, false, ◌&&◌, some, List, [],
  ◌∷◌, map,
}
use openclaw_ecc_orchestrato.Prelude.Codes.{codes}
use openclaw_ecc_orchestrato.Prelude.Fnmatch.{fnmatchcase}
use openclaw_ecc_orchestrato.MergeQueue.Conflicts.{
  prefix, under, mixed, overlap, patterns_overlap, scope_overlaps, clash,
}
use openclaw_ecc_orchestrato.MergeQueue.Conflicts.Symmetric.{clash_sym}
use openclaw_ecc_orchestrato.MergeQueue.Dispatch.{
  files, conflicts_with, Reason, no_worker, scope_overlap, Deferred, Plan, plan_dispatch, unit_ids,
  parallel_guard, guarded, no_selection,
}
use openclaw_ecc_orchestrato.Prelude.Dict.{get, put}
use openclaw_ecc_orchestrato.Runs.State.{active, running}
use openclaw_ecc_orchestrato.Runs.Result.{ok, err}
use openclaw_ecc_orchestrato.Runs.Document.{PlanUnit, UnitRecord, Run, new_unit_record}
use openclaw_ecc_orchestrato.Runs.Manager.Tx.{Reply, plain, Tx, begin}
use openclaw_ecc_orchestrato.Runs.Manager.Assign.{assign_unit}
use openclaw_ecc_orchestrato.Runs.Manager.Commands.{give, perform}
use openclaw_ecc_orchestrato.Tasks.Scope.{glob_match}
use openclaw_ecc_orchestrato.Tasks.Tests.{plain_decoding}
use openclaw_ecc_orchestrato.Tasks.Scope.Covers.{scope_contains}
use openclaw_ecc_orchestrato.Runs.Tests.{plan_a, plan_b, start_run, world}
use openclaw_ecc_orchestrato.MergeQueue.Dispatch.Progress.{
  times, times_deferred, Counted, plan_dispatch-Counted, plan_dispatch-progress,
}

abbrev unit_with : String → List String → PlanUnit
unit_with id files = record plan_a { id = id; scope_files = files }

abbrev docs : PlanUnit
docs = unit_with "docs" ("docs/*.md" ∷ [])

abbrev guide : PlanUnit
guide = unit_with "guide" ("docs/guide.md" ∷ [])

abbrev everything : PlanUnit
everything = unit_with "everything" []

abbrev planned : Plan
planned = plan_dispatch (docs ∷ guide ∷ plan_b ∷ everything ∷ []) (plan_a ∷ []) (some 2)

planned_ids : unit_ids planned.chosen ≡ "docs" ∷ "b" ∷ []
unfolding plan_dispatch scope_overlaps patterns_overlap overlap mixed fnmatchcase under prefix
planned_ids = refl

planned_deferred :
    map {B = String × Reason} (λ (d : Deferred). (d.unit_id, d.reason)) planned.deferred
    ≡ ("guide", scope_overlap) ∷ ("everything", no_worker) ∷ []
unfolding plan_dispatch scope_overlaps patterns_overlap overlap mixed fnmatchcase under prefix
planned_deferred = refl

-- A directory and a glob that reaches a file beneath it, which the source does not see to overlap.
missed : patterns_overlap (codes "src/lib") (codes "src/*/x.py") ≡ false
unfolding patterns_overlap overlap mixed prefix under fnmatchcase
missed = refl

missed_covers :
    (scope_contains plain_decoding (codes "src/lib/x.py") (codes "src/lib" ∷ [])
      && scope_contains plain_decoding (codes "src/lib/x.py") (codes "src/*/x.py" ∷ []))
    ≡ true
unfolding scope_contains glob_match
missed_covers = refl

classes : fnmatchcase (codes "b-x]") (codes "[!a][-z]?]") ≡ true
unfolding fnmatchcase
classes = refl

plan_dispatch-Counted_example :
    Counted (some 2) 3 (plan_dispatch (docs ∷ guide ∷ plan_b ∷ []) (plan_a ∷ []) (some 2))
    × (times "guide" (plan_dispatch (docs ∷ guide ∷ plan_b ∷ []) (plan_a ∷ []) (some 2)).chosen
          + times_deferred "guide"
              (plan_dispatch (docs ∷ guide ∷ plan_b ∷ []) (plan_a ∷ []) (some 2)).deferred
        ≡ times "guide" (docs ∷ guide ∷ plan_b ∷ []))
plan_dispatch-Counted_example =
    plan_dispatch-Counted (docs ∷ guide ∷ plan_b ∷ []) (plan_a ∷ []) (some 2) "guide"

docs_clear : conflicts_with docs (plan_a ∷ []) ≡ []
unfolding conflicts_with scope_overlaps patterns_overlap overlap mixed fnmatchcase under prefix
docs_clear = refl

everything_blocked : conflicts_with everything (plan_a ∷ []) ≢ []
unfolding conflicts_with scope_overlaps
everything_blocked e = cc

one_worker : ◌≢◌ {A = Option ℕ} (some 1) (some 0)
one_worker e = absurd (ground (arith, ap (λ o. or_else o 0) e))

plan_dispatch-progress_example :
    (more : List PlanUnit) × ((plan_dispatch
        (everything ∷ docs ∷ guide ∷ [])
        (plan_a ∷ [])
        (some 1)).chosen
      ≡ docs ∷ more)
plan_dispatch-progress_example =
    plan_dispatch-progress (everything ∷ []) docs (guide ∷ []) (plan_a ∷ []) (some 1) one_worker
      (everything_blocked, tt) docs_clear

clash_sym_example : clash (files docs) (files guide) ≡ clash (files guide) (files docs)
clash_sym_example = clash_sym (files docs) (files guide)

abbrev busy_b : UnitRecord
busy_b = record (new_unit_record plan_b) { state = running; owner = some "w-2" }

abbrev busy_run : Run
busy_run = record start_run { order = "a" ∷ "b" ∷ []; units = put "b" busy_b start_run.units }

abbrev given_a : Tx × Reply
unfolding perform assign_unit get put parallel_guard active conflicts_with
given_a = elim (perform (guarded world) "ana" (give "a" "w-1" no_selection) (begin busy_run)) [
  | ok r ↦ r
  | err e ↦ (begin busy_run, plain)
]
