-- ===== src/Runs/Manager/Creation.antt =====
-- `create_run` and `_replace_run` of src/openclaw_ecc_orchestrator/runs/manager.py. What `analyze_plan` and
-- the validators of documents report is the argument `PlanReport`, and the hash of the plan is one too.
use openclaw_ecc_orchestrato.Prelude.{
  ◌≢◌, ◌⊎◌, ◌<◌, inl, inr, Bool-cases, sym, ap, ◌∙◌, or_else, either_left, either_right, str_eq,
  ltb, if◌then◌else◌, is_some, all, is_nil, opt_eq, ℕ, String, ◌≡◌, refl, Bool, true, false, not,
  ◌&&◌, ◌||◌, Option, none, some, List, [], ◌∷◌, ◌++◌, arith,
}
use openclaw_ecc_orchestrato.Prelude.Dict.{Dict, get, put}
use openclaw_ecc_orchestrato.Runs.State.{State, pending, ready, one_of}
use openclaw_ecc_orchestrato.Runs.Result.{ok, err}
use openclaw_ecc_orchestrato.Runs.Document.{
  UnitRecord, PlanUnit, Run, EventData, run_created, run_replanned, new_unit_record,
}
use openclaw_ecc_orchestrato.Runs.Manager.Tx.{begin, promote_ready}
use openclaw_ecc_orchestrato.Runs.Manager.Store.{
  Store, last_seq, append_event, load, append_events, save, Envelope, refused_call, Answer,
  returned, uncaught,
}
use openclaw_ecc_orchestrato.Runs.Manager.Leases.{new_lease, lease_blocker}
use openclaw_ecc_orchestrato.Runs.Identifier.{valid_identifier}

pub record PlanReport : Type 0 where
  pub plan_valid : Bool
  pub order : List String
  pub units_valid : Bool
  pub policy_valid : Bool

unfoldable pub unit_records : List PlanUnit → Dict UnitRecord → Dict UnitRecord
unfolding new_unit_record
unit_records [] units = units
unit_records (u ∷ us) units = unit_records us (put u.id (new_unit_record u) units)

unfoldable pub new_run :
    (now lease_ttl : ℕ) (run_id c plan_sha256 : String) → List PlanUnit → List String → Run
unfolding unit_records new_lease
new_run now lease_ttl run_id c plan_sha256 units order = record {
  run_id = run_id;
  created_at = now;
  plan_sha256 = plan_sha256;
  plan = units;
  order = order;
  lease = some (new_lease now lease_ttl c none);
  units = unit_records units [];
  handoffs = [];
  replaced = [];
  last_event_seq = 0;
}

-- `RunStore.exists`
unfoldable pub exists : Store → Bool
exists s = is_some s.snapshot || not (is_nil s.log)

abbrev created : String → Option ℕ → Envelope
created operation checkpoint = record {
  operation = operation;
  succeeded = true;
  changed = is_some checkpoint;
  checks = record { name = "plan_valid"; passed = true } ∷ [];
  actions = [];
  checkpoint = checkpoint;
}

-- The first event of a plan, then those of the units that are ready, then the snapshot. An exception
-- leaves what was written so far.
unfoldable pub install :
    (now : ℕ) (c operation : String)
    → (ℕ → EventData)
    → (checkpoint : ℕ) → Run
    → Store
    → Answer × Store
unfolding append_event promote_ready append_events save
install now c operation first checkpoint doc s =
    let s1 = append_event (first checkpoint) s in
    elim (promote_ready now c (begin (record doc { last_event_seq = last_seq s1 }))) [
      | err e ↦ (uncaught e, s1)
      | ok tx ↦
          let (work, s2) = append_events tx.events tx.run s1 in
          (returned (created operation (some checkpoint)), save work s2)
    ]

-- The unit was dispatched: it has left `pending` and `ready`, or has an attempt or a workspace.
unfoldable pub dispatched : UnitRecord → Bool
dispatched u =
    not (one_of u.state (pending ∷ ready ∷ []))
    || (ltb 0 u.attempts || (is_some u.workspace && not (opt_eq u.workspace (some ""))))

abbrev pub any_dispatched : Dict UnitRecord → Bool
any_dispatched [] = false
any_dispatched ((k, u) ∷ m) = dispatched u || any_dispatched m

-- The new document, once the old run may be replaced.
unfoldable pub replanned : (now : ℕ) → Run → Run → Run
replanned now old doc = record doc {
  created_at = old.created_at;
  replaced = old.replaced ++ (old.plan_sha256, now) ∷ [];
}

unfoldable pub replace_old :
    (now : ℕ) (c : String) (dry_run : Bool) → Run → Run → Store → Answer × Store
replace_old now c dry_run doc old s =
    if any_dispatched old.units
    then (returned (refused_call "run.replace" "no_unit_dispatched"), s)
    else if is_some (lease_blocker now old c)
    then (returned (refused_call "run.replace" "lease_held"), s)
    else if dry_run
    then (returned (created "run.replace" none), s)
    else install now c "run.replace" (λ n. run_replanned (replanned now old doc) c)
        old.last_event_seq (replanned now old doc) s

-- `_replace_run`
unfoldable pub replace_run : (now : ℕ) (c : String) (dry_run : Bool) → Run → Store → Answer × Store
replace_run now c dry_run doc s = elim (load s) [
  | err e ↦ (returned (refused_call "run.replace" "run_exists"), s)
  | ok old ↦ replace_old now c dry_run doc old s
]

-- `create_run` once the plan has passed its checks.
unfoldable pub create_new : (now : ℕ) (c : String) (dry_run : Bool) → Run → Store → Answer × Store
create_new now c dry_run doc s =
    if dry_run
    then (returned (created "run.create" none), s)
    else if exists s
    then (returned (refused_call "run.create" "run_id_unique"), s)
    else install now c "run.create" (λ n. run_created doc c) 0 doc (save doc s)

-- `create_run`
unfoldable pub create_run :
    (now lease_ttl : ℕ) (run_id c plan_sha256 : String) (report : PlanReport)
    (dry_run replace : Bool)
    → List PlanUnit
    → Store
    → Answer × Store
create_run now lease_ttl run_id c plan_sha256 report dry_run replace units s =
    if not report.plan_valid
    then (returned (refused_call "run.create" "plan_valid"), s)
    else if not report.units_valid
    then (returned (refused_call "run.create" "work_units_valid"), s)
    else if not report.policy_valid
    then (returned (refused_call "run.create" "repository_policy_valid"), s)
    else if not (all (λ (u : PlanUnit). valid_identifier u.id) units)
    then (returned (refused_call "run.create" "unit_ids_path_safe"), s)
    else if not (valid_identifier run_id)
    then (returned (refused_call "run.create" "run_id_valid"), s)
    else (let doc = new_run now lease_ttl run_id c plan_sha256 units report.order in
        if replace then replace_run now c dry_run doc s else create_new now c dry_run doc s)

-- A run that is there is not written over by a creation.
create_new-kept :
    (now : ℕ) (c : String) (dry_run : Bool) (doc : Run) (s : Store)
    → exists s ≡ true
    → (create_new now c dry_run doc s).1 ≡ s
unfolding create_new
create_new-kept now c true doc s there = refl
create_new-kept now c false doc s there = rw there refl

replace_old-kept :
    (now : ℕ) (c : String) (dry_run : Bool) (doc old : Run) (s : Store)
    → any_dispatched old.units ≡ true
    → (replace_old now c dry_run doc old s).1 ≡ s
unfolding replace_old
replace_old-kept now c dry_run doc old s started = rw started refl

replace_run-kept :
    (now : ℕ) (c : String) (dry_run : Bool) (doc old : Run) (s : Store)
    → load s ≡ ok old
    → any_dispatched old.units ≡ true
    → (replace_run now c dry_run doc s).1 ≡ s
unfolding replace_run
replace_run-kept now c dry_run doc old s loaded started =
    ground (arith, loaded, replace_old-kept now c dry_run doc old s started)

-- A unit that was worked on: it is neither pending nor ready, or an attempt of it was counted.
abbrev pub WorkedOn : UnitRecord → Type 0
WorkedOn u = ((u.state ≢ pending) × (u.state ≢ ready)) ⊎ 0 < u.attempts

waiting_state : (s : State) → one_of s (pending ∷ ready ∷ []) ≡ true → (s ≡ pending) ⊎ (s ≡ ready)
waiting_state pending h = inl refl
waiting_state ready h = inr refl
waiting_state _ h = absurd (ground (arith, h))

WorkedOn-dispatched : (u : UnitRecord) → WorkedOn u → dispatched u ≡ true
unfolding dispatched
WorkedOn-dispatched u (inr tried) = ground (arith, tried)
WorkedOn-dispatched u (inl (moved, away)) =
    elim (Bool-cases (one_of u.state (pending ∷ ready ∷ []))) [
      | inl waits ↦ absurd (elim (waiting_state u.state waits) [ inl e ↦ moved e | inr e ↦ away e ])
      | inr left ↦ ground (arith, left)
    ]

any_dispatched-get :
    (k : String) (u : UnitRecord) (m : Dict UnitRecord)
    → get k m ≡ some u
    → dispatched u ≡ true
    → any_dispatched m ≡ true
unfolding get
any_dispatched-get k u [] h started = cc
any_dispatched-get k u ((j, v) ∷ m) h started = elim (Bool-cases (str_eq j k)) [
  | inl same ↦
      let is : v ≡ u =
        ap (λ o. or_else o u) (ap (λ b. if b then some v else get k m) (sym same) ∙ h) in
      either_left (any_dispatched m) (ap dispatched is ∙ started)
  | inr differs ↦
      either_right (dispatched v) (
        any_dispatched-get k u m (ap (λ b. if b then some v else get k m) (sym differs) ∙ h)
          started)
]

-- `create_run` writes nothing, whatever the plan and its reports, where it is not to replace a run and a run
-- is there, loaded or not; and where it is to replace one, and a unit of the run that is loaded was worked
-- on.
pub create_run-kept :
    (now lease_ttl : ℕ) (run_id c plan_sha256 : String) (report : PlanReport)
    (dry_run replace : Bool) (units : List PlanUnit) (s : Store)
    → ((replace ≡ false) × (exists s ≡ true))
      ⊎ ((replace ≡ true)
          × ((old : Run) × (k : String) × (u : UnitRecord) × (load s ≡ ok old)
              × (get k old.units ≡ some u)
              × WorkedOn u))
    → (create_run now lease_ttl run_id c plan_sha256 report dry_run replace units s).1 ≡ s
unfolding create_run
create_run-kept now lease_ttl run_id c plan_sha256 report dry_run replace units s
      (inl (keeps, there)) =
    let doc = new_run now lease_ttl run_id c plan_sha256 units report.order in
    ground (arith, keeps, create_new-kept now c dry_run doc s there)
create_run-kept now lease_ttl run_id c plan_sha256 report dry_run replace units s
      (inr (replaces, (old, k, u, loaded, known, worked))) =
    let doc = new_run now lease_ttl run_id c plan_sha256 units report.order in
    let started = any_dispatched-get k u old.units known (WorkedOn-dispatched u worked) in
    ground (arith, replaces, replace_run-kept now c dry_run doc old s loaded started)
