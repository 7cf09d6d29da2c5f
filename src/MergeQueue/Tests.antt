-- ===== src/MergeQueue/Tests.antt =====
-- A unit that is enqueued and merged, and the theorems about
-- src/openclaw_ecc_orchestrator/merge_queue on it.
use openclaw_ecc_orchestrato.Prelude.{
  String, ◌≡◌, ◌↔◌, ◌++◌, refl, true, false, none, some, List, [], ◌∷◌,
}
use openclaw_ecc_orchestrato.Prelude.Dict.{get}
use openclaw_ecc_orchestrato.Plugin.Approvals.{approved, Request, Broker}
use openclaw_ecc_orchestrato.Plugin.Approvals.Brokering.{usable, consume}
use openclaw_ecc_orchestrato.MergeQueue.{
  Verification, Review, Item, merged, Queue, Branch, Asked, merge_binding, first_checks,
  enqueue_checks, take_in, take_checked, enqueue,
}
use openclaw_ecc_orchestrato.MergeQueue.Merging.{
  Git, process_next, Earned, process_next-Earned, enqueue-once,
}

abbrev sha : String
sha = "0123456789abcdef0123456789abcdef01234567"

abbrev verification : Verification
verification = record {
  passed = true;
  unit_id = some "a";
  handoff_valid = true;
  out_of_scope = false;
  head = some sha;
}

abbrev review : Review
review = record {
  run_id = some "run-1";
  unit_id = some "a";
  verdict = some "approved";
  reviewer = some "kimi";
  author = some "codex";
  authors = [];
  independent = true;
  head = some sha;
  session_id = some "s-1";
}

abbrev asked : Asked
asked = record {
  run_id = "run-1";
  unit_id = "a";
  plan = "plan";
  branch = "unit/a";
  verification = verification;
  review = some review;
  rid = some "apr-1";
  author = some "codex";
}

abbrev branch : Branch
branch = record {
  tip = some sha;
  has_target = true;
  within_scope = true;
  classified = true;
  review_sufficient = true;
}

abbrev granted_request : Request
granted_request = record {
  bound = record {
    run = "run-1";
    unit = "a";
    act = "merge";
    plan = "plan";
    session = "s-1";
    head = some sha;
  };
  expires_at = 100;
  status = approved;
  requested_at = 1;
  resolved_at = some 2;
  decided_by = some "owner";
  consumed_at = none;
}

abbrev broker : Broker
broker = record { requests = ("apr-1", granted_request) ∷ []; rejected_attempts = [] }

abbrev empty_queue : Queue
empty_queue = record { items = []; consumed_approvals = []; history = [] }

taken : (enqueue 5 asked branch false (some broker) empty_queue).changed ≡ true
unfolding enqueue enqueue_checks first_checks take_checked take_in consume usable get merge_binding
taken = refl

enqueue-once_example :
    (enqueue 9 asked branch false none
      (enqueue 5 asked branch false (some broker) empty_queue).queue).succeeded
    ≡ false
enqueue-once_example =
    enqueue-once 5 9 asked asked branch branch false (some broker) none empty_queue "apr-1" refl
      refl taken

abbrev item : Item
item = record {
  run_id = "run-1";
  unit_id = "a";
  branch = "unit/a";
  branch_tip = some sha;
  verified_head = some sha;
  plan_sha256 = "plan";
  approval_request_id = "apr-1";
  reviewer = some "kimi";
  enqueued_at = 5;
}

abbrev one_queued : Queue
one_queued = record { items = item ∷ []; consumed_approvals = "apr-1" ∷ []; history = [] }

abbrev git : Git
git = record {
  target = some "f00d";
  tip = some sha;
  clean = true;
  merges = true;
  gates_pass = true;
  checked_out = false;
  dirty = false;
  at_target = false;
  updated = true;
}

was_merged : (process_next 6 git false one_queued).0 ≡ merged
unfolding process_next
was_merged = refl

process_next-Earned_example : ((process_next 6 git false one_queued).0 ≡ merged) ↔ (
    (false ≡ false)
    × (i : Item) × (rest : List Item) × (one_queued.items ≡ i ∷ rest)
    × Earned git i
    × ((process_next 6 git false one_queued).1.items ≡ rest)
    × ((process_next 6 git false one_queued).1.history
        ≡ one_queued.history ++ record { item = i; status = merged; processed_at = 6 } ∷ []))
process_next-Earned_example = process_next-Earned 6 git false one_queued
