-- ===== src/MergeQueue.antt =====
-- `MergeQueue` of src/openclaw_ecc_orchestrator/merge_queue/queue.py: `enqueue` and `process_next` on the
-- content of the state file. What git answers, and what the gates, the classifier and the check of the
-- reviewer's tier report, are arguments; emission and payloads are left out.
use Prim.Native.String.{count}
pub mod Conflicts
pub mod Dispatch
pub mod Merging
pub mod Tests
use openclaw_ecc_orchestrato.Prelude.{
  leb, if◌then◌else◌, is_some, or_else, has, str_eq, opt_eq, ℕ, String, Bool, true, false, not,
  ◌&&◌, ◌||◌, Option, none, some, List, [], ◌∷◌, ◌++◌,
}
use openclaw_ecc_orchestrato.Plugin.Approvals.{
  Value, text, Field, run_id, unit_id, plan_action, plan_sha256, session_id, head_sha,
  binding_fields, Broker, of_option, Checked, all_ok, verdict,
}
use openclaw_ecc_orchestrato.Plugin.Approvals.Brokering.{all_hex, Binding, usable, consume}

pub record Verification : Type 0 where
  pub passed : Bool
  pub unit_id : Option String
  pub handoff_valid : Bool
  pub out_of_scope : Bool
  pub head : Option String

abbrev pub no_verification : Verification
no_verification = record {
  passed = false;
  unit_id = none;
  handoff_valid = false;
  out_of_scope = false;
  head = none;
}

pub record Review : Type 0 where
  pub run_id : Option String
  pub unit_id : Option String
  pub verdict : Option String
  pub reviewer : Option String
  pub author : Option String
  pub authors : List String
  pub independent : Bool
  pub head : Option String
  pub session_id : Option String

pub record Item : Type 0 where
  pub run_id : String
  pub unit_id : String
  pub branch : String
  pub branch_tip : Option String
  pub verified_head : Option String
  pub plan_sha256 : String
  pub approval_request_id : String
  pub reviewer : Option String
  pub enqueued_at : ℕ

pub data Outcome : Type 0 where
  empty would_merge stale conflict gate_failed target_dirty merged : Outcome

pub record Record : Type 0 where
  pub item : Item
  pub status : Outcome
  pub processed_at : ℕ

pub record Queue : Type 0 where
  pub items : List Item
  pub consumed_approvals : List String
  pub history : List Record

-- `_is_sha`
unfoldable pub is_sha : Option String → Bool
unfolding all_hex
is_sha none = false
is_sha (some h) = leb 40 (count h) && all_hex h

abbrev pub is_text : String → Option String → Bool
is_text t o = opt_eq o (some t)

-- A text that is there and not empty.
abbrev pub truthy : Option String → Bool
truthy none = false
truthy (some t) = not (str_eq t "")

is_author : Option String → Option String → Review → Bool
is_author none author r = false
is_author (some who) author r = is_text who r.author || (is_text who author || has who r.authors)

-- `check_review`
unfoldable pub check_review :
    Option Review → (run unit : String) → (author : Option String) → List Checked
unfolding is_author
check_review none run unit author = ("review_present", false) ∷ []
check_review (some r) run unit author =
    ("review_present", true)
    ∷ ("review_bound", is_text run r.run_id && is_text unit r.unit_id)
    ∷ ("review_approved", is_text "approved" r.verdict)
    ∷ (
      "review_independent",
      truthy r.reviewer && (r.independent && not (is_author r.reviewer author r)),
    )
    ∷ []

-- What the repository and the routing report of a branch: its tip, whether its changes are in the scope,
-- whether their classification is valid, and whether the review satisfies it.
pub record Branch : Type 0 where
  pub tip : Option String
  pub has_target : Bool
  pub within_scope : Bool
  pub classified : Bool
  pub review_sufficient : Bool

-- `_scope_and_review_checks`
unfoldable pub scope_and_review_checks : Branch → List Checked
scope_and_review_checks b =
    if b.has_target
    then ("changes_within_scope", b.within_scope)
      ∷ ("classification_valid", b.classified)
      ∷ ("review_sufficient", b.review_sufficient)
      ∷ []
    else ("target_branch_exists", false) ∷ []

-- The arguments of `enqueue`; `rid` is `approval_request_id(approval)`.
pub record Asked : Type 0 where
  pub run_id : String
  pub unit_id : String
  pub plan : String
  pub branch : String
  pub verification : Verification
  pub review : Option Review
  pub rid : Option String
  pub author : Option String

abbrev session_of : Option Review → Option String
session_of none = none
session_of (some r) = r.session_id

abbrev head_of : Option Review → Option String
head_of none = none
head_of (some r) = r.head

abbrev reviewer_of : Option Review → Option String
reviewer_of none = none
reviewer_of (some r) = r.reviewer

abbrev bound_value : Asked → Field → Value
bound_value a run_id = text a.run_id
bound_value a unit_id = text a.unit_id
bound_value a plan_action = text "merge"
bound_value a plan_sha256 = text a.plan
bound_value a session_id = of_option (session_of a.review)
bound_value a head_sha = of_option a.verification.head

-- `binding`
unfoldable pub merge_binding : Asked → Binding
merge_binding a = record { named = head_sha ∷ binding_fields; value = bound_value a }

abbrev pub request_ids : List Item → List String
request_ids [] = []
request_ids (i ∷ is) = i.approval_request_id ∷ request_ids is

abbrev pub is_queued : (run unit : String) → List Item → Bool
is_queued run unit [] = false
is_queued run unit (i ∷ is) =
    (str_eq i.run_id run && str_eq i.unit_id unit) || is_queued run unit is

-- The approval has been neither consumed nor queued before.
unfoldable pub not_replayed : Option String → Queue → Bool
not_replayed none q = false
not_replayed (some id) q =
    not (str_eq id "") && not (has id (q.consumed_approvals ++ request_ids q.items))

broker_checks : ℕ → Asked → Option Broker → List Checked
unfolding usable merge_binding
broker_checks now a none = ("approval_broker", false) ∷ []
broker_checks now a (some b) =
    ("approval_usable", all_ok (usable now (of_option a.rid) (merge_binding a) b)) ∷ []

branch_checks : Branch → List Checked
unfolding scope_and_review_checks
branch_checks b = if is_some b.tip then scope_and_review_checks b else []

verification_checks : Asked → Branch → List Checked
unfolding is_sha
verification_checks a b =
    let v = a.verification in
    (
      "verification_passed",
      v.passed && (is_text a.unit_id v.unit_id && (v.handoff_valid && not v.out_of_scope)),
    )
    ∷ ("verified_head_recorded", is_sha v.head)
    ∷ ("branch_exists", is_some b.tip)
    ∷ ("branch_matches_verified_head", is_some b.tip && opt_eq b.tip v.head)
    ∷ []

-- The checks before that of the replay.
unfoldable pub first_checks : ℕ → Asked → Branch → Option Broker → List Checked
unfolding is_sha verification_checks check_review branch_checks broker_checks
first_checks now a b broker =
    verification_checks a b
    ++ (check_review a.review a.run_id a.unit_id a.author
        ++ (
          "review_head_matches",
          is_sha a.verification.head && opt_eq (head_of a.review) a.verification.head,
        )
          ∷ (branch_checks b ++ broker_checks now a broker))

-- The checks of `enqueue`, in its order.
unfoldable pub enqueue_checks : ℕ → Asked → Branch → Option Broker → Queue → List Checked
unfolding first_checks not_replayed
enqueue_checks now a b broker q =
    first_checks now a b broker
    ++ ("approval_not_replayed", not_replayed a.rid q)
      ∷ ("not_already_queued", not (is_queued a.run_id a.unit_id q.items))
      ∷ []

unfoldable pub new_item : ℕ → Asked → Branch → Item
new_item now a b = record {
  run_id = a.run_id;
  unit_id = a.unit_id;
  branch = a.branch;
  branch_tip = b.tip;
  verified_head = a.verification.head;
  plan_sha256 = a.plan;
  approval_request_id = or_else a.rid "";
  reviewer = reviewer_of a.review;
  enqueued_at = now;
}

-- What `enqueue` leaves.
pub record Enqueued : Type 0 where
  pub succeeded : Bool
  pub changed : Bool
  pub queue : Queue
  pub broker : Option Broker

abbrev pub refused : Queue → Option Broker → Enqueued
refused q broker = record { succeeded = false; changed = false; queue = q; broker = broker }

unfoldable pub take_in : ℕ → Asked → Branch → Broker → Queue → Enqueued
take_in now a b broker q =
    let (answer, broker') = consume now (of_option a.rid) (merge_binding a) broker in
    if answer.succeeded
    then record {
      succeeded = true;
      changed = true;
      queue = record q {
        items = q.items ++ new_item now a b ∷ [];
        consumed_approvals = q.consumed_approvals ++ or_else a.rid "" ∷ [];
      };
      broker = some broker';
    }
    else refused q (some broker')

unfoldable pub take_checked : ℕ → Asked → Branch → Option Broker → Queue → Enqueued
take_checked now a b none q = refused q none
take_checked now a b (some broker) q = take_in now a b broker q

-- `enqueue`
unfoldable pub enqueue : ℕ → Asked → Branch → (dry_run : Bool) → Option Broker → Queue → Enqueued
enqueue now a b dry_run broker q =
    if not (all_ok (enqueue_checks now a b broker q))
    then refused q broker
    else if dry_run
    then record { succeeded = true; changed = false; queue = q; broker = broker }
    else take_checked now a b broker q
