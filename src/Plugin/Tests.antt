-- ===== src/Plugin/Tests.antt =====
-- A broker with one request, and the theorems about src/openclaw_ecc_orchestrator/plugin on it.
use openclaw_ecc_orchestrato.Prelude.{String, ◌≡◌, refl, true, false, none, some, [], ◌∷◌}
use openclaw_ecc_orchestrato.Prelude.Dict.{get}
use openclaw_ecc_orchestrato.Plugin.Approvals.{
  text, binding_fields, pending, approved, Bound, Request, Broker, field, Decision,
}
use openclaw_ecc_orchestrato.Plugin.Approvals.Brokering.{
  expire, resolve, Answer, Binding, usable_found, usable, consume,
}
use openclaw_ecc_orchestrato.Plugin.Inbox.{
  holds, Inbox, Claim, open_file, read_file, finish_file, resolve_decision, process_read,
  process_opened, process_one, crashed,
}
use openclaw_ecc_orchestrato.Plugin.Inbox.Twice.{retried, process_one-once}
use openclaw_ecc_orchestrato.Plugin.Approvals.Once.{decide, use_up, steps, consume-once}
use openclaw_ecc_orchestrato.Plugin.Approvals.Binds.{Accepts, resolve-Accepts}

abbrev bound : Bound
bound = record {
  run = "run-1";
  unit = "a";
  act = "merge";
  plan = "sha";
  session = "s-1";
  head = none;
}

abbrev asked : Request
asked = record {
  bound = bound;
  expires_at = 100;
  status = approved;
  requested_at = 1;
  resolved_at = some 2;
  decided_by = some "owner";
  consumed_at = none;
}

abbrev broker : Broker
broker = record { requests = ("apr-1", asked) ∷ []; rejected_attempts = [] }

abbrev binding : Binding
binding = record { named = binding_fields; value = λ f. field f bound }

abbrev decision : Decision
decision = record {
  request_id = text "apr-1";
  claim = λ f. field f bound;
  head = none;
  decision = text "approved";
  decided_by = text "owner";
}

consumed_once : (consume 5 (text "apr-1") binding broker).0.succeeded ≡ true
unfolding consume usable usable_found get
consumed_once = refl

consume-once_example :
    (consume 9 (text "apr-1") binding (
      steps
        (decide 6 decision ∷ use_up 7 (text "apr-1") binding ∷ [])
        (consume 5 (text "apr-1") binding broker).1)).0.succeeded
    ≡ false
consume-once_example =
    consume-once 5 9 "apr-1" binding binding
      (decide 6 decision ∷ use_up 7 (text "apr-1") binding ∷ []) broker consumed_once (tt, (tt, tt))

abbrev waiting : Broker
waiting = record {
  requests =
      ("apr-1", record asked { status = pending; decided_by = none; resolved_at = none }) ∷ [];
  rejected_attempts = [];
}

resolved : (resolve 5 decision waiting).0.succeeded ≡ true
unfolding resolve get expire
resolved = refl

resolve-Accepts_example :
    (id : String) × (q : Request) × (get id (expire 5 waiting).requests ≡ some q)
    × Accepts 5 decision id q
resolve-Accepts_example = resolve-Accepts 5 decision waiting resolved

abbrev inbox : Inbox
inbox = record {
  files = ("d.json", holds decision) ∷ [];
  processed = [];
  results = [];
  broker = waiting;
}

abbrev first_pass : Claim
first_pass = record { now = 5; claimed = true }

abbrev next_pass : Claim
next_pass = record { now = 8; claimed = true }

first_answer : Answer
unfolding resolve
first_answer = (resolve 5 decision waiting).0

processed_first : (process_one first_pass "d.json" inbox).0 ≡ some first_answer
unfolding process_one process_opened open_file process_read read_file resolve_decision finish_file
    get first_answer resolve
processed_first = refl

accepted_first : first_answer.succeeded ≡ true
unfolding first_answer
accepted_first = resolved

process_one-once_example :
    (a : Answer) × ((retried first_pass next_pass "d.json" inbox).0 ≡ some a)
    × (a.succeeded ≡ false)
    × ((retried first_pass next_pass "d.json" inbox).1.broker.requests
        ≡ (expire 8 (crashed first_pass "d.json" inbox).broker).requests)
    × (get "d.json" (retried first_pass next_pass "d.json" inbox).1.results ≡ some a)
    × (get "d.json" (retried first_pass next_pass "d.json" inbox).1.files ≡ none)
process_one-once_example =
    process_one-once first_pass next_pass "d.json" inbox first_answer processed_first accepted_first
      refl
