-- ===== src/Plugin/Approvals.antt =====
-- `ApprovalBroker` of src/openclaw_ecc_orchestrator/plugin/approvals.py. The state file is a value, and
-- the broker's lock is held throughout an operation; the clock is read once in it. Emission, summaries
-- and the payload of an envelope are left out.
pub mod Brokering
pub mod Once
pub mod Binds
use openclaw_ecc_orchestrato.Prelude.{
  ltb, leb, if◌then◌else◌, is_some, all, str_eq, opt_eq, is_blank, ℕ, String, Bool, true, false,
  not, ◌&&◌, ◌||◌, Option, none, some, List, [], ◌∷◌, ◌++◌,
}
use openclaw_ecc_orchestrato.Prelude.Dict.{Dict, get}

-- A value of a JSON document: `None` or a missing key, a text, or anything else.
pub data Value : Type 0 where
  null other : Value
  text : String → Value

-- `BINDING_FIELDS`, and `head_sha`.
pub data Field : Type 0 where
  run_id unit_id plan_action plan_sha256 session_id head_sha : Field

abbrev pub binding_fields : List Field
binding_fields = run_id ∷ unit_id ∷ plan_action ∷ plan_sha256 ∷ session_id ∷ []

pub data Status : Type 0 where
  pending approved rejected expired consumed : Status

abbrev pub is_pending : Status → Bool
is_pending pending = true
is_pending _ = false

abbrev pub is_approved : Status → Bool
is_approved approved = true
is_approved _ = false

abbrev pub is_expired : Status → Bool
is_expired expired = true
is_expired _ = false

-- The fields that a request binds.
pub record Bound : Type 0 where
  pub run : String
  pub unit : String
  pub act : String
  pub plan : String
  pub session : String
  pub head : Option String

pub record Request : Type 0 where
  pub bound : Bound
  pub expires_at : ℕ
  pub status : Status
  pub requested_at : ℕ
  pub resolved_at : Option ℕ
  pub decided_by : Option String
  pub consumed_at : Option ℕ

-- An entry of `rejected_attempts`.
pub record Attempt : Type 0 where
  pub request_id : Option String
  pub at : ℕ
  pub failed : List String
  pub claimed : List Value

pub record Broker : Type 0 where
  pub requests : Dict Request
  pub rejected_attempts : List Attempt

-- `state` of a file that is not there.
abbrev pub empty_broker : Broker
empty_broker = record { requests = []; rejected_attempts = [] }

abbrev pub of_option : Option String → Value
of_option none = null
of_option (some t) = text t

-- `req[f]`
abbrev pub field : Field → Bound → Value
field run_id b = text b.run
field unit_id b = text b.unit
field plan_action b = text b.act
field plan_sha256 b = text b.plan
field session_id b = text b.session
field head_sha b = of_option b.head

-- `==` of a field of a request, which is a text or `None`, and a value.
abbrev pub value_eq : Value → Value → Bool
value_eq null null = true
value_eq (text a) (text b) = str_eq a b
value_eq _ _ = false

-- A JSON decision. `head` is there (`some`) or missing.
pub record Decision : Type 0 where
  pub request_id : Value
  pub claim : Field → Value
  pub head : Option Value
  pub decision : Value
  pub decided_by : Value

-- One entry of `checks`: its name, and whether it passed.
abbrev pub Checked : Type 0
Checked = String × Bool

abbrev pub all_ok : List Checked → Bool
all_ok cs = all (λ c. c.1) cs

unfoldable pub failures : List Checked → List String
failures [] = []
failures ((name, passed) ∷ cs) = let rest = failures cs in if passed then rest else name ∷ rest

-- `_expire`
unfoldable pub expire_one : ℕ → Request → Request
expire_one now r =
    if is_pending r.status && leb r.expires_at now then record r { status = expired } else r

unfoldable pub expire_all : ℕ → Dict Request → Dict Request
unfolding expire_one
expire_all now [] = []
expire_all now ((k, r) ∷ m) = (k, expire_one now r) ∷ expire_all now m

-- `pending`, for all runs or for one.
unfoldable pub pending_requests : ℕ → Option String → Dict Request → List Request
pending_requests now run [] = []
pending_requests now run ((k, r) ∷ m) =
    let rest = pending_requests now run m in
    if is_pending r.status
      && (ltb now r.expires_at && (not (is_some run) || opt_eq run (some r.bound.run)))
    then r ∷ rest
    else rest

-- `requests.get(v)` where `v` is a text.
unfoldable pub find_request : Value → Broker → Option Request
find_request (text id) st = get id st.requests
find_request _ st = none

abbrev pub matches : List Field → (Field → Value) → Bound → Bool
matches fs claim b = all (λ f. value_eq (claim f) (field f b)) fs

-- `decision.get("decision") in DECISIONS`: the status that it gives.
unfoldable pub verdict : Value → Option Status
verdict (text t) =
    if str_eq t "approved"
    then some approved
    else if str_eq t "rejected"
    then some rejected
    else none
verdict _ = none

unfoldable pub head_check : Option Value → Bound → List Checked
head_check none b = []
head_check (some v) b = ("head_sha_matches", value_eq v (of_option b.head)) ∷ []

unfoldable pub request_checks : ℕ → Decision → Option Request → List Checked
unfolding head_check
request_checks now d none = ("request_known", false) ∷ []
request_checks now d (some r) =
    ("request_known", true)
    ∷ ("request_pending", is_pending r.status)
    ∷ ("not_expired", not (is_expired r.status) && ltb now r.expires_at)
    ∷ ("binding_matches", matches binding_fields d.claim r.bound)
    ∷ head_check d.head r.bound

-- A text that is not blank.
unfoldable pub names_someone : Value → Bool
unfolding is_blank
names_someone (text t) = not (is_blank t)
names_someone _ = false

-- `_decision_checks`
unfoldable pub decision_checks : ℕ → Decision → Broker → List Checked
unfolding find_request request_checks verdict names_someone
decision_checks now d st =
    request_checks now d (find_request d.request_id st)
    ++ ("decision_valid", is_some (verdict d.decision))
      ∷ ("decided_by_present", names_someone d.decided_by)
      ∷ []
