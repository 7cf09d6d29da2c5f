-- ===== src/Plugin/Approvals/Brokering.antt =====
-- `request`, `preview`, `resolve`, `usable` and `consume` of
-- src/openclaw_ecc_orchestrator/plugin/approvals.py.
use Prim.Native.Char.{code}
use Prim.Native.String.{count}
use openclaw_ecc_orchestrato.Prelude.{
  ltb, leb, ◌==◌, if◌then◌else◌, or_else, str_eq, ℕ, ◌+◌, String, Bool, true, false, not, ◌&&◌,
  ◌||◌, Option, none, some, List, [], ◌∷◌, ◌++◌, map,
}
use openclaw_ecc_orchestrato.Prelude.Dict.{Dict, get, put}
use openclaw_ecc_orchestrato.Plugin.Approvals.{
  Value, text, Field, binding_fields, Status, pending, rejected, consumed, is_pending, is_approved,
  Bound, Request, Broker, Decision, Checked, all_ok, failures, expire_all, find_request, matches,
  verdict, decision_checks,
}
use openclaw_ecc_orchestrato.Runs.Identifier.{valid_identifier}

-- The envelope of an operation.
pub record Answer : Type 0 where
  pub succeeded : Bool
  pub changed : Bool
  pub checks : List Checked

-- `0123456789abcdef`
is_hex : ℕ → Bool
is_hex n = (leb 48 n && leb n 57) || (leb 97 n && leb n 102)

unfoldable pub all_hex : String → Bool
unfolding is_hex
all_hex String.[] = true
all_hex (String.◌∷◌ c s) = is_hex (code c) && all_hex s

valid_head : Option String → Bool
unfolding all_hex
valid_head none = true
valid_head (some h) = leb 40 (count h) && all_hex h

unfoldable pub request_errors : Bound → List Checked
unfolding valid_head valid_identifier
request_errors b =
    ("run_id_valid", valid_identifier b.run)
    ∷ ("unit_id_valid", valid_identifier b.unit)
    ∷ ("action_present", not (str_eq b.act ""))
    ∷ ("plan_sha256_valid", count b.plan == 64)
    ∷ ("session_present", not (str_eq b.session ""))
    ∷ ("head_sha_valid", valid_head b.head)
    ∷ []

unfoldable pub new_request : (now ttl : ℕ) → Bound → Request
new_request now ttl b = record {
  bound = b;
  expires_at = now + ttl;
  status = pending;
  requested_at = now;
  resolved_at = none;
  decided_by = none;
  consumed_at = none;
}

-- `request`; `id` is `apr-` and what `id_gen` returns.
unfoldable pub request :
    (now : ℕ) (id : String) (ttl : ℕ) → (dry_run : Bool) → Bound → Broker → Answer × Broker
request now id ttl dry_run b st =
    let checks = request_errors b in
    if not (all_ok checks)
    then (record { succeeded = false; changed = false; checks = checks }, st)
    else if dry_run
    then (record { succeeded = true; changed = false; checks = checks }, st)
    else (
      record { succeeded = true; changed = true; checks = checks },
      record st { requests = put id (new_request now ttl b) st.requests },
    )

-- The broker after `_expire`.
unfoldable pub expire : ℕ → Broker → Broker
unfolding expire_all
expire now st = record st { requests = expire_all now st.requests }

-- `preview`
unfoldable pub preview : ℕ → Decision → Broker → Answer
unfolding expire decision_checks
preview now d st =
    let checks = decision_checks now d (expire now st) in
    record { succeeded = all_ok checks; changed = false; checks = checks }

abbrev pub any_expires : ℕ → Dict Request → Bool
any_expires now [] = false
any_expires now ((k, r) ∷ m) = (is_pending r.status && leb r.expires_at now) || any_expires now m

abbrev pub text_of : Value → Option String
text_of (text t) = some t
text_of _ = none

unfoldable pub reject : ℕ → Decision → List Checked → Broker → Broker
unfolding failures
reject now d checks st = record st {
  rejected_attempts =
      st.rejected_attempts
      ++ record {
        request_id = text_of d.request_id;
        at = now;
        failed = failures checks;
        claimed = map d.claim binding_fields;
      }
        ∷ [];
}

-- The request after a decision that passed its checks.
unfoldable pub settled : ℕ → Status → Value → Request → Request
settled now s decided_by r = record r {
  status = s;
  resolved_at = some now;
  decided_by = text_of decided_by;
}

unfoldable pub settle_found : ℕ → Decision → Option Request → Broker → Broker
unfolding verdict settled
settle_found now d (some r) st = record st {
  requests =
      put (or_else (text_of d.request_id) "")
        (settled now (or_else (verdict d.decision) rejected) d.decided_by r) st.requests;
}
settle_found now d none st = st

-- The write of `resolve`, its checks passed.
unfoldable pub settle : ℕ → Decision → Broker → Broker
unfolding settle_found find_request
settle now d st = settle_found now d (find_request d.request_id st) st

-- `resolve`
unfoldable pub resolve : ℕ → Decision → Broker → Answer × Broker
unfolding expire decision_checks reject settle
resolve now d st =
    let before = expire now st in
    let checks = decision_checks now d before in
    if all_ok checks
    then (record { succeeded = true; changed = true; checks = checks }, settle now d before)
    else (
      record { succeeded = false; changed = any_expires now st.requests; checks = checks },
      reject now d checks before,
    )

-- What a caller says that an approval binds: some fields, with their values.
pub record Binding : Type 0 where
  pub named : List Field
  pub value : Field → Value

unfoldable pub usable_found : ℕ → Binding → Option Request → List Checked
usable_found now b none = ("request_known", false) ∷ []
usable_found now b (some r) =
    ("request_known", true)
    ∷ ("request_approved", is_approved r.status)
    ∷ ("not_expired", ltb now r.expires_at)
    ∷ ("binding_matches", matches b.named b.value r.bound)
    ∷ []

-- `_usable_checks`; an empty id is refused as one that is no text.
unfoldable pub usable : ℕ → Value → Binding → Broker → List Checked
unfolding usable_found find_request
usable now (text id) b st =
    if str_eq id "" then usable_found now b none else usable_found now b (get id st.requests)
usable now v b st = usable_found now b none

unfoldable pub spend_found : ℕ → String → Option Request → Broker → Broker
spend_found now id none st = st
spend_found now id (some r) st = record st {
  requests = put id (record r { status = consumed; consumed_at = some now }) st.requests;
}

-- The write of `consume`.
unfoldable pub spend : ℕ → Value → Broker → Broker
unfolding spend_found
spend now (text id) st = spend_found now id (get id st.requests) st
spend now v st = st

-- `consume`
unfoldable pub consume : ℕ → Value → Binding → Broker → Answer × Broker
unfolding usable spend
consume now v b st =
    let checks = usable now v b st in
    if all_ok checks
    then (record { succeeded = true; changed = true; checks = checks }, spend now v st)
    else (record { succeeded = false; changed = false; checks = checks }, st)
