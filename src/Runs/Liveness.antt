-- ===== src/Runs/Liveness.antt =====
-- src/openclaw_ecc_orchestrator/runs/liveness.py: is the process of a record still the one that was
-- recorded? The platform's probe, `kill` and `identity`, is the parameter `Probe`.
use openclaw_ecc_orchestrato.Prelude.{
  ◌==◌, if◌then◌else◌, str_eq, ℕ, zero, suc, String, Bool, false, ◌||◌, Option, none, some, List,
  [], ◌∷◌,
}
use openclaw_ecc_orchestrato.Runs.Document.{Process}

-- What a process record keeps of its identity (`_expected_identity` reads no more).
pub data Liveness : Type 0 where
  dead alive unverified : Liveness

-- How `os.kill(pid, 0)` ends.
pub data Signalled : Type 0 where
  delivered lookup_error permission_error os_error : Signalled

pub record Identity : Type 0 where
  pub state : List ℕ
  pub token : String
  pub method : String

-- What `identity` returns: `GONE`, an identity, or nothing that is known.
pub data Answered : Type 0 where
  gone : Answered
  unknown : Answered
  identified : Identity → Answered

pub record Probe : Type 0 where
  pub kill : ℕ → Signalled
  pub identity : ℕ → Answered

abbrev pub method_proc : String
method_proc = "proc_stat_ticks"

-- `_valid_pid`
unfoldable pub valid_pid : Option ℕ → Option ℕ
valid_pid none = none
valid_pid (some zero) = none
valid_pid (some (suc n)) = some (suc n)

-- `_expected_identity`: the token with a method that is not empty, or else the old Linux field.
expected_ticks : Option String → Option (String × String)
expected_ticks none = none
expected_ticks (some t) = some (t, method_proc)

unfoldable pub expected_identity :
    (start_token start_method start_ticks : Option String) → Option (String × String)
unfolding expected_ticks
expected_identity (some t) (some m) ticks =
    if str_eq m "" then expected_ticks ticks else some (t, m)
expected_identity _ _ ticks = expected_ticks ticks

-- The state begins with Z or X.
is_zombie : List ℕ → Bool
is_zombie [] = false
is_zombie (c ∷ rest) = (c == b'Z') || (c == b'X')

compare_identity : Option (String × String) → Identity → Liveness
compare_identity none i = unverified
compare_identity (some (token, method)) i =
    if str_eq method i.method then (if str_eq token i.token then alive else dead) else unverified

classify_identity : Option (String × String) → Answered → Liveness
unfolding is_zombie compare_identity
classify_identity expected gone = dead
classify_identity expected unknown = unverified
classify_identity expected (identified i) =
    if is_zombie i.state then dead else compare_identity expected i

classify_pid : Probe → Option (String × String) → ℕ → Liveness
unfolding classify_identity
classify_pid probe expected pid = elim (probe.kill pid) [
  | lookup_error ↦ dead
  | os_error ↦ unverified
  | permission_error ↦ classify_identity expected (probe.identity pid)
  | delivered ↦ classify_identity expected (probe.identity pid)
]

abbrev flatten_option : Option (Option String) → Option String
flatten_option none = none
flatten_option (some o) = o

abbrev pub expected_of : Process → Option (String × String)
unfolding expected_identity
expected_of p =
    expected_identity (flatten_option p.start_token) p.start_method (flatten_option p.start_ticks)

-- `process_liveness`
unfoldable pub process_liveness : Probe → Process → Liveness
unfolding valid_pid classify_pid expected_identity
process_liveness probe p = elim (valid_pid p.pid) [
  | none ↦ dead
  | some pid ↦ classify_pid probe (expected_of p) pid
]

-- The fields that `capture_identity` returns, as it writes them into a record.
captured : Answered → Process → Process
captured (identified i) p = record p {
  start_ticks = some (if str_eq i.method method_proc then some i.token else none);
  start_token = some (some i.token);
  start_method = some i.method;
}
captured _ p = record p { start_ticks = some none; start_token = some none; start_method = none }

capture_pid : Probe → Option ℕ → Process → Process
unfolding captured
capture_pid probe none p = captured unknown p
capture_pid probe (some pid) p = captured (probe.identity pid) p

-- `record.update(capture_identity(pid))`
unfoldable pub capture_identity : Probe → Process → Process
unfolding capture_pid valid_pid
capture_identity probe p = capture_pid probe (valid_pid p.pid) p
