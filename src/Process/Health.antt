-- ===== src/Process/Health.antt =====
-- `HealthMonitor` of src/openclaw_ecc_orchestrator/process/health.py, and the settings it takes. The
-- processor time of a sample is in milliseconds and the interval in seconds, so that the noise floor of
-- one thousandth of the interval is the interval itself. The evidence of a check, which repeats what the
-- check found with numbers for a reader, is left out.
pub mod Streak
use openclaw_ecc_orchestrato.Prelude.{
  ltb, leb, ◌==◌, if◌then◌else◌, or_else, is_nil, str_eq, ℕ, ◌+◌, String, Bool, true, false, not,
  ◌&&◌, Option, none, some, List, [], ◌∷◌,
}

-- A signal of a sample: it has no source, its source failed (`UNKNOWN`), or it has a value.
pub data Reading (A : Type 0) : Type 0 where
  absent unknown : Reading A
  known : A → Reading A

-- `signals`. The members of the group are their numbers in order, without repeats.
pub record Sample : Type 0 where
  pub alive : Bool
  pub cpu : Reading ℕ
  pub output : Reading ℕ
  pub events : Reading ℕ
  pub worktree : Reading String
  pub members : Reading (List ℕ)

abbrev pub no_sample : Sample
no_sample = record {
  alive = true;
  cpu = absent;
  output = absent;
  events = absent;
  worktree = absent;
  members = absent;
}

pub data Health : Type 0 where
  healthy suspected_hang hung : Health

abbrev pub health_number : Health → ℕ
health_number healthy = 0
health_number suspected_hang = 1
health_number hung = 2

pub record Settings : Type 0 where
  pub interval_seconds : ℕ
  pub flat_checks_for_hang : ℕ

-- `__post_init__`: the values that are refused without `test_override`, and with it.
unfoldable pub valid_settings : (test_override : Bool) → Settings → Bool
valid_settings false s =
    (leb 30 s.interval_seconds && leb s.interval_seconds 1800)
    && (leb 2 s.flat_checks_for_hang && leb s.flat_checks_for_hang 20)
valid_settings true s = ltb 0 s.interval_seconds && leb 1 s.flat_checks_for_hang

abbrev pub default_settings : Settings
default_settings = record { interval_seconds = 120; flat_checks_for_hang = 5 }

-- A `health` block, the two fields of which may be missing.
pub record Block : Type 0 where
  pub interval : Option ℕ
  pub flat_checks : Option ℕ

abbrev pub overlay : Option Block → Settings → Settings
overlay none s = s
overlay (some b) s = record {
  interval_seconds = or_else b.interval s.interval_seconds;
  flat_checks_for_hang = or_else b.flat_checks s.flat_checks_for_hang;
}

-- `resolve_health_settings`; `none` is its `HealthSettingsError`.
unfoldable pub resolve_settings :
    (policy unit : Option Block) → (override : Option Settings) → Option Settings
unfolding valid_settings
resolve_settings policy unit (some s) = some s
resolve_settings policy unit none =
    let s = overlay unit (overlay policy default_settings) in
    if valid_settings false s then some s else none

pub record CheckResult : Type 0 where
  pub state : Health
  pub previous_state : Health
  pub changed : Bool
  pub alive : Bool
  pub flat : Bool
  pub flat_checks : ℕ
  pub moved : List String
  pub unknown_signals : List String
  pub checks : ℕ

pub record Monitor : Type 0 where
  pub settings : Settings
  pub state : Health
  pub flat_checks : ℕ
  pub checks : ℕ
  pub previous : Option Sample
  pub last : Option CheckResult

-- `__init__`
abbrev pub new_monitor : Settings → Monitor
new_monitor s = record {
  settings = s;
  state = healthy;
  flat_checks = 0;
  checks = 0;
  previous = none;
  last = none;
}

-- `start`
unfoldable pub start : Sample → Monitor → Monitor
start sample m = record m { previous = some sample }

-- What a signal did between two samples.
pub data Movement : Type 0 where
  unlisted unread still moved : Movement

-- A name is listed when either sample has it, and unknown when either has no value for it.
unfoldable pub movement : {A : Type 0} → (A → A → Bool) → Reading A → Reading A → Movement
movement test absent absent = unlisted
movement test (known cur) (known before) = if test cur before then moved else still
movement test _ _ = unread

abbrev same_list : List ℕ → List ℕ → Bool
same_list [] [] = true
same_list (x ∷ xs) (y ∷ ys) = (x == y) && same_list xs ys
same_list _ _ = false

-- The signals in the order of `SIGNALS`, with `_moved` for each.
unfoldable pub movements : Settings → Sample → Sample → List (String × Movement)
unfolding movement
movements s cur before =
    ("cpu", movement (λ a b. ltb (b + s.interval_seconds) a) cur.cpu before.cpu)
    ∷ ("output", movement (λ a b. ltb b a) cur.output before.output)
    ∷ ("events", movement (λ a b. ltb b a) cur.events before.events)
    ∷ ("worktree", movement (λ a b. not (str_eq a b)) cur.worktree before.worktree)
    ∷ ("members", movement (λ a b. not (same_list a b)) cur.members before.members)
    ∷ []

abbrev pub is_moved : Movement → Bool
is_moved moved = true
is_moved _ = false

abbrev pub is_unread : Movement → Bool
is_unread unread = true
is_unread _ = false

abbrev pub names_of : (Movement → Bool) → List (String × Movement) → List String
names_of test [] = []
names_of test ((n, x) ∷ xs) = let rest = names_of test xs in if test x then n ∷ rest else rest

unfoldable pub state_of : ℕ → ℕ → Health
state_of threshold flat_checks =
    if leb threshold flat_checks
    then hung
    else if leb 1 flat_checks
    then suspected_hang
    else healthy

-- A check of a process that is gone.
unfoldable pub check_gone : Sample → Monitor → Monitor
check_gone sample m =
    let result : CheckResult = record {
      state = m.state;
      previous_state = m.state;
      changed = false;
      alive = false;
      flat = false;
      flat_checks = m.flat_checks;
      moved = [];
      unknown_signals = [];
      checks = m.checks + 1;
    } in
    record m { checks = m.checks + 1; previous = some sample; last = some result }

-- A check of a process that is alive, once its signals are compared.
unfoldable pub check_alive : Sample → List (String × Movement) → Monitor → Monitor
unfolding state_of
check_alive sample found m =
    let went = names_of is_moved found in
    let unsure = names_of is_unread found in
    let flat = is_nil went && is_nil unsure in
    let count =
      if is_nil went then (if is_nil unsure then m.flat_checks + 1 else m.flat_checks) else 0 in
    let state = state_of m.settings.flat_checks_for_hang count in
    let result : CheckResult = record {
      state = state;
      previous_state = m.state;
      changed = not (health_number state == health_number m.state);
      alive = true;
      flat = flat;
      flat_checks = count;
      moved = went;
      unknown_signals = unsure;
      checks = m.checks + 1;
    } in
    record m {
      state = state;
      flat_checks = count;
      checks = m.checks + 1;
      previous = some sample;
      last = some result;
    }

-- `check`, of the sample that the sampler gives; with no sample before, no signal has a value there.
unfoldable pub check : Sample → Monitor → Monitor
check sample m =
    if sample.alive
    then check_alive sample (movements m.settings sample (or_else m.previous no_sample)) m
    else check_gone sample m
