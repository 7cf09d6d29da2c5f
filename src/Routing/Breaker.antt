-- ===== src/Routing/Breaker.antt =====
-- The circuit breaker of src/openclaw_ecc_orchestrator/routing/breaker.py. A provider is its key, the
-- text that `_key` gives; times are whole numbers of a small unit, and one operation reads the clock
-- once.
pub mod Counting
use openclaw_ecc_orchestrato.Prelude.{
  leb, if◌then◌else◌, or_else, keep, sorted, ℕ, ◌+◌, String, Bool, true, false, Option, none, some,
  List, [],
}
use openclaw_ecc_orchestrato.Prelude.Dict.{Dict, get, put, keys, pop}

-- `failure_threshold` is at least 1, as the constructor of the source demands.
pub record Breaker : Type 0 where
  pub failure_threshold : ℕ
  pub cooldown : ℕ
  pub failures : Dict ℕ
  pub opened_at : Dict ℕ

pub data Position : Type 0 where
  closed half_open is_opened : Position

abbrev pub default_threshold : ℕ
default_threshold = 3

-- `__init__`; `none` is its `ValueError`.
unfoldable pub new_breaker : (failure_threshold cooldown : ℕ) → Option Breaker
new_breaker failure_threshold cooldown =
    if leb 1 failure_threshold
    then some (record {
      failure_threshold = failure_threshold;
      cooldown = cooldown;
      failures = [];
      opened_at = [];
    })
    else none

unfoldable pub position_of : (now cooldown : ℕ) → Option ℕ → Position
position_of now cooldown none = closed
position_of now cooldown (some opened) =
    if leb (opened + cooldown) now then half_open else is_opened

-- `state`
unfoldable pub position : ℕ → String → Breaker → Position
unfolding position_of
position now provider b = position_of now b.cooldown (get provider b.opened_at)

abbrev pub is_open : ℕ → String → Breaker → Bool
is_open now provider b = elim (position now provider b) [ is_opened ↦ true | _ ↦ false ]

unfoldable pub failure_count : String → Breaker → ℕ
failure_count provider b = or_else (get provider b.failures) 0

unfoldable pub reopen : ℕ → String → Breaker → Breaker
reopen now provider b = record b { opened_at = put provider now b.opened_at }

unfoldable pub count_failure : ℕ → String → Breaker → Breaker
unfolding failure_count reopen
count_failure now provider b =
    let count = failure_count provider b + 1 in
    let counted : Breaker = record b { failures = put provider count b.failures } in
    if leb b.failure_threshold count then reopen now provider counted else counted

-- `record_failure`
unfoldable pub record_failure : ℕ → String → Breaker → Breaker
unfolding position reopen count_failure
record_failure now provider b = elim (position now provider b) [
  | half_open ↦ reopen now provider b
  | _ ↦ count_failure now provider b
]

-- `record_success`
unfoldable pub record_success : String → Breaker → Breaker
record_success provider b = record b {
  failures = put provider 0 b.failures;
  opened_at = pop provider b.opened_at;
}

-- `open_providers`
unfoldable pub open_providers : ℕ → Breaker → List String
unfolding position
open_providers now b = sorted (keep (λ p. is_open now p b) (keys b.opened_at))
