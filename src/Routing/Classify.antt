-- ===== src/Routing/Classify.antt =====
-- `classify` of src/openclaw_ecc_orchestrator/routing/classify.py: the score of a work unit and its tiers.
-- The reports of the validators of documents are arguments, and so is `str.lower`; the reasons, texts for
-- a reader, are left out.
pub mod Reviews
pub mod Tests
pub mod Tiers
pub mod Tokens
use openclaw_ecc_orchestrato.Prelude.{
  ltb, leb, ◌==◌, if◌then◌else◌, or_else, length, all, any, keep, is_nil, has, ℕ, ◌+◌, String, Bool,
  true, false, not, ◌&&◌, ◌||◌, Option, none, some, List, [], ◌∷◌, ◌++◌, map,
}
use openclaw_ecc_orchestrato.Prelude.Codes.{Text, slash, has_char, text_eq, starts_with, rstrip}
use openclaw_ecc_orchestrato.Routing.Classify.Tokens.{
  Topic, database, security, concurrency, architecture, path_signal,
}
use openclaw_ecc_orchestrato.Tasks.Scope.{normalize, glob_match, is_glob}
use openclaw_ecc_orchestrato.MergeQueue.Conflicts.{prefix}

pub data Risk : Type 0 where
  low medium high : Risk

abbrev pub is_high : Risk → Bool
is_high high = true
is_high _ = false

abbrev pub is_low : Risk → Bool
is_low low = true
is_low _ = false

-- `SIGNAL_POINTS`, in its order.
pub data Signal : Type 0 where
  mechanical_small fixture_generation many_files many_modules large_diff : Signal
  topic : Topic → Signal
  no_acceptance_test previous_attempt_failed : Signal

abbrev pub all_signals : List Signal
all_signals =
    mechanical_small
    ∷ fixture_generation
    ∷ many_files
    ∷ many_modules
    ∷ large_diff
    ∷ topic database
    ∷ topic security
    ∷ topic concurrency
    ∷ topic architecture
    ∷ no_acceptance_test
    ∷ previous_attempt_failed
    ∷ []

-- A score is the points gained less those lost.
pub record Score : Type 0 where
  pub gained : ℕ
  pub lost : ℕ

abbrev pub gains : Signal → ℕ
gains mechanical_small = 0
gains fixture_generation = 0
gains many_files = 1
gains many_modules = 2
gains large_diff = 1
gains (topic database) = 3
gains (topic security) = 4
gains (topic concurrency) = 3
gains (topic architecture) = 3
gains no_acceptance_test = 2
gains previous_attempt_failed = 2

abbrev pub losses : Signal → ℕ
losses mechanical_small = 2
losses fixture_generation = 2
losses _ = 0

abbrev pub total : (Signal → ℕ) → List Signal → ℕ
total points [] = 0
total points (s ∷ ss) = points s + total points ss

unfoldable pub score_of : List Signal → Score
score_of signals = record { gained = total gains signals; lost = total losses signals }

-- `score_to_tier`
unfoldable pub score_to_tier : Score → ℕ
score_to_tier s = if leb s.gained s.lost then 0 else if leb s.gained (s.lost + 5) then 1 else 2

-- `RISK_FLOOR`
unfoldable pub risk_floor : Risk → ℕ
risk_floor low = 0
risk_floor medium = 1
risk_floor high = 2

abbrev pub max : ℕ → ℕ → ℕ
max a b = if leb a b then b else a

-- What `classify` reads of a work unit that is valid.
pub record WorkUnit : Type 0 where
  pub traits : List String
  pub scope_files : List Text
  pub secrets : Bool
  pub has_commands : Bool
  pub risk : Risk
  pub initial_tier : ℕ
  pub maximum_tier : ℕ
  pub reviewer_must_differ : Bool

pub record DiffStats : Type 0 where
  pub files : List Text
  pub files_changed : Option ℕ
  pub lines_changed : Option ℕ
  pub lines_added : Option ℕ
  pub lines_removed : Option ℕ

abbrev pub holds_text : Text → List Text → Bool
holds_text t ts = any (text_eq t) ts

abbrev pub all_paths : WorkUnit → DiffStats → List Text
all_paths u d = u.scope_files ++ keep (λ p. not (holds_text p u.scope_files)) d.files

abbrev pub count_basis : WorkUnit → DiffStats → List Text
count_basis u d = if is_nil d.files then u.scope_files else d.files

abbrev pub file_count : WorkUnit → DiffStats → ℕ
file_count u d = or_else d.files_changed (length (count_basis u d))

abbrev pub changed_lines : DiffStats → Option ℕ
changed_lines d = elim d.lines_changed [
  | some n ↦ some n
  | none ↦ elim d.lines_added [ none ↦ none | some a ↦ some (a + or_else d.lines_removed 0) ]
]

abbrev pub more_than : ℕ → Option ℕ → Bool
more_than n none = false
more_than n (some m) = ltb n m

abbrev pub at_most : ℕ → Option ℕ → Bool
at_most n none = false
at_most n (some m) = leb m n

-- `_literal_prefix`
abbrev pub literal_prefix : Text → Text
literal_prefix pattern = prefix (normalize pattern)

-- `paths_may_overlap`
unfoldable pub paths_may_overlap : (entry pattern : Text) → Bool
unfolding glob_match prefix
paths_may_overlap entry pattern =
    let a = literal_prefix entry in
    let b = literal_prefix pattern in
    if is_glob entry then starts_with a b || starts_with b a else glob_match entry pattern

-- The text up to its last slash, and with it.
abbrev pub head_part : Text → Text
head_part [] = []
head_part (c ∷ s) =
    let rest = head_part s in
    if has_char slash s then c ∷ rest else if c == slash then c ∷ [] else []

-- `posixpath.dirname`
abbrev pub dirname : Text → Text
dirname p = let head = head_part p in if all (λ c. c == slash) head then head else rstrip slash head

-- `_module`
unfoldable pub module_of : Text → Text
unfolding prefix normalize
module_of path =
    if is_glob path then rstrip slash (literal_prefix path) else dirname (normalize path)

-- `len({…})`
abbrev pub distinct : List Text → ℕ
distinct [] = 0
distinct (t ∷ ts) = let rest = distinct ts in if holds_text t ts then rest else 1 + rest

abbrev pub trait_name : Topic → String
trait_name database = "database"
trait_name security = "security"
trait_name concurrency = "concurrency"
trait_name architecture = "architecture"

abbrev pub asks_secrets : Topic → WorkUnit → Bool
asks_secrets security u = u.secrets
asks_secrets _ u = false

module _ (lower : Text → Text) where
  -- The topic is a trait of the unit, or one of its paths names it.
  unfoldable pub raises : WorkUnit → DiffStats → Topic → Bool
  unfolding path_signal
  raises u d t =
      has (trait_name t) u.traits
      || (any (λ p. path_signal lower p t) (all_paths u d) || asks_secrets t u)

  -- Whether the signal is added.
  unfoldable pub fires : (retry : Bool) → WorkUnit → DiffStats → Signal → Bool
  unfolding raises module_of
  fires retry u d mechanical_small = has "mechanical" u.traits && leb (file_count u d) 3
  fires retry u d fixture_generation = has "fixture_generation" u.traits
  fires retry u d many_files = ltb 3 (file_count u d)
  fires retry u d many_modules = leb 3 (distinct (map module_of (count_basis u d)))
  fires retry u d large_diff = more_than 300 (changed_lines d)
  fires retry u d (topic t) = raises u d t
  fires retry u d no_acceptance_test = not u.has_commands
  fires retry u d previous_attempt_failed = retry || has "previous_attempt_failed" u.traits

  -- The signals, each once, in the order of the points.
  unfoldable pub signals_of : (retry : Bool) → WorkUnit → DiffStats → List Signal
  unfolding fires
  signals_of retry u d = keep (fires retry u d) all_signals

-- The first path that a high risk pattern may touch, if it is not empty.
abbrev pub touched : Text → List Text → Bool
touched pattern [] = false
touched pattern (p ∷ ps) =
    let rest = touched pattern ps in if paths_may_overlap p pattern then not (is_nil p) else rest

unfoldable pub risk_of : (high_risk_paths : List Text) → WorkUnit → DiffStats → Risk
unfolding paths_may_overlap
risk_of patterns u d = if any (λ p. touched p (all_paths u d)) patterns then high else u.risk

-- `Classification`
pub record Classified : Type 0 where
  pub accepted : Bool
  pub score : Score
  pub signals : List Signal
  pub risk : Risk
  pub minimum_tier : ℕ
  pub score_tier : ℕ
  pub chosen_tier : Option ℕ
  pub maximum_tier : ℕ
  pub review_tier : Option ℕ
  pub requires_independent_review : Bool
  pub small_deterministic : Bool

-- `names & set(REVIEW_SENSITIVE)`
unfoldable pub sensitive : List Signal → Bool
sensitive [] = false
sensitive (topic database ∷ ss) = true
sensitive (topic security ∷ ss) = true
sensitive (topic architecture ∷ ss) = true
sensitive (s ∷ ss) = sensitive ss

-- `small`
unfoldable pub is_small : WorkUnit → DiffStats → Risk → List Signal → Bool
unfolding sensitive
is_small u d risk signals =
    is_low risk
    && (u.has_commands
        && (leb (file_count u d) 3
            && ((at_most 50 (changed_lines d)
                  || (has "mechanical" u.traits || has "fixture_generation" u.traits))
                && not (sensitive signals))))

unfoldable pub choose_tier : (score_tier minimum maximum : ℕ) → ℕ
choose_tier score_tier minimum maximum =
    let chosen = max score_tier minimum in if ltb maximum chosen then maximum else chosen

unfoldable pub tier_of_review : Risk → (chosen : ℕ) → (small : Bool) → List Signal → ℕ
unfolding sensitive
tier_of_review risk chosen small signals =
    if sensitive signals || (is_high risk || (chosen == 2)) then 2 else if small then 0 else 1

-- The result of a unit whose risk asks for more than its maximum tier: what is not computed has the
-- defaults of `Classification`.
unfoldable pub refused_unit : WorkUnit → List Signal → Risk → Classified
unfolding score_of score_to_tier risk_floor
refused_unit u signals risk = record {
  accepted = false;
  score = score_of signals;
  signals = signals;
  risk = risk;
  minimum_tier = max (risk_floor risk) u.initial_tier;
  score_tier = score_to_tier (score_of signals);
  chosen_tier = none;
  maximum_tier = u.maximum_tier;
  review_tier = none;
  requires_independent_review = true;
  small_deterministic = false;
}

unfoldable pub accepted_unit : WorkUnit → DiffStats → List Signal → Risk → Classified
unfolding score_of score_to_tier risk_floor is_small choose_tier tier_of_review
accepted_unit u d signals risk =
    let score_tier = score_to_tier (score_of signals) in
    let minimum = max (risk_floor risk) u.initial_tier in
    let chosen = choose_tier score_tier minimum u.maximum_tier in
    let small = is_small u d risk signals in
    let review = tier_of_review risk chosen small signals in
    record {
      accepted = true;
      score = score_of signals;
      signals = signals;
      risk = risk;
      minimum_tier = minimum;
      score_tier = score_tier;
      chosen_tier = some chosen;
      maximum_tier = u.maximum_tier;
      review_tier = some review;
      requires_independent_review = (review == 2) || u.reviewer_must_differ;
      small_deterministic = small;
    }

-- The classification from the signals and the risk.
unfoldable pub classify_with : WorkUnit → DiffStats → List Signal → Risk → Classified
unfolding refused_unit accepted_unit risk_floor
classify_with u d signals risk =
    if ltb u.maximum_tier (risk_floor risk)
    then refused_unit u signals risk
    else accepted_unit u d signals risk

-- `classify`, of a unit and a policy that are valid.
unfoldable pub classify :
    (lower : Text → Text) (high_risk_paths : List Text) (retry : Bool)
    → WorkUnit
    → DiffStats
    → Classified
unfolding signals_of risk_of classify_with
classify lower patterns retry u d =
    classify_with u d (signals_of lower retry u d) (risk_of patterns u d)
