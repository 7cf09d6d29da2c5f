-- ===== src/Routing/Selection/Tests.antt =====
-- Runs and instances for src/openclaw_ecc_orchestrator/routing/selection.py.
use openclaw_ecc_orchestrato.Prelude.{
  has, if◌then◌else◌, is_some, str_eq, ℕ, String, ◌≡◌, refl, true, false, not, ◌||◌, Option, none,
  some, [], ◌∷◌,
}
use openclaw_ecc_orchestrato.Prelude.Dict.{get, keys}
use openclaw_ecc_orchestrato.Prelude.Codes.{codes}
use openclaw_ecc_orchestrato.Prelude.Fnmatch.{fnmatchcase}
use openclaw_ecc_orchestrato.Routing.Classify.{low, Classified}
use openclaw_ecc_orchestrato.Routing.Selection.{
  Model, Catalog, Policy, RunnerQuery, Candidate, retired, rejected, eligible, examine_runner,
  select_runner,
}
use openclaw_ecc_orchestrato.Routing.Registry.{author, Tidy}
use openclaw_ecc_orchestrato.Routing.Selection.Reviewers.{
  Author, family_of, author_family, required_tier, is_strict, select_reviewer, review_sound,
  review_satisfies,
}
use openclaw_ecc_orchestrato.Routing.Selection.Cheapest.{From, Preferred, select_runner-Least}
use openclaw_ecc_orchestrato.Routing.Selection.Independent.{review_by, select_reviewer-satisfies}

abbrev plain : Tidy
plain = record { normal = λ s. s; tidy = λ s. s }

abbrev policy : Policy
policy = record {
  allowed_providers = [];
  author_providers = none;
  by_persona = false;
  cli_models = λ name c. if str_eq name "codex" then some (codes "gpt-codex") else none;
  model_preferences = λ provider c. codes "*flash*" ∷ codes "*" ∷ [];
  approved_models = [];
  retired_model_ids = [];
  runner_costs = λ name c. if str_eq name "codex" then some 50 else none;
  input_tokens = 2;
  output_tokens = 1;
}

abbrev model_of : String → ℕ → ℕ → Model
model_of id i o = record {
  id = codes id;
  deprecated = false;
  input_price = some i;
  output_price = some o;
}

abbrev catalog : Catalog
catalog = record {
  stale = false;
  providers = ("gemini", model_of "gemini-1-flash" 9 9 ∷ model_of "gemini-2-flash" 10 15 ∷ []) ∷ [];
}

abbrev asked : RunnerQuery
asked = record {
  tier = 1;
  certified = "claude" ∷ "windsurf" ∷ "codex" ∷ "gemini" ∷ [];
  catalog = some catalog;
  policy = policy;
  exclude_providers = [];
  role = author;
  risk = low;
  is_open = λ provider. false;
  large_context = false;
  exclude_runners = [];
  exclude_families = [];
}

abbrev chosen_id : Option Candidate → Option (String × Option ℕ)
chosen_id none = none
chosen_id (some c) = some (c.runner, c.cost)

cheapest_is_gemini : chosen_id (select_runner plain asked) ≡ some ("gemini", some 35)
unfolding select_runner examine_runner fnmatchcase get keys
cheapest_is_gemini = refl

retired_runner : examine_runner plain asked "windsurf" ≡ rejected retired
unfolding examine_runner
retired_runner = refl

abbrev by_gemini : Author
by_gemini = record { runner = some "gemini"; family = none; model = none; tier = some 2 }

abbrev by_nobody : Author
by_nobody = record { runner = none; family = none; model = none; tier = some 2 }

abbrev classified : Classified
classified = record {
  accepted = true;
  score = record { gained = 0; lost = 0 };
  signals = [];
  risk = low;
  minimum_tier = 0;
  score_tier = 0;
  chosen_tier = some 0;
  maximum_tier = 2;
  review_tier = some 1;
  requires_independent_review = true;
  small_deterministic = false;
}

abbrev reviewer : Candidate
reviewer = record {
  runner = "codex";
  provider = "codex";
  family = codes "openai";
  model = codes "gpt-codex";
  cost = some 50;
  is_fallback = false;
}

chosen_reviewer : (select_reviewer plain asked by_gemini classified).chosen ≡ some reviewer
unfolding select_reviewer select_runner examine_runner fnmatchcase get keys required_tier is_strict
    author_family family_of
chosen_reviewer = refl

family_known_of_gemini :
    (policy.by_persona
      || (not (is_strict by_gemini classified) || is_some (author_family plain by_gemini)))
    ≡ true
unfolding is_strict required_tier author_family family_of get
family_known_of_gemini = refl

select_reviewer-satisfies_example :
    review_satisfies plain asked false by_gemini classified
      (review_by reviewer (select_reviewer plain asked by_gemini classified).tier)
    ≡ true
select_reviewer-satisfies_example =
    select_reviewer-satisfies plain (λ s. refl) asked by_gemini classified reviewer
      family_known_of_gemini chosen_reviewer

-- Of an author whose family is unknown, a strict reviewer is chosen as one of another family, and its review is
-- refused.
unknown_author :
    (is_some (select_reviewer plain asked by_nobody classified).chosen ≡ true)
    × ((select_reviewer plain asked by_nobody classified).independent_family ≡ some true)
unfolding select_reviewer select_runner examine_runner fnmatchcase get keys required_tier is_strict
    author_family family_of
unknown_author = (refl, refl)

unknown_author_refused :
    review_satisfies plain asked false by_nobody classified (review_by reviewer 2) ≡ false
unfolding review_satisfies review_sound get required_tier is_strict author_family family_of
unknown_author_refused = refl

abbrev gemini_candidate : Candidate
gemini_candidate = record {
  runner = "gemini";
  provider = "gemini";
  family = codes "google";
  model = codes "gemini-2-flash";
  cost = some 35;
  is_fallback = false;
}

gemini_chosen : select_runner plain asked ≡ some gemini_candidate
unfolding select_runner examine_runner fnmatchcase get keys
gemini_chosen = refl

abbrev codex_candidate : Candidate
codex_candidate = elim (examine_runner plain asked "codex") [
  | eligible c ↦ c
  | rejected why ↦ gemini_candidate
]

codex_eligible : examine_runner plain asked "codex" ≡ eligible codex_candidate
unfolding examine_runner fnmatchcase get keys
codex_eligible = refl

codex_certified : has "codex" asked.certified ≡ true
codex_certified = refl

select_runner-Least_example :
    From plain asked asked.certified gemini_candidate × Preferred gemini_candidate codex_candidate
select_runner-Least_example =
    select_runner-Least plain asked gemini_candidate "codex" codex_candidate gemini_chosen
      codex_certified codex_eligible
