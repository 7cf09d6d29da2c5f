-- ===== src/Routing/Selection/Reviewers.antt =====
-- The choice of a reviewer and the check of a recorded review,
-- src/openclaw_ecc_orchestrator/routing/selection.py.
use openclaw_ecc_orchestrato.Prelude.{
  leb, ◌==◌, if◌then◌else◌, is_some, or_else, any, str_eq, ℕ, String, Bool, true, false, not, ◌&&◌,
  ◌||◌, Option, none, some, List, [], ◌∷◌,
}
use openclaw_ecc_orchestrato.Prelude.Codes.{Text, text_eq}
use openclaw_ecc_orchestrato.Prelude.Dict.{get}
use openclaw_ecc_orchestrato.Routing.Registry.{
  review, RunnerProfile, profiles, Tidy, model_family, is_retired,
}
use openclaw_ecc_orchestrato.Routing.Selection.{
  or_else_try, RunnerQuery, Candidate, all_candidates, select_runner,
}
use openclaw_ecc_orchestrato.Routing.Classify.{is_high, Classified}

-- What is known of an author: an empty text is missing.
pub record Author : Type 0 where
  pub runner : Option String
  pub family : Option Text
  pub model : Option Text
  pub tier : Option ℕ

abbrev pub family_in : Tidy → String → Option Text → Option RunnerProfile → Option Text
family_in t runner model none = none
family_in t runner model (some p) = some (model_family t p runner model)

-- `model_family`, with the errors of `get_profile` caught.
abbrev pub family_known : Tidy → String → Option Text → Option RunnerProfile → Option Text
family_known t runner model none = none
family_known t runner model (some p) =
    if is_retired t runner then none else family_in t runner model (get (t.normal runner) profiles)

-- `_family_of`
unfoldable pub family_of : Tidy → Option String → Option Text → Option Text
unfolding profiles model_family is_retired
family_of t none model = none
family_of t (some runner) model = family_known t runner model (get runner profiles)

-- `_author_identity`
abbrev pub author_runner : Tidy → Author → Option String
author_runner t a = elim a.runner [ none ↦ none | some r ↦ some (t.normal r) ]

unfoldable pub author_family : Tidy → Author → Option Text
unfolding family_of
author_family t a = or_else_try a.family (family_of t (author_runner t a) a.model)

-- `required_review`
unfoldable pub required_tier : Author → Classified → ℕ
required_tier a c = elim a.tier [
  | none ↦ or_else c.review_tier 2
  | some n ↦ if n == 2 then 2 else or_else c.review_tier 2
]

unfoldable pub is_strict : Author → Classified → Bool
unfolding required_tier
is_strict a c = (required_tier a c == 2) || is_high c.risk

abbrev pub listed {ℓ} : {A : Type ℓ} → Option A → List A
listed none = []
listed (some x) = x ∷ []

-- What both read of the repository: the arguments of `select_runner` but the role, the risk and the exclusions.
abbrev pub for_review :
    RunnerQuery → Author → Classified → ℕ → List String → List Text → RunnerQuery
for_review a who c tier runners families = record a {
  tier = tier;
  exclude_providers = [];
  role = review;
  risk = c.risk;
  large_context = false;
  exclude_runners = runners;
  exclude_families = families;
}

-- The reviewer that was chosen, at which tier, and whether it is of another family.
pub record Reviewer : Type 0 where
  pub chosen : Option Candidate
  pub tier : ℕ
  pub independent_family : Option Bool
  pub blocking : Bool

abbrev pub chosen_as : ℕ → Bool → Bool → Option Candidate → Reviewer
chosen_as tier strict independent none = record {
  chosen = none;
  tier = tier;
  independent_family = none;
  blocking = strict;
}
chosen_as tier strict independent (some r) = record {
  chosen = some r;
  tier = tier;
  independent_family = some independent;
  blocking = false;
}

abbrev pub second_choice : ℕ → Bool → (again : Option Candidate) → Option Candidate → Reviewer
second_choice tier strict again (some r) = chosen_as tier strict true (some r)
second_choice tier strict again none = chosen_as tier strict false (if strict then none else again)

-- `[author_runner]`, of a name that may be empty.
abbrev pub barred_runners : Tidy → Author → Bool → List String
barred_runners t who independent = if independent then or_else (author_runner t who) "" ∷ [] else []

-- `select_reviewer`, of a valid classification.
unfoldable pub select_reviewer : Tidy → RunnerQuery → Author → Classified → Reviewer
select_reviewer t a who c =
    let tier = required_tier who c in
    let strict = is_strict who c in
    let runners = barred_runners t who (c.requires_independent_review || strict) in
    let family = listed (author_family t who) in
    if a.policy.by_persona
    then chosen_as tier strict false (select_runner t (for_review a who c tier [] []))
    else second_choice tier strict (select_runner t (for_review a who c tier runners []))
        (select_runner t (for_review a who c tier runners family))

-- A recorded review.
pub record ReviewRecord : Type 0 where
  pub runner : Option String
  pub model : Option Text
  pub tier : Option ℕ

abbrev pub tier_reached : ℕ → Option ℕ → Bool
tier_reached tier none = false
tier_reached tier (some n) = leb tier n

abbrev pub families_differ : Option Text → Option Text → Bool
families_differ none reviewer = false
families_differ (some f) none = false
families_differ (some f) (some g) = not (text_eq g f)

abbrev pub same_runner : Option String → Option String → Bool
same_runner (some r) (some s) = str_eq r s
same_runner _ _ = false

-- The reasons of `review_satisfies` before that of the eligibility: none of them holds.
unfoldable pub review_sound : Tidy → (by_persona : Bool) → Author → Classified → ReviewRecord → Bool
review_sound t by_persona who c r =
    let runner = elim r.runner as (λ _. Option String) [
      | none ↦ none
      | some s ↦ some (t.normal s)
    ] in
    let strict = is_strict who c in
    is_some runner
    && (tier_reached (required_tier who c) r.tier
        && ((by_persona
              || not (
                  same_runner runner (author_runner t who)
                  && (strict || c.requires_independent_review)))
            && (by_persona
                || (not strict
                    || families_differ (author_family t who) (family_of t runner r.model)))))

abbrev pub among : Option String → List Candidate → Bool
among none cs = false
among (some r) cs = any (λ (c : Candidate). str_eq c.runner r) cs

-- The last reason: the reviewer is not one that `select_reviewer` could have chosen at the review's tier.
unfoldable pub review_eligible : Tidy → RunnerQuery → Author → Classified → ReviewRecord → Bool
unfolding author_family is_strict all_candidates
review_eligible t a who c r =
    let strict = is_strict who c in
    let independent = (strict || c.requires_independent_review) && not a.policy.by_persona in
    let runners = if independent then listed (author_runner t who) else [] in
    let families = if independent && strict then listed (author_family t who) else [] in
    let asked = for_review a who c (or_else r.tier 0) runners families in
    among (elim r.runner as (λ _. Option String) [ none ↦ none | some s ↦ some (t.normal s) ])
      (all_candidates t asked a.certified)

-- `review_satisfies`, of a valid classification, `certified` being whether the certified runners are given.
unfoldable pub review_satisfies :
    Tidy → RunnerQuery → (certified : Bool) → Author → Classified → ReviewRecord → Bool
review_satisfies t a certified who c r =
    review_sound t a.policy.by_persona who c r && (not certified || review_eligible t a who c r)
