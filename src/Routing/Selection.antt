-- ===== src/Routing/Selection.antt =====
-- src/openclaw_ecc_orchestrator/routing/selection.py: the choice of a runner and of a reviewer. Costs are whole
-- numbers of a unit in which no estimate is rounded; warnings and the texts of reasons are left out. Whether
-- the catalog is stale, a comparison of its date with the clock, is a field of it.
pub mod Cheapest
pub mod Independent
pub mod Reviewers
pub mod Tests
use openclaw_ecc_orchestrato.Prelude.{
  ltb, leb, ◌==◌, if◌then◌else◌, is_some, or_else, any, keep, is_nil, has, str_eq, str_leb, ℕ, ◌+◌,
  ◌*◌, String, Bool, true, false, not, ◌&&◌, ◌||◌, Option, none, some, List, [], ◌∷◌, ◌++◌, map,
}
use openclaw_ecc_orchestrato.Prelude.Codes.{Text, text_eq}
use openclaw_ecc_orchestrato.Prelude.Dict.{Dict, get, keys}
use openclaw_ecc_orchestrato.Prelude.Fnmatch.{fnmatchcase}
use openclaw_ecc_orchestrato.Routing.Registry.{
  Class, economical, standard, advanced, class_number, serves, Role, author, review, coordination,
  fallback, role_eq, RunnerProfile, profiles, Tidy, model_family, is_retired,
}
use openclaw_ecc_orchestrato.Routing.Classify.{Risk, is_high}

-- `TIER_CLASS`
abbrev pub tier_class : ℕ → Class
tier_class tier = if tier == 0 then economical else if tier == 1 then standard else advanced

-- An entry of the catalog; a price may be missing.
pub record Model : Type 0 where
  pub id : Text
  pub deprecated : Bool
  pub input_price : Option ℕ
  pub output_price : Option ℕ

pub record Catalog : Type 0 where
  pub stale : Bool
  pub providers : Dict (List Model)

-- What the selection reads of a policy. `cli_models` and `runner_costs` are looked up by runner and class,
-- `model_preferences` by provider and class.
pub record Policy : Type 0 where
  pub allowed_providers : List String
  pub author_providers : Option (List String)
  pub by_persona : Bool
  pub cli_models : String → Class → Option Text
  pub model_preferences : String → Class → List Text
  pub approved_models : List Text
  pub retired_model_ids : List Text
  pub runner_costs : String → Class → Option ℕ
  pub input_tokens : ℕ
  pub output_tokens : ℕ

abbrev pub holds_model : Text → List Text → Bool
holds_model t ts = any (text_eq t) ts

-- `live_models`; a provider whose status is not "ok" has no models here.
unfoldable pub live_models : Catalog → String → List Text → List Model
live_models catalog provider retired =
    keep (λ (m : Model). not m.deprecated && not (holds_model m.id retired))
      (or_else (get provider catalog.providers) [])

abbrev pub text_leb : Text → Text → Bool
text_leb [] _ = true
text_leb (x ∷ xs) [] = false
text_leb (x ∷ xs) (y ∷ ys) = let rest = text_leb xs ys in if x == y then rest else ltb x y

abbrev pub insert_descending : Text → List Text → List Text
insert_descending t [] = t ∷ []
insert_descending t (u ∷ us) =
    let rest = insert_descending t us in if text_leb u t then t ∷ u ∷ us else u ∷ rest

-- `sorted(…, reverse=True)`
abbrev pub descending : List Text → List Text
descending [] = []
descending (t ∷ ts) = insert_descending t (descending ts)

abbrev pub add_new : (found ranked : List Text) → List Text
add_new [] ranked = ranked
add_new (t ∷ ts) ranked = add_new ts (if holds_model t ranked then ranked else ranked ++ t ∷ [])

-- `rank_models`
unfoldable pub rank_models : List Text → (patterns ranked : List Text) → List Text
rank_models ids [] ranked = ranked
rank_models ids (p ∷ ps) ranked =
    rank_models ids ps (add_new (descending (keep (λ i. fnmatchcase i p) ids)) ranked)

abbrev pub first_text : List Text → Option Text
first_text [] = none
first_text (t ∷ ts) = some t

abbrev pub by_class : Class → List (Class × Text) → Option Text
by_class c [] = none
by_class c ((d, t) ∷ rest) =
    let later = by_class c rest in if class_number d == class_number c then some t else later

abbrev pub or_else_try {ℓ} : {A : Type ℓ} → Option A → Option A → Option A
or_else_try none b = b
or_else_try (some a) b = some a

abbrev pub cli_alias : String → RunnerProfile → Class → Policy → Option Text
cli_alias name p c policy = or_else_try (policy.cli_models name c) (by_class c p.default_cli_models)

abbrev pub unless_retired : Policy → Option Text → Option Text
unless_retired policy none = none
unless_retired policy (some alias) =
    if holds_model alias policy.retired_model_ids then none else some alias

abbrev pub catalog_model : String → RunnerProfile → Class → Option Catalog → Policy → Option Text
catalog_model name p c none policy = none
catalog_model name p c (some catalog) policy =
    let live =
      map (λ (m : Model). m.id) (live_models catalog p.provider policy.retired_model_ids) in
    let ranked = rank_models live (policy.model_preferences p.provider c) [] in
    if catalog.stale
    then none
    else first_text (
        if str_eq name "openrouter"
        then keep (λ m. holds_model m policy.approved_models) ranked
        else ranked)

-- `resolve_model`
unfoldable pub resolve_model :
    String → RunnerProfile → Class → Option Catalog → Policy → Option Text
unfolding live_models rank_models
resolve_model name p c catalog policy =
    if p.from_cli
    then unless_retired policy (cli_alias name p c policy)
    else catalog_model name p c catalog policy

abbrev pub priced : Policy → Model → Option ℕ
priced policy m = elim m.input_price [
  | none ↦ none
  | some i ↦ elim m.output_price [
    | none ↦ none
    | some o ↦ some (policy.input_tokens * i + policy.output_tokens * o)
  ]
]

-- `model_pricing`, and the estimate by it.
abbrev pub price_of : Policy → Text → List Model → Option ℕ
price_of policy model [] = none
price_of policy model (m ∷ ms) =
    let later = price_of policy model ms in if text_eq m.id model then priced policy m else later

abbrev pub catalog_cost : RunnerProfile → Text → Option Catalog → Policy → Option ℕ
catalog_cost p model none policy = none
catalog_cost p model (some catalog) policy =
    if p.from_cli then none else price_of policy model (live_models catalog p.provider [])

-- `estimate_cost`
unfoldable pub estimate_cost :
    String → RunnerProfile → Text → Class → Option Catalog → Policy → Option ℕ
unfolding live_models
estimate_cost name p model c catalog policy =
    or_else_try (catalog_cost p model catalog policy) (policy.runner_costs name c)

-- The arguments of `select_runner`; `is_open` is the breaker.
pub record RunnerQuery : Type 0 where
  pub tier : ℕ
  pub certified : List String
  pub catalog : Option Catalog
  pub policy : Policy
  pub exclude_providers : List String
  pub role : Role
  pub risk : Risk
  pub is_open : String → Bool
  pub large_context : Bool
  pub exclude_runners : List String
  pub exclude_families : List Text

pub record Candidate : Type 0 where
  pub runner : String
  pub provider : String
  pub family : Text
  pub model : Text
  pub cost : Option ℕ
  pub is_fallback : Bool

-- Why a runner is rejected.
pub data Rejection : Type 0 where
  retired unknown_runner not_allowed excluded breaker_open not_author role_refused : Rejection
  class_not_served high_risk needs_context no_model same_family : Rejection

pub data Examined : Type 0 where
  rejected : Rejection → Examined
  eligible : Candidate → Examined

unfoldable pub refuse_if : Bool → Rejection → Examined → Examined
refuse_if b why rest = if b then rejected why else rest

-- The classes that a runner serves in a role, and whether it is a fallback.
unfoldable pub role_classes : Role → RunnerProfile → Option (List Class × Bool)
role_classes author p =
    if any (role_eq author) p.roles
    then some (p.classes, false)
    else if any (role_eq fallback) p.roles
    then some (p.classes, true)
    else none
role_classes review p =
    if any (role_eq review) p.roles then some (p.review_classes, false) else none
role_classes r p =
    if any (role_eq coordination) p.roles
    then some (map (λ (e : Class × Text). e.0) p.default_cli_models, false)
    else none

-- A policy by persona names the model of a class that the runner does not serve otherwise.
abbrev pub widened : Policy → String → Class → List Class → List Class
widened policy name c classes =
    if not (serves c classes) && (policy.by_persona && is_some (policy.cli_models name c))
    then classes ++ c ∷ []
    else classes

-- `role == "author" and policy.get("author_providers") is not None and …`
abbrev pub author_barred : Tidy → Role → Policy → String → Bool
author_barred t role policy provider = elim policy.author_providers [
  | none ↦ false
  | some ps ↦ role_eq role author && not (has provider (map t.normal ps))
]

-- `policy.get("allowed_providers") or PROFILES`
abbrev pub allowed : Tidy → Policy → String → Bool
allowed t policy provider =
    let ps = policy.allowed_providers in
    has provider (map t.normal (if is_nil ps then keys profiles else ps))

module _ (t : Tidy) (a : RunnerQuery) where
  abbrev pub with_model : String → RunnerProfile → Bool → Option Text → Examined
  with_model name p is_fallback none = rejected no_model
  with_model name p is_fallback (some model) =
      let family = model_family t p name (some model) in
      refuse_if (holds_model family a.exclude_families) same_family (
        eligible (record {
          runner = name;
          provider = p.provider;
          family = family;
          model = model;
          cost = estimate_cost name p model (tier_class a.tier) a.catalog a.policy;
          is_fallback = is_fallback;
        }))

  abbrev pub with_classes : String → RunnerProfile → Option (List Class × Bool) → Examined
  with_classes name p none = rejected role_refused
  with_classes name p (some (classes, is_fallback)) =
      let c = tier_class a.tier in
      refuse_if (not (serves c (widened a.policy name c classes))) class_not_served (
        refuse_if (is_high a.risk && not p.high_risk_ok) high_risk (
          refuse_if (p.large_context && (not a.large_context && not (role_eq a.role review)))
            needs_context
            (with_model name p is_fallback (resolve_model name p c a.catalog a.policy))))

  abbrev pub with_profile : String → Option RunnerProfile → Examined
  with_profile name none = rejected unknown_runner
  with_profile name (some p) = refuse_if (not (allowed t a.policy p.provider)) not_allowed (
      refuse_if
        (has p.provider (map t.normal a.exclude_providers)
          || has name (map t.normal a.exclude_runners))
        excluded
        (refuse_if (a.is_open p.provider) breaker_open (
          refuse_if (author_barred t a.role a.policy p.provider) not_author
            (with_classes name p (role_classes a.role p)))))

  -- What the loop of `select_runner` makes of a runner, whose name is normal.
  unfoldable pub examine_runner : String → Examined
  unfolding refuse_if role_classes resolve_model estimate_cost model_family profiles is_retired
  examine_runner name =
      refuse_if (is_retired t name) retired (with_profile name (get name profiles))

  abbrev pub accepted_of : Examined → List Candidate
  accepted_of (rejected why) = []
  accepted_of (eligible c) = c ∷ []

  unfoldable pub all_candidates : List String → List Candidate
  all_candidates [] = []
  all_candidates (raw ∷ names) = accepted_of (examine_runner (t.normal raw)) ++ all_candidates names

-- A known cost before an unknown one.
abbrev pub cost_leb : Option ℕ → Option ℕ → Bool
cost_leb _ none = true
cost_leb none (some n) = false
cost_leb (some m) (some n) = leb m n

abbrev pub same_cost : Option ℕ → Option ℕ → Bool
same_cost a b = cost_leb a b && cost_leb b a

-- The order by cost, then by runner, then by model.
unfoldable pub key_leb : Candidate → Candidate → Bool
key_leb a b =
    if not (same_cost a.cost b.cost)
    then cost_leb a.cost b.cost
    else if str_eq a.runner b.runner
    then text_leb a.model b.model
    else str_leb a.runner b.runner

abbrev pub insert_by_key : Candidate → List Candidate → List Candidate
insert_by_key c [] = c ∷ []
insert_by_key c (d ∷ ds) =
    let rest = insert_by_key c ds in if key_leb c d then c ∷ d ∷ ds else d ∷ rest

unfoldable pub sort_by_key : List Candidate → List Candidate
unfolding key_leb
sort_by_key [] = []
sort_by_key (c ∷ cs) = insert_by_key c (sort_by_key cs)

abbrev pub primary : List Candidate → List Candidate
primary cs = sort_by_key (keep (λ (c : Candidate). not c.is_fallback) cs)

abbrev pub fallbacks : List Candidate → List Candidate
fallbacks cs = sort_by_key (keep (λ (c : Candidate). c.is_fallback) cs)

-- `pool[0]`
abbrev pub best : List Candidate → List Candidate → Option Candidate
best [] [] = none
best [] (c ∷ cs) = some c
best (c ∷ cs) _ = some c

-- `select_runner`, of a valid tier and role: the runner, if there is one.
unfoldable pub select_runner : Tidy → RunnerQuery → Option Candidate
unfolding all_candidates sort_by_key
select_runner t a = let cs = all_candidates t a a.certified in best (primary cs) (fallbacks cs)
