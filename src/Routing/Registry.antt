-- ===== src/Routing/Registry.antt =====
-- src/openclaw_ecc_orchestrator/runners/registry.py: the profiles of the runners and the family of a model. Model
-- ids and families are lists of code points. `schemas.normalize_provider`, and the tidying of a model id by
-- `str.strip` and `str.lower`, are the library's on texts, and arguments.
use openclaw_ecc_orchestrato.Prelude.{
  ◌==◌, if◌then◌else◌, or_else, any, is_nil, has, ℕ, String, Bool, true, false, Option, none, some,
  List, [], ◌∷◌, ◌++◌,
}
use openclaw_ecc_orchestrato.Prelude.Codes.{Text, codes, slash, has_char, starts_with, rstrip}
use openclaw_ecc_orchestrato.Prelude.Dict.{Dict}

pub data Class : Type 0 where
  economical standard advanced : Class

abbrev pub class_number : Class → ℕ
class_number economical = 0
class_number standard = 1
class_number advanced = 2

abbrev pub serves : Class → List Class → Bool
serves c cs = any (λ d. class_number d == class_number c) cs

pub data Role : Type 0 where
  author review coordination fallback validation : Role

abbrev pub role_number : Role → ℕ
role_number author = 0
role_number review = 1
role_number coordination = 2
role_number fallback = 3
role_number validation = 4

abbrev pub role_eq : Role → Role → Bool
role_eq a b = role_number a == role_number b

-- `RunnerProfile`; `from_cli` and `large_context` are `model_source == "cli"` and
-- `conditional == "large_context"`.
pub record RunnerProfile : Type 0 where
  pub provider : String
  pub family : Option Text
  pub classes : List Class
  pub review_classes : List Class
  pub roles : List Role
  pub high_risk_ok : Bool
  pub from_cli : Bool
  pub large_context : Bool
  pub default_cli_models : List (Class × Text)

abbrev pub all_classes : List Class
all_classes = economical ∷ standard ∷ advanced ∷ []

abbrev pub claude : RunnerProfile
claude = record {
  provider = "claude";
  family = some (codes "anthropic");
  classes = standard ∷ advanced ∷ [];
  review_classes = standard ∷ advanced ∷ [];
  roles = author ∷ review ∷ coordination ∷ [];
  high_risk_ok = true;
  from_cli = true;
  large_context = false;
  default_cli_models =
      (economical, codes "haiku") ∷ (standard, codes "sonnet") ∷ (advanced, codes "opus") ∷ [];
}

abbrev pub codex : RunnerProfile
codex = record {
  provider = "codex";
  family = some (codes "openai");
  classes = all_classes;
  review_classes = all_classes;
  roles = author ∷ review ∷ [];
  high_risk_ok = true;
  from_cli = true;
  large_context = false;
  default_cli_models = [];
}

abbrev pub gemini : RunnerProfile
gemini = record {
  provider = "gemini";
  family = some (codes "google");
  classes = all_classes;
  review_classes = all_classes;
  roles = author ∷ review ∷ validation ∷ [];
  high_risk_ok = true;
  from_cli = false;
  large_context = false;
  default_cli_models = [];
}

abbrev pub groq : RunnerProfile
groq = record {
  provider = "groq";
  family = none;
  classes = economical ∷ [];
  review_classes = economical ∷ [];
  roles = author ∷ review ∷ validation ∷ [];
  high_risk_ok = false;
  from_cli = false;
  large_context = false;
  default_cli_models = [];
}

abbrev pub openrouter : RunnerProfile
openrouter = record {
  provider = "openrouter";
  family = none;
  classes = all_classes;
  review_classes = all_classes;
  roles = fallback ∷ review ∷ [];
  high_risk_ok = true;
  from_cli = false;
  large_context = false;
  default_cli_models = [];
}

abbrev pub kimi : RunnerProfile
kimi = record {
  provider = "kimi";
  family = some (codes "moonshot");
  classes = standard ∷ [];
  review_classes = standard ∷ advanced ∷ [];
  roles = author ∷ review ∷ [];
  high_risk_ok = true;
  from_cli = false;
  large_context = true;
  default_cli_models = [];
}

-- `PROFILES`
unfoldable pub profiles : Dict RunnerProfile
profiles =
    ("claude", claude)
    ∷ ("codex", codex)
    ∷ ("gemini", gemini)
    ∷ ("groq", groq)
    ∷ ("openrouter", openrouter)
    ∷ ("kimi", kimi)
    ∷ []

-- `RETIRED_PROVIDERS`
abbrev pub retired_providers : List String
retired_providers =
    "windsurf" ∷ "pi" ∷ "openai-api" ∷ "openai_api" ∷ "openai-api-coding" ∷ "openai" ∷ []

-- `_FAMILY_HINTS`
unfoldable pub family_hints : List (String × String)
family_hints =
    ("anthropic/", "anthropic")
    ∷ ("claude", "anthropic")
    ∷ ("openai/", "openai")
    ∷ ("gpt", "openai")
    ∷ ("o1", "openai")
    ∷ ("o3", "openai")
    ∷ ("o4", "openai")
    ∷ ("codex", "openai")
    ∷ ("google/", "google")
    ∷ ("gemini", "google")
    ∷ ("gemma", "google")
    ∷ ("meta-llama/", "meta")
    ∷ ("llama", "meta")
    ∷ ("moonshotai/", "moonshot")
    ∷ ("kimi", "moonshot")
    ∷ ("moonshot", "moonshot")
    ∷ ("qwen/", "alibaba")
    ∷ ("qwen", "alibaba")
    ∷ ("deepseek", "deepseek")
    ∷ ("mistralai/", "mistral")
    ∷ ("mistral", "mistral")
    ∷ ("mixtral", "mistral")
    ∷ ("x-ai/", "xai")
    ∷ ("grok", "xai")
    ∷ []

-- The tidying of texts.
pub record Tidy : Type 0 where
  pub normal : String → String
  pub tidy : Text → Text

abbrev pub hinted : (trim : Bool) → Text → List (String × String) → Option Text
hinted trim text [] = none
hinted trim text ((hint, family) ∷ hints) =
    let rest = hinted trim text hints in
    let start = if trim then rstrip slash (codes hint) else codes hint in
    if starts_with text start then some (codes family) else rest

-- `text.split("/", 1)[0]`
abbrev pub vendor_of : Text → Text
vendor_of [] = []
vendor_of (c ∷ s) = let rest = vendor_of s in if c == slash then [] else c ∷ rest

abbrev pub unknown_family : String → Text → Text
unknown_family runner text =
    codes "unknown:" ++ (codes runner ++ (58 ∷ (if is_nil text then codes "none" else text)))

abbrev pub family_by_hint : String → Text → Text
family_by_hint runner text = elim (hinted false text family_hints) [
  | some family ↦ family
  | none ↦ elim (if has_char slash text then hinted true (vendor_of text) family_hints else none) [
    | some family ↦ family
    | none ↦ unknown_family runner text
  ]
]

-- `model_family`, of a runner that has this profile.
unfoldable pub model_family : Tidy → RunnerProfile → String → Option Text → Text
unfolding family_hints
model_family t p runner model = elim p.family [
  | some family ↦ family
  | none ↦ family_by_hint runner (t.tidy (or_else model []))
]

-- `is_retired`
unfoldable pub is_retired : Tidy → String → Bool
is_retired t name = has (t.normal name) retired_providers
