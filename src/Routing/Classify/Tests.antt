-- ===== src/Routing/Classify/Tests.antt =====
-- Runs and instances for src/openclaw_ecc_orchestrator/routing/classify.py.
use openclaw_ecc_orchestrato.Prelude.{
  if◌then◌else◌, any, ◌+◌, String, ◌≡◌, refl, true, false, none, inl, inr, some, List, [], ◌∷◌, map,
  arith,
}
use openclaw_ecc_orchestrato.Prelude.Codes.{Text, codes}
use openclaw_ecc_orchestrato.Routing.Classify.Tokens.{is_upper, tokens, security, path_signal}
use openclaw_ecc_orchestrato.Routing.Classify.{
  low, WorkUnit, DiffStats, all_paths, paths_may_overlap, module_of, distinct, touched, classify,
}
use openclaw_ecc_orchestrato.Routing.Classify.Tiers.{
  Ordered, Raised, classify-Ordered, classify-retry,
}
use openclaw_ecc_orchestrato.Routing.Classify.Reviews.{
  Strict, HighRisk, classify-Strict, classify-HighRisk,
}

-- `str.lower` on ASCII.
abbrev lower_ascii : Text → Text
lower_ascii s = map (λ c. if is_upper c then c + 32 else c) s

abbrev texts : List String → List Text
texts words = map codes words

camel :
    tokens lower_ascii (codes "src/OAuth2Client.py")
    ≡ texts ("src" ∷ "oauth" ∷ "o" ∷ "auth" ∷ "client" ∷ "py" ∷ [])
unfolding tokens
camel = refl

author_is_no_hit : path_signal lower_ascii (codes "docs/authors.md") security ≡ false
unfolding path_signal
author_is_no_hit = refl

compound_hit : path_signal lower_ascii (codes "src/HTTPAuthorizer.py") security ≡ true
unfolding path_signal
compound_hit = refl

modules : distinct (map module_of (texts ("a/b.py" ∷ "a/c.py" ∷ "d.py" ∷ "src/*/x.py" ∷ []))) ≡ 3
unfolding module_of
modules = refl

abbrev unit : WorkUnit
unit = record {
  traits = "mechanical" ∷ [];
  scope_files = texts ("src/auth/login.py" ∷ "docs/a.md" ∷ []);
  secrets = false;
  has_commands = true;
  risk = low;
  initial_tier = 0;
  maximum_tier = 2;
  reviewer_must_differ = false;
}

abbrev no_diff : DiffStats
no_diff = record {
  files = [];
  files_changed = none;
  lines_changed = none;
  lines_added = none;
  lines_removed = none;
}

abbrev patterns : List Text
patterns = texts ("docs/**" ∷ [])

names_security : any (λ p. path_signal lower_ascii p security) unit.scope_files ≡ true
unfolding path_signal
names_security = refl

plain_accepted : (classify lower_ascii [] false unit no_diff).accepted ≡ true
unfolding classify
plain_accepted = refl

unit_tier : (classify lower_ascii [] false unit no_diff).chosen_tier ≡ some 1
unfolding classify
unit_tier = refl

unit_accepted : (classify lower_ascii patterns true unit no_diff).accepted ≡ true
unfolding classify
unit_accepted = refl

touched_docs : any (λ p. touched p (all_paths unit no_diff)) patterns ≡ true
unfolding paths_may_overlap
touched_docs = refl

classify-Ordered_example : Ordered unit (classify lower_ascii patterns true unit no_diff)
classify-Ordered_example =
    classify-Ordered lower_ascii patterns true unit no_diff (omega arith) unit_accepted

classify-retry_example :
    Raised (classify lower_ascii [] false unit no_diff) (classify lower_ascii [] true unit no_diff)
classify-retry_example = classify-retry lower_ascii [] unit no_diff

classify-Strict_example : Strict (classify lower_ascii [] false unit no_diff)
classify-Strict_example =
    classify-Strict lower_ascii [] false unit no_diff security refl (inr (inl names_security))
      plain_accepted

classify-HighRisk_example : HighRisk unit (classify lower_ascii patterns false unit no_diff)
classify-HighRisk_example = classify-HighRisk lower_ascii patterns false unit no_diff touched_docs
