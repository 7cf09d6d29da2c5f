-- ===== src/Tasks/Tests.antt =====
-- Runs and instances for tasks/scope.py.
use openclaw_ecc_orchestrato.Prelude.{◌≡◌, refl, ◌↔◌, ◌⊎◌, true, false, [], ◌∷◌}
use openclaw_ecc_orchestrato.Prelude.Codes.{Text, codes}
use openclaw_ecc_orchestrato.Tasks.Scope.{normalize, glob_match}
use openclaw_ecc_orchestrato.Tasks.Scope.Covers.{Decoding, is_safe, path_in_scope, scope_contains}
use openclaw_ecc_orchestrato.Tasks.Scope.Normal.{normalize-normalize, path_in_scope-scope_contains}
use openclaw_ecc_orchestrato.Tasks.Scope.Coverage.{Covered, scope_contains_iff}
use openclaw_ecc_orchestrato.Tasks.Scope.Safety.{Safe}
use openclaw_ecc_orchestrato.Tasks.Scope.Segments.{slashes, has_double_star, glob_match-slashes}

abbrev pub plain_decoding : Decoding
plain_decoding = record { nfkc = λ s. s; unquote = λ s. s }

abbrev deep_path : Text
deep_path = codes "src/a/b.py"

matches_deep : glob_match deep_path (codes "./src/**/*.py") ≡ true
unfolding glob_match
matches_deep = refl

matches_empty_deep : glob_match (codes "src//b.py") (codes "src/**/*.py") ≡ true
unfolding glob_match
matches_empty_deep = refl

star_stops : glob_match deep_path (codes "src/*.py") ≡ false
unfolding glob_match
star_stops = refl

one_stops : glob_match (codes "src/b.py") (codes "src?b.py") ≡ false
unfolding glob_match
one_stops = refl

directory_covers : scope_contains plain_decoding deep_path (codes "src/a/" ∷ []) ≡ true
unfolding scope_contains glob_match
directory_covers = refl

traversal_refused : scope_contains plain_decoding (codes "src/../b.py") [] ≡ false
unfolding scope_contains
traversal_refused = refl

drive_refused : is_safe plain_decoding (codes "C:\\b.py") ≡ false
unfolding is_safe
drive_refused = refl

literal_entry :
    scope_contains plain_decoding deep_path (codes "docs" ∷ codes "src/?/*.py" ∷ []) ≡ true
unfolding scope_contains glob_match
literal_entry = refl

double : has_double_star (normalize (codes "src/?/*.py")) ≡ false
unfolding normalize
double = refl

one_segment : glob_match deep_path (codes "src/?/*.py") ≡ true
unfolding glob_match
one_segment = refl

accepted : path_in_scope plain_decoding deep_path (codes "src/**" ∷ []) ≡ true
unfolding path_in_scope
accepted = refl

glob_match-slashes_example :
    slashes (normalize deep_path) ≡ slashes (normalize (codes "src/?/*.py"))
glob_match-slashes_example = glob_match-slashes deep_path (codes "src/?/*.py") double one_segment

path_in_scope-scope_contains_example :
    scope_contains plain_decoding deep_path (codes "src/**" ∷ []) ≡ true
path_in_scope-scope_contains_example =
    path_in_scope-scope_contains plain_decoding deep_path (codes "src/**" ∷ []) accepted

scope_contains_iff_example :
    (scope_contains plain_decoding deep_path (codes "src/a" ∷ []) ≡ true) ↔ (
      Safe plain_decoding deep_path
      × ((codes "src/a" ∷ [] ≡ []) ⊎ Covered deep_path (codes "src/a" ∷ [])))
scope_contains_iff_example = scope_contains_iff plain_decoding deep_path (codes "src/a" ∷ [])

normalize-normalize_example :
    normalize (normalize (codes "././a//b")) ≡ normalize (codes "././a//b")
normalize-normalize_example = normalize-normalize (codes "././a//b")
