-- ===== src/MergeQueue/Conflicts.antt =====
-- src/openclaw_ecc_orchestrator/merge_queue/conflicts.py: whether two declared scopes overlap. A text is
-- the list of its code points. What git reports of changed files is not modelled here.
use openclaw_ecc_orchestrato.Prelude.{
  ◌==◌, if◌then◌else◌, any, is_nil, ℕ, Bool, true, not, ◌&&◌, ◌||◌, List, [], ◌∷◌, ◌++◌,
}
use openclaw_ecc_orchestrato.Prelude.Codes.{Text, codes, slash, text_eq, starts_with, rstrip}
use openclaw_ecc_orchestrato.Prelude.Fnmatch.{fnmatchcase}
use openclaw_ecc_orchestrato.Tasks.Scope.{drop_dots}
use openclaw_ecc_orchestrato.Tasks.Scope.Covers.{is_whitespace}
pub mod Meeting
pub mod Symmetric

-- `_is_glob`
abbrev pub wild : ℕ → Bool
wild c = (c == 42) || ((c == 63) || (c == 91))

abbrev pub is_wild : Text → Bool
is_wild p = any wild p

-- `str.strip`
abbrev pub lstrip : Text → Text
lstrip [] = []
lstrip (c ∷ s) = let rest = lstrip s in if is_whitespace c then rest else c ∷ s

abbrev pub rstrip_space : Text → Text
rstrip_space [] = []
rstrip_space (c ∷ s) = elim (rstrip_space s) [
  | [] ↦ if is_whitespace c then [] else c ∷ []
  | d ∷ t ↦ c ∷ d ∷ t
]

-- `_norm`
unfoldable pub norm : Text → Text
norm pattern =
    let p = drop_dots (rstrip_space (lstrip pattern)) in
    if is_nil p || text_eq p (slash ∷ []) then 42 ∷ [] else rstrip slash p

-- `_prefix`
unfoldable pub prefix : Text → Text
prefix [] = []
prefix (c ∷ s) = let rest = prefix s in if wild c then [] else c ∷ rest

-- `_under`
unfoldable pub under : (path directory : Text) → Bool
under path directory = text_eq path directory || starts_with path (directory ++ slash ∷ [])

-- One of the two is literal, and the other is a glob.
unfoldable pub mixed : (literal glob : Text) → Bool
mixed literal glob =
    let fixed = rstrip slash (prefix glob) in
    fnmatchcase literal glob
    || ((under fixed literal && not (is_nil fixed)) || fnmatchcase (literal ++ 47 ∷ 120 ∷ []) glob)

unfoldable pub overlap : (a b : Text) → Bool
overlap a b =
    if text_eq a b
    then true
    else if not (is_wild a) && not (is_wild b)
    then under a b || under b a
    else if is_wild a && is_wild b
    then starts_with (prefix a) (prefix b) || starts_with (prefix b) (prefix a)
    else if is_wild b
    then mixed a b
    else mixed b a

-- `patterns_overlap`
unfoldable pub patterns_overlap : (a b : Text) → Bool
unfolding norm overlap
patterns_overlap a b = overlap (norm a) (norm b)

abbrev pub whole_repository : Text
whole_repository = codes "<whole repository>"

abbrev pub head_or : Text → List Text → Text
head_or d [] = d
head_or d (f ∷ fs) = f

abbrev pub with_entry : Text → List Text → List (Text × Text)
with_entry a [] = []
with_entry a (b ∷ ys) =
    let rest = with_entry a ys in if patterns_overlap a b then (a, b) ∷ rest else rest

abbrev pub pairs : List Text → List Text → List (Text × Text)
pairs [] ys = []
pairs (a ∷ xs) ys = with_entry a ys ++ pairs xs ys

-- `scope_overlaps`
unfoldable pub scope_overlaps : (files_a files_b : List Text) → List (Text × Text)
scope_overlaps a b =
    if is_nil a || is_nil b
    then (head_or whole_repository a, head_or whole_repository b) ∷ []
    else pairs a b

-- The scopes overlap.
unfoldable pub clash : (files_a files_b : List Text) → Bool
unfolding scope_overlaps
clash a b = not (is_nil (scope_overlaps a b))
