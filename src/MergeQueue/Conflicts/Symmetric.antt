-- ===== src/MergeQueue/Conflicts/Symmetric.antt =====
-- The overlap of two scopes does not depend on their order,
-- src/openclaw_ecc_orchestrator/merge_queue/conflicts.py.
use openclaw_ecc_orchestrato.Prelude.{
  if-elim, any, is_nil, ◌≡◌, refl, sym, ap, ◌∙◌, Bool, false, not, ◌&&◌, ◌||◌, List, [], ◌∷◌, ◌++◌,
  arith,
}
use openclaw_ecc_orchestrato.Prelude.Codes.{Text, text_eq}
use openclaw_ecc_orchestrato.MergeQueue.Conflicts.{
  norm, overlap, patterns_overlap, with_entry, pairs, scope_overlaps, clash,
}

text_eq_sym : (a b : Text) → text_eq a b ≡ text_eq b a
text_eq_sym [] [] = refl
text_eq_sym [] (y ∷ ys) = refl
text_eq_sym (x ∷ xs) [] = refl
text_eq_sym (x ∷ xs) (y ∷ ys) = ground (arith, text_eq_sym xs ys)

overlap_sym : (a b : Text) → overlap a b ≡ overlap b a
unfolding overlap
overlap_sym a b = ground (arith, text_eq_sym a b)

pub patterns_overlap_sym : (a b : Text) → patterns_overlap a b ≡ patterns_overlap b a
unfolding patterns_overlap
patterns_overlap_sym a b = overlap_sym (norm a) (norm b)

-- Whether a file of the first scope overlaps one of the second.
abbrev pub meets : List Text → List Text → Bool
meets xs ys = any (λ a. any (patterns_overlap a) ys) xs

with_entry-any :
    (a : Text) (ys : List Text) → is_nil (with_entry a ys) ≡ not (any (patterns_overlap a) ys)
with_entry-any a [] = refl
with_entry-any a (b ∷ ys) =
    if-elim (λ l. is_nil l ≡ not (any (patterns_overlap a) (b ∷ ys))) (patterns_overlap a b)
      ((a, b) ∷ with_entry a ys) (with_entry a ys) (λ h. ground (arith, h))
      (λ h. ground (arith, h, with_entry-any a ys))

is_nil-append {ℓ} : {A : Type ℓ} (xs ys : List A) → is_nil (xs ++ ys) ≡ (is_nil xs && is_nil ys)
is_nil-append [] ys = refl
is_nil-append (x ∷ xs) ys = refl

pairs-meets : (xs ys : List Text) → is_nil (pairs xs ys) ≡ not (meets xs ys)
pairs-meets [] ys = refl
pairs-meets (a ∷ xs) ys =
    ground
      (arith, is_nil-append (with_entry a ys) (pairs xs ys), with_entry-any a ys, pairs-meets xs ys)

pub clash-meets : (xs ys : List Text) → clash xs ys ≡ (is_nil xs || (is_nil ys || meets xs ys))
unfolding clash scope_overlaps
clash-meets [] ys = refl
clash-meets (x ∷ xs) [] = refl
clash-meets (x ∷ xs) (y ∷ ys) = ground (arith, pairs-meets (x ∷ xs) (y ∷ ys))

meets_nil : (xs : List Text) → meets xs [] ≡ false
meets_nil [] = refl
meets_nil (x ∷ xs) = meets_nil xs

meets_cons :
    (xs ys : List Text) (y : Text)
    → meets xs (y ∷ ys) ≡ (any (patterns_overlap y) xs || meets xs ys)
meets_cons [] ys y = refl
meets_cons (x ∷ xs) ys y = ground (arith, patterns_overlap_sym x y, meets_cons xs ys y)

meets_sym : (xs ys : List Text) → meets xs ys ≡ meets ys xs
meets_sym [] ys = sym (meets_nil ys)
meets_sym (x ∷ xs) ys =
    ap (λ b. any (patterns_overlap x) ys || b) (meets_sym xs ys) ∙ sym (meets_cons ys xs x)

-- Of two scopes, each overlaps the other or neither does.
pub clash_sym : (xs ys : List Text) → clash xs ys ≡ clash ys xs
clash_sym xs ys = ground (arith, clash-meets xs ys, clash-meets ys xs, meets_sym xs ys)
