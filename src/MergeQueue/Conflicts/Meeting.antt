-- ===== src/MergeQueue/Conflicts/Meeting.antt =====
-- Where the test of src/openclaw_ecc_orchestrator/merge_queue/conflicts.py sees that two scopes name one file.
use mathlib.Core.Bool.{false≢true}
use openclaw_ecc_orchestrato.Prelude.{
  if-elim, any, is_nil, All, either_left, either_right, either_split, ◌≡◌, refl, sym, ap, ◌∙◌,
  subst, ◌⊎◌, inl, inr, true, false, ◌||◌, List, [], ◌∷◌, ◌++◌, arith,
}
use openclaw_ecc_orchestrato.Prelude.Codes.{Text, slash, text_eq, starts_with}
use openclaw_ecc_orchestrato.Prelude.Fnmatch.{fnmatchcase, fnmatchcase-literal}
use openclaw_ecc_orchestrato.MergeQueue.Conflicts.{
  wild, is_wild, norm, prefix, under, mixed, overlap, patterns_overlap, clash,
}
use openclaw_ecc_orchestrato.MergeQueue.Conflicts.Symmetric.{clash-meets, meets}

-- The literal entry names the file, or a directory that it is in.
abbrev pub Within : (file entry : Text) → Type 0
Within file entry = (file ≡ entry) ⊎ ((rest : Text) × (file ≡ entry ++ slash ∷ rest))

-- Both entries, in normal form, name the file: two globs that match it; a glob that matches it, and the
-- literal of the file itself; or two literals, of the file or of directories that it is in.
abbrev pub Meet : (a b file : Text) → Type 0
Meet a b file =
    ((is_wild a ≡ true)
      × (is_wild b ≡ true)
      × (fnmatchcase file a ≡ true)
      × (fnmatchcase file b ≡ true))
    ⊎ (((is_wild a ≡ false) × (is_wild b ≡ true) × (file ≡ a) × (fnmatchcase file b ≡ true))
        ⊎ (((is_wild a ≡ true) × (is_wild b ≡ false) × (fnmatchcase file a ≡ true) × (file ≡ b))
            ⊎ ((is_wild a ≡ false) × (is_wild b ≡ false) × Within file a × Within file b)))

fnmatchcase-prefix :
    (pattern file : Text)
    → fnmatchcase file pattern ≡ true
    → starts_with file (prefix pattern) ≡ true
unfolding prefix
fnmatchcase-prefix [] file h = refl
fnmatchcase-prefix (c ∷ s) file h =
    if-elim (λ p. starts_with file p ≡ true) (wild c) [] (c ∷ prefix s) (λ _. refl)
      (λ plain.
        let (rest, e, m) =
          fnmatchcase-literal c s file (ground (arith, plain)) (ground (arith, plain))
            (ground (arith, plain)) h in
        let later = fnmatchcase-prefix s rest m in
        subst (λ f. starts_with f (c ∷ prefix s) ≡ true) (sym e) (ground (arith, later)))

comparable :
    (file a b : Text)
    → starts_with file a ≡ true
    → starts_with file b ≡ true
    → (starts_with a b || starts_with b a) ≡ true
comparable file a [] h k = refl
comparable file [] (y ∷ b) h k = refl
comparable [] (x ∷ a) (y ∷ b) h k = absurd (ground (arith, h))
comparable (c ∷ file) (x ∷ a) (y ∷ b) h k =
    let rest = comparable file a b (ground (arith, h)) (ground (arith, k)) in
    ground (arith, h, k, rest)

starts_with-append : (a more : Text) → starts_with (a ++ slash ∷ more) (a ++ slash ∷ []) ≡ true
starts_with-append [] more = ground arith
starts_with-append (x ∷ a) more = ground (arith, starts_with-append a more)

text_eq_refl : (a : Text) → text_eq a a ≡ true
text_eq_refl [] = refl
text_eq_refl (x ∷ a) = ground (arith, text_eq_refl a)

slash-under :
    (a b : Text) → starts_with (a ++ slash ∷ []) (b ++ slash ∷ []) ≡ true → under a b ≡ true
unfolding under
slash-under [] [] h = refl
slash-under (x ∷ a) [] h = ground (arith, h)
slash-under [] (y ∷ []) h = absurd (ground (arith, h))
slash-under [] (y ∷ z ∷ b) h = absurd (ground (arith, h))
slash-under (x ∷ a) (y ∷ b) h =
    let rest = slash-under a b (ground (arith, h)) in ground (arith, h, rest)

below-under : (file a b : Text) → file ≡ a → Within file b → under a b ≡ true
unfolding under
below-under file a b here (inl e) =
    either_left _ (subst (λ s. text_eq a s ≡ true) (sym here ∙ e) (text_eq_refl a))
below-under file a b here (inr (rest, e)) =
    either_right (text_eq a b) (
      subst (λ s. starts_with s (b ++ slash ∷ []) ≡ true) (sym e ∙ here)
        (starts_with-append b rest))

Within-under : (file a b : Text) → Within file a → Within file b → (under a b || under b a) ≡ true
Within-under file a b (inl e) w = either_left (under b a) (below-under file a b e w)
Within-under file a b w (inl e) = either_right (under a b) (below-under file b a e w)
Within-under file a b (inr (r, e)) (inr (s, f)) =
    let at_a =
      subst (λ t. starts_with t (a ++ slash ∷ []) ≡ true) (sym e) (starts_with-append a r) in
    let at_b =
      subst (λ t. starts_with t (b ++ slash ∷ []) ≡ true) (sym f) (starts_with-append b s) in
    elim (either_split _ _ (comparable file (a ++ slash ∷ []) (b ++ slash ∷ []) at_a at_b)) [
      | inl h ↦ either_left (under b a) (slash-under a b h)
      | inr h ↦ either_right (under a b) (slash-under b a h)
    ]

mixed-matches : (literal glob : Text) → fnmatchcase literal glob ≡ true → mixed literal glob ≡ true
unfolding mixed
mixed-matches literal glob h = either_left _ h

-- Entries that both name a file overlap.
Meet-overlap : (a b file : Text) → Meet a b file → overlap a b ≡ true
unfolding overlap
Meet-overlap a b file (inl (wa, wb, ma, mb)) =
    let near =
      comparable file (prefix a) (prefix b) (fnmatchcase-prefix a file ma)
        (fnmatchcase-prefix b file mb) in
    ground (arith, wa, wb, near)
Meet-overlap a b file (inr (inl (wa, wb, e, mb))) =
    let m = mixed-matches a b (ap (λ f. fnmatchcase f b) (sym e) ∙ mb) in ground (arith, wa, wb, m)
Meet-overlap a b file (inr (inr (inl (wa, wb, ma, e)))) =
    let m = mixed-matches b a (ap (λ f. fnmatchcase f a) (sym e) ∙ ma) in ground (arith, wa, wb, m)
Meet-overlap a b file (inr (inr (inr (wa, wb, in_a, in_b)))) =
    let near = Within-under file a b in_a in_b in ground (arith, wa, wb, near)

-- No file is named by an entry of the one scope and one of the other.
abbrev pub Apart : List Text → List Text → Type 0
Apart xs ys = All (λ a. All (λ b. (file : Text) → ¬ Meet (norm a) (norm b) file) ys) xs

clear_row :
    (a : Text) (ys : List Text)
    → any (patterns_overlap a) ys ≡ false
    → All (λ b. (file : Text) → ¬ Meet (norm a) (norm b) file) ys
unfolding patterns_overlap
clear_row a [] h = tt
clear_row a (b ∷ ys) h = (
  λ file m. false≢true (sym (ground (arith, h)) ∙ Meet-overlap (norm a) (norm b) file m),
  clear_row a ys (ground (arith, h)),
)

clear_rows : (xs ys : List Text) → meets xs ys ≡ false → Apart xs ys
clear_rows [] ys h = tt
clear_rows (a ∷ xs) ys h =
    (clear_row a ys (ground (arith, h)), clear_rows xs ys (ground (arith, h)))

-- Scopes that do not clash are not empty, and no entries of the two name one file.
pub clash-Apart :
    (xs ys : List Text)
    → clash xs ys ≡ false
    → (is_nil xs ≡ false) × (is_nil ys ≡ false) × Apart xs ys
clash-Apart xs ys h =
    let none_of : (is_nil xs || (is_nil ys || meets xs ys)) ≡ false = sym (clash-meets xs ys) ∙ h in
    (ground (arith, none_of), ground (arith, none_of), clear_rows xs ys (ground (arith, none_of)))
