-- ===== src/Tasks/Scope/Coverage.antt =====
-- What `scope_contains` of src/openclaw_ecc_orchestrator/tasks/scope.py covers, stated by what globs and
-- directories stand for.
use openclaw_ecc_orchestrato.Prelude.{
  any, is_nil, both, both_split, either_split, either_left, either_right, not-false, not-true, ℕ,
  ◌≡◌, refl, sym, ◌∙◌, subst, ◌≢◌, ◌↔◌, ◌⊎◌, inl, inr, true, false, List, [], ◌∷◌, ◌++◌, arith,
}
use openclaw_ecc_orchestrato.Prelude.Codes.{Text, slash, starts_with, rstrip}
use openclaw_ecc_orchestrato.Tasks.Scope.{compile, match_pieces, normalize, glob_match, is_glob}
use openclaw_ecc_orchestrato.Tasks.Scope.Glob.{Stands, compile-Stands}
use openclaw_ecc_orchestrato.Tasks.Scope.Reference.{snoc_append, match_pieces_iff}
use openclaw_ecc_orchestrato.Tasks.Scope.Covers.{Decoding, beneath, covered_by, scope_contains}
use openclaw_ecc_orchestrato.Tasks.Scope.Safety.{Safe, is_safe_iff}
use openclaw_ecc_orchestrato.Tasks.Scope.Normal.{normalize-normalize}

-- The path in normal form is one that the entry in normal form stands for, character by character.
abbrev pub ByGlob : (path entry : Text) → Type 0
ByGlob path entry = Stands (normalize entry) (normalize path)

-- The entry has no wildcard, and the path in normal form lies beneath it.
abbrev pub ByDirectory : (path entry : Text) → Type 0
ByDirectory path entry =
    (is_glob entry ≡ false)
    × (rstrip slash (normalize entry) ≢ [])
    × ((rest : Text) × (normalize path ≡ rstrip slash (normalize entry) ++ slash ∷ rest))

abbrev pub Covered : (path : Text) (scope : List Text) → Type 0
Covered path [] = ⊥
Covered path (entry ∷ scope) = (ByGlob path entry ⊎ ByDirectory path entry) ⊎ Covered path scope

cons_split : {x y : ℕ} {xs ys : Text} → x ∷ xs ≡ y ∷ ys → (x ≡ y) × (xs ≡ ys)
cons_split e = (cc, cc)

cong_cons : {x y : ℕ} {xs ys : Text} → x ≡ y → xs ≡ ys → x ∷ xs ≡ y ∷ ys
cong_cons p q = cc

starts_with_iff :
    (text start : Text) → (starts_with text start ≡ true) ↔ ((rest : Text) × (text ≡ start ++ rest))
starts_with_iff text [] = (λ _. (text, refl), λ _. refl)
starts_with_iff [] (p ∷ ps) = (λ h. absurd (ground (arith, h)), λ (rest, e). cc)
starts_with_iff (x ∷ xs) (p ∷ ps) =
    let (there, back) = starts_with_iff xs ps in
    (
      λ h. let (rest, e) = there (ground (arith, h)) in (rest, cong_cons (ground (arith, h)) e),
      λ (rest, e). let (same, tails) = cons_split e in ground (arith, same, back (rest, tails)),
    )

is_nil-empty : (s : Text) → is_nil s ≡ false → s ≢ []
is_nil-empty [] h e = absurd (ground (arith, h))
is_nil-empty (c ∷ s) h e = cc

empty-is_nil : (s : Text) → s ≢ [] → is_nil s ≡ false
empty-is_nil [] h = absurd (h refl)
empty-is_nil (c ∷ s) h = refl

beneath_iff : (path entry : Text) → (beneath (normalize path) entry ≡ true) ↔ ByDirectory path entry
unfolding beneath
beneath_iff path entry =
    let base = rstrip slash (normalize entry) in
    let (there, back) = starts_with_iff (normalize path) (base ++ slash ∷ []) in
    (
      λ h.
          let (plain, more) = both_split _ _ h in
          let (some_base, starts) = both_split _ _ more in
          let (rest, e) = there starts in
          (
            not-false _ plain,
            is_nil-empty base (not-false _ some_base),
            (rest, e ∙ sym (snoc_append base rest slash)),
          ),
      λ (plain, some_base, lies). both (not-true plain) (
          both (not-true (empty-is_nil base some_base))
            (back (lies.0, lies.1 ∙ snoc_append base lies.0 slash))),
    )

named_iff : (path entry : Text) → (glob_match (normalize path) entry ≡ true) ↔ ByGlob path entry
unfolding glob_match
named_iff path entry =
    subst (λ t. (match_pieces (compile (normalize entry)) t ≡ true) ↔ ByGlob path entry)
      (sym (normalize-normalize path))
      (
        λ h.
            (compile-Stands (normalize entry) (normalize path)).0
              ((match_pieces_iff (compile (normalize entry)) (normalize path)).0 h),
        λ h.
            (match_pieces_iff (compile (normalize entry)) (normalize path)).1
              ((compile-Stands (normalize entry) (normalize path)).1 h),
      )

any_iff :
    (path : Text) (scope : List Text)
    → (any (covered_by (normalize path)) scope ≡ true) ↔ Covered path scope
any_iff path [] = (λ h. absurd (ground (arith, h)), λ h. absurd h)
any_iff path (entry ∷ scope) =
    let (there, back) = any_iff path scope in
    let (named, stands) = named_iff path entry in
    let (below, lies) = beneath_iff path entry in
    (
      λ h. elim (either_split _ _ h) [
        | inl here ↦ elim (either_split _ _ here) [
          | inl a ↦ inl (inl (named a))
          | inr b ↦ inl (inr (below b))
        ]
        | inr later ↦ inr (there later)
      ],
      λ h. elim h [
        | inl (inl a) ↦ either_left _ (either_left _ (stands a))
        | inl (inr b) ↦ either_left _ (either_right _ (lies b))
        | inr later ↦ either_right _ (back later)
      ],
    )

-- A scope covers a path exactly when the path is safe (it is not blank, has at most 1024 characters and no
-- control character, and neither it nor what it decodes to is absolute, begins with a drive or `~`, climbs by
-- a segment `..` or has a NUL), and the scope is empty or one of its entries stands for the path, as a glob,
-- whose `*` and `?` never stand for a slash, or, without a wildcard, as a directory above it.
pub scope_contains_iff :
    (d : Decoding) (path : Text) (scope : List Text)
    → (scope_contains d path scope ≡ true) ↔ (Safe d path × ((scope ≡ []) ⊎ Covered path scope))
unfolding scope_contains
scope_contains_iff d path [] = (
  λ h. ((is_safe_iff d path).0 (both_split _ _ h).0, inl refl),
  λ (safe, _). both ((is_safe_iff d path).1 safe) refl,
)
scope_contains_iff d path (entry ∷ scope) =
    let (there, back) = any_iff path (entry ∷ scope) in
    (
      λ h.
          let (safe, covers) = both_split _ _ h in
          ((is_safe_iff d path).0 safe, inr (there covers)),
      λ (safe, covers).
          both ((is_safe_iff d path).1 safe) (elim covers [ inl e ↦ absurd cc | inr c ↦ back c ]),
    )
