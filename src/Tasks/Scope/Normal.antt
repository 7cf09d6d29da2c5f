-- ===== src/Tasks/Scope/Normal.antt =====
-- Texts in normal form, `normalize` of src/openclaw_ecc_orchestrator/tasks/scope.py.
use openclaw_ecc_orchestrato.Prelude.{
  ◌==◌, if-elim, any, All, ℕ, ◌≡◌, refl, ap, ◌∙◌, Bool, true, false, not, ◌&&◌, List, [], ◌∷◌,
  arith,
}
use openclaw_ecc_orchestrato.Prelude.Codes.{Text, slash}
use openclaw_ecc_orchestrato.Tasks.Scope.{
  compile, match_pieces, forward, drop_dots, squeeze, normalize, glob_match,
}
use openclaw_ecc_orchestrato.Tasks.Scope.Covers.{
  Decoding, path_in_scope, covered_by, scope_contains,
}

-- No backslash stands in the text.
abbrev NoBack : Text → Type 0
NoBack s = All (λ c. (c == 92) ≡ false) s

forward-NoBack : (s : Text) → NoBack (forward s)
forward-NoBack [] = tt
forward-NoBack (c ∷ s) =
    (if-elim (λ t. (t == 92) ≡ false) (c == 92) slash c (λ _. refl) (λ h. h), forward-NoBack s)

forward_self : (s : Text) → NoBack s → forward s ≡ s
forward_self [] h = refl
forward_self (c ∷ s) h = rw h.0 (ap (λ t. c ∷ t) (forward_self s h.1))

drop_dots-NoBack : (s : Text) → NoBack s → NoBack (drop_dots s)
drop_dots-NoBack [] h = tt
drop_dots-NoBack (c ∷ []) h = h
drop_dots-NoBack (c ∷ d ∷ s) h =
    if-elim NoBack ((c == 46) && (d == slash)) (drop_dots s) (c ∷ d ∷ s)
      (λ _. drop_dots-NoBack s h.1.1) (λ _. h)

squeeze-NoBack : (s : Text) → NoBack s → NoBack (squeeze s)
squeeze-NoBack [] h = tt
squeeze-NoBack (c ∷ []) h = h
squeeze-NoBack (c ∷ d ∷ s) h =
    let rest = squeeze-NoBack (d ∷ s) h.1 in
    if-elim NoBack ((c == slash) && (d == slash)) (squeeze (d ∷ s)) (c ∷ squeeze (d ∷ s))
      (λ _. rest) (λ _. (h.0, rest))

-- Whether the text starts with "./".
abbrev dotted : Text → Bool
dotted (c ∷ d ∷ s) = (c == 46) && (d == slash)
dotted _ = false

drop_dots-dotted : (s : Text) → dotted (drop_dots s) ≡ false
drop_dots-dotted [] = refl
drop_dots-dotted (c ∷ []) = refl
drop_dots-dotted (c ∷ d ∷ s) =
    if-elim (λ t. dotted t ≡ false) ((c == 46) && (d == slash)) (drop_dots s) (c ∷ d ∷ s)
      (λ _. drop_dots-dotted s) (λ h. h)

drop_dots_self : (s : Text) → dotted s ≡ false → drop_dots s ≡ s
drop_dots_self [] h = refl
drop_dots_self (c ∷ []) h = refl
drop_dots_self (c ∷ d ∷ s) h = rw h refl

-- Whether the text starts with this character.
abbrev heads : ℕ → Text → Bool
heads c [] = false
heads c (d ∷ s) = d == c

squeeze-heads : (c : ℕ) (s : Text) → heads c (squeeze s) ≡ heads c s
squeeze-heads c [] = refl
squeeze-heads c (x ∷ []) = refl
squeeze-heads c (x ∷ d ∷ s) =
    if-elim (λ t. heads c t ≡ (x == c)) ((x == slash) && (d == slash)) (squeeze (d ∷ s))
      (x ∷ squeeze (d ∷ s)) (λ h. squeeze-heads c (d ∷ s) ∙ ground (arith, h)) (λ _. refl)

-- No two slashes stand side by side.
abbrev apart : Text → Bool
apart [] = true
apart (c ∷ s) = not ((c == slash) && heads slash s) && apart s

squeeze-apart : (s : Text) → apart (squeeze s) ≡ true
squeeze-apart [] = refl
squeeze-apart (c ∷ []) = ground arith
squeeze-apart (c ∷ d ∷ s) =
    if-elim (λ t. apart t ≡ true) ((c == slash) && (d == slash)) (squeeze (d ∷ s))
      (c ∷ squeeze (d ∷ s)) (λ _. squeeze-apart (d ∷ s))
      (λ h. ground (arith, h, squeeze-apart (d ∷ s), squeeze-heads slash (d ∷ s)))

squeeze_self : (s : Text) → apart s ≡ true → squeeze s ≡ s
squeeze_self [] h = refl
squeeze_self (c ∷ []) h = refl
squeeze_self (c ∷ d ∷ s) h =
    if-elim (λ t. t ≡ c ∷ d ∷ s) ((c == slash) && (d == slash)) (squeeze (d ∷ s))
      (c ∷ squeeze (d ∷ s)) (λ e. absurd (ground (arith, e, h)))
      (λ _. ap (λ t. c ∷ t) (squeeze_self (d ∷ s) (ground (arith, h))))

dotted_cons : (c : ℕ) (t : Text) → dotted (c ∷ t) ≡ ((c == 46) && heads slash t)
dotted_cons c [] = ground arith
dotted_cons c (d ∷ t) = refl

dotted-slash : (t : Text) → heads slash t ≡ true → dotted t ≡ false
dotted-slash [] h = refl
dotted-slash (c ∷ []) h = refl
dotted-slash (c ∷ d ∷ t) h = ground (arith, h)

squeeze-dotted : (s : Text) → dotted s ≡ false → dotted (squeeze s) ≡ false
squeeze-dotted [] h = refl
squeeze-dotted (c ∷ []) h = refl
squeeze-dotted (c ∷ d ∷ s) h =
    if-elim (λ t. dotted t ≡ false) ((c == slash) && (d == slash)) (squeeze (d ∷ s))
      (c ∷ squeeze (d ∷ s))
      (λ e. dotted-slash (squeeze (d ∷ s)) (squeeze-heads slash (d ∷ s) ∙ ground (arith, e)))
      (λ _.
        dotted_cons c (squeeze (d ∷ s))
        ∙ ap (λ b. (c == 46) && b) (squeeze-heads slash (d ∷ s))
        ∙ h)

-- The normal form of a normal form is the form itself.
pub normalize-normalize : (path : Text) → normalize (normalize path) ≡ normalize path
unfolding normalize
normalize-normalize path =
    let open_form = drop_dots (forward path) in
    let clean = squeeze-NoBack open_form (drop_dots-NoBack (forward path) (forward-NoBack path)) in
    let bare = squeeze-dotted open_form (drop_dots-dotted (forward path)) in
    ap (λ t. squeeze (drop_dots t)) (forward_self (squeeze open_form) clean)
    ∙ ap squeeze (drop_dots_self (squeeze open_form) bare)
    ∙ squeeze_self (squeeze open_form) (squeeze-apart open_form)

glob_match-normalize :
    (path entry : Text) → glob_match (normalize path) entry ≡ glob_match path entry
unfolding glob_match
glob_match-normalize path entry =
    ap (match_pieces (compile (normalize entry))) (normalize-normalize path)

any-covered_by :
    (path : Text) (scope : List Text)
    → any (glob_match path) scope ≡ true
    → any (covered_by (normalize path)) scope ≡ true
any-covered_by path [] h = h
any-covered_by path (entry ∷ scope) h =
    ground (arith, h, glob_match-normalize path entry, any-covered_by path scope)

-- A path that `path_in_scope` accepts is covered by the same scope.
pub path_in_scope-scope_contains :
    (d : Decoding) (path : Text) (scope : List Text)
    → path_in_scope d path scope ≡ true
    → scope_contains d path scope ≡ true
unfolding path_in_scope scope_contains
path_in_scope-scope_contains d path scope h = ground (arith, h, any-covered_by path scope)
