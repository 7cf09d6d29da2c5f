-- ===== src/Tasks/Scope/Segments.antt =====
-- A glob without `**` matches paths of as many segments as it has, src/openclaw_ecc_orchestrator/tasks/scope.py.
use openclaw_ecc_orchestrato.Prelude.{
  ◌==◌, if◌then◌else◌, if-elim, All, ℕ, ◌+◌, ◌≡◌, refl, sym, ap, ◌∙◌, subst, Bool, true, false,
  ◌&&◌, ◌||◌, List, [], ◌∷◌, ◌++◌, arith,
}
use openclaw_ecc_orchestrato.Prelude.Codes.{Text, slash}
use openclaw_ecc_orchestrato.Tasks.Scope.{
  Piece, deep, any_run, star, one, lit, is_star, single, compile, not_slash, normalize, glob_match,
}
use openclaw_ecc_orchestrato.Tasks.Scope.Reference.{Denotes, Matches, match_pieces_iff}

-- How many slashes the text has.
abbrev pub slashes : Text → ℕ
slashes [] = 0
slashes (c ∷ s) = let rest = slashes s in if c == slash then 1 + rest else rest

-- Whether two stars stand side by side.
abbrev pub has_double_star : Text → Bool
has_double_star [] = false
has_double_star (c ∷ []) = false
has_double_star (c ∷ d ∷ s) = (is_star c && is_star d) || has_double_star (d ∷ s)

-- The piece is no `**`.
abbrev is_flat : Piece → Bool
is_flat deep = false
is_flat any_run = false
is_flat _ = true

abbrev piece_slashes : Piece → ℕ
piece_slashes (lit n) = if n == slash then 1 else 0
piece_slashes _ = 0

abbrev piece_total : List Piece → ℕ
piece_total [] = 0
piece_total (p ∷ ps) = piece_slashes p + piece_total ps

slashes-append : (u v : Text) → slashes (u ++ v) ≡ slashes u + slashes v
slashes-append [] v = omega arith
slashes-append (c ∷ u) v = ground (arith, slashes-append u v)

slashes_none : (u : Text) → All (λ c. not_slash c ≡ true) u → slashes u ≡ 0
slashes_none [] h = refl
slashes_none (c ∷ u) h = ground (arith, h.0, slashes_none u h.1)

slashes-Denotes :
    (p : Piece) (u : Text) → is_flat p ≡ true → Denotes p u → slashes u ≡ piece_slashes p
slashes-Denotes deep u flat h = absurd (ground (arith, flat))
slashes-Denotes any_run u flat h = absurd (ground (arith, flat))
slashes-Denotes star u flat h = slashes_none u h
slashes-Denotes one u flat (c, e, other) = rw e (ground (arith, other))
slashes-Denotes (lit n) u flat e = rw e (ground arith)

slashes-Matches :
    (ps : List Piece) (s : Text)
    → All (λ p. is_flat p ≡ true) ps
    → Matches ps s
    → slashes s ≡ piece_total ps
slashes-Matches [] s flat h = rw h refl
slashes-Matches (p ∷ ps) s flat (u, v, e, here, later) =
    ap slashes e
    ∙ slashes-append u v
    ∙ ap (λ n. n + slashes v) (slashes-Denotes p u flat.0 here)
    ∙ ap (λ n. piece_slashes p + n) (slashes-Matches ps v flat.1 later)

single_flat : (c : ℕ) → is_flat (single c) ≡ true
single_flat c = ground arith

single_slashes : (c : ℕ) → piece_slashes (single c) ≡ (if c == slash then 1 else 0)
single_slashes c = ground arith

-- Flat pieces with as many slashes as the pattern.
abbrev Flat : List Piece → Text → Type 0
Flat ps s = All (λ p. is_flat p ≡ true) ps × (piece_total ps ≡ slashes s)

compile_cons :
    (c : ℕ) (s : Text) → has_double_star (c ∷ s) ≡ false → compile (c ∷ s) ≡ single c ∷ compile s
unfolding compile
compile_cons c [] h = refl
compile_cons c (d ∷ []) h =
    let rest = compile (d ∷ []) in
    if-elim (λ t. t ≡ single c ∷ rest) (is_star c && is_star d) (any_run ∷ []) (single c ∷ rest)
      (λ e. absurd (ground (arith, e, h))) (λ _. refl)
compile_cons c (d ∷ e ∷ s) h =
    let rest = compile (d ∷ e ∷ s) in
    if-elim (λ t. t ≡ single c ∷ rest) (is_star c && is_star d)
      (if e == slash then deep ∷ compile s else any_run ∷ compile (e ∷ s)) (single c ∷ rest)
      (λ e. absurd (ground (arith, e, h))) (λ _. refl)

has_double_star_tail :
    (c : ℕ) (s : Text) → has_double_star (c ∷ s) ≡ false → has_double_star s ≡ false
has_double_star_tail c [] h = refl
has_double_star_tail c (d ∷ s) h = ground (arith, h)

compile_nil : compile [] ≡ []
unfolding compile
compile_nil = refl

compile-Flat : (s : Text) → has_double_star s ≡ false → Flat (compile s) s
compile-Flat [] h = rw compile_nil (tt, refl)
compile-Flat (c ∷ s) h =
    let (pieces, count) = compile-Flat s (has_double_star_tail c s h) in
    subst (λ ps. Flat ps (c ∷ s)) (sym (compile_cons c s h))
      ((single_flat c, pieces), ground (arith, count, single_slashes c))

-- A path that matches a glob without two stars side by side has, in normal form, as many slashes as the
-- glob in normal form.
pub glob_match-slashes :
    (path pattern : Text)
    → has_double_star (normalize pattern) ≡ false
    → glob_match path pattern ≡ true
    → slashes (normalize path) ≡ slashes (normalize pattern)
unfolding glob_match
glob_match-slashes path pattern flat h =
    let (pieces, count) = compile-Flat (normalize pattern) flat in
    slashes-Matches (compile (normalize pattern)) (normalize path) pieces
      ((match_pieces_iff (compile (normalize pattern)) (normalize path)).0 h)
    ∙ count
