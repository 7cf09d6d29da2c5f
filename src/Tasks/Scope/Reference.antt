-- ===== src/Tasks/Scope/Reference.antt =====
-- A glob matches what its pieces, one after the other, stand for.
use openclaw_ecc_orchestrato.Prelude.{
  ◌==◌, Bool-cases, All, ℕ, ◌≡◌, refl, sym, ap, ◌∙◌, subst, ◌≢◌, ◌↔◌, ◌⊎◌, inl, inr, Bool, true,
  List, [], ◌∷◌, ◌++◌, arith,
}
use openclaw_ecc_orchestrato.Prelude.Codes.{Text, slash}
use openclaw_ecc_orchestrato.Tasks.Scope.{
  Piece, deep, any_run, star, one, lit, not_slash, not_line_feed, scan, first, match_pieces,
}

abbrev AllPass : (ℕ → Bool) → Text → Type 0
AllPass pass s = All (λ c. pass c ≡ true) s

-- The texts that a piece stands for. `**/` is nothing, or any text without a line feed and a slash.
abbrev pub Denotes : Piece → Text → Type 0
Denotes (lit n) u = u ≡ n ∷ []
Denotes one u = (c : ℕ) × (u ≡ c ∷ []) × (c ≢ slash)
Denotes star u = AllPass not_slash u
Denotes any_run u = AllPass not_line_feed u
Denotes deep u = (u ≡ []) ⊎ ((w : Text) × (u ≡ w ++ slash ∷ []) × AllPass not_line_feed w)

-- The text falls into parts, one for each piece.
abbrev pub Matches : List Piece → Text → Type 0
Matches [] s = s ≡ []
Matches (p ∷ ps) s = (u : Text) × (v : Text) × (s ≡ u ++ v) × Denotes p u × Matches ps v

-- A run that passes, and the rest.
abbrev Split : (ℕ → Bool) → (Text → Type 0) → Text → Type 0
Split pass P s = (u : Text) × (v : Text) × (s ≡ u ++ v) × AllPass pass u × P v

module _ (pass : ℕ → Bool) (next : Text → Bool) (P : Text → Type 0) where
  scan→Split :
      ((t : Text) → next t ≡ true → P t) → (s : Text) → scan pass next s ≡ true → Split pass P s
  scan→Split sound [] h = ([], [], refl, tt, sound [] h)
  scan→Split sound (c ∷ s) h = elim (Bool-cases (next (c ∷ s))) [
    | inl here ↦ ([], c ∷ s, refl, tt, sound (c ∷ s) here)
    | inr later ↦
        let (u, v, e, ok, p) = scan→Split sound s (ground (arith, h, later)) in
        (c ∷ u, v, ap (λ t. c ∷ t) e, (ground (arith, h, later), ok), p)
  ]

  Split→scan :
      ((t : Text) → P t → next t ≡ true)
      → (u v : Text) → AllPass pass u
      → P v
      → scan pass next (u ++ v) ≡ true
  Split→scan complete [] [] ok p = complete [] p
  Split→scan complete [] (c ∷ v) ok p = ground (arith, complete (c ∷ v) p)
  Split→scan complete (c ∷ u) v ok p = ground (arith, ok.0, Split→scan complete u v ok.1 p)

scan_iff :
    (pass : ℕ → Bool) (next : Text → Bool) (P : Text → Type 0)
    → ((t : Text) → (next t ≡ true) ↔ P t)
    → (s : Text) → (scan pass next s ≡ true) ↔ Split pass P s
scan_iff pass next P same s = (
  scan→Split pass next P (λ t. (same t).0) s,
  λ (u, v, e, ok, p). rw e (Split→scan pass next P (λ t. (same t).1) u v ok p),
)

-- One character that passes, and the rest.
abbrev Step : (ℕ → Type 0) → (Text → Type 0) → Text → Type 0
Step Passes P s = (c : ℕ) × (v : Text) × (s ≡ c ∷ v) × Passes c × P v

first_iff :
    (pass : ℕ → Bool) (Passes : ℕ → Type 0) (next : Text → Bool) (P : Text → Type 0)
    → ((c : ℕ) → (pass c ≡ true) ↔ Passes c)
    → ((t : Text) → (next t ≡ true) ↔ P t)
    → (s : Text) → (first pass next s ≡ true) ↔ Step Passes P s
first_iff pass Passes next P tests same [] =
    (λ h. absurd (ground (arith, h)), λ (c, v, e, _, _). cc)
first_iff pass Passes next P tests same (c ∷ s) = (
  λ h. (c, s, refl, (tests c).0 (ground (arith, h)), (same s).0 (ground (arith, h))),
  λ (d, v, e, ok, p).
      subst (λ t. first pass next t ≡ true) (sym e) (ground (arith, (tests d).1 ok, (same v).1 p)),
)

pub snoc_append : (w v : Text) (c : ℕ) → w ++ c ∷ v ≡ (w ++ c ∷ []) ++ v
snoc_append [] v c = refl
snoc_append (x ∷ w) v c = ap (λ t. x ∷ t) (snoc_append w v c)

abbrev Correct : List Piece → Type 0
Correct ps = (s : Text) → (match_pieces ps s ≡ true) ↔ Matches ps s

lit-Correct : (n : ℕ) (ps : List Piece) → Correct ps → Correct (lit n ∷ ps)
unfolding match_pieces
lit-Correct n ps ih s =
    let (there, back) =
      first_iff (λ c. c == n) (λ c. c ≡ n) (match_pieces ps) (Matches ps) (λ c. ground arith) ih
        s in
    (
      λ h. let (c, v, e, same, m) = there h in (n ∷ [], v, e ∙ ap (λ d. d ∷ v) same, refl, m),
      λ (u, v, e, only, m). back (n, v, e ∙ ap (λ t. t ++ v) only, refl, m),
    )

one-Correct : (ps : List Piece) → Correct ps → Correct (one ∷ ps)
unfolding match_pieces
one-Correct ps ih s =
    let (there, back) =
      first_iff not_slash (λ c. c ≢ slash) (match_pieces ps) (Matches ps) (λ c. ground arith) ih
        s in
    (
      λ h. let (c, v, e, other, m) = there h in (c ∷ [], v, e, (c, refl, other), m),
      λ (u, v, e, (c, only, other), m). back (c, v, e ∙ ap (λ t. t ++ v) only, other, m),
    )

deep-Correct : (ps : List Piece) → Correct ps → Correct (deep ∷ ps)
unfolding match_pieces
deep-Correct ps ih s =
    let (there, back) =
      scan_iff not_line_feed (first (λ c. c == slash) (match_pieces ps))
        (Step (λ c. c ≡ slash) (Matches ps))
        (first_iff (λ c. c == slash) (λ c. c ≡ slash) (match_pieces ps) (Matches ps)
          (λ c. ground arith) ih)
        s in
    (
      λ h. elim (Bool-cases (match_pieces ps s)) [
        | inl now ↦ ([], s, refl, inl refl, (ih s).0 now)
        | inr not_now ↦
            let (w, rest, e, ok, (c, v, e2, same, m)) = there (ground (arith, h, not_now)) in
            (
              w ++ slash ∷ [],
              v,
              e ∙ ap (λ t. w ++ t) (e2 ∙ ap (λ d. d ∷ v) same) ∙ snoc_append w v slash,
              inr (w, refl, ok),
              m,
            )
      ],
      λ (u, v, e, shape, m). elim shape [
        | inl bare ↦
            let now = (ih s).1 (subst (λ t. Matches ps t) (sym (e ∙ ap (λ t. t ++ v) bare)) m) in
            ground (arith, now)
        | inr (w, cut, ok) ↦
            let later = back (
              w,
              slash ∷ v,
              e ∙ ap (λ t. t ++ v) cut ∙ sym (snoc_append w v slash),
              ok,
              (slash, v, refl, refl, m),
            ) in
            ground (arith, later)
      ],
    )

pub match_pieces_iff : (ps : List Piece) → Correct ps
unfolding match_pieces
match_pieces_iff [] [] = (λ _. refl, λ _. refl)
match_pieces_iff [] (c ∷ s) = (λ h. absurd (ground (arith, h)), λ h. cc)
match_pieces_iff (lit n ∷ ps) s = lit-Correct n ps (match_pieces_iff ps) s
match_pieces_iff (one ∷ ps) s = one-Correct ps (match_pieces_iff ps) s
match_pieces_iff (star ∷ ps) s =
    scan_iff not_slash (match_pieces ps) (Matches ps) (match_pieces_iff ps) s
match_pieces_iff (any_run ∷ ps) s =
    scan_iff not_line_feed (match_pieces ps) (Matches ps) (match_pieces_iff ps) s
match_pieces_iff (deep ∷ ps) s = deep-Correct ps (match_pieces_iff ps) s
