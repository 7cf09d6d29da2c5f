-- ===== src/Prelude/Fnmatch.antt =====
-- `fnmatch.fnmatchcase` of the standard library, on texts.
use mathlib.Core.Option
use mathlib.Core.Option.{Option, none, some}
use openclaw_ecc_orchestrato.Prelude.{
  ◌≡◌, refl, ap, sym, ◌∙◌, arith, leb, ◌==◌, if◌then◌else◌, length, is_nil, ℕ, zero, suc, ◌+◌, Bool,
  true, false, not, ◌&&◌, ◌||◌, List, [], ◌∷◌,
}
use openclaw_ecc_orchestrato.Prelude.Codes.{Text}

-- A run, one character, a class with what it takes, and a character that stands for itself.
pub data Wild : Type 0 where
  run one : Wild
  class : (negated : Bool) → List (ℕ × ℕ) → Wild
  itself : ℕ → Wild

-- The text up to the first `]`.
abbrev closed : Text → Option Text
closed [] = none
closed (c ∷ s) = elim (closed s) as (λ _. Option Text) [
  | none ↦ if c == 93 then some [] else none
  | some body ↦ if c == 93 then some [] else some (c ∷ body)
]

-- A `]` that comes first stands for itself.
abbrev body_of : Text → Option Text
body_of [] = none
body_of (c ∷ s) = if c == 93 then Option.map (λ b. c ∷ b) (closed s) else closed (c ∷ s)

-- What stands between `[` and its `]`.
abbrev bracket : Text → Option Text
bracket [] = none
bracket (c ∷ s) = if c == 33 then Option.map (λ b. c ∷ b) (body_of s) else body_of (c ∷ s)

abbrev ranges : Text → List (ℕ × ℕ)
ranges [] = []
ranges (a ∷ []) = (a, a) ∷ []
ranges (a ∷ b ∷ []) = (a, a) ∷ (b, b) ∷ []
ranges (a ∷ b ∷ c ∷ s) =
    let after = ranges s in
    let next = ranges (b ∷ c ∷ s) in if b == 45 then (a, c) ∷ after else (a, a) ∷ next

abbrev class_of : Text → Wild
class_of [] = class false []
class_of (c ∷ s) = if c == 33 then class true (ranges s) else class false (ranges (c ∷ s))

-- The pattern, its first `skip` characters left out.
abbrev translate : (skip : ℕ) → Text → List Wild
translate skip [] = []
translate (suc skip) (c ∷ s) = translate skip s
translate zero (c ∷ s) =
    let rest = translate 0 s in
    if c == 42
    then run ∷ rest
    else if c == 63
    then one ∷ rest
    else if c == 91
    then elim (bracket s) [
      | none ↦ itself c ∷ rest
      | some body ↦ class_of body ∷ translate (length body + 1) s
    ]
    else itself c ∷ rest

abbrev within : ℕ → List (ℕ × ℕ) → Bool
within c [] = false
within c ((low, high) ∷ rs) = (leb low c && leb c high) || within c rs

abbrev runs : (Text → Bool) → Text → Bool
runs next [] = next []
runs next (c ∷ s) = next (c ∷ s) || runs next s

abbrev matches : List Wild → Text → Bool
matches [] s = is_nil s
matches (run ∷ ws) s = runs (matches ws) s
matches (one ∷ ws) [] = false
matches (one ∷ ws) (c ∷ s) = matches ws s
matches (itself n ∷ ws) [] = false
matches (itself n ∷ ws) (c ∷ s) = (c == n) && matches ws s
matches (class negated rs ∷ ws) [] = false
matches (class negated rs ∷ ws) (c ∷ s) =
    (if negated then not (within c rs) else within c rs) && matches ws s

unfoldable pub fnmatchcase : (name pattern : Text) → Bool
fnmatchcase name pattern = matches (translate 0 pattern) name

translate_literal :
    (c : ℕ) (s : Text)
    → (c == 42) ≡ false
    → (c == 63) ≡ false
    → (c == 91) ≡ false
    → translate 0 (c ∷ s) ≡ itself c ∷ translate 0 s
translate_literal c s no_run no_one no_class = rw (no_run, no_one, no_class) refl

matches_itself :
    (c : ℕ) (ws : List Wild) (name : Text)
    → matches (itself c ∷ ws) name ≡ true
    → (rest : Text) × (name ≡ c ∷ rest) × (matches ws rest ≡ true)
matches_itself c ws [] h = absurd (ground (arith, h))
matches_itself c ws (d ∷ name) h =
    let same : d ≡ c = ground (arith, h) in (name, ap (λ e. e ∷ name) same, ground (arith, h))

-- A name that matches a pattern begins with the character that the pattern begins with, if it is no
-- wildcard, and the rest of the name matches the rest of the pattern.
pub fnmatchcase-literal :
    (c : ℕ) (s name : Text)
    → (c == 42) ≡ false
    → (c == 63) ≡ false
    → (c == 91) ≡ false
    → fnmatchcase name (c ∷ s) ≡ true
    → (rest : Text) × (name ≡ c ∷ rest) × (fnmatchcase rest s ≡ true)
unfolding fnmatchcase
fnmatchcase-literal c s name no_run no_one no_class h =
    matches_itself c (translate 0 s) name
      (ap (λ ws. matches ws name) (sym (translate_literal c s no_run no_one no_class)) ∙ h)
