-- ===== src/Tasks/Scope/Safety.antt =====
-- What the safety test of src/openclaw_ecc_orchestrator/tasks/scope.py lets through.
use mathlib.Core.Bool.{false≢true}
use openclaw_ecc_orchestrato.Prelude.{
  Bool-cases, inl, inr, leb, ◌==◌, leb→le, length, all, any, All, both, both_split, not-true,
  not-false, ℕ, ◌≤◌, ◌≡◌, refl, sym, ap, ◌∙◌, ◌≢◌, ◌↔◌, ◌⊎◌, Bool, true, false, not, ◌&&◌, ◌||◌,
  List, [], ◌∷◌, arith,
}
use openclaw_ecc_orchestrato.Prelude.Codes.{Text, slash, has_char, text_eq, text_eq→eq, starts_with}
use openclaw_ecc_orchestrato.Tasks.Scope.{forward}
use openclaw_ecc_orchestrato.Tasks.Scope.Covers.{
  Decoding, is_letter, is_absolute, is_home, split_path, climbs, is_hostile, is_control, candidates,
  is_whitespace, is_safe,
}

-- A letter of ASCII.
abbrev pub Letter : ℕ → Type 0
Letter c = ((65 ≤ c) × (c ≤ 90)) ⊎ ((97 ≤ c) × (c ≤ 122))

-- A form of the path, with forward slashes: it is relative, with no drive in front, does not begin with `~`,
-- has no segment `..`, and no NUL.
abbrev pub Harmless : Text → Type 0
Harmless s =
    (¬ ((rest : Text) × (forward s ≡ slash ∷ rest)))
    × (¬ ((c : ℕ) × (rest : Text) × (forward s ≡ c ∷ 58 ∷ rest) × Letter c))
    × (¬ ((rest : Text) × (forward s ≡ 126 ∷ rest)))
    × All (λ seg. seg ≢ 46 ∷ 46 ∷ []) (split_path (forward s))
    × All (λ c. c ≢ 0) s

-- The path is not blank, has at most 1024 characters and no control character, and it and what it decodes to
-- are harmless.
abbrev pub Safe : Decoding → Text → Type 0
Safe d path =
    (all is_whitespace path ≡ false)
    × (length path ≤ 1024)
    × All (λ c. (32 ≤ c) × (c ≢ 127)) path
    × All Harmless (candidates d path)

module _ {A : Type 0} (f : A → Bool) (P : A → Type 0) (same : (x : A) → (f x ≡ false) ↔ P x) where
  any-All : (xs : List A) → (any f xs ≡ false) ↔ All P xs
  any-All [] = (λ _. tt, λ _. refl)
  any-All (x ∷ xs) =
      let (there, back) = any-All xs in
      (
        λ h. ((same x).0 (ground (arith, h)), there (ground (arith, h))),
        λ (p, ps). let here = (same x).1 p in let later = back ps in ground (arith, here, later),
      )

control_iff : (c : ℕ) → (is_control c ≡ false) ↔ ((32 ≤ c) × (c ≢ 127))
control_iff c = ground arith

text_eq_refl : (a : Text) → text_eq a a ≡ true
text_eq_refl [] = refl
text_eq_refl (x ∷ a) = ground (arith, text_eq_refl a)

differs_iff : (s t : Text) → (text_eq s t ≡ false) ↔ (s ≢ t)
differs_iff s t = (
  λ h e. false≢true (sym h ∙ (ap (text_eq s) (sym e) ∙ text_eq_refl s)),
  λ n. elim (Bool-cases (text_eq s t)) [
    | inl same ↦ absurd (n (text_eq→eq s t same))
    | inr other ↦ other
  ],
)

has_char-any : (n : ℕ) (s : Text) → has_char n s ≡ any (λ c. c == n) s
has_char-any n [] = refl
has_char-any n (c ∷ s) = ground (arith, has_char-any n s)

climbs_iff : (s : Text) → (climbs s ≡ false) ↔ All (λ seg. seg ≢ 46 ∷ 46 ∷ []) (split_path s)
unfolding climbs
climbs_iff s =
    any-All (λ seg. text_eq seg (46 ∷ 46 ∷ [])) (λ seg. seg ≢ 46 ∷ 46 ∷ [])
      (λ seg. differs_iff seg (46 ∷ 46 ∷ [])) (split_path s)

first_of : {x y : ℕ} {xs ys : Text} → x ∷ xs ≡ y ∷ ys → x ≡ y
first_of e = cc

second_of : {x y z w : ℕ} {xs ys : Text} → x ∷ y ∷ xs ≡ z ∷ w ∷ ys → y ≡ w
second_of e = cc

starts_iff :
    (n : ℕ) (s : Text) → (starts_with s (n ∷ []) ≡ false) ↔ (¬ ((rest : Text) × (s ≡ n ∷ rest)))
starts_iff n [] = (λ _ (rest, e). cc, λ _. refl)
starts_iff n (c ∷ s) = (
  λ h (rest, e). ground (arith, h, first_of e),
  λ bare. elim (Bool-cases (c == n)) [
    | inl same ↦ let is : c ≡ n = ground (arith, same) in absurd (bare (s, ap (λ x. x ∷ s) is))
    | inr other ↦ ground (arith, other)
  ],
)

is_letter-Letter : (c : ℕ) → (is_letter c ≡ true) ↔ Letter c
is_letter-Letter c = ground arith

-- The text begins with a letter and a colon.
abbrev HasDrive : Text → Type 0
HasDrive s = (c : ℕ) × (rest : Text) × (s ≡ c ∷ 58 ∷ rest) × Letter c

or_split : (x y : Bool) → (x || y) ≡ false → (x ≡ false) × (y ≡ false)
or_split true y h = absurd (false≢true (sym h))
or_split false y h = (refl, h)

or_join : (x y : Bool) → x ≡ false → y ≡ false → (x || y) ≡ false
or_join x y h k = rw (h, k) refl

absolute_iff :
    (s : Text)
    → (is_absolute s ≡ false) ↔ ((¬ ((rest : Text) × (s ≡ slash ∷ rest))) × (¬ HasDrive s))
unfolding is_absolute
absolute_iff [] = (λ _. (λ (rest, e). cc, λ (c, rest, e, l). cc), λ _. refl)
absolute_iff (c ∷ []) = (
  λ h. (λ (rest, e). ground (arith, h, first_of e), λ (x, rest, e, l). cc),
  λ (bare, _). elim (Bool-cases (c == slash)) [
    | inl same ↦
        let is : c ≡ slash = ground (arith, same) in absurd (bare ([], ap (λ x. x ∷ []) is))
    | inr other ↦ other
  ],
)
absolute_iff (c ∷ d ∷ s) = (
  λ h. (
    λ (rest, e). ground (arith, h, first_of e),
    λ (x, rest, e, l).
        let letter = (is_letter-Letter x).1 l in
        let is_x : c ≡ x = first_of e in
        let colon : d ≡ 58 = second_of e in
        let at : is_letter c ≡ true = ap is_letter is_x ∙ letter in
        false≢true (
          sym (or_split (c == slash) (is_letter c && (d == 58)) h).1
          ∙ both at (ground (arith, colon))),
  ),
  λ (bare, no_drive). elim (Bool-cases (c == slash)) [
    | inl same ↦
        let is : c ≡ slash = ground (arith, same) in absurd (bare (d ∷ s, ap (λ x. x ∷ d ∷ s) is))
    | inr other ↦ elim (Bool-cases (is_letter c && (d == 58))) [
      | inl drive ↦
          let (letter, colon) = both_split (is_letter c) (d == 58) drive in
          let is : d ≡ 58 = ground (arith, colon) in
          absurd (no_drive (c, s, ap (λ x. c ∷ x ∷ s) is, (is_letter-Letter c).0 letter))
      | inr plain ↦ or_join (c == slash) (is_letter c && (d == 58)) other plain
    ]
  ],
)

hostile_iff : (s : Text) → (is_hostile s ≡ false) ↔ Harmless s
unfolding is_hostile
hostile_iff s =
    let norm = forward s in
    let zeros = any-All (λ c. c == 0) (λ c. c ≢ 0) (λ c. ground arith) s in
    (
      λ h.
          let (a, more) = or_split (is_absolute norm) _ h in
          let (b, more2) = or_split (is_home norm) _ more in
          let (c, e) = or_split (climbs norm) _ more2 in
          let (relative, no_drive) = (absolute_iff norm).0 a in
          (
            relative,
            no_drive,
            (starts_iff 126 norm).0 b,
            (climbs_iff norm).0 c,
            zeros.0 (sym (has_char-any 0 s) ∙ e),
          ),
      λ (relative, no_drive, home, up, nul).
          or_join (is_absolute norm) _ ((absolute_iff norm).1 (relative, no_drive)) (
            or_join (is_home norm) _ ((starts_iff 126 norm).1 home)
              (or_join (climbs norm) _ ((climbs_iff norm).1 up) (has_char-any 0 s ∙ zeros.1 nul))),
    )

-- The safety test lets a path through exactly when it is safe.
pub is_safe_iff : (d : Decoding) (path : Text) → (is_safe d path ≡ true) ↔ Safe d path
unfolding is_safe
is_safe_iff d path =
    let controls = any-All is_control (λ c. (32 ≤ c) × (c ≢ 127)) control_iff path in
    let hostile = any-All is_hostile Harmless hostile_iff (candidates d path) in
    (
      λ h.
          let (blank, more) = both_split (not (all is_whitespace path)) _ h in
          let (short, more2) = both_split (leb (length path) 1024) _ more in
          let (plain, kind) = both_split (not (any is_control path)) _ more2 in
          (
            not-false _ blank,
            leb→le (length path) 1024 short,
            controls.0 (not-false _ plain),
            hostile.0 (not-false _ kind),
          ),
      λ (blank, short, plain, kind). both (not-true blank) (
          both (ground (arith, short))
            (both (not-true (controls.1 plain)) (not-true (hostile.1 kind)))),
    )
