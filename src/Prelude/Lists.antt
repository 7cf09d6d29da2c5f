-- ===== src/Prelude/Lists.antt =====
-- Lists: lengths, Boolean quantifiers, `All`, membership of texts, and `sorted`.
use Prim.Native.Nat.{ℕ, suc, ◌+◌}
use Prim.Native.String.{String}
use mathlib.Core.Path.{◌≡◌, refl, ap, ◌∙◌}
use mathlib.Core.Bool.{Bool, true, false, ◌&&◌, ◌||◌}
use mathlib.Core.List.{List, [], ◌∷◌, ◌++◌}
use native.Mathlib.Omega.{arith}
use text.Mathlib.TextEquality.{eq_iff}
use openclaw_ecc_orchestrato.Prelude.Tests.{if◌then◌else◌, if-elim}
use openclaw_ecc_orchestrato.Prelude.Text.{str_eq, str_leb}

module _ {ℓ} {A : Type ℓ} where
  abbrev pub length : List A → ℕ
  length [] = 0
  length (x ∷ xs) = suc (length xs)

  abbrev pub all : (A → Bool) → List A → Bool
  all p [] = true
  all p (x ∷ xs) = p x && all p xs

  abbrev pub any : (A → Bool) → List A → Bool
  any p [] = false
  any p (x ∷ xs) = p x || any p xs

  abbrev pub keep : (A → Bool) → List A → List A
  keep p [] = []
  keep p (x ∷ xs) = let rest = keep p xs in if p x then x ∷ rest else rest

  abbrev pub is_nil : List A → Bool
  is_nil [] = true
  is_nil (x ∷ xs) = false

  abbrev pub All {κ} : (A → Type κ) → List A → Type κ
  All P [] = Unit
  All P (x ∷ xs) = P x × All P xs

  pub length-append : (xs ys : List A) → length (xs ++ ys) ≡ length xs + length ys
  length-append [] ys = omega arith
  length-append (x ∷ xs) ys = omega (arith, length-append xs ys)

  pub All-append {κ} : (P : A → Type κ) (xs ys : List A) → All P xs → All P ys → All P (xs ++ ys)
  All-append P [] ys hx hy = hy
  All-append P (x ∷ xs) ys hx hy = (hx.0, All-append P xs ys hx.1 hy)

  pub All-append_split {κ} :
      (P : A → Type κ) (xs ys : List A) → All P (xs ++ ys) → All P xs × All P ys
  All-append_split P [] ys h = (tt, h)
  All-append_split P (x ∷ xs) ys h =
      let (front, back) = All-append_split P xs ys h.1 in ((h.0, front), back)

  pub All-map {κ μ} :
      (P : A → Type κ) (Q : A → Type μ) (xs : List A) → ((x : A) → P x → Q x) → All P xs → All Q xs
  All-map P Q [] f h = tt
  All-map P Q (x ∷ xs) f h = (f x h.0, All-map P Q xs f h.1)

  pub All-zip {κ μ} :
      (P : A → Type κ) (Q : A → Type μ) (xs : List A)
      → All P xs
      → All Q xs
      → All (λ x. P x × Q x) xs
  All-zip P Q [] h k = tt
  All-zip P Q (x ∷ xs) h k = ((h.0, k.0), All-zip P Q xs h.1 k.1)

  pub keep-append : (p : A → Bool) (xs ys : List A) → keep p (xs ++ ys) ≡ keep p xs ++ keep p ys
  keep-append p [] ys = refl
  keep-append p (x ∷ xs) ys = ground (arith, keep-append p xs ys)

-- `k in xs` for a list of texts.
abbrev pub has : String → List String → Bool
has k [] = false
has k (x ∷ xs) = str_eq x k || has k xs

insert_sorted : String → List String → List String
insert_sorted k [] = k ∷ []
insert_sorted k (x ∷ xs) =
    let rest = insert_sorted k xs in if str_leb k x then k ∷ x ∷ xs else x ∷ rest

-- `sorted(xs)` of Python, on texts.
unfoldable pub sorted : List String → List String
unfolding insert_sorted
sorted [] = []
sorted (x ∷ xs) = insert_sorted x (sorted xs)

All-insert_sorted {κ} :
    (P : String → Type κ) (k : String) (xs : List String)
    → P k
    → All P xs
    → All P (insert_sorted k xs)
unfolding insert_sorted
All-insert_sorted P k [] h hs = (h, tt)
All-insert_sorted P k (x ∷ xs) h hs =
    if-elim (All P) (str_leb k x) (k ∷ x ∷ xs) (x ∷ insert_sorted k xs) (λ _. (h, hs))
      (λ _. (hs.0, All-insert_sorted P k xs h hs.1))

pub All-sorted {κ} : (P : String → Type κ) (xs : List String) → All P xs → All P (sorted xs)
unfolding sorted
All-sorted P [] h = tt
All-sorted P (x ∷ xs) h = All-insert_sorted P x (sorted xs) h.0 (All-sorted P xs h.1)

has-insert_sorted :
    (d k : String) (xs : List String) → has d (insert_sorted k xs) ≡ (str_eq k d || has d xs)
unfolding insert_sorted
has-insert_sorted d k [] = refl
has-insert_sorted d k (x ∷ xs) =
    if-elim (λ l. has d l ≡ (str_eq k d || (str_eq x d || has d xs))) (str_leb k x) (k ∷ x ∷ xs)
      (x ∷ insert_sorted k xs) (λ _. refl) (λ _. ground (arith, has-insert_sorted d k xs))

pub has-sorted : (d : String) (xs : List String) → has d (sorted xs) ≡ has d xs
unfolding sorted
has-sorted d [] = refl
has-sorted d (x ∷ xs) =
    has-insert_sorted d x (sorted xs) ∙ ap (λ b. str_eq x d || b) (has-sorted d xs)

pub All-has : (xs : List String) → All (λ d. has d xs ≡ true) xs
All-has [] = tt
All-has (x ∷ xs) =
    (ground (arith, eq_iff x x), All-map _ _ xs (λ d there. ground (arith, there)) (All-has xs))
