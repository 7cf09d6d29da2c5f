-- ===== src/Runs/Identifier.antt =====
-- `valid_identifier` of src/openclaw_ecc_orchestrator/runs/store.py, on the characters of a text.
use Prim.Native.Char.{Char, code}
use Prim.Native.String.{[], ◌∷◌}
use openclaw_ecc_orchestrato.Prelude.{
  ℕ, zero, suc, String, ◌≡◌, Bool, true, false, not, ◌&&◌, ◌||◌, leb, ◌==◌, arith,
}

abbrev between : ℕ → ℕ → ℕ → Bool
between low high n = leb low n && leb n high

-- `[A-Za-z0-9]`
unfoldable pub is_alnum : Char → Bool
is_alnum c = between 65 90 (code c) || (between 97 122 (code c) || between 48 57 (code c))

-- `[A-Za-z0-9._-]`
unfoldable pub is_id_char : Char → Bool
unfolding is_alnum
is_id_char c = is_alnum c || ((code c == 46) || ((code c == 95) || (code c == 45)))

-- What `$` matches at: the end of the text, or a line feed that ends it.
unfoldable pub at_end : String → Bool
at_end [] = true
at_end (c ∷ []) = code c == 10
at_end (c ∷ d ∷ s) = false

-- `[A-Za-z0-9._-]{0,n}$`
unfoldable pub matches_rest : ℕ → String → Bool
unfolding at_end is_id_char
matches_rest n [] = true
matches_rest zero (c ∷ s) = at_end (c ∷ s)
matches_rest (suc n) (c ∷ s) = (is_id_char c && matches_rest n s) || at_end (c ∷ s)

-- `_ID_RE.match`
unfoldable pub matches_id : String → Bool
unfolding is_alnum matches_rest
matches_id [] = false
matches_id (c ∷ s) = is_alnum c && matches_rest 95 s

-- `".." in value`
unfoldable pub has_dots : String → Bool
has_dots [] = false
has_dots (c ∷ []) = false
has_dots (c ∷ d ∷ s) = ((code c == 46) && (code d == 46)) || has_dots (d ∷ s)

-- `valid_identifier`, of a text.
unfoldable pub valid_identifier : String → Bool
unfolding matches_id has_dots
valid_identifier s = matches_id s && not (has_dots s)

-- The text has a character of this code.
abbrev pub has_code : ℕ → String → Bool
has_code n [] = false
has_code n (c ∷ s) = (code c == n) || has_code n s

unfoldable pub starts_alnum : String → Bool
unfolding is_alnum
starts_alnum [] = false
starts_alnum (c ∷ s) = is_alnum c

is_alnum-slash : (c : Char) → is_alnum c ≡ true → (code c == 47) ≡ false
unfolding is_alnum
is_alnum-slash c h = ground arith

is_id_char-slash : (c : Char) → is_id_char c ≡ true → (code c == 47) ≡ false
unfolding is_id_char is_alnum
is_id_char-slash c h = ground arith

at_end-slash : (s : String) → at_end s ≡ true → has_code 47 s ≡ false
unfolding at_end
at_end-slash [] h = ground arith
at_end-slash (c ∷ []) h = ground arith
at_end-slash (c ∷ d ∷ s) h = ground arith

matches_rest-slash : (n : ℕ) (s : String) → matches_rest n s ≡ true → has_code 47 s ≡ false
unfolding matches_rest
matches_rest-slash n [] h = ground arith
matches_rest-slash zero (c ∷ s) h = at_end-slash (c ∷ s) h
matches_rest-slash (suc n) (c ∷ s) h =
    ground (arith, is_id_char-slash c, matches_rest-slash n s, at_end-slash (c ∷ s))

-- An identifier that is accepted is one component of a path, and not the parent directory: it is not
-- empty, begins with a letter or a digit, and has no slash and no two dots together.
pub valid_identifier-path :
    (s : String)
    → valid_identifier s ≡ true
    → (starts_alnum s ≡ true) × (has_code 47 s ≡ false) × (has_dots s ≡ false)
unfolding valid_identifier matches_id starts_alnum
valid_identifier-path [] h = ground arith
valid_identifier-path (c ∷ s) h = ground (arith, is_alnum-slash c, matches_rest-slash 95 s)
