-- ===== src/Tasks/Scope.antt =====
-- src/openclaw_ecc_orchestrator/tasks/scope.py: which paths a scope covers. A text is the list of its
-- code points.
pub mod Coverage
pub mod Covers
pub mod Glob
pub mod Normal
pub mod Reference
pub mod Safety
pub mod Segments
use openclaw_ecc_orchestrato.Prelude.{
  ◌==◌, if◌then◌else◌, any, is_nil, ℕ, Bool, false, not, ◌&&◌, ◌||◌, List, [], ◌∷◌,
}
use openclaw_ecc_orchestrato.Prelude.Codes.{Text, slash}

-- The parts of the regular expression that `_glob_to_regex` joins, each with what it stands for.
pub data Piece : Type 0 where
  deep any_run star one : Piece
  lit : ℕ → Piece

abbrev pub is_star : ℕ → Bool
is_star c = c == 42

abbrev pub single : ℕ → Piece
single c = if is_star c then star else if c == 63 then one else lit c

-- The loop of `_glob_to_regex`.
unfoldable pub compile : Text → List Piece
compile [] = []
compile (c ∷ []) = single c ∷ []
compile (c ∷ d ∷ []) =
    let rest = compile (d ∷ []) in if is_star c && is_star d then any_run ∷ [] else single c ∷ rest
compile (c ∷ d ∷ e ∷ s) =
    let below = compile s in
    let after = compile (e ∷ s) in
    let rest = compile (d ∷ e ∷ s) in
    if is_star c && is_star d
    then (if e == slash then deep ∷ below else any_run ∷ after)
    else single c ∷ rest

-- `[^/]`
abbrev pub not_slash : ℕ → Bool
not_slash c = not (c == slash)

-- `.`
abbrev pub not_line_feed : ℕ → Bool
not_line_feed c = not (c == 10)

-- A run of characters that pass, and then `next`.
abbrev pub scan : (ℕ → Bool) → (Text → Bool) → Text → Bool
scan pass next [] = next []
scan pass next (c ∷ s) = next (c ∷ s) || (pass c && scan pass next s)

abbrev pub first : (ℕ → Bool) → (Text → Bool) → Text → Bool
first pass next [] = false
first pass next (c ∷ s) = pass c && next s

-- The match of the whole text.
unfoldable pub match_pieces : List Piece → Text → Bool
match_pieces [] s = is_nil s
match_pieces (lit n ∷ ps) s = first (λ c. c == n) (match_pieces ps) s
match_pieces (one ∷ ps) s = first not_slash (match_pieces ps) s
match_pieces (star ∷ ps) s = scan not_slash (match_pieces ps) s
match_pieces (any_run ∷ ps) s = scan not_line_feed (match_pieces ps) s
match_pieces (deep ∷ ps) s =
    match_pieces ps s || scan not_line_feed (first (λ c. c == slash) (match_pieces ps)) s

-- `path.replace("\\", "/")`
abbrev pub forward : Text → Text
forward [] = []
forward (c ∷ s) = (if c == 92 then slash else c) ∷ forward s

-- `while norm.startswith("./")`
abbrev pub drop_dots : Text → Text
drop_dots [] = []
drop_dots (c ∷ []) = c ∷ []
drop_dots (c ∷ d ∷ s) =
    let rest = drop_dots s in if (c == 46) && (d == slash) then rest else c ∷ d ∷ s

-- `re.sub(r"/+", "/", norm)`
abbrev pub squeeze : Text → Text
squeeze [] = []
squeeze (c ∷ []) = c ∷ []
squeeze (c ∷ d ∷ s) =
    let rest = squeeze (d ∷ s) in if (c == slash) && (d == slash) then rest else c ∷ rest

-- `normalize`
unfoldable pub normalize : Text → Text
normalize path = squeeze (drop_dots (forward path))

-- `glob_match`
unfoldable pub glob_match : (path pattern : Text) → Bool
unfolding compile match_pieces normalize
glob_match path pattern = match_pieces (compile (normalize pattern)) (normalize path)

-- `is_glob`
abbrev pub is_glob : Text → Bool
is_glob entry = any (λ c. is_star c || (c == 63)) entry
