-- ===== src/Tasks/Scope/Covers.antt =====
-- The safety of a path and the coverage of a scope, src/openclaw_ecc_orchestrator/tasks/scope.py. The
-- compatibility form of Unicode and the decoding of percent escapes are the library's, and arguments.
use openclaw_ecc_orchestrato.Prelude.{
  ltb, leb, ◌==◌, if◌then◌else◌, length, all, any, keep, is_nil, ℕ, Bool, false, not, ◌&&◌, ◌||◌,
  List, [], ◌∷◌, ◌++◌,
}
use openclaw_ecc_orchestrato.Prelude.Codes.{Text, slash, has_char, text_eq, starts_with, rstrip}
use openclaw_ecc_orchestrato.Tasks.Scope.{forward, normalize, glob_match, is_glob}

pub record Decoding : Type 0 where
  pub nfkc : Text → Text
  pub unquote : Text → Text

abbrev pub is_letter : ℕ → Bool
is_letter c = (leb 65 c && leb c 90) || (leb 97 c && leb c 122)

-- `norm.startswith("/") or _DRIVE_RE.match(norm)`
unfoldable pub is_absolute : Text → Bool
is_absolute [] = false
is_absolute (c ∷ []) = c == slash
is_absolute (c ∷ d ∷ s) = (c == slash) || (is_letter c && (d == 58))

abbrev pub is_home : Text → Bool
is_home s = starts_with s (126 ∷ [])

-- `norm.split("/")`
abbrev pub split_path : Text → List Text
split_path [] = [] ∷ []
split_path (c ∷ s) =
    let rest = split_path s in
    if c == slash
    then [] ∷ rest
    else elim rest [ [] ↦ (c ∷ []) ∷ [] | seg ∷ segs ↦ (c ∷ seg) ∷ segs ]

-- `any(seg == ".." for seg in norm.split("/"))`
unfoldable pub climbs : Text → Bool
climbs norm = any (λ seg. text_eq seg (46 ∷ 46 ∷ [])) (split_path norm)

-- What the loop over `candidates` refuses.
unfoldable pub is_hostile : Text → Bool
unfolding is_absolute climbs
is_hostile s =
    let norm = forward s in is_absolute norm || (is_home norm || (climbs norm || has_char 0 s))

abbrev pub is_control : ℕ → Bool
is_control c = ltb c 32 || (c == 127)

abbrev pub candidates : Decoding → Text → List Text
candidates d path =
    let a = d.unquote path in
    let b = d.unquote a in
    let c = d.unquote b in path ∷ d.nfkc path ∷ a ∷ d.nfkc a ∷ b ∷ d.nfkc b ∷ c ∷ d.nfkc c ∷ []

abbrev pub is_whitespace : ℕ → Bool
is_whitespace n =
    (leb 9 n && leb n 13)
    || ((leb 28 n && leb n 32)
        || ((n == 133)
            || ((n == 160)
                || ((n == 5760)
                    || ((leb 8192 n && leb n 8202)
                        || ((n == 8232)
                            || ((n == 8233) || ((n == 8239) || ((n == 8287) || (n == 12288))))))))))

-- `unsafe_path_reason(path) is None`
unfoldable pub is_safe : Decoding → Text → Bool
unfolding is_hostile
is_safe d path =
    not (all is_whitespace path)
    && (leb (length path) 1024
        && (not (any is_control path) && not (any is_hostile (candidates d path))))

-- `path_in_scope`
unfoldable pub path_in_scope : Decoding → Text → List Text → Bool
unfolding is_safe glob_match
path_in_scope d path scope = is_safe d path && any (glob_match path) scope

-- The entry is a literal, and names a directory above the path.
unfoldable pub beneath : (norm entry : Text) → Bool
unfolding normalize
beneath norm entry =
    let base = rstrip slash (normalize entry) in
    not (is_glob entry) && (not (is_nil base) && starts_with norm (base ++ slash ∷ []))

abbrev pub covered_by : (norm entry : Text) → Bool
covered_by norm entry = glob_match norm entry || beneath norm entry

-- `scope_contains`
unfoldable pub scope_contains : Decoding → Text → List Text → Bool
unfolding is_safe beneath
scope_contains d path scope =
    is_safe d path && (is_nil scope || any (covered_by (normalize path)) scope)

-- `out_of_scope`
unfoldable pub out_of_scope : Decoding → List Text → List Text → List Text
unfolding scope_contains
out_of_scope d paths scope = keep (λ p. not (scope_contains d p scope)) paths
