-- ===== src/Routing/Classify/Tokens.antt =====
-- The words of a path, src/openclaw_ecc_orchestrator/routing/classify.py. `lower` is `str.lower`.
use openclaw_ecc_orchestrato.Prelude.{
  ltb, leb, ◌==◌, if◌then◌else◌, length, any, is_nil, ℕ, String, Bool, true, false, not, ◌&&◌, ◌||◌,
  List, [], ◌∷◌, ◌++◌, map,
}
use openclaw_ecc_orchestrato.Prelude.Codes.{Text, codes, slash, text_eq, starts_with}
use openclaw_ecc_orchestrato.Tasks.Scope.Covers.{is_whitespace}

-- `[/_.\-\s]` and `[0-9]`
abbrev pub parts_path : ℕ → Bool
parts_path c =
    (c == slash)
    || ((c == 95) || ((c == 46) || ((c == 45) || (is_whitespace c || (leb 48 c && leb c 57)))))

-- The segments that `re.split` leaves, the empty ones too.
unfoldable pub segments : Text → List Text
segments [] = [] ∷ []
segments (c ∷ s) =
    let rest = segments s in
    if parts_path c
    then [] ∷ rest
    else elim rest [ [] ↦ (c ∷ []) ∷ [] | seg ∷ segs ↦ (c ∷ seg) ∷ segs ]

abbrev pub is_upper : ℕ → Bool
is_upper c = leb 65 c && leb c 90

abbrev pub is_lower : ℕ → Bool
is_lower c = leb 97 c && leb c 122

-- What `_CAMEL_RE` is in the middle of: nothing, a run of capitals but the last and the last, or a word.
-- The texts are reversed.
pub data Reading : Type 0 where
  outside : Reading
  capitals : (before : Text) (last : ℕ) → Reading
  word : Text → Reading

abbrev pub rev : Text → Text → Text
rev [] acc = acc
rev (c ∷ s) acc = rev s (c ∷ acc)

-- The token that ends where the reading does.
abbrev pub pending_token : Reading → List Text
pending_token outside = []
pending_token (capitals before last) = rev (last ∷ before) [] ∷ []
pending_token (word w) = rev w [] ∷ []

-- The tokens that a character ends, and the reading after it.
abbrev pub on_upper : ℕ → Reading → List Text × Reading
on_upper c outside = ([], capitals [] c)
on_upper c (capitals before last) = ([], capitals (last ∷ before) c)
on_upper c (word w) = (rev w [] ∷ [], capitals [] c)

abbrev pub on_lower : ℕ → Reading → List Text × Reading
on_lower c outside = ([], word (c ∷ []))
on_lower c (capitals [] last) = ([], word (c ∷ last ∷ []))
on_lower c (capitals (b ∷ before) last) = (rev (b ∷ before) [] ∷ [], word (c ∷ last ∷ []))
on_lower c (word w) = ([], word (c ∷ w))

abbrev pub on_char : ℕ → Reading → List Text × Reading
on_char c r =
    if is_upper c
    then on_upper c r
    else if is_lower c
    then on_lower c r
    else (pending_token r, outside)

-- `_CAMEL_RE.findall`
unfoldable pub camel_parts : Reading → Text → List Text
camel_parts r [] = pending_token r
camel_parts r (c ∷ s) = (on_char c r).0 ++ camel_parts (on_char c r).1 s

module _ (lower : Text → Text) where
  abbrev pub tokens_of : Text → List Text
  tokens_of segment =
      let parts = camel_parts outside segment in
      lower segment ∷ (if ltb 1 (length parts) then map lower parts else [])

  abbrev pub all_tokens : List Text → List Text
  all_tokens [] = []
  all_tokens (seg ∷ segs) =
      let rest = all_tokens segs in if is_nil seg then rest else tokens_of seg ++ rest

  -- `_tokens`
  unfoldable pub tokens : Text → List Text
  unfolding segments camel_parts
  tokens path = all_tokens (segments path)

-- The signals that words of a path raise.
pub data Topic : Type 0 where
  database security concurrency architecture : Topic

-- `_PATH_KEYWORDS`
abbrev pub exact_words : Topic → List String
exact_words database =
    "migration" ∷ "migrations" ∷ "alembic" ∷ "schema" ∷ "schemas" ∷ "sql" ∷ "db" ∷ "database"
    ∷ "databases" ∷ "ddl" ∷ []
exact_words security =
    "auth" ∷ "authn" ∷ "authz" ∷ "oauth" ∷ "jwt" ∷ "jwk" ∷ "jwks" ∷ "rbac" ∷ "abac" ∷ "acl" ∷ "acls"
    ∷ "iam" ∷ "sso" ∷ "saml" ∷ "mfa" ∷ "otp" ∷ "totp" ∷ "tls" ∷ "ssl" ∷ "login" ∷ "logout"
    ∷ "signin" ∷ "security" ∷ "secure" ∷ "secret" ∷ "secrets" ∷ "credential" ∷ "credentials"
    ∷ "token" ∷ "tokens" ∷ "crypto" ∷ "password" ∷ "passwords" ∷ "passwd" ∷ "session" ∷ "sessions"
    ∷ "permission" ∷ "permissions" ∷ "privilege" ∷ "privileges" ∷ "sandbox" ∷ "keystore" ∷ "apikey"
    ∷ "apikeys" ∷ "cert" ∷ "certs" ∷ "certificate" ∷ "certificates" ∷ []
exact_words concurrency =
    "lock" ∷ "locks" ∷ "locking" ∷ "mutex" ∷ "queue" ∷ "queues" ∷ "pool" ∷ "workers" ∷ "semaphore"
    ∷ []
exact_words architecture =
    "contract" ∷ "contracts" ∷ "interface" ∷ "interfaces" ∷ "protocol" ∷ "protocols" ∷ []

abbrev pub word_starts : Topic → List String
word_starts database = "migrat" ∷ "schema" ∷ []
word_starts security =
    "auth" ∷ "oauth" ∷ "jwt" ∷ "rbac" ∷ "secur" ∷ "crypt" ∷ "credential" ∷ "passw" ∷ "secret"
    ∷ "permission" ∷ "privileg" ∷ "session" ∷ []
word_starts concurrency =
    "concurren" ∷ "thread" ∷ "multiprocess" ∷ "subprocess" ∷ "scheduler" ∷ "async" ∷ "parallel" ∷ []
word_starts architecture = []

abbrev pub word_ends : Topic → List String
word_ends database = "migration" ∷ "migrations" ∷ "schema" ∷ "schemas" ∷ []
word_ends security =
    "auth" ∷ "token" ∷ "tokens" ∷ "secret" ∷ "secrets" ∷ "password" ∷ "passwords" ∷ "credential"
    ∷ "credentials" ∷ "session" ∷ "sessions" ∷ "permission" ∷ "permissions" ∷ []
word_ends _ = []

abbrev pub exclusions : Topic → List String
exclusions security = "author" ∷ "sessional" ∷ "tokeniz" ∷ []
exclusions _ = []

-- `_EXCLUSION_OVERRIDES`
abbrev pub overrides : List String
overrides = "authoriz" ∷ []

abbrev pub begins : Text → List String → Bool
begins token words = any (λ w. starts_with token (codes w)) words

abbrev pub ends : Text → List String → Bool
ends token words = any (λ w. starts_with (rev token []) (rev (codes w) [])) words

-- `_token_hits`
unfoldable pub token_hits : Text → Topic → Bool
token_hits token topic =
    if any (λ w. text_eq token (codes w)) (exact_words topic)
    then true
    else if begins token (exclusions topic) && not (begins token overrides)
    then false
    else begins token (word_starts topic) || ends token (word_ends topic)

-- `_path_signal`
unfoldable pub path_signal : (lower : Text → Text) → Text → Topic → Bool
unfolding tokens token_hits
path_signal lower path topic = any (λ t. token_hits t topic) (tokens lower path)
