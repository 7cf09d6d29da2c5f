-- ===== src/Team/Rotation.antt =====
-- `Rotation` of src/openclaw_ecc_orchestrator/team/rotation.py, on the content of its file. A share cap is a
-- fraction, and the reasons are an enumeration.
pub mod Choosing
pub mod Tests
use openclaw_ecc_orchestrato.Prelude.{
  leb, ◌==◌, if◌then◌else◌, or_else, length, keep, is_nil, has, str_eq, opt_eq, ℕ, zero, suc, ◌+◌,
  ◌*◌, ◌%◌, String, ◌⊎◌, inl, inr, Bool, true, not, ◌&&◌, ◌||◌, Option, none, some, List, [], ◌∷◌,
  ◌++◌, map,
}
use openclaw_ecc_orchestrato.Prelude.Codes.{Text}
use openclaw_ecc_orchestrato.Prelude.Dict.{Dict, get, put}

-- A candidate of `select_runner`; `dollars` is its estimated cost where the source of that is the catalog.
pub record Player : Type 0 where
  pub runner : String
  pub model : Text
  pub dollars : Option ℕ

pub record RotationState : Type 0 where
  pub cursors : Dict ℕ
  pub turns : Dict (Dict ℕ)

pub data Skip : Type 0 where
  not_eligible independence wrong_kind pack_too_large over_cost share_reached : Skip

-- The keyword arguments of `choose`.
pub record Filters : Type 0 where
  pub exclude : List String
  pub pack_tokens : ℕ
  pub max_pack : Option (Dict ℕ)
  pub cost_cap : Option ℕ
  pub share_cap : Option (ℕ × ℕ)
  pub require_kind : Option String
  pub kinds : Dict String

-- `by_runner`, of a candidate that comes twice the later.
abbrev pub by_runner : String → List Player → Option Player
by_runner name [] = none
by_runner name (c ∷ cs) = elim (by_runner name cs) [
  | some later ↦ some later
  | none ↦ if str_eq c.runner name then some c else none
]

abbrev pub drop_list {ℓ} : {A : Type ℓ} → ℕ → List A → List A
drop_list zero xs = xs
drop_list (suc n) [] = []
drop_list (suc n) (x ∷ xs) = drop_list n xs

abbrev pub take_list {ℓ} : {A : Type ℓ} → ℕ → List A → List A
take_list zero xs = []
take_list (suc n) [] = []
take_list (suc n) (x ∷ xs) = x ∷ take_list n xs

-- `panel[start:] + panel[:start]`
abbrev pub rotated : ℕ → List String → List String
rotated start panel = drop_list start panel ++ take_list start panel

-- `start`
unfoldable pub start_of : String → List String → RotationState → ℕ
start_of role panel s = if is_nil panel then 0 else or_else (get role s.cursors) 0 % length panel

abbrev pub kind_ok : Filters → String → Bool
kind_ok f name = elim f.require_kind [ none ↦ true | some k ↦ opt_eq (get name f.kinds) (some k) ]

abbrev pub pack_ok : Filters → String → Bool
pack_ok f name = elim f.max_pack [
  | none ↦ true
  | some limits ↦ is_nil limits || leb f.pack_tokens (or_else (get name limits) 1000000000)
]

abbrev pub cost_ok : Filters → Player → Bool
cost_ok f c = elim f.cost_cap [
  | none ↦ true
  | some cap ↦ elim c.dollars [ none ↦ true | some cost ↦ leb cost cap ]
]

abbrev pub judged : Filters → String → Option Player → Player ⊎ Skip
judged f name none = inr not_eligible
judged f name (some c) =
    if has name f.exclude
    then inr independence
    else if not (kind_ok f name)
    then inr wrong_kind
    else if not (pack_ok f name)
    then inr pack_too_large
    else if not (cost_ok f c)
    then inr over_cost
    else inl c

abbrev pub players : List (Player ⊎ Skip) → List Player
players [] = []
players (inl c ∷ js) = c ∷ players js
players (inr why ∷ js) = players js

-- What the loop over `order` leaves in `eligible`.
unfoldable pub eligible_of : Filters → List Player → List String → List Player
eligible_of f candidates order =
    players (map (λ name. judged f name (by_runner name candidates)) order)

abbrev pub distinct_names : List String → ℕ
distinct_names [] = 0
distinct_names (n ∷ ns) = let rest = distinct_names ns in if has n ns then rest else 1 + rest

abbrev pub sum_turns : Dict ℕ → ℕ
sum_turns [] = 0
sum_turns ((k, n) ∷ m) = n + sum_turns m

abbrev pub turns_of : String → RotationState → Dict ℕ
turns_of role s = or_else (get role s.turns) []

-- `(counts.get(…, 0) + 1) / (total + 1) <= share_cap`
abbrev pub under_cap : Dict ℕ → ℕ × ℕ → Player → Bool
under_cap counts (over, below) c =
    leb ((or_else (get c.runner counts) 0 + 1) * below) (over * (sum_turns counts + 1))

abbrev pub runners_of : List Player → List String
runners_of cs = map (λ (c : Player). c.runner) cs

-- The eligible candidates after the share cap, which counts only from three runners on and where it leaves one.
unfoldable pub shared : Filters → Dict ℕ → List Player → List Player
shared f counts cs = elim f.share_cap [
  | none ↦ cs
  | some cap ↦
      let under = keep (under_cap counts cap) cs in
      if not (cap.0 == 0) && (leb 3 (distinct_names (runners_of cs)) && not (is_nil under))
      then under
      else cs
]

-- `panel.index(…)`
abbrev pub index_of : String → List String → ℕ
index_of name [] = 0
index_of name (n ∷ ns) = let rest = index_of name ns in if str_eq n name then 0 else 1 + rest

abbrev pub noted : String → List String → Player → RotationState → RotationState
noted role panel c s =
    let counts = turns_of role s in
    record {
      cursors = put role ((index_of c.runner panel + 1) % length panel) s.cursors;
      turns = put role (put c.runner (or_else (get c.runner counts) 0 + 1) counts) s.turns;
    }

abbrev pub first_player :
    String → List String → RotationState → List Player → Option Player × RotationState
first_player role panel s [] = (none, s)
first_player role panel s (c ∷ cs) = (some c, noted role panel c s)

-- `choose`
unfoldable pub choose_player :
    (role : String) (panel : List String)
    → List Player
    → Filters
    → RotationState
    → Option Player × RotationState
unfolding start_of eligible_of shared
choose_player role panel candidates f s =
    first_player role panel s (
      shared f (turns_of role s) (eligible_of f candidates (rotated (start_of role panel s) panel)))
