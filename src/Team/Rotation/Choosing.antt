-- ===== src/Team/Rotation/Choosing.antt =====
-- Who is chosen, and who is next, src/openclaw_ecc_orchestrator/team/rotation.py.
use mathlib.Core.Bool.{false≢true}
use native.Mathlib.Nat.{mod-eq_of_lt}
use openclaw_ecc_orchestrato.Prelude.{
  leb→le, ◌≤◌, ◌*◌, ◌||◌, opt_eq, opt_eq→eq, leb, ◌==◌, if◌then◌else◌, or_else, if-elim, length,
  keep, is_nil, All, All-append, has, All-has, str_eq, ℕ, zero, suc, ◌+◌, ◌%◌, ◌<◌, String, ◌≡◌,
  refl, sym, ap, ◌∙◌, subst, ◌⊎◌, inl, inr, Bool, true, false, not, ◌&&◌, Option, none, some, List,
  [], ◌∷◌, ◌++◌, map, arith, eq_iff,
}
use openclaw_ecc_orchestrato.Prelude.Dict.{Dict, get, get-put_self}
use openclaw_ecc_orchestrato.Team.Rotation.{
  Player, RotationState, Skip, independence, wrong_kind, pack_too_large, over_cost, Filters,
  by_runner, drop_list, take_list, rotated, start_of, kind_ok, pack_ok, cost_ok, judged, players,
  eligible_of, distinct_names, turns_of, sum_turns, under_cap, runners_of, shared, index_of,
  first_player, choose_player,
}

-- What the filters ask for, one by one.
abbrev pub RightKind : Filters → String → Type 0
RightKind f name =
    (f.require_kind ≡ none)
    ⊎ ((kind : String) × (f.require_kind ≡ some kind) × (get name f.kinds ≡ some kind))

abbrev pub SmallPack : Filters → String → Type 0
SmallPack f name =
    (f.max_pack ≡ none)
    ⊎ ((limits : Dict ℕ) × (f.max_pack ≡ some limits)
        × ((limits ≡ []) ⊎ f.pack_tokens ≤ or_else (get name limits) 1000000000))

abbrev pub CheapEnough : Filters → Player → Type 0
CheapEnough f c =
    (f.cost_cap ≡ none)
    ⊎ ((c.dollars ≡ none)
        ⊎ ((cap : ℕ) × (cost : ℕ) × (f.cost_cap ≡ some cap) × (c.dollars ≡ some cost) × cost ≤ cap))

kind-RightKind :
    (name : String) (kinds : Dict String) (o : Option String)
    → elim o [ none ↦ true | some k ↦ opt_eq (get name kinds) (some k) ] ≡ true
    → (o ≡ none) ⊎ ((kind : String) × (o ≡ some kind) × (get name kinds ≡ some kind))
kind-RightKind name kinds none h = inl refl
kind-RightKind name kinds (some k) h = inr (k, refl, opt_eq→eq (get name kinds) (some k) h)

pack-SmallPack :
    (tokens : ℕ) (name : String) (o : Option (Dict ℕ))
    → elim o [
      | none ↦ true
      | some limits ↦ is_nil limits || leb tokens (or_else (get name limits) 1000000000)
    ]
      ≡ true
    → (o ≡ none)
      ⊎ ((limits : Dict ℕ) × (o ≡ some limits)
          × ((limits ≡ []) ⊎ tokens ≤ or_else (get name limits) 1000000000))
pack-SmallPack tokens name none h = inl refl
pack-SmallPack tokens name (some []) h = inr ([], refl, inl refl)
pack-SmallPack tokens name (some (l ∷ ls)) h = inr (l ∷ ls, refl, inr (leb→le _ _ h))

cost-CheapEnough :
    (o p : Option ℕ)
    → elim o [ none ↦ true | some cap ↦ elim p [ none ↦ true | some cost ↦ leb cost cap ] ] ≡ true
    → (o ≡ none)
      ⊎ ((p ≡ none) ⊎ ((cap : ℕ) × (cost : ℕ) × (o ≡ some cap) × (p ≡ some cost) × cost ≤ cap))
cost-CheapEnough none p h = inl refl
cost-CheapEnough (some cap) none h = inr (inl refl)
cost-CheapEnough (some cap) (some cost) h = inr (inr (cap, cost, refl, refl, leb→le _ _ h))

-- The candidate is of the panel and passes every filter but the share cap.
abbrev pub Fit : List String → List Player → Filters → Player → Type 0
Fit panel candidates f c =
    (name : String) × (has name panel ≡ true)
    × (by_runner name candidates ≡ some c)
    × (has name f.exclude ≡ false)
    × RightKind f name
    × SmallPack f name
    × CheapEnough f c

abbrev player_or : Player → Player ⊎ Skip → Player
player_or c (inl d) = d
player_or c (inr why) = c

skip_if-elim :
    {P : Type 0} (b : Bool) (why : Skip) (rest : Player ⊎ Skip) (c : Player)
    → (if b then inr why else rest) ≡ inl c
    → (b ≡ false → rest ≡ inl c → P)
    → P
skip_if-elim true why rest c h k = cc
skip_if-elim false why rest c h k = k refl h

judged-Fit :
    (f : Filters) (panel : List String) (candidates : List Player) (name : String) (c : Player)
    → has name panel ≡ true
    → (o : Option Player) → by_runner name candidates ≡ o
    → judged f name o ≡ inl c
    → Fit panel candidates f c
judged-Fit f panel candidates name c member none from h = cc
judged-Fit f panel candidates name c member (some d) from h =
    let costs : Player ⊎ Skip = if not (cost_ok f d) then inr over_cost else inl d in
    let packs : Player ⊎ Skip = if not (pack_ok f name) then inr pack_too_large else costs in
    let kinds : Player ⊎ Skip = if not (kind_ok f name) then inr wrong_kind else packs in
    skip_if-elim (has name f.exclude) independence kinds c h (λ fresh h1.
      skip_if-elim (not (kind_ok f name)) wrong_kind packs c h1 (λ kind h2.
        skip_if-elim (not (pack_ok f name)) pack_too_large costs c h2 (λ pack h3.
          skip_if-elim (not (cost_ok f d)) over_cost (inl d) c h3 (λ cost h4.
            let same : d ≡ c = ap (player_or d) h4 in
            (
              name,
              member,
              from ∙ ap some same,
              fresh,
              kind-RightKind name f.kinds f.require_kind (ground (arith, kind)),
              pack-SmallPack f.pack_tokens name f.max_pack (ground (arith, pack)),
              subst (CheapEnough f) same
                  (cost-CheapEnough f.cost_cap d.dollars (ground (arith, cost))),
            )))))

All-players :
    (P : Player → Type 0) (js : List (Player ⊎ Skip))
    → All (λ j. (c : Player) → j ≡ inl c → P c) js
    → All P (players js)
All-players P [] h = tt
All-players P (inl c ∷ js) h = (h.0 c refl, All-players P js h.1)
All-players P (inr why ∷ js) h = All-players P js h.1

eligible_of-Fit :
    (f : Filters) (panel : List String) (candidates : List Player) (order : List String)
    → All (λ name. has name panel ≡ true) order
    → All
        (λ j. (c : Player) → j ≡ inl c → Fit panel candidates f c)
        (map (λ name. judged f name (by_runner name candidates)) order)
eligible_of-Fit f panel candidates [] h = tt
eligible_of-Fit f panel candidates (name ∷ order) h = (
  λ c e. judged-Fit f panel candidates name c h.0 (by_runner name candidates) refl e,
  eligible_of-Fit f panel candidates order h.1,
)

module _ {ℓ} {A : Type ℓ} (P : A → Type 0) where
  All-drop_list : (n : ℕ) (xs : List A) → All P xs → All P (drop_list n xs)
  All-drop_list zero xs h = h
  All-drop_list (suc n) [] h = tt
  All-drop_list (suc n) (x ∷ xs) h = All-drop_list n xs h.1

  All-take_list : (n : ℕ) (xs : List A) → All P xs → All P (take_list n xs)
  All-take_list zero xs h = tt
  All-take_list (suc n) [] h = tt
  All-take_list (suc n) (x ∷ xs) h = (h.0, All-take_list n xs h.1)

  All-kept : (p : A → Bool) (xs : List A) → All P xs → All P (keep p xs)
  All-kept p [] h = tt
  All-kept p (x ∷ xs) h =
      if-elim (All P) (p x) (x ∷ keep p xs) (keep p xs) (λ _. (h.0, All-kept p xs h.1))
        (λ _. All-kept p xs h.1)

All-shared :
    (P : Player → Type 0) (f : Filters) (counts : Dict ℕ) (cs : List Player) (cap : Option (ℕ × ℕ))
    → f.share_cap ≡ cap
    → All P cs
    → All P (shared f counts cs)
unfolding shared
All-shared P f counts cs none e h = rw e h
All-shared P f counts cs (some cap) e h = rw e (
    if-elim (All P)
      (not (cap.0 == 0)
        && (leb 3 (distinct_names (runners_of cs))
            && not (is_nil (keep (under_cap counts cap) cs))))
      (keep (under_cap counts cap) cs) cs (λ _. All-kept P (under_cap counts cap) cs h) (λ _. h))

first_player-All :
    (P : Player → Type 0) (role : String) (panel : List String) (s : RotationState)
    (cs : List Player) (c : Player)
    → All P cs
    → (first_player role panel s cs).0 ≡ some c
    → P c
first_player-All P role panel s [] c h e = cc
first_player-All P role panel s (d ∷ cs) c h e = subst P (ap (λ o. or_else o d) e) h.0

-- A provider that is chosen is of the panel, a candidate of `select_runner`, not excluded, of the kind asked for,
-- and, where its limits and its cost are known, within the limits of the pack and of the cost.
pub choose_player-Fit :
    (role : String) (panel : List String) (candidates : List Player) (f : Filters)
    (s : RotationState) (c : Player)
    → (choose_player role panel candidates f s).0 ≡ some c
    → Fit panel candidates f c
unfolding choose_player eligible_of
choose_player-Fit role panel candidates f s c h =
    let start = start_of role panel s in
    let order = rotated start panel in
    let members = All-has panel in
    let judgements = map (λ name. judged f name (by_runner name candidates)) order in
    first_player-All (Fit panel candidates f) role panel s
      (shared f (turns_of role s) (players judgements)) c
      (All-shared (Fit panel candidates f) f (turns_of role s) (players judgements) f.share_cap refl
        (All-players (Fit panel candidates f) judgements (
          eligible_of-Fit f panel candidates order (
            All-append _ (drop_list start panel) (take_list start panel)
              (All-drop_list _ start panel members) (All-take_list _ start panel members)))))
      h

index_of-at :
    (name : String) (rest : List String) (k : ℕ) (panel : List String)
    → drop_list k panel ≡ name ∷ rest
    → has name (take_list k panel) ≡ false
    → index_of name panel ≡ k
index_of-at name rest zero [] e fresh = cc
index_of-at name rest (suc k) [] e fresh = cc
index_of-at name rest zero (p ∷ panel) e fresh =
    let same : p ≡ name = cc in
    if-elim (λ (n : ℕ). n ≡ 0) (str_eq p name) 0 (1 + index_of name panel) (λ _. refl)
      (λ differs. absurd (false≢true (sym differs ∙ (eq_iff p name).1 same)))
index_of-at name rest (suc k) (p ∷ panel) e fresh =
    ground (arith, fresh, index_of-at name rest k panel e)

-- The share of the provider's turns, this one counted, is not above the cap.
abbrev pub InShare : Dict ℕ → Filters → Player → Type 0
InShare counts f c =
    (f.share_cap ≡ none)
    ⊎ ((over : ℕ) × (below : ℕ) × (f.share_cap ≡ some (over, below))
        × (or_else (get c.runner counts) 0 + 1) * below ≤ over * (sum_turns counts + 1))

-- A provider within the cap that is in front stays there.
shared-front :
    (f : Filters) (counts : Dict ℕ) (c : Player) (cs : List Player)
    → InShare counts f c
    → (rest : List Player) × (shared f counts (c ∷ cs) ≡ c ∷ rest)
unfolding shared
shared-front f counts c cs (inl e) = (cs, rw e refl)
shared-front f counts c cs (inr (over, below, e, fits)) =
    let under = keep (under_cap counts (over, below)) (c ∷ cs) in
    let stays : under ≡ c ∷ keep (under_cap counts (over, below)) cs =
      if-elim (λ l. l ≡ c ∷ keep (under_cap counts (over, below)) cs)
        (under_cap counts (over, below) c) (c ∷ keep (under_cap counts (over, below)) cs)
        (keep (under_cap counts (over, below)) cs) (λ _. refl)
        (λ out. absurd (ground (arith, out, fits))) in
    rw e (
      if-elim (λ l. (rest : List Player) × (l ≡ c ∷ rest))
        (not (over == 0) && (leb 3 (distinct_names (runners_of (c ∷ cs))) && not (is_nil under)))
        under (c ∷ cs) (λ _. (_, stays)) (λ _. (cs, refl)))

start_of-cursor :
    (role : String) (panel : List String) (s : RotationState) (k : ℕ)
    → get role s.cursors ≡ some k
    → k < length panel
    → start_of role panel s ≡ k
unfolding start_of
start_of-cursor role [] s k cursor inside = absurd (omega (arith, inside))
start_of-cursor role (p ∷ panel) s k cursor inside =
    ap (λ o. or_else o 0 % length (p ∷ panel)) cursor ∙ mod-eq_of_lt inside

eligible_of-first :
    (f : Filters) (candidates : List Player) (name : String) (order : List String) (c : Player)
    → judged f name (by_runner name candidates) ≡ inl c
    → eligible_of f candidates (name ∷ order)
      ≡ c ∷ players (map (λ n. judged f n (by_runner n candidates)) order)
unfolding eligible_of
eligible_of-first f candidates name order c passes =
    ap (λ j. players (j ∷ map (λ n. judged f n (by_runner n candidates)) order)) passes

-- A provider at the cursor that passes the filters, and whose share of the turns is within the share cap where
-- there is one, has its turn, and the cursor goes on to the next of the panel, and from the last to the first.
pub choose_player-turn :
    (role : String) (panel : List String) (candidates : List Player) (f : Filters)
    (s : RotationState) (k : ℕ) (name : String) (rest : List String) (c : Player)
    → InShare (turns_of role s) f c
    → get role s.cursors ≡ some k
    → k < length panel
    → drop_list k panel ≡ name ∷ rest
    → has name (take_list k panel) ≡ false
    → c.runner ≡ name
    → judged f name (by_runner name candidates) ≡ inl c
    → ((choose_player role panel candidates f s).0 ≡ some c)
      × (get role (choose_player role panel candidates f s).1.cursors
          ≡ some ((k + 1) % length panel))
unfolding choose_player
choose_player-turn role panel candidates f s k name rest c in_share cursor inside at fresh same
      passes =
    let eligible = eligible_of f candidates (rotated (start_of role panel s) panel) in
    let others =
      players (map (λ n. judged f n (by_runner n candidates)) (rest ++ take_list k panel)) in
    let first_up : eligible ≡ c ∷ others =
      ap (λ n. eligible_of f candidates (rotated n panel))
        (start_of-cursor role panel s k cursor inside)
      ∙ ap (λ l. eligible_of f candidates (l ++ take_list k panel)) at
      ∙ eligible_of-first f candidates name (rest ++ take_list k panel) c passes in
    let (left, front) = shared-front f (turns_of role s) c others in_share in
    let e = ap (shared f (turns_of role s)) first_up ∙ front in
    let Goal : List Player → Type 0 = λ l.
      ((first_player role panel s l).0 ≡ some c)
      × (get role (first_player role panel s l).1.cursors ≡ some ((k + 1) % length panel)) in
    let index = ap (λ r. index_of r panel) same ∙ index_of-at name rest k panel at fresh in
    subst Goal (sym e) (
      refl,
      get-put_self role ((index_of c.runner panel + 1) % length panel) s.cursors
          ∙ ap (λ n. some ((n + 1) % length panel)) index,
    )
