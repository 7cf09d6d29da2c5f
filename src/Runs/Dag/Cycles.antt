-- ===== src/Runs/Dag/Cycles.antt =====
-- The search for a cycle finds one exactly where there is one, `_find_cycle` of
-- src/openclaw_ecc_orchestrator/runs/dag.py.
use mathlib.Core.Bool.{false≢true}
use openclaw_ecc_orchestrato.Prelude.{
  if◌then◌else◌, Bool-cases, if-elim, length, All, has, sorted, All-sorted, has-sorted, All-has,
  str_eq, either_split, either_left, either_right, ℕ, zero, suc, ◌≤◌, String, ◌≡◌, refl, sym, ap,
  ◌∙◌, subst, ◌≢◌, ◌⊎◌, inl, inr, true, false, Option, none, some, List, [], ◌∷◌, arith, eq_iff,
}
use openclaw_ecc_orchestrato.Runs.Dag.{
  Table, ids_of, Color, white, grey, black, Search, Visited, clear, found, no_fuel, enter, popped,
  finish_visit, go_on, visit_deps, deps_of, after_deps, visit, all_white, visit_root, visit_all,
  find_cycle,
}
use openclaw_ecc_orchestrato.Runs.Dag.Walks.{Needs, Cyclic, Climbs}
use openclaw_ecc_orchestrato.Runs.Dag.Searching.{
  WellFounded, founded, whites, whites_grey, whites_black, Colored, Inv, Kept, Settled, Ends,
  Visits, Kept-refl, visit_deps-Ends,
}
use openclaw_ecc_orchestrato.Prelude.Dict.{Dict, get, put, get-put_self, get-put_ne}

pub All-at :
    (P : String → Type 0) (d : String) (xs : List String) → All P xs → has d xs ≡ true → P d
All-at P d [] h there = absurd (false≢true there)
All-at P d (x ∷ xs) h there = elim (either_split _ _ there) [
  | inl same ↦ subst P ((eq_iff x d).0 same) h.0
  | inr later ↦ All-at P d xs h.1 later
]

-- What a written color says of a unit: it is the one written, or another whose color was there.
put-cases :
    {P : Type 0} (node d : String) (c : Color) (m : Dict Color) (o : Option Color)
    → get d (put node c m) ≡ o
    → (node ≡ d → some c ≡ o → P)
    → (str_eq node d ≡ false → get d m ≡ o → P)
    → P
put-cases node d c m o h same other_one = elim (Bool-cases (str_eq node d)) [
  | inl is ↦
      let e = (eq_iff node d).0 is in
      same e (sym (get-put_self node c m) ∙ ap (λ k. get k (put node c m)) e ∙ h)
  | inr differs ↦ other_one differs (sym (get-put_ne node d c m differs) ∙ h)
]

enter-Inv : (table : Table) (node : String) (s : Search) → Inv table s → Inv table (enter node s)
enter-Inv table node s inv = record {
  grey_on = λ d h.
      put-cases node d grey s.color (some grey) h (λ e _. either_left _ ((eq_iff node d).1 e))
        (λ _ before. either_right _ (inv.grey_on d before));
  black_founded = λ d h.
      put-cases node d grey s.color (some black) h (λ _ e. cc)
        (λ _ before. inv.black_founded d before);
  colored_all = λ d h.
      put-cases node d grey s.color none h (λ _ e. cc) (λ _ before. inv.colored_all d before);
}

module _ (table : Table) (node : String) (s : Search) (is_white : Colored s node white) where
  differs_of :
      (d : String) (c : Color) → Colored s d c → (some white ≢ some c) → str_eq node d ≡ false
  differs_of d c h unlike = elim (Bool-cases (str_eq node d)) [
    | inr differs ↦ differs
    | inl is ↦ absurd (unlike (sym is_white ∙ ap (λ k. get k s.color) ((eq_iff node d).0 is) ∙ h))
  ]

  deps-founded :
      (m : Search)
      → Inv table m
      → All (Settled table m) (sorted (deps_of table node))
      → WellFounded table node
  deps-founded m inv settled = founded (λ d needs known.
      elim (All-at (Settled table m) d _ settled (has-sorted d (deps_of table node) ∙ needs)) [
        | inl unknown ↦ absurd (false≢true (sym unknown ∙ known))
        | inr is_black ↦ inv.black_founded d is_black
      ])

  finish_visit-Inv :
      (m : Search)
      → Kept table (enter node s) m
      → All (Settled table m) (sorted (deps_of table node))
      → Inv table (finish_visit node m)
  finish_visit-Inv m kept settled =
      let inv = kept.inv in
      record {
        grey_on = λ d h.
            put-cases node d black m.color (some grey) h (λ _ e. cc)
              (λ differs before.
                let on_stack : has d (node ∷ s.stack) ≡ true =
                  subst (λ l. has d l ≡ true) kept.same_stack (inv.grey_on d before) in
                subst (λ l. has d l ≡ true) (sym (ap popped kept.same_stack))
                  (ground (arith, on_stack, differs)));
        black_founded = λ d h.
            put-cases node d black m.color (some black) h
              (λ e _. subst (WellFounded table) e (deps-founded m inv settled))
              (λ _ before. inv.black_founded d before);
        colored_all = λ d h.
            put-cases node d black m.color none h (λ _ e. cc)
              (λ _ before. inv.colored_all d before);
      }

  finish_visit-Kept :
      (m : Search)
      → Kept table (enter node s) m
      → All (Settled table m) (sorted (deps_of table node))
      → Kept table s (finish_visit node m)
  finish_visit-Kept m kept settled = record {
    same_stack = ap popped kept.same_stack;
    fewer = omega (arith, whites_black node m.color, kept.fewer, whites_grey node s.color is_white);
    black_stays = λ d h.
        let differs = differs_of d black h (λ e. cc) in
        get-put_ne node d black m.color differs
        ∙ kept.black_stays d (get-put_ne node d grey s.color differs ∙ h);
    inv = finish_visit-Inv m kept settled;
  }

  after_deps-Ends :
      (r : Visited × Search)
      → Ends table (λ m. All (Settled table m) (sorted (deps_of table node))) (enter node s) r
      → Ends table (λ s'. Colored s' node black) s (after_deps node r)
  after_deps-Ends (clear, m) h = (finish_visit-Kept m h.0 h.1, get-put_self node black m.color)
  after_deps-Ends (found c, m) h = h
  after_deps-Ends (no_fuel, m) h = h

visit-Visits : (table : Table) (fuel : ℕ) → Visits table fuel (visit fuel table)
unfolding visit
visit-Visits table zero node s is_white climbs enough inv =
    absurd (omega (arith, whites_grey node s.color is_white, enough))
visit-Visits table (suc fuel) node s is_white climbs enough inv =
    after_deps-Ends table node s is_white
      (visit_deps (visit fuel table) (sorted (deps_of table node)) (enter node s))
      (visit_deps-Ends table fuel (visit fuel table) (visit-Visits table fuel) node s.stack
        (sorted (deps_of table node)) (enter node s) refl climbs
        (All-sorted (Needs table node) (deps_of table node) (All-has (deps_of table node)))
        (omega (arith, whites_grey node s.color is_white, enough)) (enter-Inv table node s inv))

-- A unit is well founded, or not of the plan.
abbrev pub Sound : Table → String → Type 0
Sound table i = (has i (ids_of table) ≡ false) ⊎ WellFounded table i

abbrev pub Decides : Table → List String → Visited → Type 0
Decides table is clear = All (Sound table) is
Decides table is (found c) = Cyclic table c
Decides table is no_fuel = ⊥

module _ (table : Table) where
  Decides-cons :
      (i : String) (is : List String) (v : Visited)
      → Sound table i
      → Decides table is v
      → Decides table (i ∷ is) v
  Decides-cons i is clear h k = (h, k)
  Decides-cons i is (found c) h k = k
  Decides-cons i is no_fuel h k = k

  go_on-Decides :
      (i : String) (is : List String) (rest : Search → Visited) (s : Search) (r : Visited × Search)
      → Ends table (λ m. Colored m i black) s r
      → ((m : Search) → Kept table s m → Decides table is (rest m))
      → Decides table (i ∷ is) (go_on rest (λ v m. v) r)
  go_on-Decides i is rest s (clear, m) h next =
      Decides-cons i is (rest m) (inr (h.0.inv.black_founded i h.1)) (next m h.0)
  go_on-Decides i is rest s (found c, m) h next = h
  go_on-Decides i is rest s (no_fuel, m) h next = h

  visit_root-Decides :
      (fuel : ℕ) (i : String) (is : List String) (rest : Search → Visited) (s : Search)
      (c : Option Color)
      → get i s.color ≡ c
      → s.stack ≡ []
      → whites s.color ≤ fuel
      → Inv table s
      → ((m : Search) → Kept table s m → Decides table is (rest m))
      → Decides table (i ∷ is) (visit_root (visit fuel table) rest s i c)
  visit_root-Decides fuel i is rest s (some white) color bottom enough inv next =
      go_on-Decides i is rest s (visit fuel table i s)
        (visit-Visits table fuel i s color (subst (λ l. Climbs table (i ∷ l)) (sym bottom) tt)
          enough inv)
        next
  visit_root-Decides fuel i is rest s (some grey) color bottom enough inv next =
      absurd (false≢true (subst (λ l. has i l ≡ true) bottom (inv.grey_on i color)))
  visit_root-Decides fuel i is rest s (some black) color bottom enough inv next =
      Decides-cons i is (rest s) (inr (inv.black_founded i color)) (next s (Kept-refl table s inv))
  visit_root-Decides fuel i is rest s none color bottom enough inv next =
      Decides-cons i is (rest s) (inl (inv.colored_all i color)) (next s (Kept-refl table s inv))

  visit_all-Decides :
      (fuel : ℕ) (is : List String) (s : Search)
      → s.stack ≡ []
      → whites s.color ≤ fuel
      → Inv table s
      → Decides table is (visit_all (visit fuel table) is s)
  unfolding visit_all
  visit_all-Decides fuel [] s bottom enough inv = tt
  visit_all-Decides fuel (i ∷ is) s bottom enough inv =
      visit_root-Decides fuel i is (visit_all (visit fuel table) is) s (get i s.color) refl bottom
        enough inv
        (λ m kept.
          visit_all-Decides fuel is m (kept.same_stack ∙ bottom) (omega (arith, enough, kept.fewer))
            kept.inv)

all_white-whites : (is : List String) → whites (all_white is) ≡ length is
all_white-whites [] = refl
all_white-whites (i ∷ is) = omega (arith, all_white-whites is)

all_white-get :
    (is : List String) (d : String) → get d (all_white is) ≡ (if has d is then some white else none)
unfolding get
all_white-get [] d = refl
all_white-get (i ∷ is) d = ground (arith, all_white-get is d)

all_white-Inv :
    (table : Table) → Inv table (record { color = all_white (ids_of table); stack = [] })
all_white-Inv table = record {
  grey_on = λ d h.
      if-elim (λ (o : Option Color). o ≡ some grey → has d [] ≡ true) (has d (ids_of table))
        (some white) none (λ _ e. cc) (λ _ e. cc) (sym (all_white-get (ids_of table) d) ∙ h);
  black_founded = λ d h.
      if-elim (λ (o : Option Color). o ≡ some black → WellFounded table d) (has d (ids_of table))
        (some white) none (λ _ e. cc) (λ _ e. cc) (sym (all_white-get (ids_of table) d) ∙ h);
  colored_all = λ d h.
      if-elim (λ (o : Option Color). o ≡ none → has d (ids_of table) ≡ false) (has d (ids_of table))
        (some white) none (λ _ e. cc) (λ unknown _. unknown)
        (sym (all_white-get (ids_of table) d) ∙ h);
}

-- The search ends within its fuel. Where it reports a cycle, that is a walk along the dependencies from a unit
-- back to the unit, and where it reports none, each unit of the plan is well founded.
pub find_cycle-Decides : (table : Table) → Decides table (sorted (ids_of table)) (find_cycle table)
unfolding find_cycle
find_cycle-Decides table =
    let ids = ids_of table in
    visit_all-Decides table (suc (length ids)) (sorted ids)
      (record { color = all_white ids; stack = [] }) refl (omega (arith, all_white-whites ids))
      (all_white-Inv table)
