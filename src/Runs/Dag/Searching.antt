-- ===== src/Runs/Dag/Searching.antt =====
-- What the search for a cycle keeps, `_find_cycle` of src/openclaw_ecc_orchestrator/runs/dag.py.
use openclaw_ecc_orchestrato.Prelude.{
  All, has, ℕ, suc, ◌+◌, ◌≤◌, String, ◌≡◌, refl, sym, ◌∙◌, subst, ◌⊎◌, inl, inr, true, false,
  Option, none, some, List, [], ◌∷◌, arith,
}
use openclaw_ecc_orchestrato.Runs.Dag.{
  Table, ids_of, Color, white, grey, black, Search, Visited, clear, found, no_fuel, go_on,
  visit_dep, visit_deps,
}
use openclaw_ecc_orchestrato.Runs.Dag.Walks.{Needs, Cyclic, Climbs, closed_walk-Cyclic}
use openclaw_ecc_orchestrato.Prelude.Dict.{Dict, get, put}

-- A unit all of whose dependencies in the plan are well founded in turn.
pub data WellFounded (table : Table) : String → Type 0 where
  founded :
      {uid : String}
      → ((d : String) → Needs table uid d → has d (ids_of table) ≡ true → WellFounded table d)
      → WellFounded table uid

-- How many units are white.
abbrev pub whites : Dict Color → ℕ
whites [] = 0
whites ((k, white) ∷ m) = 1 + whites m
whites ((k, grey) ∷ m) = whites m
whites ((k, black) ∷ m) = whites m

pub whites_grey :
    (node : String) (m : Dict Color)
    → get node m ≡ some white
    → suc (whites (put node grey m)) ≡ whites m
unfolding get put
whites_grey node [] h = cc
whites_grey node ((k, white) ∷ m) h = ground (arith, h, whites_grey node m)
whites_grey node ((k, grey) ∷ m) h = ground (arith, h, whites_grey node m)
whites_grey node ((k, black) ∷ m) h = ground (arith, h, whites_grey node m)

pub whites_black : (node : String) (m : Dict Color) → whites (put node black m) ≤ whites m
unfolding put
whites_black node [] = omega arith
whites_black node ((k, white) ∷ m) = ground (arith, whites_black node m)
whites_black node ((k, grey) ∷ m) = ground (arith, whites_black node m)
whites_black node ((k, black) ∷ m) = ground (arith, whites_black node m)

abbrev pub Colored : Search → String → Color → Type 0
Colored s d c = get d s.color ≡ some c

module _ (table : Table) where
  -- What is on the stack is grey, what is black is well founded, and every unit of the plan has a color.
  pub record Inv (s : Search) : Type 0 where
    pub grey_on : (d : String) → Colored s d grey → has d s.stack ≡ true
    pub black_founded : (d : String) → Colored s d black → WellFounded table d
    pub colored_all : (d : String) → get d s.color ≡ none → has d (ids_of table) ≡ false

  -- What a visit that finds no cycle leaves.
  pub record Kept (s s' : Search) : Type 0 where
    pub same_stack : s'.stack ≡ s.stack
    pub fewer : whites s'.color ≤ whites s.color
    pub black_stays : (d : String) → Colored s d black → Colored s' d black
    pub inv : Inv s'

  -- A dependency that was looked at: no unit of the plan, or black.
  abbrev pub Settled : Search → String → Type 0
  Settled s d = (has d (ids_of table) ≡ false) ⊎ Colored s d black

  -- What a visit ends with.
  abbrev pub Ends : (Search → Type 0) → Search → Visited × Search → Type 0
  Ends After s (clear, s') = Kept s s' × After s'
  Ends After s (found c, s') = Cyclic table c
  Ends After s (no_fuel, s') = ⊥

  abbrev pub Visits : ℕ → (String → Search → Visited × Search) → Type 0
  Visits fuel go =
      (node : String) (s : Search)
      → Colored s node white
      → Climbs table (node ∷ s.stack)
      → whites s.color ≤ fuel
      → Inv s
      → Ends (λ s'. Colored s' node black) s (go node s)

  pub Kept-refl : (s : Search) → Inv s → Kept s s
  Kept-refl s inv = record {
    same_stack = refl;
    fewer = omega arith;
    black_stays = λ d h. h;
    inv = inv;
  }

  Kept-trans : (a b c : Search) → Kept a b → Kept b c → Kept a c
  Kept-trans a b c k l = record {
    same_stack = l.same_stack ∙ k.same_stack;
    fewer = omega (arith, k.fewer, l.fewer);
    black_stays = λ d h. l.black_stays d (k.black_stays d h);
    inv = l.inv;
  }

  Ends-trans :
      (After Then : Search → Type 0) (s m : Search) (r : Visited × Search)
      → Kept s m
      → ((s' : Search) → Kept m s' → After s' → Then s')
      → Ends After m r
      → Ends Then s r
  Ends-trans After Then s m (clear, s') k f h = (Kept-trans s m s' k h.0, f s' h.0 h.1)
  Ends-trans After Then s m (found c, s') k f h = h
  Ends-trans After Then s m (no_fuel, s') k f h = h

  Ends-map :
      (After Then : Search → Type 0) (s : Search) (r : Visited × Search)
      → ((s' : Search) → After s' → Then s')
      → Ends After s r
      → Ends Then s r
  Ends-map After Then s (clear, s') f h = (h.0, f s' h.1)
  Ends-map After Then s (found c, s') f h = h
  Ends-map After Then s (no_fuel, s') f h = h

  Settled-stays : (d : String) (s s' : Search) → Kept s s' → Settled s d → Settled s' d
  Settled-stays d s s' kept (inl unknown) = inl unknown
  Settled-stays d s s' kept (inr is_black) = inr (kept.black_stays d is_black)

  -- What follows a state in which the dependency is settled.
  Settled-Ends :
      (rest : Search → Visited × Search) (After : Search → Type 0) (d : String) (s m : Search)
      → Kept s m
      → Settled m d
      → ((m : Search) → Kept s m → Settled m d → Ends After m (rest m))
      → Ends (λ s'. After s' × Settled s' d) s (rest m)
  Settled-Ends rest After d s m kept settled next =
      Ends-trans After (λ s'. After s' × Settled s' d) s m (rest m) kept
        (λ s' later after. (after, Settled-stays d m s' later settled)) (next m kept settled)

  visited-Ends :
      (rest : Search → Visited × Search) (After : Search → Type 0) (d : String) (s : Search)
      (r : Visited × Search)
      → Ends (λ s'. Colored s' d black) s r
      → ((m : Search) → Kept s m → Settled m d → Ends After m (rest m))
      → Ends (λ s'. After s' × Settled s' d) s (go_on rest (λ v s'. (v, s')) r)
  visited-Ends rest After d s (clear, m) h next = Settled-Ends rest After d s m h.0 (inr h.1) next
  visited-Ends rest After d s (found c, m) h next = h
  visited-Ends rest After d s (no_fuel, m) h next = h

  Climbs-top :
      (node d : String) (below stack : List String)
      → stack ≡ node ∷ below
      → Climbs table stack
      → Needs table node d
      → Climbs table (d ∷ stack)
  Climbs-top node d below stack top climbs needs =
      subst (λ l. Climbs table (d ∷ l)) (sym top) (needs, subst (Climbs table) top climbs)

  -- One turn of the loop; `rest` is the loop after it.
  visit_dep-Ends :
      (fuel : ℕ) (go : String → Search → Visited × Search) (rest : Search → Visited × Search)
      (After : Search → Type 0)
      → Visits fuel go
      → (d : String) (s : Search) (c : Option Color) → get d s.color ≡ c
      → Climbs table (d ∷ s.stack)
      → whites s.color ≤ fuel
      → Inv s
      → ((m : Search) → Kept s m → Settled m d → Ends After m (rest m))
      → Ends (λ s'. After s' × Settled s' d) s (visit_dep go rest s d c)
  visit_dep-Ends fuel go rest After visits d s none color climbs enough inv next =
      Settled-Ends rest After d s s (Kept-refl s inv) (inl (inv.colored_all d color)) next
  visit_dep-Ends fuel go rest After visits d s (some black) color climbs enough inv next =
      Settled-Ends rest After d s s (Kept-refl s inv) (inr color) next
  visit_dep-Ends fuel go rest After visits d s (some grey) color climbs enough inv next =
      closed_walk-Cyclic table d s.stack climbs (inv.grey_on d color)
  visit_dep-Ends fuel go rest After visits d s (some white) color climbs enough inv next =
      visited-Ends rest After d s (go d s) (visits d s color climbs enough inv) next

  -- The loop over the dependencies of the top of the stack.
  pub visit_deps-Ends :
      (fuel : ℕ) (go : String → Search → Visited × Search)
      → Visits fuel go
      → (node : String) (below ds : List String) (s : Search) → s.stack ≡ node ∷ below
      → Climbs table s.stack
      → All (Needs table node) ds
      → whites s.color ≤ fuel
      → Inv s
      → Ends (λ s'. All (Settled s') ds) s (visit_deps go ds s)
  unfolding visit_deps
  visit_deps-Ends fuel go visits node below [] s top climbs needs enough inv = (Kept-refl s inv, tt)
  visit_deps-Ends fuel go visits node below (d ∷ ds) s top climbs needs enough inv =
      Ends-map _ _ s (visit_deps go (d ∷ ds) s) (λ s' h. (h.1, h.0))
        (visit_dep-Ends fuel go (visit_deps go ds) (λ s'. All (Settled s') ds) visits d s
          (get d s.color) refl (Climbs-top node d below s.stack top climbs needs.0) enough inv
          (λ m kept settled.
            visit_deps-Ends fuel go visits node below ds m (kept.same_stack ∙ top)
              (subst (Climbs table) (sym kept.same_stack) climbs) needs.1
              (omega (arith, enough, kept.fewer)) kept.inv))
