-- ===== src/Runs/Dag/Walks.antt =====
-- Walks along the dependencies of a plan, src/openclaw_ecc_orchestrator/runs/dag.py.
use openclaw_ecc_orchestrato.Prelude.{
  if-elim, has, str_eq, String, ◌≡◌, refl, sym, ap, ◌∙◌, subst, true, List, [], ◌∷◌, ◌++◌, arith,
  eq_iff,
}
use openclaw_ecc_orchestrato.Runs.Dag.{Table, since, reversed, closed_walk, deps_of}
use mathlib.Core.Bool.{false≢true}

-- The first unit depends on the second.
abbrev pub Needs : Table → String → String → Type 0
Needs table a b = has b (deps_of table a) ≡ true

abbrev pub Walk : Table → List String → Type 0
Walk table [] = Unit
Walk table (a ∷ []) = Unit
Walk table (a ∷ b ∷ rest) = Needs table a b × Walk table (b ∷ rest)

-- A walk from a unit back to the unit.
abbrev pub Cyclic : Table → List String → Type 0
Cyclic table c = (a : String) × (mid : List String) × (c ≡ a ∷ (mid ++ a ∷ [])) × Walk table c

-- The stack, read from its bottom to its top, is a walk.
abbrev pub Climbs : Table → List String → Type 0
Climbs table [] = Unit
Climbs table (a ∷ []) = Unit
Climbs table (a ∷ b ∷ rest) = Needs table b a × Climbs table (b ∷ rest)

module _ (table : Table) where
  Walk-reversed :
      (xs : List String) (a : String) (acc : List String)
      → Climbs table (a ∷ xs)
      → Walk table (a ∷ acc)
      → Walk table (reversed xs (a ∷ acc))
  Walk-reversed [] a acc climbs walk = walk
  Walk-reversed (x ∷ xs) a acc climbs walk = Walk-reversed xs x (a ∷ acc) climbs.1 (climbs.0, walk)

  Climbs-since :
      (d a : String) (xs : List String) → Climbs table (a ∷ xs) → Climbs table (a ∷ since d xs)
  Climbs-since d a [] h = h
  Climbs-since d a (x ∷ xs) h =
      if-elim (λ l. Climbs table (a ∷ l)) (str_eq x d) (x ∷ []) (x ∷ since d xs) (λ _. (h.0, tt))
        (λ _. (h.0, Climbs-since d x xs h.1))

since-last :
    (d : String) (xs : List String)
    → has d xs ≡ true
    → (front : List String) × (since d xs ≡ front ++ d ∷ [])
since-last d [] h = absurd (false≢true h)
since-last d (x ∷ xs) h =
    if-elim (λ l. (front : List String) × (l ≡ front ++ d ∷ [])) (str_eq x d) (x ∷ [])
      (x ∷ since d xs) (λ same. ([], ap (λ t. t ∷ []) ((eq_iff x d).0 same)))
      (λ differs.
        let (front, e) = since-last d xs (ground (arith, h, differs)) in
        (x ∷ front, ap (λ l. x ∷ l) e))

reversed-append : (xs acc ys : List String) → reversed xs acc ++ ys ≡ reversed xs (acc ++ ys)
reversed-append [] acc ys = refl
reversed-append (x ∷ xs) acc ys = reversed-append xs (x ∷ acc) ys

reversed-snoc :
    (xs : List String) (d : String) (acc : List String)
    → reversed (xs ++ d ∷ []) acc ≡ d ∷ reversed xs acc
reversed-snoc [] d acc = refl
reversed-snoc (x ∷ xs) d acc = reversed-snoc xs d (x ∷ acc)

-- A dependency of the top of the stack that is on the stack closes a cycle.
pub closed_walk-Cyclic :
    (table : Table) (d : String) (stack : List String)
    → Climbs table (d ∷ stack)
    → has d stack ≡ true
    → Cyclic table (closed_walk d stack)
closed_walk-Cyclic table d stack climbs there =
    let (front, e) = since-last d stack there in
    let joined : closed_walk d stack ≡ reversed (since d stack) (d ∷ []) =
      reversed-append (since d stack) [] (d ∷ []) in
    (
      d,
      reversed front [],
      joined
          ∙ ap (λ l. reversed l (d ∷ [])) e
          ∙ reversed-snoc front d (d ∷ [])
          ∙ ap (λ l. d ∷ l) (sym (reversed-append front [] (d ∷ []))),
      subst (Walk table) (sym joined)
          (Walk-reversed table (since d stack) d [] (Climbs-since table d d stack climbs) tt),
    )
