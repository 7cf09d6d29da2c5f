-- ===== src/Routing/Selection/Independent.antt =====
-- A reviewer that is chosen meets the check of its review,
-- src/openclaw_ecc_orchestrator/routing/selection.py.
use openclaw_ecc_orchestrato.Prelude.{
  leb, if◌then◌else◌, Bool-cases, is_some, or_else, if-elim, has, str_eq, both, either_left,
  either_right, not-true, ℕ, String, ◌≡◌, refl, sym, ap, ◌∙◌, subst, ◌≢◌, inl, inr, Bool, true,
  false, not, ◌&&◌, ◌||◌, Option, none, some, List, [], ◌∷◌, map, arith, eq_iff,
}
use openclaw_ecc_orchestrato.Prelude.Dict.{get}
use openclaw_ecc_orchestrato.Prelude.Codes.{Text}
use openclaw_ecc_orchestrato.Routing.Classify.{Classified}
use openclaw_ecc_orchestrato.Routing.Selection.{
  holds_model, RunnerQuery, Candidate, Rejection, retired, not_allowed, excluded, breaker_open,
  not_author, class_not_served, high_risk, needs_context, same_family, Examined, rejected, eligible,
  refuse_if, with_model, with_classes, with_profile, examine_runner, select_runner,
}
use openclaw_ecc_orchestrato.Routing.Registry.{
  Class, RunnerProfile, profiles, Tidy, model_family, is_retired,
}
use openclaw_ecc_orchestrato.Routing.Selection.Reviewers.{
  Author, family_in, family_known, family_of, author_runner, author_family, required_tier,
  is_strict, listed, for_review, Reviewer, chosen_as, second_choice, barred_runners,
  select_reviewer, ReviewRecord, families_differ, same_runner, review_sound, review_satisfies,
}
use openclaw_ecc_orchestrato.Routing.Selection.Cheapest.{select_runner-chosen}
use mathlib.Core.Bool.{false≢true}

rejected_eligible : {why : Rejection} {c : Candidate} → rejected why ≢ eligible c
rejected_eligible e = cc

abbrev candidate_of : Candidate → Examined → Candidate
candidate_of c (eligible d) = d
candidate_of c (rejected why) = c

eligible_eq : {c d : Candidate} → eligible c ≡ eligible d → c ≡ d
eligible_eq {c} e = ap (candidate_of c) e

refuse_if-elim :
    {P : Type 0} (b : Bool) (why : Rejection) (rest : Examined) {c : Candidate}
    → refuse_if b why rest ≡ eligible c
    → (b ≡ false → rest ≡ eligible c → P)
    → P
unfolding refuse_if
refuse_if-elim true why rest h k = absurd (rejected_eligible h)
refuse_if-elim false why rest h k = k refl h

-- What the loop has found out of a runner that it takes.
abbrev pub Independent : Tidy → RunnerQuery → String → Candidate → Type 0
Independent t a name c =
    (c.runner ≡ name)
    × (is_retired t name ≡ false)
    × (has name (map t.normal a.exclude_runners) ≡ false)
    × (holds_model c.family a.exclude_families ≡ false)
    × ((p : RunnerProfile) × (get name profiles ≡ some p)
        × (c.family ≡ model_family t p name (some c.model)))

module _ (t : Tidy) (a : RunnerQuery) (name : String) (c : Candidate) where
  -- The last guards.
  abbrev Modelled : RunnerProfile → Type 0
  Modelled p =
      (c.runner ≡ name)
      × (holds_model c.family a.exclude_families ≡ false)
      × (c.family ≡ model_family t p name (some c.model))

  with_model-Modelled :
      (p : RunnerProfile) (is_fallback : Bool) (o : Option Text)
      → with_model t a name p is_fallback o ≡ eligible c
      → Modelled p
  with_model-Modelled p is_fallback none h = absurd (rejected_eligible h)
  with_model-Modelled p is_fallback (some model) h = refuse_if-elim _ same_family _ h (λ differs e.
      let taken = eligible_eq e in
      (
        sym (ap (λ (d : Candidate). d.runner) taken),
        ap (λ (d : Candidate). holds_model d.family a.exclude_families) (sym taken) ∙ differs,
        ap (λ (d : Candidate). d.family) (sym taken)
            ∙ ap (λ (d : Candidate). model_family t p name (some d.model)) taken,
      ))

  with_classes-Modelled :
      (p : RunnerProfile) (o : Option (List Class × Bool))
      → with_classes t a name p o ≡ eligible c
      → Modelled p
  with_classes-Modelled p none h = absurd (rejected_eligible h)
  with_classes-Modelled p (some (classes, is_fallback)) h =
      refuse_if-elim _ class_not_served _ h (λ _ h1. refuse_if-elim _ high_risk _ h1 (λ _ h2.
        refuse_if-elim _ needs_context _ h2 (λ _ h3. with_model-Modelled p is_fallback _ h3)))

  with_profile-Independent :
      (o : Option RunnerProfile)
      → get name profiles ≡ o
      → is_retired t name ≡ false
      → with_profile t a name o ≡ eligible c
      → Independent t a name c
  with_profile-Independent none known live h = absurd (rejected_eligible h)
  with_profile-Independent (some p) known live h = refuse_if-elim _ not_allowed _ h (λ _ h1.
      refuse_if-elim _ excluded _ h1 (λ clear h2. refuse_if-elim _ breaker_open _ h2 (λ _ h3.
        refuse_if-elim _ not_author _ h3 (λ _ h4.
          let (same, other_family, family) = with_classes-Modelled p _ h4 in
          (same, live, ground (arith, clear), other_family, (p, known, family))))))

  examine_runner-Independent : examine_runner t a name ≡ eligible c → Independent t a name c
  unfolding examine_runner
  examine_runner-Independent h =
      refuse_if-elim (is_retired t name) retired (with_profile t a name (get name profiles)) h
        (λ live h1. with_profile-Independent (get name profiles) refl live h1)

-- The review that a chosen reviewer gives at a tier.
abbrev pub review_by : Candidate → ℕ → ReviewRecord
review_by r tier = record { runner = some r.runner; model = some r.model; tier = some tier }

family_of-known :
    (t : Tidy) (name : String) (model : Option Text) (p : RunnerProfile)
    → t.normal name ≡ name
    → get name profiles ≡ some p
    → is_retired t name ≡ false
    → family_of t (some name) model ≡ some (model_family t p name model)
unfolding family_of
family_of-known t name model p same known live =
    ap (family_known t name model) known
    ∙ if-elim (λ o. o ≡ some (model_family t p name model)) (is_retired t name) none
        (family_in t name model (get (t.normal name) profiles))
        (λ gone. absurd (false≢true (sym live ∙ gone)))
        (λ _. ap (family_in t name model) (ap (λ n. get n profiles) same ∙ known))

abbrev tidied : Tidy → Option String → Option String
tidied t o = elim o [ none ↦ none | some r ↦ some (t.normal r) ]

-- The runner is not the author's where it must not be.
not_barred :
    (t : Tidy) (o : Option String) (name : String) (must : Bool)
    → ((x : String) → o ≡ some x → t.normal x ≡ x)
    → t.normal name ≡ name
    → has name (map t.normal (if must then or_else o "" ∷ [] else [])) ≡ false
    → (same_runner (some (t.normal name)) o && must) ≡ false
not_barred t none name must fixed same clear = refl
not_barred t (some x) name false fixed same clear = ground arith
not_barred t (some x) name true fixed same clear =
    let differ = subst (λ y. (str_eq y name || false) ≡ false) (fixed x refl) clear in
    ap (λ n. str_eq n x && true) same ∙ ground (arith, differ, eq_iff name x, eq_iff x name)

tidied-fixed :
    (t : Tidy)
    → ((s : String) → t.normal (t.normal s) ≡ t.normal s)
    → (o : Option String) (x : String) → tidied t o ≡ some x
    → t.normal x ≡ x
tidied-fixed t twice none x e = cc
tidied-fixed t twice (some r) x e =
    let is : t.normal r ≡ x = ap (λ o. or_else o x) e in ap t.normal (sym is) ∙ twice r ∙ is

module _ (t : Tidy) (twice : (s : String) → t.normal (t.normal s) ≡ t.normal s) (who : Author)
    (c : Classified) where
  chosen_family :
      (r : Candidate) (name : String) (asked : RunnerQuery)
      → t.normal name ≡ name
      → Independent t asked name r
      → family_of t (some (t.normal r.runner)) (some r.model) ≡ some r.family
  chosen_family r name asked same h =
      let (p, known, family) = h.4 in
      ap (λ n. family_of t (some n) (some r.model)) (ap t.normal h.0 ∙ same)
      ∙ family_of-known t name (some r.model) p same known h.1
      ∙ ap some (sym family)

  review_sound-Independent :
      (r : Candidate) (raw : String) (asked : RunnerQuery)
      → asked.exclude_runners
        ≡ barred_runners t who (c.requires_independent_review || is_strict who c)
      → Independent t asked (t.normal raw) r
      → (is_strict who c ≡ true → families_differ (author_family t who) (some r.family) ≡ true)
      → review_sound t false who c (review_by r (required_tier who c)) ≡ true
  unfolding review_sound
  review_sound-Independent r raw asked barred h differ =
      let name = t.normal raw in
      let must = c.requires_independent_review || is_strict who c in
      let apart =
        not_barred t (author_runner t who) name must (tidied-fixed t twice who.runner) (twice raw)
          (ap (λ l. has name (map t.normal l)) (sym barred) ∙ h.2) in
      let apart_r =
        ap (λ n. same_runner (some (t.normal n)) (author_runner t who) && must) h.0 ∙ apart in
      let family = chosen_family r name asked (twice raw) h in
      let reached : leb (required_tier who c) (required_tier who c) ≡ true = ground arith in
      let apart_too : not (
            same_runner (some (t.normal r.runner)) (author_runner t who)
            && (is_strict who c || c.requires_independent_review))
          ≡ true =
        ground (arith, apart_r) in
      both reached (
        both apart_too (elim (Bool-cases (is_strict who c)) [
          | inl s ↦ either_right _ (ap (families_differ (author_family t who)) family ∙ differ s)
          | inr s ↦ either_left _ (not-true s)
        ]))

families_differ-excluded :
    (o : Option Text) (g : Text)
    → is_some o ≡ true
    → holds_model g (listed o) ≡ false
    → families_differ o (some g) ≡ true
families_differ-excluded none g h clear = absurd (false≢true h)
families_differ-excluded (some f) g h clear = ground (arith, clear)

second_choice-cases :
    {P : Type 0} (tier : ℕ) (strict : Bool) (again first_one : Option Candidate) (r : Candidate)
    → (second_choice tier strict again first_one).chosen ≡ some r
    → (first_one ≡ some r → P)
    → (strict ≡ false → again ≡ some r → P)
    → P
second_choice-cases tier strict again (some q) r h f g = f h
second_choice-cases tier true again none r h f g = cc
second_choice-cases tier false none none r h f g = cc
second_choice-cases tier false (some q) none r h f g = g refl h

second_choice-tier :
    (tier : ℕ) (strict : Bool) (again first_one : Option Candidate)
    → (second_choice tier strict again first_one).tier ≡ tier
second_choice-tier tier strict again (some q) = refl
second_choice-tier tier true again none = refl
second_choice-tier tier false none none = refl
second_choice-tier tier false (some q) none = refl

chosen_as-tier :
    (tier : ℕ) (strict independent : Bool) (o : Option Candidate)
    → (chosen_as tier strict independent o).tier ≡ tier
chosen_as-tier tier strict independent none = refl
chosen_as-tier tier strict independent (some r) = refl

select_runner-Independent :
    (t : Tidy) (a : RunnerQuery) (r : Candidate)
    → select_runner t a ≡ some r
    → (raw : String) × Independent t a (t.normal raw) r
select_runner-Independent t a r h =
    let (raw, _, e) = (select_runner-chosen t a r h).0 in
    (raw, examine_runner-Independent t a (t.normal raw) r e)

module _ (t : Tidy) (twice : (s : String) → t.normal (t.normal s) ≡ t.normal s) (a : RunnerQuery)
    (who : Author) (c : Classified) (r : Candidate) where
  second_choice_sound :
      (not (is_strict who c) || is_some (author_family t who)) ≡ true
      → let tier = required_tier who c in
        let runners = barred_runners t who (c.requires_independent_review || is_strict who c) in
        (second_choice tier
            (is_strict who c)
            (select_runner t (for_review a who c tier runners []))
            (select_runner t
              (for_review a who c tier runners (listed (author_family t who))))).chosen
          ≡ some r
        → review_sound t false who c (review_by r tier) ≡ true
  second_choice_sound known h =
      let tier = required_tier who c in
      let runners = barred_runners t who (c.requires_independent_review || is_strict who c) in
      let others = for_review a who c tier runners (listed (author_family t who)) in
      let any_family = for_review a who c tier runners [] in
      second_choice-cases tier (is_strict who c) (select_runner t any_family)
        (select_runner t others) r h
        (λ chosen.
          let (raw, found_out) = select_runner-Independent t others r chosen in
          review_sound-Independent t twice who c r raw others refl found_out (λ strict.
            families_differ-excluded (author_family t who) r.family (ground (arith, known, strict))
              found_out.3))
        (λ relaxed chosen.
          let (raw, found_out) = select_runner-Independent t any_family r chosen in
          review_sound-Independent t twice who c r raw any_family refl found_out
            (λ strict. absurd (false≢true (sym relaxed ∙ strict))))

  review_sound-persona : review_sound t true who c (review_by r (required_tier who c)) ≡ true
  unfolding review_sound
  review_sound-persona = ground arith

  -- A reviewer that `select_reviewer` chooses meets `review_satisfies`, asked without the certified runners, with
  -- a review at the tier that it was chosen for, where the policy is by persona, the review need not be strict,
  -- or the author's model family is known. To normalise a name twice is to normalise it once.
  pub select_reviewer-satisfies :
      (a.policy.by_persona || (not (is_strict who c) || is_some (author_family t who))) ≡ true
      → (select_reviewer t a who c).chosen ≡ some r
      → review_satisfies t a false who c (review_by r (select_reviewer t a who c).tier) ≡ true
  unfolding select_reviewer review_satisfies
  select_reviewer-satisfies known h =
      let tier = required_tier who c in
      let strict = is_strict who c in
      let runners = barred_runners t who (c.requires_independent_review || strict) in
      let by_persona =
        chosen_as tier strict false (select_runner t (for_review a who c tier [] [])) in
      let again = select_runner t (for_review a who c tier runners []) in
      let first_one =
        select_runner t (for_review a who c tier runners (listed (author_family t who))) in
      let by_provider = second_choice tier strict again first_one in
      let Sound : ℕ → Type 0 =
        λ n. review_sound t a.policy.by_persona who c (review_by r n) ≡ true in
      let Goal : Reviewer → Type 0 = λ v.
        v.chosen ≡ some r
        → (review_sound t a.policy.by_persona who c (review_by r v.tier) && true) ≡ true in
      if-elim Goal a.policy.by_persona by_persona by_provider
        (λ persona _.
          both
            (subst Sound (sym (chosen_as-tier tier strict false _))
              (ap (λ b. review_sound t b who c (review_by r tier)) persona ∙ review_sound-persona))
            refl)
        (λ provider chosen.
          both
            (subst Sound (sym (second_choice-tier tier strict again first_one)) (
              ap (λ b. review_sound t b who c (review_by r tier)) provider
              ∙ second_choice_sound (ground (arith, known, provider)) chosen))
            refl)
        h
