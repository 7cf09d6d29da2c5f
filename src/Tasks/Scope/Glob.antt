-- ===== src/Tasks/Scope/Glob.antt =====
-- What a glob of src/openclaw_ecc_orchestrator/tasks/scope.py stands for, read off its characters.
use mathlib.Core.List.{append-nil}
use openclaw_ecc_orchestrato.Prelude.{
  ◌==◌, if◌then◌else◌, if-elim, All, All-map, ℕ, ◌≡◌, refl, sym, ap, ◌∙◌, subst, ◌≢◌, ◌↔◌, ◌⊎◌, inl,
  inr, Bool, true, false, ◌&&◌, List, [], ◌∷◌, ◌++◌, arith,
}
use openclaw_ecc_orchestrato.Prelude.Codes.{Text, slash}
use openclaw_ecc_orchestrato.Tasks.Scope.{
  Piece, deep, any_run, star, one, lit, is_star, single, not_slash, not_line_feed, compile,
}
use openclaw_ecc_orchestrato.Tasks.Scope.Reference.{Matches, snoc_append}

-- The text has no such character.
abbrev pub Without : ℕ → Text → Type 0
Without n s = All (λ c. c ≢ n) s

-- A run without such a character, and the rest.
abbrev pub RunOf : ℕ → (Text → Type 0) → Text → Type 0
RunOf n P s = (u : Text) × (v : Text) × (s ≡ u ++ v) × Without n u × P v

-- `*` is a run without a slash, `?` one character that is no slash, and any other character is itself.
abbrev pub One : ℕ → (Text → Type 0) → Text → Type 0
One c P s =
    ((c ≡ 42) × RunOf slash P s)
    ⊎ (((c ≡ 63) × ((x : ℕ) × (v : Text) × (s ≡ x ∷ v) × (x ≢ slash) × P v))
        ⊎ ((c ≢ 42) × (c ≢ 63) × ((v : Text) × (s ≡ c ∷ v) × P v)))

-- `**/` is nothing, or a run without a line feed and a slash.
abbrev pub Deep : (Text → Type 0) → Text → Type 0
Deep P s = P s ⊎ ((w : Text) × (v : Text) × (s ≡ w ++ slash ∷ v) × Without 10 w × P v)

-- The text is one that the pattern stands for; `**` before anything else is a run without a line feed.
abbrev pub Stands : (pattern text : Text) → Type 0
Stands [] s = s ≡ []
Stands (c ∷ []) s = One c (λ v. v ≡ []) s
Stands (c ∷ d ∷ []) s =
    ((c ≡ 42) × (d ≡ 42) × Without 10 s) ⊎ ((¬ ((c ≡ 42) × (d ≡ 42))) × One c (Stands (d ∷ [])) s)
Stands (c ∷ d ∷ e ∷ p) s =
    ((c ≡ 42)
      × (d ≡ 42)
      × (((e ≡ slash) × Deep (Stands p) s) ⊎ ((e ≢ slash) × RunOf 10 (Stands (e ∷ p)) s)))
    ⊎ ((¬ ((c ≡ 42) × (d ≡ 42))) × One c (Stands (d ∷ e ∷ p)) s)

pass-Without :
    (n : ℕ) (pass : ℕ → Bool) (u : Text)
    → ((c : ℕ) → (pass c ≡ true) ↔ (c ≢ n))
    → All (λ c. pass c ≡ true) u ↔ Without n u
pass-Without n pass u same = (All-map _ _ u (λ c. (same c).0), All-map _ _ u (λ c. (same c).1))

not_slash_iff : (c : ℕ) → (not_slash c ≡ true) ↔ (c ≢ slash)
not_slash_iff c = ground arith

not_line_feed_iff : (c : ℕ) → (not_line_feed c ≡ true) ↔ (c ≢ 10)
not_line_feed_iff c = ground arith

abbrev Same : (P Q : Text → Type 0) → Type 0
Same P Q = (s : Text) → P s ↔ Q s

module _ (ps : List Piece) (Q : Text → Type 0) (same : Same (Matches ps) Q) where
  star-RunOf : Same (Matches (star ∷ ps)) (RunOf slash Q)
  star-RunOf s = (
    λ (u, v, e, ok, m).
        (u, v, e, (pass-Without slash not_slash u not_slash_iff).0 ok, (same v).0 m),
    λ (u, v, e, ok, q).
        (u, v, e, (pass-Without slash not_slash u not_slash_iff).1 ok, (same v).1 q),
  )

  any_run-RunOf : Same (Matches (any_run ∷ ps)) (RunOf 10 Q)
  any_run-RunOf s = (
    λ (u, v, e, ok, m).
        (u, v, e, (pass-Without 10 not_line_feed u not_line_feed_iff).0 ok, (same v).0 m),
    λ (u, v, e, ok, q).
        (u, v, e, (pass-Without 10 not_line_feed u not_line_feed_iff).1 ok, (same v).1 q),
  )

  deep-Deep : Same (Matches (deep ∷ ps)) (Deep Q)
  deep-Deep s = (
    λ (u, v, e, shape, m). elim shape [
      | inl bare ↦ inl ((same s).0 (subst (Matches ps) (sym (e ∙ ap (λ t. t ++ v) bare)) m))
      | inr (w, cut, ok) ↦ inr (
        w,
        v,
        e ∙ ap (λ t. t ++ v) cut ∙ sym (snoc_append w v slash),
        (pass-Without 10 not_line_feed w not_line_feed_iff).0 ok,
        (same v).0 m,
      )
    ],
    λ h. elim h [
      | inl q ↦ ([], s, refl, inl refl, (same s).1 q)
      | inr (w, v, e, ok, q) ↦ (
        w ++ slash ∷ [],
        v,
        e ∙ snoc_append w v slash,
        inr (w, refl, (pass-Without 10 not_line_feed w not_line_feed_iff).1 ok),
        (same v).1 q,
      )
    ],
  )

  single-One : (c : ℕ) → Same (Matches (single c ∷ ps)) (One c Q)
  single-One c s =
      if-elim (λ p. Matches (p ∷ ps) s ↔ One c Q s) (c == 42) star (if c == 63 then one else lit c)
        (λ is_run.
          let c_is : c ≡ 42 = ground (arith, is_run) in
          (
            λ m. inl (c_is, (star-RunOf s).0 m),
            λ h. elim h [
              | inl (_, run) ↦ (star-RunOf s).1 run
              | inr (inl (c_one, _)) ↦ absurd (omega (arith, c_is, c_one))
              | inr (inr (not_run, _, _)) ↦ absurd (not_run c_is)
            ],
          ))
        (λ no_run.
          let not_42 : c ≢ 42 = ground (arith, no_run) in
          if-elim (λ p. Matches (p ∷ ps) s ↔ One c Q s) (c == 63) one (lit c)
            (λ is_one.
              let c_is : c ≡ 63 = ground (arith, is_one) in
              (
                λ (u, v, e, (x, only, other), m).
                    inr (inl (c_is, (x, v, e ∙ ap (λ t. t ++ v) only, other, (same v).0 m))),
                λ h. elim h [
                  | inl (c_run, _) ↦ absurd (not_42 c_run)
                  | inr (inl (_, (x, v, e, other, q))) ↦
                      (x ∷ [], v, e, (x, refl, other), (same v).1 q)
                  | inr (inr (_, not_one, _)) ↦ absurd (not_one c_is)
                ],
              ))
            (λ no_one.
              let not_63 : c ≢ 63 = ground (arith, no_one) in
              (
                λ (u, v, e, only, m).
                    inr (inr (not_42, not_63, (v, e ∙ ap (λ t. t ++ v) only, (same v).0 m))),
                λ h. elim h [
                  | inl (c_run, _) ↦ absurd (not_42 c_run)
                  | inr (inl (c_one, _)) ↦ absurd (not_63 c_one)
                  | inr (inr (_, _, (v, e, q))) ↦ (c ∷ [], v, e, refl, (same v).1 q)
                ],
              )))

nil-Same : Same (Matches []) (λ s. s ≡ [])
nil-Same s = (λ h. h, λ h. h)

last_run : (s : Text) → Matches (any_run ∷ []) s ↔ Without 10 s
last_run s =
    let (there, back) = any_run-RunOf [] (λ v. v ≡ []) nil-Same s in
    (
      λ m.
          let (u, v, e, ok, last) = there m in
          subst (Without 10) (sym (e ∙ (ap (λ t. u ++ t) last ∙ append-nil u))) ok,
      λ ok. back (s, [], sym (append-nil s), ok, refl),
    )

two_stars : (c d : ℕ) → (is_star c && is_star d) ≡ true → (c ≡ 42) × (d ≡ 42)
two_stars c d h = (ground (arith, h), ground (arith, h))

no_two_stars : (c d : ℕ) → (is_star c && is_star d) ≡ false → ¬ ((c ≡ 42) × (d ≡ 42))
no_two_stars c d h (p, q) = ground (arith, h, p, q)

-- The pieces of a pattern stand for what its characters do.
pub compile-Stands : (pattern : Text) → Same (Matches (compile pattern)) (Stands pattern)
unfolding compile
compile-Stands [] s = (λ h. h, λ h. h)
compile-Stands (c ∷ []) s = single-One [] (λ v. v ≡ []) nil-Same c s
compile-Stands (c ∷ d ∷ []) s =
    let rest = compile-Stands (d ∷ []) in
    if-elim (λ ps. Matches ps s ↔ Stands (c ∷ d ∷ []) s) (is_star c && is_star d) (any_run ∷ [])
      (single c ∷ compile (d ∷ []))
      (λ both_stars.
        let (p, q) = two_stars c d both_stars in
        (
          λ m. inl (p, q, (last_run s).0 m),
          λ h. elim h [
            | inl (_, _, ok) ↦ (last_run s).1 ok
            | inr (other, _) ↦ absurd (other (p, q))
          ],
        ))
      (λ not_both.
        let other = no_two_stars c d not_both in
        let (there, back) = single-One (compile (d ∷ [])) (Stands (d ∷ [])) rest c s in
        (
          λ m. inr (other, there m),
          λ h. elim h [ inl (p, q, _) ↦ absurd (other (p, q)) | inr (_, x) ↦ back x ],
        ))
compile-Stands (c ∷ d ∷ e ∷ p) s =
    let below = compile-Stands p in
    let after = compile-Stands (e ∷ p) in
    let rest = compile-Stands (d ∷ e ∷ p) in
    let Goal : List Piece → Type 0 = λ ps. Matches ps s ↔ Stands (c ∷ d ∷ e ∷ p) s in
    if-elim Goal (is_star c && is_star d)
      (if e == slash then deep ∷ compile p else any_run ∷ compile (e ∷ p))
      (single c ∷ compile (d ∷ e ∷ p))
      (λ both_stars.
        let (x, y) = two_stars c d both_stars in
        if-elim Goal (e == slash) (deep ∷ compile p) (any_run ∷ compile (e ∷ p))
          (λ is_slash.
            let e_is : e ≡ slash = ground (arith, is_slash) in
            let (there, back) = deep-Deep (compile p) (Stands p) below s in
            (
              λ m. inl (x, y, inl (e_is, there m)),
              λ h. elim h [
                | inl (_, _, inl (_, q)) ↦ back q
                | inl (_, _, inr (differs, _)) ↦ absurd (differs e_is)
                | inr (other, _) ↦ absurd (other (x, y))
              ],
            ))
          (λ no_slash.
            let differs : e ≢ slash = ground (arith, no_slash) in
            let (there, back) = any_run-RunOf (compile (e ∷ p)) (Stands (e ∷ p)) after s in
            (
              λ m. inl (x, y, inr (differs, there m)),
              λ h. elim h [
                | inl (_, _, inl (e_is, _)) ↦ absurd (differs e_is)
                | inl (_, _, inr (_, q)) ↦ back q
                | inr (other, _) ↦ absurd (other (x, y))
              ],
            )))
      (λ not_both.
        let other = no_two_stars c d not_both in
        let (there, back) = single-One (compile (d ∷ e ∷ p)) (Stands (d ∷ e ∷ p)) rest c s in
        (
          λ m. inr (other, there m),
          λ h. elim h [ inl (x, y, _) ↦ absurd (other (x, y)) | inr (_, q) ↦ back q ],
        ))
