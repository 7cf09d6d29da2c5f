-- ===== src/Process/Health/Streak.antt =====
-- The monitor against an independent count of the flat checks since the last movement.
use openclaw_ecc_orchestrato.Prelude.{
  if◌then◌else◌, or_else, if-elim, any, is_nil, ℕ, ◌+◌, ◌≤◌, String, ◌≡◌, refl, sym, ap, ◌∙◌, subst,
  ◌↔◌, Bool, true, false, not, some, List, [], ◌∷◌, arith,
}
use openclaw_ecc_orchestrato.Process.Health.{
  Sample, no_sample, hung, Settings, Monitor, new_monitor, start, Movement, movements, is_moved,
  is_unread, names_of, state_of, check_gone, check_alive, check,
}

-- What a check shows, from its sample and the one before.
pub data Shown : Type 0 where
  gone progress unsure flat : Shown

abbrev shown_by : (alive moves reads_all : Bool) → Shown
shown_by false moves reads_all = gone
shown_by true true reads_all = progress
shown_by true false true = flat
shown_by true false false = unsure

unfoldable pub shown : Settings → Sample → Sample → Shown
shown s before cur =
    let found = movements s cur before in
    shown_by cur.alive (any (λ (f : String × Movement). is_moved f.1) found)
      (not (any (λ (f : String × Movement). is_unread f.1) found))

-- The checks of a sequence of samples, the first of which is the baseline.
unfoldable pub all_shown : Settings → Sample → List Sample → List Shown
unfolding shown
all_shown s before [] = []
all_shown s before (cur ∷ rest) = shown s before cur ∷ all_shown s cur rest

-- The flat checks since the last one that showed progress, `n` of them before.
unfoldable pub flat_streak : List Shown → ℕ → ℕ
flat_streak [] n = n
flat_streak (progress ∷ rest) n = flat_streak rest 0
flat_streak (flat ∷ rest) n = flat_streak rest (n + 1)
flat_streak (unsure ∷ rest) n = flat_streak rest n
flat_streak (gone ∷ rest) n = flat_streak rest n

unfoldable pub check_all : List Sample → Monitor → Monitor
unfolding check
check_all [] m = m
check_all (s ∷ rest) m = check_all rest (check s m)

abbrev one_streak : Shown → ℕ → ℕ
one_streak gone n = n
one_streak unsure n = n
one_streak progress n = 0
one_streak flat n = n + 1

is_nil-names_of :
    (test : Movement → Bool) (found : List (String × Movement))
    → is_nil (names_of test found) ≡ not (any (λ (f : String × Movement). test f.1) found)
is_nil-names_of test [] = refl
is_nil-names_of test ((n, x) ∷ xs) = ground (arith, is_nil-names_of test xs)

-- The monitor has seen `before` last, and its state is that of its count.
pub record Follows (s : Settings) (before : Sample) (n : ℕ) (m : Monitor) : Type 0 where
  pub same : m.settings ≡ s
  pub seen : m.previous ≡ some before
  pub counted : m.flat_checks ≡ n
  pub in_state : m.state ≡ state_of s.flat_checks_for_hang n

count_by :
    (moves unreads : Bool) (n : ℕ)
    → (if not moves then (if not unreads then n + 1 else n) else 0)
      ≡ one_streak (shown_by true moves (not unreads)) n
count_by true unreads n = refl
count_by false true n = refl
count_by false false n = refl

alive_count :
    (s : Settings) (before cur : Sample) (n : ℕ)
    → cur.alive ≡ true
    → (if is_nil (names_of is_moved (movements s cur before))
        then (if is_nil (names_of is_unread (movements s cur before)) then n + 1 else n)
        else 0)
      ≡ one_streak (shown s before cur) n
unfolding shown
alive_count s before cur n h =
    rw
      (
        is_nil-names_of is_moved (movements s cur before),
        is_nil-names_of is_unread (movements s cur before),
        h,
      )
      (count_by _ _ n)

check_alive-Follows :
    (s : Settings) (before cur : Sample) (n : ℕ) (m : Monitor)
    → cur.alive ≡ true
    → Follows s before n m
    → Follows s cur (one_streak (shown s before cur) n) (check_alive cur (movements s cur before) m)
unfolding check_alive
check_alive-Follows s before cur n m h f =
    let count = alive_count s before cur n h in
    record {
      same = f.same;
      seen = refl;
      counted = rw f.counted count;
      in_state = rw (f.counted, f.same) (ap (state_of s.flat_checks_for_hang) count);
    }

check_gone-Follows :
    (s : Settings) (before cur : Sample) (n : ℕ) (m : Monitor)
    → cur.alive ≡ false
    → Follows s before n m
    → Follows s cur (one_streak (shown s before cur) n) (check_gone cur m)
unfolding check_gone shown
check_gone-Follows s before cur n m h f =
    rw h (record { same = f.same; seen = refl; counted = f.counted; in_state = f.in_state })

movements-seen :
    (s : Settings) (before cur : Sample) (n : ℕ) (m : Monitor)
    → Follows s before n m
    → movements m.settings cur (or_else m.previous no_sample) ≡ movements s cur before
movements-seen s before cur n m f =
    ap (λ t. movements t cur (or_else m.previous no_sample)) f.same
    ∙ ap (λ o. movements s cur (or_else o no_sample)) f.seen

check-Follows :
    (s : Settings) (before cur : Sample) (n : ℕ) (m : Monitor)
    → Follows s before n m
    → Follows s cur (one_streak (shown s before cur) n) (check cur m)
unfolding check
check-Follows s before cur n m f =
    if-elim (Follows s cur (one_streak (shown s before cur) n)) cur.alive _ _
      (λ alive.
        subst (λ found. Follows s cur (one_streak (shown s before cur) n) (check_alive cur found m))
          (sym (movements-seen s before cur n m f)) (check_alive-Follows s before cur n m alive f))
      (λ dead. check_gone-Follows s before cur n m dead f)

streak_step :
    (x : Shown) (xs : List Shown) (n : ℕ) → flat_streak (x ∷ xs) n ≡ flat_streak xs (one_streak x n)
unfolding flat_streak
streak_step gone xs n = refl
streak_step _ xs n = refl

check_all-state :
    (s : Settings) (before : Sample) (rest : List Sample) (n : ℕ) (m : Monitor)
    → Follows s before n m
    → (check_all rest m).state
      ≡ state_of s.flat_checks_for_hang (flat_streak (all_shown s before rest) n)
unfolding check_all all_shown flat_streak
check_all-state s before [] n m f = f.in_state
check_all-state s before (cur ∷ rest) n m f =
    check_all-state s cur rest (one_streak (shown s before cur) n) (check cur m)
      (check-Follows s before cur n m f)
    ∙ ap (state_of s.flat_checks_for_hang)
        (sym (streak_step (shown s before cur) (all_shown s cur rest) n))

start-Follows :
    (s : Settings) (first : Sample)
    → 1 ≤ s.flat_checks_for_hang
    → Follows s first 0 (start first (new_monitor s))
unfolding start state_of
start-Follows s first h = record {
  same = refl;
  seen = refl;
  counted = refl;
  in_state = ground arith;
}

state_of-hung : (threshold n : ℕ) → (state_of threshold n ≡ hung) ↔ (threshold ≤ n)
unfolding state_of
state_of-hung threshold n = ground arith

-- A monitor with a threshold of at least 1 that was started on a first sample calls the process hung after the checks of the next ones
-- exactly when the flat checks among them, counted from the last movement on, have reached the
-- threshold: a check that could not read a signal, or found the process gone, is not counted, and does
-- not begin the count anew, so that a process that is gone stays hung when it was hung before.
pub hung-streak :
    (s : Settings) (first : Sample) (rest : List Sample)
    → 1 ≤ s.flat_checks_for_hang
    → ((check_all rest (start first (new_monitor s))).state ≡ hung)
      ↔ (s.flat_checks_for_hang ≤ flat_streak (all_shown s first rest) 0)
hung-streak s first rest h =
    rw (check_all-state s first rest 0 (start first (new_monitor s)) (start-Follows s first h))
      (state_of-hung s.flat_checks_for_hang (flat_streak (all_shown s first rest) 0))
