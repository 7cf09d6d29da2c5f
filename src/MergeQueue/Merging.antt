-- ===== src/MergeQueue/Merging.antt =====
-- `process_next` of src/openclaw_ecc_orchestrator/merge_queue/queue.py, and what the queue promises.
use openclaw_ecc_orchestrato.Prelude.{
  if◌then◌else◌, is_some, ◌⊎◌, ◌↔◌, or_else, keep, has, opt_eq, opt_eq→eq, ℕ, String, ◌≡◌, refl,
  sym, ap, ◌∙◌, Bool, true, false, not, ◌||◌, Option, none, some, List, [], ◌∷◌, ◌++◌, arith,
  eq_iff,
}
use openclaw_ecc_orchestrato.Plugin.Approvals.{Broker, Checked, all_ok}
use openclaw_ecc_orchestrato.MergeQueue.{
  Item, Outcome, empty, would_merge, stale, conflict, gate_failed, target_dirty, merged, Queue,
  Branch, Asked, request_ids, not_replayed, first_checks, enqueue_checks, take_in, take_checked,
  enqueue,
}

-- What git and the gates answer while the first item is processed.
pub record Git : Type 0 where
  pub target : Option String
  pub tip : Option String
  pub clean : Bool
  pub merges : Bool
  pub gates_pass : Bool
  pub checked_out : Bool
  pub dirty : Bool
  pub at_target : Bool
  pub updated : Bool

-- `_fast_forward`
unfoldable pub fast_forward : Git → Outcome
fast_forward g =
    if g.checked_out
    then (if g.dirty then target_dirty else if g.at_target then merged else stale)
    else if g.updated
    then merged
    else stale

abbrev is_dirty : Outcome → Bool
is_dirty target_dirty = true
is_dirty _ = false

abbrev drop_first : List Item → List Item
drop_first [] = []
drop_first (i ∷ is) = is

-- `_finish`; the item stays when `keep` is set.
unfoldable pub finish : ℕ → Item → Outcome → (dry_run keep : Bool) → Queue → Outcome × Queue
finish now i status dry_run keep q = if dry_run then (status, q) else (
  status,
  record q {
    items = if keep then q.items else drop_first q.items;
    history = q.history ++ record { item = i; status = status; processed_at = now } ∷ [];
  },
)

-- The item is stale: the target is gone, or the branch has moved.
unfoldable pub is_stale : Git → Item → Bool
is_stale g i =
    not (is_some g.target)
    || (not (opt_eq g.tip i.branch_tip) || not (opt_eq g.tip i.verified_head))

process_item : ℕ → Git → (dry_run : Bool) → Item → Queue → Outcome × Queue
unfolding finish is_stale fast_forward
process_item now g dry_run i q =
    if is_stale g i
    then finish now i stale dry_run false q
    else if not g.clean
    then finish now i conflict dry_run false q
    else if dry_run
    then (would_merge, q)
    else if not g.merges
    then finish now i conflict false false q
    else if not g.gates_pass
    then finish now i gate_failed false false q
    else finish now i (fast_forward g) false (is_dirty (fast_forward g)) q

process_items : ℕ → Git → (dry_run : Bool) → List Item → Queue → Outcome × Queue
unfolding process_item
process_items now g dry_run [] q = (empty, q)
process_items now g dry_run (i ∷ is) q = process_item now g dry_run i q

-- `process_next`
unfoldable pub process_next : ℕ → Git → (dry_run : Bool) → Queue → Outcome × Queue
unfolding process_items
process_next now g dry_run q = process_items now g dry_run q.items q

-- The target was moved forward to the result: a checkout of it that was clean and had not moved, or else
-- the reference.
abbrev pub Landed : Git → Type 0
Landed g =
    ((g.checked_out ≡ true) × (g.dirty ≡ false) × (g.at_target ≡ true))
    ⊎ ((g.checked_out ≡ false) × (g.updated ≡ true))

-- What a merge has got through: the branch is still at the verified head of the item and at the tip that
-- was approved, it merged cleanly in the check and in the throwaway worktree, the gates passed on the
-- result, and the target took it.
pub record Earned (g : Git) (i : Item) : Type 0 where
  pub has_target : is_some g.target ≡ true
  pub verified : g.tip ≡ i.verified_head
  pub approved : g.tip ≡ i.branch_tip
  pub clean : g.clean ≡ true
  pub merges : g.merges ≡ true
  pub gates : g.gates_pass ≡ true
  pub landed : Landed g

-- The item leaves the queue, and the merge is written down.
abbrev Taken : ℕ → Item → Queue → Queue → Type 0
Taken now i q q' =
    (q'.items ≡ drop_first q.items)
    × (q'.history ≡ q.history ++ record { item = i; status = merged; processed_at = now } ∷ [])

process_item-Earned :
    (now : ℕ) (g : Git) (dry_run : Bool) (i : Item) (q : Queue)
    → (process_item now g dry_run i q).0 ≡ merged
    → (dry_run ≡ false) × Earned g i × Taken now i q (process_item now g dry_run i q).1
unfolding process_item finish is_stale fast_forward
process_item-Earned now g dry_run i q h = (
  ground (arith, h),
  record {
    has_target = ground (arith, h);
    verified = opt_eq→eq g.tip i.verified_head (ground (arith, h));
    approved = opt_eq→eq g.tip i.branch_tip (ground (arith, h));
    clean = ground (arith, h);
    merges = ground (arith, h);
    gates = ground (arith, h);
    landed = ground (arith, h);
  },
  (ground (arith, h), ground (arith, h)),
)

opt_eq-same : (a b : Option String) → a ≡ b → opt_eq a b ≡ true
opt_eq-same none b e = rw (← e) refl
opt_eq-same (some x) b e = rw (← e) ((eq_iff x x).1 refl)

Earned-process_item :
    (now : ℕ) (g : Git) (i : Item) (q : Queue)
    → Earned g i
    → (process_item now g false i q).0 ≡ merged
unfolding process_item finish is_stale fast_forward
Earned-process_item now g i q e = ground (
  arith,
  e.has_target,
  opt_eq-same g.tip i.verified_head e.verified,
  opt_eq-same g.tip i.branch_tip e.approved,
  e.clean,
  e.merges,
  e.gates,
  e.landed,
)

process_items-Earned :
    (now : ℕ) (g : Git) (dry_run : Bool) (items : List Item) (q : Queue)
    → items ≡ q.items
    → (process_items now g dry_run items q).0 ≡ merged
    → (dry_run ≡ false)
      × (i : Item) × (rest : List Item) × (q.items ≡ i ∷ rest)
      × Earned g i
      × ((process_items now g dry_run items q).1.items ≡ rest)
      × ((process_items now g dry_run items q).1.history
          ≡ q.history ++ record { item = i; status = merged; processed_at = now } ∷ [])
unfolding process_items
process_items-Earned now g dry_run [] q e h = absurd (ground (arith, h))
process_items-Earned now g dry_run (i ∷ rest) q e h =
    let (wet, earned, (left, noted)) = process_item-Earned now g dry_run i q h in
    (wet, i, rest, sym e, earned, left ∙ ap drop_first (sym e), noted)

Earned-process_items :
    (now : ℕ) (g : Git) (dry_run : Bool) (items : List Item) (q : Queue) (i : Item)
    (rest : List Item)
    → dry_run ≡ false
    → items ≡ i ∷ rest
    → Earned g i
    → (process_items now g dry_run items q).0 ≡ merged
unfolding process_items
Earned-process_items now g dry_run items q i rest wet e earned =
    rw (wet, e) (Earned-process_item now g i q earned)

-- A call merges exactly when it is no dry run and the queue has a first item whose branch is at its
-- verified head and its approved tip, merges cleanly into a target that is there, in the check and in the
-- throwaway worktree, passes the gates, and is taken by the target. That item then leaves the queue, and the
-- history ends with its merge.
pub process_next-Earned :
    (now : ℕ) (g : Git) (dry_run : Bool) (q : Queue)
    → ((process_next now g dry_run q).0 ≡ merged) ↔ (
        (dry_run ≡ false)
        × (i : Item) × (rest : List Item) × (q.items ≡ i ∷ rest)
        × Earned g i
        × ((process_next now g dry_run q).1.items ≡ rest)
        × ((process_next now g dry_run q).1.history
            ≡ q.history ++ record { item = i; status = merged; processed_at = now } ∷ []))
unfolding process_next
process_next-Earned now g dry_run q = (
  process_items-Earned now g dry_run q.items q refl,
  λ (wet, i, rest, e, earned, _, _).
      Earned-process_items now g dry_run q.items q i rest wet e earned,
)

has-append : (k : String) (xs ys : List String) → has k (xs ++ k ∷ ys) ≡ true
has-append k [] ys = ground (arith, eq_iff k k)
has-append k (x ∷ xs) ys = ground (arith, has-append k xs ys)

append_assoc : (xs ys zs : List String) → (xs ++ ys) ++ zs ≡ xs ++ (ys ++ zs)
append_assoc [] ys zs = refl
append_assoc (x ∷ xs) ys zs = ap (λ rest. x ∷ rest) (append_assoc xs ys zs)

all_ok-blocked :
    (cs ds : List Checked) (name : String) (b : Bool)
    → b ≡ false
    → all_ok (cs ++ (name, b) ∷ ds) ≡ false
all_ok-blocked [] ds name b h = ground (arith, h)
all_ok-blocked (c ∷ cs) ds name b h = ground (arith, all_ok-blocked cs ds name b h)

enqueue-blocked :
    (now : ℕ) (a : Asked) (b : Branch) (dry_run : Bool) (broker : Option Broker) (q : Queue)
    → not_replayed a.rid q ≡ false
    → (enqueue now a b dry_run broker q).succeeded ≡ false
unfolding enqueue enqueue_checks
enqueue-blocked now a b dry_run broker q h =
    rw
      (all_ok-blocked (first_checks now a b broker) _ "approval_not_replayed" (not_replayed a.rid q)
        h)
      refl

-- The id of the request of an enqueued unit is among the consumed approvals.
enqueue-consumed :
    (now : ℕ) (a : Asked) (b : Branch) (broker : Option Broker) (q : Queue)
    → (enqueue now a b false broker q).changed ≡ true
    → (enqueue now a b false broker q).queue.consumed_approvals
      ≡ q.consumed_approvals ++ or_else a.rid "" ∷ []
unfolding enqueue take_checked take_in
enqueue-consumed now a b none q h = ground (arith, h)
enqueue-consumed now a b (some broker) q h = ground (arith, h)

replayed :
    (id : String) (q : Queue) (xs : List String)
    → q.consumed_approvals ≡ xs ++ id ∷ []
    → not_replayed (some id) q ≡ false
unfolding not_replayed
replayed id q xs e =
    let there : has id (q.consumed_approvals ++ request_ids q.items) ≡ true =
      rw (e, append_assoc) (has-append id xs (request_ids q.items)) in
    rw there (ground arith)

-- An approval that a unit was queued with is refused for any other that is enqueued next, whatever the
-- branch, the broker and the rest of the request are.
pub enqueue-once :
    (now later : ℕ) (a a' : Asked) (b b' : Branch) (dry_run : Bool) (broker broker' : Option Broker)
    (q : Queue) (id : String)
    → a.rid ≡ some id
    → a'.rid ≡ some id
    → (enqueue now a b false broker q).changed ≡ true
    → (enqueue later a' b' dry_run broker' (enqueue now a b false broker q).queue).succeeded ≡ false
enqueue-once now later a a' b b' dry_run broker broker' q id same same' taken =
    let q1 = (enqueue now a b false broker q).queue in
    let kept : q1.consumed_approvals ≡ q.consumed_approvals ++ id ∷ [] =
      enqueue-consumed now a b broker q taken
      ∙ ap (λ o. q.consumed_approvals ++ or_else o "" ∷ []) same in
    enqueue-blocked later a' b' dry_run broker' q1
      (ap (λ o. not_replayed o q1) same' ∙ replayed id q1 q.consumed_approvals kept)
