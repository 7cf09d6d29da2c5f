-- ===== src/Runs/Manager/Recovery.antt =====
-- The log and the snapshot: a crash between the append of a command's events and the save of the
-- snapshot loses nothing, src/openclaw_ecc_orchestrator/runs/manager.py.
use Prim.Native.Nat.{max}
use openclaw_ecc_orchestrato.Prelude.{
  ltb, lt→ltb, keep, keep-append, ℕ, ◌+◌, ◌≤◌, ◌≡◌, refl, sym, ap, Option, none, some, List, [],
  ◌∷◌, ◌++◌, arith,
}
use openclaw_ecc_orchestrato.Runs.Result.{ok, ok-injective, >>=-elim}
use openclaw_ecc_orchestrato.Runs.Document.{
  Run, EventData, run_created, lease_acquired, lease_transferred, handoff_recorded, Event,
}
use openclaw_ecc_orchestrato.Runs.Replay.{apply_data, apply_event, apply_events, replay_data}
use openclaw_ecc_orchestrato.Runs.Manager.Store.{
  Store, max_seq, last_seq, append_event, read_events, base_seq, load, append_events,
}

-- The snapshot is not ahead of the log.
abbrev pub IsSound : Store → Type 0
IsSound s = base_seq s.snapshot ≤ last_seq s

abbrev pub at_seq : ℕ → Run → Run
at_seq n run = record run { last_event_seq = n }

max_seq-append : (es : List Event) (e : Event) → max_seq (es ++ e ∷ []) ≡ max (max_seq es) e.seq
unfolding max_seq
max_seq-append [] e = omega arith
max_seq-append (x ∷ es) e = omega (arith, max_seq-append es e)

-- Nothing is read after the last number.
pub keep_none : (n : ℕ) (es : List Event) → max_seq es ≤ n → keep (λ e. ltb n e.seq) es ≡ []
unfolding max_seq
keep_none n [] h = refl
keep_none n (x ∷ es) h = ground (arith, keep_none n es)

apply_event-some :
    (e : Event) (run : Run)
    → apply_events (some run) (e ∷ []) ≡ ok (some (at_seq e.seq (apply_data e.info run)))
unfolding apply_events apply_event
apply_event-some e run = refl

apply_events-append :
    (doc : Option Run) (es : List Event) (e : Event) (run : Run)
    → apply_events doc es ≡ ok (some run)
    → apply_events doc (es ++ e ∷ []) ≡ ok (some (at_seq e.seq (apply_data e.info run)))
unfolding apply_events
apply_events-append doc [] e run h = rw (ok-injective h) (apply_event-some e run)
apply_events-append doc (x ∷ es) e run h =
    >>=-elim (apply_event doc x) (λ run'. apply_events (some run') es) h
      λ run' one rest. rw one (apply_events-append (some run') es e run rest)

load-eq-ok :
    (s : Store) (run : Run)
    → load s ≡ ok run
    → apply_events s.snapshot (read_events (base_seq s.snapshot) s) ≡ ok (some run)
unfolding load
load-eq-ok s run h = ground arith

abbrev next_event : EventData → Store → Event
next_event d s = record { seq = last_seq s + 1; info = d }

snapshot-append_event : (d : EventData) (s : Store) → (append_event d s).snapshot ≡ s.snapshot
unfolding append_event
snapshot-append_event d s = refl

read_events-append_event :
    (d : EventData) (n : ℕ) (s : Store)
    → n ≤ last_seq s
    → read_events n (append_event d s) ≡ read_events n s ++ next_event d s ∷ []
unfolding append_event read_events
read_events-append_event d n s h = rw (keep-append, lt→ltb n (max_seq s.log + 1) (omega arith))

pub load-eq :
    (s : Store) (run : Run) (doc : Option Run) (es : List Event)
    → s.snapshot ≡ doc
    → read_events (base_seq doc) s ≡ es
    → apply_events doc es ≡ ok (some run)
    → load s ≡ ok run
unfolding load
load-eq s run doc es snap events h = ground arith

-- One event more: the run that is loaded takes it.
load-append_event :
    (d : EventData) (s : Store) (run : Run)
    → IsSound s
    → load s ≡ ok run
    → load (append_event d s) ≡ ok (at_seq (last_seq s + 1) (apply_data d run))
load-append_event d s run sound h =
    let es = read_events (base_seq s.snapshot) s in
    load-eq (append_event d s) (at_seq (last_seq s + 1) (apply_data d run)) s.snapshot
      (es ++ next_event d s ∷ []) (snapshot-append_event d s)
      (read_events-append_event d (base_seq s.snapshot) s sound)
      (apply_events-append s.snapshot es (next_event d s) run (load-eq-ok s run h))

last_seq-append_event : (d : EventData) (s : Store) → last_seq (append_event d s) ≡ last_seq s + 1
unfolding append_event last_seq
last_seq-append_event d s =
    omega (arith, max_seq-append s.log (record { seq = max_seq s.log + 1; info = d }))

append_event-IsSound : (d : EventData) (s : Store) → IsSound s → IsSound (append_event d s)
append_event-IsSound d s h = rw (last_seq-append_event, snapshot-append_event) (omega arith)

-- Runs that differ in the number of their last event alone.
abbrev Alike : Run → Run → Type 0
Alike a b = at_seq 0 a ≡ at_seq 0 b

apply_data-at_seq :
    (d : EventData) (run : Run)
    → at_seq 0 (apply_data d run) ≡ at_seq 0 (apply_data d (at_seq 0 run))
unfolding apply_data
apply_data-at_seq (run_created doc c) run = refl
apply_data-at_seq (lease_acquired lease previous none) run = refl
apply_data-at_seq (lease_acquired lease previous (some h)) run = ground arith
apply_data-at_seq (lease_transferred lease h) run = ground arith
apply_data-at_seq (handoff_recorded uid unit h) run = ground arith
apply_data-at_seq _ run = refl

replay_data-Alike :
    (ds : List EventData) (a b : Run) → Alike a b → Alike (replay_data ds a) (replay_data ds b)
unfolding replay_data
replay_data-Alike [] a b h = h
replay_data-Alike (d ∷ ds) a b h =
    replay_data-Alike ds (apply_data d a) (apply_data d b)
      (cc (apply_data-at_seq d a, apply_data-at_seq d b, ap (λ r. at_seq 0 (apply_data d r)) h))

Alike→eq : (a b : Run) → Alike a b → a.last_event_seq ≡ b.last_event_seq → a ≡ b
Alike→eq a b h e = ground arith

-- The loop of appends: what is loaded then is the run that `_mutate` saves.
pub load-append_events :
    (ds : List EventData) (stored work : Run) (s : Store)
    → IsSound s
    → load s ≡ ok stored
    → Alike (replay_data ds stored) work
    → stored.last_event_seq ≡ work.last_event_seq
    → load (append_events ds work s).1 ≡ ok (append_events ds work s).0
unfolding append_events replay_data
load-append_events [] stored work s sound h alike e = rw (← Alike→eq stored work alike e) h
load-append_events (d ∷ ds) stored work s sound h alike e =
    let s' = append_event d s in
    let stored' = at_seq (last_seq s + 1) (apply_data d stored) in
    load-append_events ds stored' (at_seq (last_seq s') work) s' (append_event-IsSound d s sound)
      (load-append_event d s stored sound h)
      (cc (replay_data-Alike ds stored' (apply_data d stored) refl, alike))
      (sym (last_seq-append_event d s))
