-- ===== src/Runs/Replay.antt =====
-- `_apply_event` of src/openclaw_ecc_orchestrator/runs/manager.py: how one event of the log changes
-- the run document, and the fold of a list of events.
use openclaw_ecc_orchestrato.Prelude.{
  if◌then◌else◌, str_eq, String, ◌≡◌, refl, Bool, false, ◌||◌, Option, none, some, List, [], ◌∷◌,
  ◌++◌,
}
use openclaw_ecc_orchestrato.Prelude.Dict.{put}
use openclaw_ecc_orchestrato.Runs.Result.{run_error, Result, ok, err, ◌>>=◌}
use openclaw_ecc_orchestrato.Runs.Document.{
  UnitRecord, Handoff, Run, EventData, run_created, run_replanned, state_changed, unit_updated,
  lease_acquired, lease_renewed, lease_released, lease_transferred, handoff_recorded, run_resumed,
  Event,
}

abbrev pub set_unit : String → UnitRecord → Run → Run
set_unit uid unit run = record run { units = put uid unit run.units }

unfoldable pub has_handoff : String → List Handoff → Bool
has_handoff k [] = false
has_handoff k (h ∷ rest) = str_eq h.id k || has_handoff k rest

-- A handoff is added unless one of its id is there.
unfoldable pub add_handoff : Handoff → Run → Run
unfolding has_handoff
add_handoff h run =
    if has_handoff h.id run.handoffs then run else record run { handoffs = run.handoffs ++ h ∷ [] }

unfoldable pub add_optional : Option Handoff → Run → Run
unfolding add_handoff
add_optional none run = run
add_optional (some h) run = add_handoff h run

-- What the data of an event does to a document that is there.
unfoldable pub apply_data : EventData → Run → Run
unfolding add_handoff add_optional
apply_data (run_created doc c) run = doc
apply_data (run_replanned doc c) run = doc
apply_data (state_changed uid from to reason c unit) run = set_unit uid unit run
apply_data (unit_updated uid unit) run = set_unit uid unit run
apply_data (lease_acquired lease previous handoff) run =
    add_optional handoff (record run { lease = lease })
apply_data (lease_renewed lease) run = record run { lease = lease }
apply_data (lease_released lease) run = record run { lease = lease }
apply_data (lease_transferred lease handoff) run =
    add_handoff handoff (record run { lease = lease })
apply_data (handoff_recorded uid unit handoff) run = add_handoff handoff (set_unit uid unit run)
apply_data (run_resumed c previous gone unsure) run = run

-- With no document, only the creation of a run gives one; anything else raises `RunError`.
start_document : EventData → Result Run
start_document (run_created doc c) = ok doc
start_document (run_replanned doc c) = ok doc
start_document _ = err run_error

unfoldable pub apply_event : Option Run → Event → Result Run
unfolding start_document apply_data
apply_event none event = do
  doc ← start_document event.info
  ok (record doc { last_event_seq = event.seq })
apply_event (some run) event =
    ok (record (apply_data event.info run) { last_event_seq = event.seq })

unfoldable pub apply_events : Option Run → List Event → Result (Option Run)
unfolding apply_event
apply_events doc [] = ok doc
apply_events doc (event ∷ rest) = do run ← apply_event doc event; apply_events (some run) rest

-- The data alone, in order: what a transaction's events do to its run.
unfoldable pub replay_data : List EventData → Run → Run
unfolding apply_data
replay_data [] run = run
replay_data (d ∷ rest) run = replay_data rest (apply_data d run)

pub replay_data-append :
    (ds es : List EventData) (run : Run)
    → replay_data (ds ++ es) run ≡ replay_data es (replay_data ds run)
unfolding replay_data
replay_data-append [] es run = refl
replay_data-append (d ∷ ds) es run = replay_data-append ds es (apply_data d run)
