-- ===== src/Plugin/Inbox.antt =====
-- `DecisionInbox` of src/openclaw_ecc_orchestrator/plugin/inbox.py, over the content of the inbox's
-- directory and of its `processed` directory. The listing of the directory is an argument, and so is
-- whether the claim of a file (its lock, and that the name still points at it) is had.
pub mod Twice
use openclaw_ecc_orchestrato.Prelude.{
  if◌then◌else◌, ℕ, String, Bool, true, false, Option, none, some, List, [], ◌∷◌,
}
use openclaw_ecc_orchestrato.Prelude.Dict.{Dict, get, put, pop}
use openclaw_ecc_orchestrato.Plugin.Approvals.{Broker, Decision}
use openclaw_ecc_orchestrato.Plugin.Approvals.Brokering.{Answer, resolve, preview}

-- What stands under a name: a regular file that holds a decision, one that is too large, holds no JSON
-- or no object, one that cannot be opened, a symlink, or a file of another type.
pub data DecisionFile : Type 0 where
  symlink other_type unopenable too_large not_json not_object : DecisionFile
  holds : Decision → DecisionFile

-- The answers of `_open`.
pub data Opened : Type 0 where
  gone refuse : Opened
  opened : DecisionFile → Opened

pub record Inbox : Type 0 where
  pub files : Dict DecisionFile
  pub processed : Dict DecisionFile
  pub results : Dict Answer
  pub broker : Broker

-- What a pass finds at a file: the time, and whether the claim is had.
pub record Claim : Type 0 where
  pub now : ℕ
  pub claimed : Bool

-- `_open`
unfoldable pub open_file : Option DecisionFile → Opened
open_file none = gone
open_file (some symlink) = refuse
open_file (some other_type) = gone
open_file (some unopenable) = refuse
open_file (some e) = opened e

-- `_read_fd`
unfoldable pub read_file : DecisionFile → Option Decision
read_file (holds d) = some d
read_file _ = none

-- `_refusal`
unfoldable pub refused_file : String → Answer
refused_file name = record { succeeded = false; changed = false; checks = (name, false) ∷ [] }

-- `os.replace` of the decision into `processed`; a file that is gone is left.
unfoldable pub move_file : String → Option DecisionFile → Inbox → Inbox
move_file name none st = st
move_file name (some e) st = record st {
  files = pop name st.files;
  processed = put name e st.processed;
}

-- `_record`
unfoldable pub record_result : String → Answer → Inbox → Inbox
unfolding move_file
record_result name a st =
    move_file name (get name st.files) (record st { results = put name a st.results })

-- `_finish`
unfoldable pub finish_file : String → Answer → Inbox → Option Answer × Inbox
unfolding record_result
finish_file name a st = (some a, record_result name a st)

-- The write of the broker's state, step 2.
unfoldable pub resolve_decision : ℕ → Decision → Inbox → Answer × Inbox
unfolding resolve
resolve_decision now d st = let (a, b) = resolve now d st.broker in (a, record st { broker = b })

unfoldable pub process_read : ℕ → String → Option Decision → Inbox → Option Answer × Inbox
unfolding finish_file refused_file resolve_decision
process_read now name none st = finish_file name (refused_file "decision_readable") st
process_read now name (some d) st =
    let (a, after) = resolve_decision now d st in finish_file name a after

unfoldable pub process_opened : Claim → String → Opened → Inbox → Option Answer × Inbox
unfolding finish_file refused_file process_read read_file
process_opened c name gone st = (none, st)
process_opened c name refuse st = finish_file name (refused_file "decision_readable") st
process_opened c name (opened e) st =
    if c.claimed then process_read c.now name (read_file e) st else (none, st)

-- `process_one`
unfoldable pub process_one : Claim → String → Inbox → Option Answer × Inbox
unfolding process_opened open_file
process_one c name st = process_opened c name (open_file (get name st.files)) st

unfoldable pub reject_opened : Claim → String → String → Opened → Inbox → Option Answer × Inbox
unfolding finish_file refused_file
reject_opened c name check gone st = (none, st)
reject_opened c name check refuse st = finish_file name (refused_file "decision_readable") st
reject_opened c name check (opened e) st =
    if c.claimed then finish_file name (refused_file check) st else (none, st)

-- `reject`
unfoldable pub reject_file : Claim → String → String → Inbox → Option Answer × Inbox
unfolding reject_opened open_file
reject_file c name check st = reject_opened c name check (open_file (get name st.files)) st

add_answer : Option Answer → List Answer → List Answer
add_answer none rest = rest
add_answer (some a) rest = a ∷ rest

-- The loop of `process`, over the names that are listed.
process_each : (String → Claim) → List String → Inbox → List Answer × Inbox
unfolding process_one add_answer
process_each claim [] st = ([], st)
process_each claim (name ∷ names) st =
    let (a, next) = process_one (claim name) name st in
    let (rest, last) = process_each claim names next in (add_answer a rest, last)

-- The answer of a dry run.
dry_answer : List String → List Answer
dry_answer [] = []
dry_answer names = record { succeeded = true; changed = false; checks = [] } ∷ []

-- `process`
unfoldable pub process :
    (dry_run : Bool) → (String → Claim) → List String → Inbox → List Answer × Inbox
unfolding process_each dry_answer
process dry_run claim names st =
    if dry_run then (dry_answer names, st) else process_each claim names st

unfoldable pub preview_opened : ℕ → Opened → Broker → Option Answer
unfolding refused_file preview read_file
preview_opened now gone b = none
preview_opened now refuse b = some (refused_file "decision_readable")
preview_opened now (opened (holds d)) b = some (preview now d b)
preview_opened now (opened _) b = some (refused_file "decision_readable")

-- `preview_one`
unfoldable pub preview_one : ℕ → String → Inbox → Option Answer
unfolding preview_opened open_file
preview_one now name st = preview_opened now (open_file (get name st.files)) st.broker

-- The inbox after a crash in `process_one` between the broker's write and the record of the result: the
-- file stays where it was.
unfoldable pub crashed : Claim → String → Inbox → Inbox
unfolding process_one
crashed c name st = record st { broker = (process_one c name st).1.broker }
