-- ===== src/Lib.antt =====
-- Verification of the OpenClaw ECC orchestrator: a conductor drives the units of a plan through coding
-- agents, reviews and merges. What is modelled is the core of it, the analysis of a plan, the run
-- manager, the classification and the routing of a unit, the choice of its runner and its reviewer, the
-- scopes of units, the dispatcher, the merge queue, the approvals, the rotation of a team and the health
-- monitor; the paths below are from the repository's root.
--
-- src/openclaw_ecc_orchestrator/runs, module Runs:
-- * Runs.State is state.py, the states of a unit and TRANSITIONS; Runs.State.Walks its histories.
-- * Runs.Document and Runs.Replay are the run document and `_apply_event` of manager.py.
-- * Runs.Liveness is `process_liveness` and `capture_identity` of liveness.py, over a probe.
-- * Runs.Manager is manager.py: Tx has `_set_state`, `_promote_ready` and `_touch`; Store has the log and
--   the snapshot of store.py, `_load_unlocked` and `_mutate`; Leases, Assign, Progress and Resume have
--   the public mutations, which Commands makes one type `Command`, with `perform` for what a method
--   hands to `_mutate` and `call` for the whole method.
-- * Runs.Manager.Creation is `create_run` and `_replace_run`.
-- * The proofs are in two chains: Tracking, Describing, Writes, Described, Recovery and Calls are about
--   events and crashes; Steps, Stepping, Refinement, Commanded and Invariants about the small steps of
--   one unit that a command is made of.
-- * Runs.Dag is `analyze_plan` of dag.py: Searching, Walks and Cycles are the proofs about its search for
--   a cycle, Layers, Complete and Accepted those about the layers.
-- src/openclaw_ecc_orchestrator/routing, module Routing:
-- * Routing.Breaker is breaker.py, and Routing.Breaker.Counting its count of failures.
-- * Routing.Escalation and Routing.Escalation.Deciding are escalation.py, which tells the breaker of
--   every attempt; Bounds, Ending and Rules have its proofs.
-- * Routing.Classify is classify.py: Tokens has the words of a text, Tiers and Reviews the proofs.
-- * Routing.Registry is the profiles and `model_family` of runners/registry.py.
-- * Routing.Selection is selection.py, with `live_models`, `rank_models` and `model_pricing` of
--   runners/discovery.py; Cheapest and Independent have its proofs, Reviewers the choice of a reviewer.
--
-- src/openclaw_ecc_orchestrator/tasks/scope.py, module Tasks.Scope: the globs of a scope, in Covers which
-- paths a scope covers, and in Reference, Glob, Safety and
-- Coverage what they are to match. Prelude.Fnmatch is `fnmatchcase` of Python for a text and a pattern.
-- src/openclaw_ecc_orchestrator/team/rotation.py, module Team.Rotation.
--
-- src/openclaw_ecc_orchestrator/plugin/approvals.py, module Plugin.Approvals: the requests and the checks,
-- in Brokering the operations of the broker, in Once and Binds its proofs.
-- src/openclaw_ecc_orchestrator/plugin/inbox.py, module Plugin.Inbox: the decision files, which `process_one`
-- hands to the broker; in Twice the proofs about a crash between the two.
-- src/openclaw_ecc_orchestrator/process/health.py, module Process.Health: the monitor and its settings, and
-- in Streak its count of flat checks. Runs.Identifier is `valid_identifier` of runs/store.py, which the
-- broker checks the ids of a request with.
-- src/openclaw_ecc_orchestrator/merge_queue/queue.py, module MergeQueue: `enqueue`, which consumes an
-- approval of the broker, and in Merging `process_next` and the proofs. MergeQueue.Conflicts is
-- conflicts.py, which compares the scopes of two units, and MergeQueue.Dispatch is `plan_dispatch` of
-- dispatch.py, which keeps units that may conflict from running beside one another. In
-- MergeQueue.Conflicts.Meeting is which files two scopes share, read off the entries: a directory against a
-- glob that reaches below it is not among them, since the source tries a single name there.
--
-- The manager and the controller meet in the unit record: the controller's grant is the annotation
-- `budget_grant`, which the manager's budget reads too.
--
-- Conventions. A text of a message or of an event's detail is left out, and so are the payload `data` and
-- the warnings of an envelope. An operation reads the clock once. Times are whole numbers of a small
-- unit, and costs too; in the escalation the unit is 1e-12 USD, the tolerance of the source. Files are
-- values: an append to the log and the save of the snapshot are atomic, one after the other, and the lock
-- of a run is held throughout. In the manager and in the queue the classifier of plan units, the report on
-- a plan, the validators of documents, the liveness check, the probe and the generator of ids are arguments, and the theorems hold for all of them, except
-- that a generated id is fresh where a theorem says so. A text that is
-- taken apart, as a glob or a path is, is a list of code points. Loops are by recursion on lists; only
-- the two loops of Runs.Dag have fuel, the number of units and one for the search, and the number of
-- units for the layers, and both are proved to be enough.
--
-- Not modelled: the hash of a plan, its lint and repair, the conductor's loop, the external emitter, the
-- dispatch of a unit to a runner's process, the changed files and the statistics of a diff, the discovery
-- of models and certified runners over the network, team delivery besides the rotation, and the
-- validators of schemas.py; and what is input and output only: the command line, the runner adapters, the
-- gates, the worktrees. What these report is an argument where a modelled operation reads it.
pub mod Prelude
pub mod MergeQueue
pub mod Plugin
pub mod Process
pub mod Routing
pub mod Runs
pub mod Tasks
pub mod Team
