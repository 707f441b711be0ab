-- ===== src/Lib.antt =====
-- agent-session-harness: supervised coding-agent sessions that hand over to a fresh successor
-- before their context is full. This library models the parts under agent_session_harness (in the
-- repository's src/ folder) that decide when and how a session is rotated.
--
-- How the parts interact. Runtime hooks append lifecycle events to a ledger (ledger.py); each tick
-- folds them into an activity snapshot. The supervisor (supervisor.py) takes the snapshot and a
-- usage sample, warns and drains at its thresholds, and once the runtime has asked to hand off and
-- is idle, runs the rotation: checkpoint, stop, fence, claim, launch, acknowledgement. governor.py
-- is the same state machine as a pure function. resource_guardian.py decides what becomes of the
-- resources that sessions leave behind. daemon_supervisor.py keeps one background daemon running.
--
-- Models        models.py, activity.py: shared enumerations and value objects.
-- Events        events.py: LifecycleEvent and its identity rule.
-- Governor      governor.py, config.py: Governor.evaluate and the validation of the thresholds.
-- Ledger        ledger.py: EventLedger.materialize; Ledger.Read is _read_events with its cache.
-- Supervisor    supervisor.py. State holds SupervisorSnapshot and the object; World the
--               collaborators; Exec the statements of the methods; Heartbeat, Rotation, Usage,
--               Compaction, Liveness, Acknowledge, Tick and Start the methods of these names
--               (_heartbeat_if_due, _advance_rotation with _retry_successor_unlocked,
--               _observe_usage, _release_drain_on_self_compaction, _observe_runtime_liveness,
--               _acknowledge_unlocked, _tick_unlocked, _start_unlocked), and Shutdown
--               _shutdown_unlocked with _runtime_was_adopted.
--               Post, Sound and Keeps are the rules by which the methods are proved, Journal the
--               order of a rotation as a test on the history.
-- Resources     resource_guardian.py: decide_guardian_action.
-- Safety        safety.py: merge_project_safety.
-- Capsule       capsule.py: the validation of HandoffCapsule and of its fingerprint.
-- Outbox        outbox.py: MirrorOutbox with its two files; Outbox.Replay is `replay`. The
--               messages of adapters/command.py stand here.
-- Checkpoint    checkpoint.py: CheckpointManager, over the outbox and the adapters.
-- Registry      resource_registry.py: ResourceRegistry.
-- Finalization  finalization.py: FinalizationStore.
-- Daemon        daemon_lifecycle.py, daemon_supervisor.py: start, stop, restart and status of a
--               supervised daemon. Exec holds the statements, Launch and Control the methods,
--               Grants the rules by which the methods are proved.
-- Examples      concrete runs, and the theorems applied to them.
--
-- Conventions. A datetime is a number of microseconds, a percentage a number in a fixed unit, as
-- the code only compares them. The supervisor's methods run under a lock and are state passing
-- with exceptions; every call of a collaborator (clock, process driver, checkpoint manager,
-- coordinator, the capsule's file and the event ledger) is noted in a history and answered by an
-- arbitrary function of it, which may raise. A finishing status of the effect log is `finished` where the source writes "completed".
-- The rotation loop runs on fuel, the limit of retries plus ten rounds: one for each phase and one
-- for each retry. Running out is an error of its own, `diverged`. Writing the state file and the
-- effect log, reading and clearing the file of an acknowledgement, and clearing the markers of an
-- aborted runtime and of a requested stop are taken to succeed. The files of the outbox, the registry and the finalization are
-- values that a call takes and returns; the canonical JSON of a record enters by its size and by
-- whether a character of it ends a line. A record stands for an object that has been validated: the
-- bounds of a resource's texts and of a registration's identifier, and that a resource has an
-- identity, are not part of it. What other processes do to the outbox while a replay calls
-- the adapters is any sequence of the same operations.
--
-- Not modelled: file formats and locks, the processes and the network behind the collaborators,
-- the loading of a state file, which also precedes a tick and a shutdown, and the components around
-- the supervisor: the command line, hooks, the adapters themselves, reports, the server of
-- the daemons and the guardian's service. Of a daemon the failures of `ps`, of `wait` and
-- of killpg (but that the group does not exist) are left out, and a child is known by its pid.
pub mod Prelude
pub mod Models
pub mod Events
pub mod Governor
pub mod Ledger
pub mod Supervisor
pub mod Resources
pub mod Safety
pub mod Capsule
pub mod Outbox
pub mod Checkpoint
pub mod Registry
pub mod Finalization
pub mod Daemon
pub mod Examples
