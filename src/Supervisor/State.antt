-- ===== src/Supervisor/State.antt =====
-- supervisor.py: the snapshot, the supervisor object, and the values that it exchanges.
use agent_session_harness.Prelude.{ℕ, String, Bool, false, Option, none, List, []}
use agent_session_harness.Models.{Confidence, RuntimeLiveness}

pub data Phase : Type 0 where
  initial running warning draining checkpointing checkpointed fencing fenced : Phase
  stopping stopped claiming launching awaiting_ack completed blocked : Phase

-- `ClaimHandle` of coordinator.py, without the task's three constants.
pub record ClaimHandle : Type 0 where
  pub claim_id : String
  pub lease_epoch : ℕ
  pub owner_session_id : String

-- `ManagedProcess` of process.py.
pub record ManagedProcess : Type 0 where
  pub pid : ℕ
  pub process_group_id : ℕ
  pub registry_key : String
  pub identity : Option String
  pub command_digest : Option String
  pub launch_nonce : Option String
  pub supersedes_launch_nonce : Option String

pub data ExitReason : Type 0 where
  natural supervisor_stop watchdog_expired state_invalid supervision_degraded : ExitReason
  process_group_unverified acknowledgement_failed unknown : ExitReason

-- `returned_zero` is `return_code == 0`, the only test of the code.
pub record ExitStatus : Type 0 where
  pub returned_zero : Bool
  pub reason : ExitReason

pub record UsageObservation : Type 0 where
  pub conversation_id : String
  pub context_percent : ℕ
  pub confidence : Confidence
  pub context_tokens : Option ℕ
  pub window_tokens : Option ℕ
  pub cumulative_tokens : Option ℕ

-- The texts of the alarms: the two of usage sampling, one with its sanitized cause, and one for each
-- reporting fault, and the one of a shutdown that left the runtime running.
pub data Alarm : Type 0 where
  sampling_not_confident : Alarm
  sampling_failed : String → Alarm
  hooks_silent : RuntimeLiveness → Alarm
  detached : Alarm

-- The fields of the snapshot that usage sampling writes.
pub record UsageFields : Type 0 where
  pub context_percent : Option ℕ
  pub context_confidence : Confidence
  pub context_tokens : Option ℕ
  pub window_tokens : Option ℕ
  pub cumulative_tokens : Option ℕ
  pub usage_sample_failure_streak : ℕ
  pub non_confident_sample_streak : ℕ
  pub usage_alarm : Option Alarm

-- The fields by which a self-compaction is acted on once.
pub record CompactionFields : Type 0 where
  pub pre_compact_consumed : ℕ
  pub pre_compact_consumed_identity : Option String
  pub pre_compact_consumed_identities : List String
  pub handoff_consent_invalidated_at : ℕ
  pub handoff_consent_invalidated_identity : Option String
  pub handoff_consent_invalidated_identities : List String
  pub self_compaction_pending : Bool
  pub self_compaction_pending_until : Option ℕ

pub record LivenessFields : Type 0 where
  pub runtime_silence_streak : ℕ
  pub runtime_silence_since : Option ℕ
  pub liveness_alarm : Option Alarm

-- `SupervisorSnapshot`; `owner_session_id` is the generation in its text. The source's fields are flat; those of the process, which it always sets
-- and clears together, are one field here. The constants of a run are left out.
pub record Snapshot : Type 0 where
  pub generation : ℕ
  pub successor_attempt : ℕ
  pub phase : Phase
  pub owner_session_id : Option ℕ
  pub conversation_id : Option String
  pub claim : Option ClaimHandle
  pub process : Option ManagedProcess
  pub last_heartbeat_at : Option ℕ
  pub successor_ack_deadline_at : Option ℕ
  pub checkpoint_fingerprint : Option String
  pub checkpoint_path : Option String
  pub warning_emitted : Bool
  pub usage : UsageFields
  pub compaction : CompactionFields
  pub liveness : LivenessFields
  pub supervision_alarm : Option Alarm

abbrev pub initial_usage : UsageFields
initial_usage = record {
  context_percent = none;
  context_confidence = Confidence.unknown;
  context_tokens = none;
  window_tokens = none;
  cumulative_tokens = none;
  usage_sample_failure_streak = 0;
  non_confident_sample_streak = 0;
  usage_alarm = none;
}

abbrev pub initial_compaction : CompactionFields
initial_compaction = record {
  pre_compact_consumed = 0;
  pre_compact_consumed_identity = none;
  pre_compact_consumed_identities = [];
  handoff_consent_invalidated_at = 0;
  handoff_consent_invalidated_identity = none;
  handoff_consent_invalidated_identities = [];
  self_compaction_pending = false;
  self_compaction_pending_until = none;
}

abbrev pub initial_liveness : LivenessFields
initial_liveness = record {
  runtime_silence_streak = 0;
  runtime_silence_since = none;
  liveness_alarm = none;
}

abbrev pub initial_snapshot : Snapshot
initial_snapshot = record {
  generation = 0;
  successor_attempt = 0;
  phase = initial;
  owner_session_id = none;
  conversation_id = none;
  claim = none;
  process = none;
  last_heartbeat_at = none;
  successor_ack_deadline_at = none;
  checkpoint_fingerprint = none;
  checkpoint_path = none;
  warning_emitted = false;
  usage = initial_usage;
  compaction = initial_compaction;
  liveness = initial_liveness;
  supervision_alarm = none;
}

-- The arguments of `__init__` that the methods read.
pub record Settings : Type 0 where
  pub chain_id : String
  pub warn_percent : ℕ
  pub rotate_percent : ℕ
  pub heartbeat_interval : ℕ
  pub successor_retry_limit : ℕ
  pub successor_ack_timeout : ℕ
  pub usage_failure_alarm_ticks : ℕ
  pub non_confident_rotation_tolerance_ticks : ℕ
  pub runtime_silence_alarm_ticks : ℕ
  pub runtime_silence_grace : ℕ

-- The names and statuses of the effect ledger.
pub data Effect : Type 0 where
  claim_effect launch_effect checkpoint_effect stop_effect fence_effect : Effect
  acknowledge_effect successor_attempt_effect successor_retry_effect rotation_effect : Effect
  usage_sample_effect runtime_liveness_effect terminal_exit_effect detach_effect : Effect

pub data Status : Type 0 where
  started finished failed scheduled recovered alarm canceled_by_self_compaction : Status

-- What a supervisor does to the world, in the order it is done: the lines of the effect ledger,
-- the writes of the snapshot, and the calls of its collaborators.
pub data Call : Type 0 where
  effect : Effect → Status → ℕ → Call
  persist : Snapshot → Call
  read_clock : Call
  probe_alive probe_exit stop_process clear_exit : ManagedProcess → Call
  start_process verify_acknowledgement append_event : ℕ → Call
  make_checkpoint : String → ℕ → Call
  read_capsule : String → Call
  claim_task : ℕ → Call
  heartbeat_claim fence_claim : ClaimHandle → Call
  read_ack clear_ack clear_abort clear_stop_request : Call

abbrev pub Trace : Type 0
Trace = List Call

-- The supervisor object. `disk` is the state file, and the trace has the newest call first.
pub record Supervisor : Type 0 where
  pub snapshot : Snapshot
  pub disk : Snapshot
  pub current_process : Option ManagedProcess
  pub successor_abort_pending : Bool
  pub trace : Trace
