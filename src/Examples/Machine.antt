-- ===== src/Examples/Machine.antt =====
-- Supervisors of supervisor.py in the middle of a rotation, with collaborators that succeed.
use agent_session_harness.Prelude.{
  ℕ, ◌+◌, ◌≡◌, ◌≢◌, refl, Bool, true, false, not, none, some, List, [], ◌∷◌, any, length,
  if◌then◌else◌,
}
use agent_session_harness.Models.{
  confident, Quiescence, RuntimeLiveness, ActivitySnapshot, LifecycleSignal, is_faulted,
}
use agent_session_harness.Supervisor.State.{
  Snapshot, Supervisor, Settings, Trace, Call, ManagedProcess, ClaimHandle, start_process,
  stop_process, launching, initial_snapshot, claim_task, effect, claim_effect, fencing,
  fence_effect, stop_effect, started, finished, fence_claim, probe_alive, make_checkpoint,
  read_clock,
}
use agent_session_harness.Supervisor.World.{World, answered}
use agent_session_harness.Supervisor.Exec.{
  err, diverged, pure, continue_with, ◌>>=◌, ◌>>◌, choose, raise, fail, attempt, get, to_result,
  ask, note, update, save, set_current, set_abort_pending, now, set_phase, persist_blocked,
}
use agent_session_harness.Supervisor.Journal.{
  IsSound, seen_dead, checkpoint_verified, stop_seen, fence_granted, claim_granted,
}
use agent_session_harness.Supervisor.Rotation.{
  advance_rotation, pid_of, retry_successor, rotation_round, rotate,
}
use agent_session_harness.Supervisor.Rotation.Order.{advance_rotation-IsSound}
use agent_session_harness.Supervisor.Usage.{
  UsageSample, measured, apply_usage_thresholds, is_running, is_before_drain, is_confident,
  is_unknown, is_raised, raise_usage_alarm, warn_if_due, drain_if_due, record_usage_sample_failure,
  record_sample, observe_usage,
}
use agent_session_harness.Supervisor.Compaction.{
  announces_compaction, consume, release, may_rotate, contains, first_occurrences,
  remember_lifecycle_identities, is_named, is_managed, latest_managed_signal, is_draining,
  release_drain_on_self_compaction, handoff_missing_or_stale, is_idle,
}
use agent_session_harness.Supervisor.Acknowledge.{
  acknowledge_unlocked, is_awaiting, same_fingerprint, is_pid, accept, retry_and_advance,
  is_expected,
}
use agent_session_harness.Supervisor.Tick.{
  tick_unlocked, is_initial, is_completed, is_supervised, is_clean_exit, finalize_completed_cleanup,
  complete_clean_exit, ensure_active_process_is_live, drain,
}
use agent_session_harness.Supervisor.Tick.Order.{tick_unlocked-IsSound}
use agent_session_harness.Supervisor.Start.{
  Request, tick, serve_all, is_launching, start_unlocked, serve,
}
use agent_session_harness.Supervisor.Start.History.{
  serve_all-IsSound, serve_all-launch, serve_all-stop, serve_all-claim,
}
use agent_session_harness.Supervisor.Heartbeat.{is_beating, is_recent, heartbeat_if_due}
use agent_session_harness.Supervisor.Liveness.{
  raise_liveness_alarm, silent_since, is_long_silence, observe_runtime_liveness,
}

abbrev is_stop : Call → Bool
is_stop (stop_process p) = true
is_stop _ = false

abbrev pub process_of : ℕ → ManagedProcess
process_of g = record {
  pid = g + 100;
  process_group_id = g + 100;
  registry_key = "runtime";
  identity = none;
  command_digest = none;
  launch_nonce = none;
  supersedes_launch_nonce = none;
}

abbrev pub lease : ClaimHandle
lease = record { claim_id = "claim"; lease_epoch = 1; owner_session_id = "owner" }

-- Collaborators that succeed; a process is gone once it was asked to stop.
abbrev pub world : World
world = record {
  clock = λ t. length t;
  is_alive = λ t p. answered (not (any is_stop t));
  exit_status = λ t p. answered none;
  graceful_stop = λ t p. answered tt;
  clear_exit_status = λ t p. answered tt;
  start_fresh = λ t g. answered (process_of g);
  checkpoint = λ t p g. answered (record { verified = true; fingerprint = "f"; path = "capsule" });
  acknowledge = λ t c. answered true;
  capsule_at =
      λ t p. answered (record { fingerprint = "f"; chain_id = "chain"; target_generation = 1 });
  ledger_append = λ t g. answered tt;
  claim = λ t g at. answered lease;
  heartbeat = λ t c at. answered c;
  fence = λ t c. answered tt;
  acknowledgement = λ t. none;
}

abbrev pub settings : Settings
settings = record {
  chain_id = "chain";
  warn_percent = 65;
  rotate_percent = 70;
  heartbeat_interval = 20;
  successor_retry_limit = 1;
  successor_ack_timeout = 30;
  usage_failure_alarm_ticks = 3;
  non_confident_rotation_tolerance_ticks = 5;
  runtime_silence_alarm_ticks = 3;
  runtime_silence_grace = 60;
}

abbrev hand_off : LifecycleSignal
hand_off = record { event_id = "handoff-1"; generation = 0; conversation_id = "talk" }

abbrev compaction_signal : LifecycleSignal
compaction_signal = record { event_id = "compact-1"; generation = 0; conversation_id = "talk" }

abbrev activity : ActivitySnapshot
activity = record {
  quiescence = Quiescence.idle;
  active_turn_ids = [];
  active_tool_ids = [];
  active_subagent_ids = [];
  active_critical_section_ids = [];
  processed_event_count = 3;
  last_event_at = some 1;
  integrity_warnings = [];
  handoff_requested_generations = 0 ∷ [];
  pre_compact_generations = [];
  pre_compact_seen = 0;
  handoff_requested_seen = 1;
  handoff_requested_signals = hand_off ∷ [];
  pre_compact_signals = [];
  runtime_liveness = RuntimeLiveness.reporting;
  reaped_tool_ids = [];
}

abbrev pub compacting : ActivitySnapshot
compacting = record activity {
  pre_compact_generations = 0 ∷ [];
  pre_compact_seen = 1;
  pre_compact_signals = compaction_signal ∷ [];
}

abbrev pub sample : UsageSample
sample = record {
  pid = 100;
  registry_key = "runtime";
  sample = measured (record {
    conversation_id = "talk";
    context_percent = 80;
    confidence = confident;
    context_tokens = none;
    window_tokens = none;
    cumulative_tokens = none;
  });
}

abbrev pub predecessor : ManagedProcess
predecessor = process_of 0

-- The history of a rotation up to the claim of its successor.
abbrev handed_over_trace : Trace
handed_over_trace =
    claim_task 1
    ∷ read_clock
    ∷ effect claim_effect started 1
    ∷ effect fence_effect finished 0
    ∷ fence_claim lease
    ∷ effect fence_effect started 0
    ∷ effect stop_effect finished 0
    ∷ probe_alive predecessor
    ∷ stop_process predecessor
    ∷ effect stop_effect started 0
    ∷ make_checkpoint "talk" 1
    ∷ []

abbrev launching_snapshot : Snapshot
launching_snapshot = record initial_snapshot {
  generation = 1;
  phase = launching;
  owner_session_id = some 1;
  claim = some lease;
  last_heartbeat_at = some 9;
  checkpoint_fingerprint = some "f";
  checkpoint_path = some "capsule";
}

-- A supervisor about to start its successor.
abbrev ready : Supervisor
ready = record {
  snapshot = launching_snapshot;
  disk = launching_snapshot;
  current_process = none;
  successor_abort_pending = false;
  trace = handed_over_trace;
}

ready-IsSound : IsSound world ready
ready-IsSound = record { ordered = refl; memory = refl; disk = refl }

abbrev requests : List Request
requests = tick activity none ∷ []

-- The newest calls of a trace, down to the first that passes the test, and those before it.
until : (Call → Bool) → Trace → Trace
until p [] = []
until p (c ∷ t) = if p c then [] else c ∷ until p t

before : (Call → Bool) → Trace → Trace
before p [] = []
before p (c ∷ t) = if p c then t else before p t

abbrev is_launch : Call → Bool
is_launch (start_process g) = true
is_launch _ = false

abbrev is_stop_report : Call → Bool
is_stop_report (effect stop_effect finished g) = true
is_stop_report _ = false

abbrev is_claim : Call → Bool
is_claim (claim_task g) = true
is_claim _ = false

abbrev stopped_trace : Trace
stopped_trace =
    effect stop_effect finished 0
    ∷ probe_alive predecessor
    ∷ stop_process predecessor
    ∷ effect stop_effect started 0
    ∷ make_checkpoint "talk" 1
    ∷ []

abbrev leaving_snapshot : Snapshot
leaving_snapshot = record initial_snapshot {
  phase = fencing;
  conversation_id = some "talk";
  claim = some lease;
  checkpoint_fingerprint = some "f";
  checkpoint_path = some "capsule";
}

-- A supervisor about to fence its predecessor.
abbrev leaving : Supervisor
leaving = record {
  snapshot = leaving_snapshot;
  disk = leaving_snapshot;
  current_process = none;
  successor_abort_pending = false;
  trace = stopped_trace;
}

leaving-IsSound : IsSound world leaving
leaving-IsSound = record { ordered = refl; memory = refl; disk = refl }

-- The history of its rotation.
abbrev launched : Trace
launched = (serve_all world settings requests ready).trace

abbrev rotated : Trace
rotated = (serve_all world settings requests leaving).trace

serve_all-launch_example :
    (checkpoint_verified world 1 (before is_launch rotated) ≡ true)
    × (stop_seen world 1 (before is_launch rotated) ≡ true)
    × (fence_granted world 1 (before is_launch rotated) ≡ true)
    × (claim_granted world 1 (before is_launch rotated) ≡ true)
unfolding until before pure continue_with ◌>>=◌ ◌>>◌ choose raise fail attempt get to_result ask
    note update save set_current set_abort_pending now set_phase persist_blocked is_beating
    is_recent heartbeat_if_due pid_of retry_successor rotation_round rotate advance_rotation
    is_running is_before_drain is_confident is_unknown is_raised raise_usage_alarm warn_if_due
    drain_if_due apply_usage_thresholds record_usage_sample_failure record_sample observe_usage
    contains first_occurrences remember_lifecycle_identities is_named is_managed
    latest_managed_signal announces_compaction consume release is_draining
    release_drain_on_self_compaction handoff_missing_or_stale is_idle may_rotate
    raise_liveness_alarm silent_since is_long_silence observe_runtime_liveness is_awaiting
    same_fingerprint is_pid accept retry_and_advance is_expected acknowledge_unlocked is_initial
    is_completed is_supervised is_clean_exit finalize_completed_cleanup complete_clean_exit
    ensure_active_process_is_live drain tick_unlocked is_launching start_unlocked serve serve_all
    is_faulted
serve_all-launch_example =
    serve_all-launch world settings requests leaving 0 (until is_launch rotated)
      (before is_launch rotated) leaving-IsSound refl

serve_all-stop_example :
    seen_dead world (
      probe_alive predecessor
      ∷ stop_process predecessor
      ∷ effect stop_effect started 0
      ∷ make_checkpoint "talk" 1
      ∷ [])
    ≡ true
unfolding until pure continue_with ◌>>=◌ ◌>>◌ choose raise fail attempt get to_result ask note
    update save set_current set_abort_pending now set_phase persist_blocked is_beating is_recent
    heartbeat_if_due pid_of retry_successor rotation_round rotate advance_rotation is_running
    is_before_drain is_confident is_unknown is_raised raise_usage_alarm warn_if_due drain_if_due
    apply_usage_thresholds record_usage_sample_failure record_sample observe_usage contains
    first_occurrences remember_lifecycle_identities is_named is_managed latest_managed_signal
    announces_compaction consume release is_draining release_drain_on_self_compaction
    handoff_missing_or_stale is_idle may_rotate raise_liveness_alarm silent_since is_long_silence
    observe_runtime_liveness is_awaiting same_fingerprint is_pid accept retry_and_advance
    is_expected acknowledge_unlocked is_initial is_completed is_supervised is_clean_exit
    finalize_completed_cleanup complete_clean_exit ensure_active_process_is_live drain tick_unlocked
    is_launching start_unlocked serve serve_all is_faulted
serve_all-stop_example =
    serve_all-stop world settings requests ready 0 (until is_stop_report launched)
      (probe_alive predecessor
        ∷ stop_process predecessor
        ∷ effect stop_effect started 0
        ∷ make_checkpoint "talk" 1
        ∷ [])
      ready-IsSound refl

serve_all-claim_example : fence_granted world 1 (before is_claim rotated) ≡ true
unfolding until before pure continue_with ◌>>=◌ ◌>>◌ choose raise fail attempt get to_result ask
    note update save set_current set_abort_pending now set_phase persist_blocked is_beating
    is_recent heartbeat_if_due pid_of retry_successor rotation_round rotate advance_rotation
    is_running is_before_drain is_confident is_unknown is_raised raise_usage_alarm warn_if_due
    drain_if_due apply_usage_thresholds record_usage_sample_failure record_sample observe_usage
    contains first_occurrences remember_lifecycle_identities is_named is_managed
    latest_managed_signal announces_compaction consume release is_draining
    release_drain_on_self_compaction handoff_missing_or_stale is_idle may_rotate
    raise_liveness_alarm silent_since is_long_silence observe_runtime_liveness is_awaiting
    same_fingerprint is_pid accept retry_and_advance is_expected acknowledge_unlocked is_initial
    is_completed is_supervised is_clean_exit finalize_completed_cleanup complete_clean_exit
    ensure_active_process_is_live drain tick_unlocked is_launching start_unlocked serve serve_all
    is_faulted
serve_all-claim_example =
    serve_all-claim world settings requests leaving 0 (until is_claim rotated)
      (before is_claim rotated) leaving-IsSound refl

serve_all-IsSound_example : IsSound world (serve_all world settings requests ready)
serve_all-IsSound_example = serve_all-IsSound world settings requests ready ready-IsSound

tick_unlocked-IsSound_example :
    IsSound world (tick_unlocked world settings activity (some sample) ready).1
    × ((tick_unlocked world settings activity (some sample) ready).0 ≢ err diverged)
tick_unlocked-IsSound_example =
    tick_unlocked-IsSound world settings activity (some sample) ready ready-IsSound

advance_rotation-IsSound_example :
    IsSound world (advance_rotation world settings ready).1
    × ((advance_rotation world settings ready).0 ≢ err diverged)
advance_rotation-IsSound_example = advance_rotation-IsSound world settings ready ready-IsSound
