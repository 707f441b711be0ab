-- ===== src/Examples/Drains.antt =====
-- Samples, compactions and hand-off requests around the drain of a supervisor.
use agent_session_harness.Prelude.{◌≡◌, refl, true, false, some}
use agent_session_harness.Models.{confident, ActivitySnapshot, is_faulted}
use agent_session_harness.Supervisor.State.{
  Snapshot, Supervisor, running, draining, initial_snapshot, initial_usage,
}
use agent_session_harness.Supervisor.Usage.{is_confident, is_unknown, observe_usage}
use agent_session_harness.Supervisor.Usage.Samples.{DrainsOn, observe_usage-draining}
use agent_session_harness.Supervisor.Compaction.{
  announces_compaction, consume, release, may_rotate, contains, is_named, is_managed,
  latest_managed_signal, handoff_missing_or_stale, is_idle,
}
use agent_session_harness.Supervisor.Compaction.Consent.{announces_compaction-consume}
use agent_session_harness.Supervisor.Start.{fresh_supervisor}
use agent_session_harness.Examples.Machine.{world, settings, compacting, sample, predecessor}

abbrev draining_snapshot : Snapshot
draining_snapshot = record initial_snapshot { phase = draining; conversation_id = some "talk" }

-- The same hand-off request, in events that go on, at a later sample.
abbrev sampled_snapshot : Snapshot
sampled_snapshot = record (release compacting 5 draining_snapshot) {
  phase = draining;
  warning_emitted = true;
}

abbrev going_on : ActivitySnapshot
going_on = record compacting { processed_event_count = 7; pre_compact_seen = 2 }

announces_compaction-consume_example :
    (announces_compaction (consume compacting draining_snapshot) compacting ≡ false)
    × (announces_compaction (release compacting 5 draining_snapshot) compacting ≡ false)
announces_compaction-consume_example = announces_compaction-consume compacting 5 draining_snapshot

test_announced : announces_compaction draining_snapshot compacting ≡ true
unfolding announces_compaction latest_managed_signal is_managed is_named contains
test_announced = refl

test_open_gate :
    may_rotate settings
      (record draining_snapshot { usage = record initial_usage { context_confidence = confident } })
      compacting
    ≡ true
unfolding may_rotate handoff_missing_or_stale latest_managed_signal is_managed is_named contains
    is_idle is_faulted is_confident
test_open_gate = refl

abbrev working : Supervisor
working = record fresh_supervisor {
  snapshot = record initial_snapshot { phase = running };
  current_process = some predecessor;
}

observe_usage-draining_example :
    DrainsOn world settings (some 80) working (observe_usage world settings (some sample) working).1
unfolding is_unknown
observe_usage-draining_example = observe_usage-draining world settings (some sample) working
