-- ===== src/Examples/Probe.antt =====
-- A busy probe beside an idle runtime.
use agent_session_harness.Prelude.{◌≡◌, ◌↔◌, ◌⊎◌, none, []}
use agent_session_harness.Models.{ActivitySnapshot, Quiescence, RuntimeLiveness}
use agent_session_harness.Safety.{
  ProjectSafetyStatus, ProjectSafetyObservation, merge_project_safety,
}
use agent_session_harness.Safety.Merge.{merge-quiescence}

abbrev resting : ActivitySnapshot
resting = record {
  quiescence = Quiescence.idle;
  active_turn_ids = [];
  active_tool_ids = [];
  active_subagent_ids = [];
  active_critical_section_ids = [];
  processed_event_count = 0;
  last_event_at = none;
  integrity_warnings = [];
  handoff_requested_generations = [];
  pre_compact_generations = [];
  pre_compact_seen = 0;
  handoff_requested_seen = 0;
  handoff_requested_signals = [];
  pre_compact_signals = [];
  runtime_liveness = RuntimeLiveness.reporting;
  reaped_tool_ids = [];
}

abbrev busy_probe : ProjectSafetyObservation
busy_probe = record {
  status = ProjectSafetyStatus.busy;
  active_critical_sections = [];
  warnings = [];
}

merge-quiescence_example :
    (((merge_project_safety resting busy_probe).quiescence ≡ Quiescence.idle) ↔ (
      (resting.quiescence ≡ Quiescence.idle) × (busy_probe.status ≡ ProjectSafetyStatus.quiescent)))
    × (((merge_project_safety resting busy_probe).quiescence ≡ Quiescence.unknown) ↔ (
        (resting.quiescence ≡ Quiescence.unknown)
        ⊎ (busy_probe.status ≡ ProjectSafetyStatus.unknown)))
merge-quiescence_example = merge-quiescence resting busy_probe
