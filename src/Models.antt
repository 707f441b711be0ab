-- ===== src/Models.antt =====
-- models.py and activity.py: the enumerations and value objects that the parts share.
-- A datetime is a number of microseconds, the resolution of Python's type, from a fixed origin; a
-- duration in seconds is a number of microseconds too.
use agent_session_harness.Prelude.{ℕ, String, Bool, true, false, Option, List}

pub data Runtime : Type 0 where
  claude codex : Runtime

pub data Confidence : Type 0 where
  confident degraded unknown : Confidence

pub data EventType : Type 0 where
  session_started session_ended turn_started turn_idle tool_started tool_finished : EventType
  tool_failed subagent_started subagent_finished pre_compact compacted : EventType
  critical_entered critical_exited handoff_requested handoff_checkpointed : EventType
  handoff_fenced handoff_acknowledged : EventType

-- What a lifecycle event can start or finish; the labels of the warnings.
pub data Activity : Type 0 where
  turn tool subagent critical_section : Activity

pub data Quiescence : Type 0 where
  idle busy unknown : Quiescence

pub data RuntimeLiveness : Type 0 where
  reporting never_reported silent_idle silent_active : RuntimeLiveness

unfoldable pub is_faulted : RuntimeLiveness → Bool
is_faulted RuntimeLiveness.reporting = false
is_faulted _ = true

pub record LifecycleSignal : Type 0 where
  pub event_id : String
  pub generation : ℕ
  pub conversation_id : String

-- The texts of the integrity findings. Those that the ledger compares for equality differ exactly
-- when their constructors or line numbers do; `project` is a text of a safety probe.
pub data WarningText : Type 0 where
  partial_final_line event_limit unreadable : WarningText
  invalid_json invalid_event : ℕ → WarningText
  finish_without_start : Activity → String → WarningText
  project : String → WarningText

-- A frozenset is the list of its elements, which its users only test for membership.
pub record ActivitySnapshot : Type 0 where
  pub quiescence : Quiescence
  pub active_turn_ids : List String
  pub active_tool_ids : List String
  pub active_subagent_ids : List String
  pub active_critical_section_ids : List String
  pub processed_event_count : ℕ
  pub last_event_at : Option ℕ
  pub integrity_warnings : List WarningText
  pub handoff_requested_generations : List ℕ
  pub pre_compact_generations : List ℕ
  pub pre_compact_seen : ℕ
  pub handoff_requested_seen : ℕ
  pub handoff_requested_signals : List LifecycleSignal
  pub pre_compact_signals : List LifecycleSignal
  pub runtime_liveness : RuntimeLiveness
  pub reaped_tool_ids : List String
