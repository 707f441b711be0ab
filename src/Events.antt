-- ===== src/Events.antt =====
-- events.py: the lifecycle event and the rules of its validation that later parts rely on.
use agent_session_harness.Prelude.{
  ℕ, String, Bool, true, false, not, ◌&&◌, Option, none, some, List, [], ◌∷◌, any, str_eq, is_none,
}
use agent_session_harness.Models.{
  Runtime, EventType, turn_started, turn_idle, tool_started, tool_finished, tool_failed,
  subagent_started, subagent_finished, critical_entered, critical_exited,
}

pub record LifecycleEvent : Type 0 where
  pub event_id : String
  pub runtime : Runtime
  pub chain_id : String
  pub conversation_id : String
  pub generation : ℕ
  pub event_type : EventType
  pub timestamp : ℕ
  pub cwd : String
  pub owner_pid : ℕ
  pub activity_id : Option String
  pub name : Option String

-- ACTIVITY_EVENT_TYPES
unfoldable pub is_activity : EventType → Bool
is_activity turn_started = true
is_activity turn_idle = true
is_activity tool_started = true
is_activity tool_finished = true
is_activity tool_failed = true
is_activity subagent_started = true
is_activity subagent_finished = true
is_activity critical_entered = true
is_activity critical_exited = true
is_activity _ = false

abbrev pub allowed_critical_section_names : List String
allowed_critical_section_names =
    "checkpoint" ∷ "git-write" ∷ "database-migration" ∷ "deployment" ∷ "external-effect"
    ∷ "process-launch" ∷ []

unfoldable pub is_critical : EventType → Bool
is_critical critical_entered = true
is_critical critical_exited = true
is_critical _ = false

unfoldable pub is_allowed_name : Option String → Bool
is_allowed_name none = false
is_allowed_name (some n) = any (str_eq n) allowed_critical_section_names

-- `require_activity_identity`: true where the validator returns the event.
unfoldable pub has_activity_identity : LifecycleEvent → Bool
unfolding is_activity is_critical is_allowed_name
has_activity_identity e =
    not (is_activity e.event_type && is_none e.activity_id)
    && not (is_critical e.event_type && not (is_allowed_name e.name))
