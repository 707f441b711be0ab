-- ===== src/Ledger.antt =====
-- ledger.py: `EventLedger.materialize`, the fold of the retained events into an activity snapshot,
-- with its two classifications. `Ledger/Read.antt` has the cached, incremental read.
pub mod Counters
pub mod Read
pub mod Outstanding
pub mod Balance
pub mod Replay
pub mod Sticky
pub mod Watermarks
pub mod Classification
use Counters.{Counter, get, put, remove, keys}
use agent_session_harness.Prelude.{
  ℕ, ◌+◌, ◌-◌, String, Bool, true, false, not, ◌&&◌, ◌||◌, Option, none, some, List, [], ◌∷◌, ◌++◌,
  map, any, is_nonempty, is_none, ltb, leb, ◌==◌, if◌then◌else◌, str_eq,
}
use agent_session_harness.Models.{
  EventType, turn_started, turn_idle, tool_started, tool_finished, tool_failed, subagent_started,
  subagent_finished, critical_entered, critical_exited, handoff_requested, pre_compact,
  handoff_checkpointed, handoff_fenced, handoff_acknowledged, Activity, turn, tool, subagent,
  critical_section, Quiescence, RuntimeLiveness, LifecycleSignal, ActivitySnapshot, WarningText,
  finish_without_start,
}
use agent_session_harness.Events.{LifecycleEvent}

-- SUPERVISOR_AUTHORED_EVENT_TYPES
unfoldable pub is_supervisor_authored : EventType → Bool
is_supervisor_authored handoff_checkpointed = true
is_supervisor_authored handoff_acknowledged = true
is_supervisor_authored handoff_fenced = true
is_supervisor_authored _ = false

pub record IntegrityWarning : Type 0 where
  pub message : WarningText
  pub observed_at : ℕ
  pub sticky : Bool

-- (now - observed_at).total_seconds() <= stale_after_seconds
unfoldable pub gates : ℕ → ℕ → IntegrityWarning → Bool
gates now stale w = if w.sticky then true else leb now (w.observed_at + stale)

-- The tables `starts` and `finishes`.
unfoldable pub starts : EventType → Option Activity
starts turn_started = some turn
starts tool_started = some tool
starts subagent_started = some subagent
starts critical_entered = some critical_section
starts _ = none

unfoldable pub finishes : EventType → Option Activity
finishes turn_idle = some turn
finishes tool_finished = some tool
finishes tool_failed = some tool
finishes subagent_finished = some subagent
finishes critical_exited = some critical_section
finishes _ = none

-- The local variables of `materialize`.
pub record Fold : Type 0 where
  pub seen : List String
  pub turns : Counter
  pub tools : Counter
  pub subagents : Counter
  pub critical_sections : Counter
  pub reaped_tools : List String
  pub handoff_requested_generations : List ℕ
  pub handoff_requested_seen : ℕ
  pub pre_compact_generations : List ℕ
  pub pre_compact_seen : ℕ
  pub handoff_requested_signals : List LifecycleSignal
  pub pre_compact_signals : List LifecycleSignal
  pub last_event_at : Option ℕ
  pub last_hook_event_at : Option ℕ
  pub processed : ℕ
  pub warnings : List IntegrityWarning

unfoldable pub group : Activity → Fold → Counter
group turn f = f.turns
group tool f = f.tools
group subagent f = f.subagents
group critical_section f = f.critical_sections

unfoldable pub set_group : Activity → Counter → Fold → Fold
set_group turn c f = record f { turns = c }
set_group tool c f = record f { tools = c }
set_group subagent c f = record f { subagents = c }
set_group critical_section c f = record f { critical_sections = c }

-- event.activity_id or ""
unfoldable pub activity_key : Option String → String
activity_key none = ""
activity_key (some k) = k

unfoldable pub start_activity : Activity → String → Fold → Fold
unfolding group set_group
start_activity a k f = set_group a (put k (get (group a f) k + 1) (group a f)) f

unfoldable pub finish_activity : Activity → String → ℕ → Fold → Fold
unfolding group set_group
finish_activity a k timestamp f =
    let n = get (group a f) k in
    if n == 0
    then record (set_group a (remove k (group a f)) f) {
      warnings =
          f.warnings
          ++ record { message = finish_without_start a k; observed_at = timestamp; sticky = false }
            ∷ [];
    }
    else if n - 1 == 0
    then set_group a (remove k (group a f)) f
    else set_group a (put k (n - 1) (group a f)) f

unfoldable pub reap_tools : Fold → Fold
reap_tools f =
    if is_nonempty f.tools
    then record f { reaped_tools = f.reaped_tools ++ keys f.tools; tools = [] }
    else f

unfoldable pub signal : LifecycleEvent → LifecycleSignal
signal e = record {
  event_id = e.event_id;
  generation = e.generation;
  conversation_id = e.conversation_id;
}

-- `at is None or timestamp > at`
unfoldable pub latest : Option ℕ → ℕ → Option ℕ
latest none t = some t
latest (some at) t = if ltb at t then some t else some at

-- The lines of the loop's body from `processed += 1` to the start of the dispatch.
unfoldable pub stamp : LifecycleEvent → Fold → Fold
unfolding latest is_supervisor_authored
stamp e f = record f {
  seen = e.event_id ∷ f.seen;
  processed = f.processed + 1;
  last_event_at = latest f.last_event_at e.timestamp;
  last_hook_event_at =
      if is_supervisor_authored e.event_type
      then f.last_hook_event_at
      else latest f.last_hook_event_at e.timestamp;
}

unfoldable pub apply_event : LifecycleEvent → EventType → Fold → Fold
unfolding start_activity finish_activity reap_tools activity_key signal
apply_event e turn_started f = start_activity turn (activity_key e.activity_id) f
apply_event e tool_started f = start_activity tool (activity_key e.activity_id) f
apply_event e subagent_started f = start_activity subagent (activity_key e.activity_id) f
apply_event e critical_entered f = start_activity critical_section (activity_key e.activity_id) f
apply_event e turn_idle f =
    reap_tools (finish_activity turn (activity_key e.activity_id) e.timestamp f)
apply_event e tool_finished f = finish_activity tool (activity_key e.activity_id) e.timestamp f
apply_event e tool_failed f = finish_activity tool (activity_key e.activity_id) e.timestamp f
apply_event e subagent_finished f =
    finish_activity subagent (activity_key e.activity_id) e.timestamp f
apply_event e critical_exited f =
    finish_activity critical_section (activity_key e.activity_id) e.timestamp f
apply_event e handoff_requested f = record f {
  handoff_requested_generations = e.generation ∷ f.handoff_requested_generations;
  handoff_requested_seen = f.handoff_requested_seen + 1;
  handoff_requested_signals = f.handoff_requested_signals ++ signal e ∷ [];
}
apply_event e pre_compact f = record f {
  pre_compact_generations = e.generation ∷ f.pre_compact_generations;
  pre_compact_seen = f.pre_compact_seen + 1;
  pre_compact_signals = f.pre_compact_signals ++ signal e ∷ [];
}
apply_event e _ f = f

-- One round of the loop: an event whose id was seen before is skipped.
unfoldable pub handle_event : Fold → LifecycleEvent → Fold
handle_event f e =
    if any (str_eq e.event_id) f.seen then f else apply_event e e.event_type (stamp e f)

unfoldable pub fold_events : Fold → List LifecycleEvent → Fold
fold_events f [] = f
fold_events f (e ∷ es) = fold_events (handle_event f e) es

abbrev pub initial_fold : List IntegrityWarning → Fold
initial_fold warnings = record {
  seen = [];
  turns = [];
  tools = [];
  subagents = [];
  critical_sections = [];
  reaped_tools = [];
  handoff_requested_generations = [];
  handoff_requested_seen = 0;
  pre_compact_generations = [];
  pre_compact_seen = 0;
  handoff_requested_signals = [];
  pre_compact_signals = [];
  last_event_at = none;
  last_hook_event_at = none;
  processed = 0;
  warnings = warnings;
}

unfoldable pub runtime_liveness : Option ℕ → ℕ → ℕ → Bool → RuntimeLiveness
runtime_liveness none now stale active = RuntimeLiveness.never_reported
runtime_liveness (some t) now stale active =
    if leb now (t + stale)
    then RuntimeLiveness.reporting
    else if active
    then RuntimeLiveness.silent_active
    else RuntimeLiveness.silent_idle

-- `age_seconds < 0` is `now < last`: the difference of datetimes is signed.
unfoldable pub fresh_quiescence : ℕ → ℕ → ℕ → Bool → Quiescence
fresh_quiescence last now stale active =
    if ltb now last || ltb (last + stale) now
    then Quiescence.unknown
    else if active
    then Quiescence.busy
    else Quiescence.idle

unfoldable pub quiescence : List IntegrityWarning → Option ℕ → ℕ → ℕ → Bool → Quiescence
unfolding gates fresh_quiescence
quiescence warnings last now stale active =
    if any (gates now stale) warnings || is_none last
    then Quiescence.unknown
    else elim last [ none ↦ Quiescence.unknown | some t ↦ fresh_quiescence t now stale active ]

-- any(active_groups)
unfoldable pub has_active : Fold → Bool
has_active f =
    is_nonempty f.turns
    || is_nonempty f.tools
    || is_nonempty f.subagents
    || is_nonempty f.critical_sections

-- The snapshot at the end of `materialize`.
unfoldable pub snapshot_of : Fold → ℕ → ℕ → ActivitySnapshot
unfolding quiescence runtime_liveness has_active
snapshot_of f now stale = record {
  quiescence = quiescence f.warnings f.last_event_at now stale (has_active f);
  active_turn_ids = keys f.turns;
  active_tool_ids = keys f.tools;
  active_subagent_ids = keys f.subagents;
  active_critical_section_ids = keys f.critical_sections;
  processed_event_count = f.processed;
  last_event_at = f.last_event_at;
  integrity_warnings = map (λ (w : IntegrityWarning). w.message) f.warnings;
  handoff_requested_generations = f.handoff_requested_generations;
  pre_compact_generations = f.pre_compact_generations;
  pre_compact_seen = f.pre_compact_seen;
  handoff_requested_seen = f.handoff_requested_seen;
  handoff_requested_signals = f.handoff_requested_signals;
  pre_compact_signals = f.pre_compact_signals;
  runtime_liveness = runtime_liveness f.last_hook_event_at now stale (has_active f);
  reaped_tool_ids = f.reaped_tools;
}

-- `materialize`, given what `_read_events` returned.
unfoldable pub materialize : List LifecycleEvent → List IntegrityWarning → ℕ → ℕ → ActivitySnapshot
unfolding fold_events handle_event snapshot_of
materialize events warnings now stale =
    snapshot_of (fold_events (initial_fold warnings) events) now stale
