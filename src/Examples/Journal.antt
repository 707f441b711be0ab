-- ===== src/Examples/Journal.antt =====
-- A short ledger: a tool starts, its turn ends.
use agent_session_harness.Prelude.{
  ℕ, ◌≤◌, ◌≡◌, ◌↔◌, refl, String, true, false, Option, none, some, List, [], ◌∷◌, ◌++◌, length,
  arith,
}
use agent_session_harness.Models.{
  claude, EventType, tool, tool_started, turn_idle, handoff_requested, handoff_checkpointed,
  Quiescence, event_limit, invalid_json,
}
use agent_session_harness.Events.{LifecycleEvent}
use agent_session_harness.Ledger.{
  IntegrityWarning, gates, fold_events, initial_fold, materialize, group, is_supervisor_authored,
}
use agent_session_harness.Ledger.Counters.{get}
use agent_session_harness.Ledger.Outstanding.{outstanding, unseen}
use agent_session_harness.Ledger.Balance.{ledger-get, IsQuiet}
use agent_session_harness.Ledger.Classification.{
  IsTrusted, materialize-quiescence, liveness-supervisor,
}
use agent_session_harness.Ledger.Replay.{materialize-replay, materialize-turn_idle}
use agent_session_harness.Ledger.Sticky.{materialize-unknown}
use agent_session_harness.Ledger.Watermarks.{Tally, materialize-Tally}
use agent_session_harness.Ledger.Read.{
  record_warning, max_retained_warnings, Chunk, empty_cache, read_chunk, event, bad_json,
}
use agent_session_harness.Ledger.Read.Retention.{count_sticky, record_warning_size}
use agent_session_harness.Ledger.Read.Chunks.{joined}
use agent_session_harness.Ledger.Read.Times.{timeless, timeless-read_chunk}

abbrev event_of : String → EventType → Option String → ℕ → LifecycleEvent
event_of id type activity at = record {
  event_id = id;
  runtime = claude;
  chain_id = "chain";
  conversation_id = "talk";
  generation = 0;
  event_type = type;
  timestamp = at;
  cwd = "/work";
  owner_pid = 100;
  activity_id = activity;
  name = none;
}

abbrev shell_starts : LifecycleEvent
shell_starts = event_of "e1" tool_started (some "shell") 10

abbrev hand_off_asked : LifecycleEvent
hand_off_asked = event_of "e2" handoff_requested none 11

abbrev turn_ends : LifecycleEvent
turn_ends = event_of "e3" turn_idle (some "turn") 12

abbrev checkpoint_made : LifecycleEvent
checkpoint_made = event_of "e4" handoff_checkpointed none 13

abbrev begun : List LifecycleEvent
begun = shell_starts ∷ hand_off_asked ∷ []

abbrev limit_warning : IntegrityWarning
limit_warning = record { message = event_limit; observed_at = 5; sticky = true }

abbrev json_warning : IntegrityWarning
json_warning = record { message = invalid_json 3; observed_at = 6; sticky = false }

ledger-get_example :
    get (group tool (fold_events (initial_fold []) begun)) "shell"
    ≡ outstanding tool "shell" 0 (unseen [] begun)
ledger-get_example = ledger-get [] begun tool "shell"

materialize-quiescence_example :
    (((materialize begun [] 20 60).quiescence ≡ Quiescence.idle)
      ↔ (IsTrusted (fold_events (initial_fold []) begun) 20 60 × IsQuiet begun))
    × (((materialize begun [] 20 60).quiescence ≡ Quiescence.busy)
        ↔ (IsTrusted (fold_events (initial_fold []) begun) 20 60 × (IsQuiet begun → ⊥)))
materialize-quiescence_example = materialize-quiescence begun [] 20 60

materialize-replay_example :
    materialize (begun ++ shell_starts ∷ []) [] 20 60 ≡ materialize begun [] 20 60
materialize-replay_example = materialize-replay begun (shell_starts ∷ []) [] 20 60 (refl, tt)

materialize-turn_idle_example :
    ((materialize (begun ++ turn_ends ∷ []) [] 20 60).active_tool_ids ≡ [])
    × ((materialize (begun ++ turn_ends ∷ []) [] 20 60).reaped_tool_ids
        ≡ (materialize begun [] 20 60).reaped_tool_ids
          ++ (materialize begun [] 20 60).active_tool_ids)
materialize-turn_idle_example = materialize-turn_idle begun turn_ends [] 20 60 refl refl

materialize-unknown_example :
    (materialize begun (limit_warning ∷ []) 20 60).quiescence ≡ Quiescence.unknown
unfolding gates
materialize-unknown_example = materialize-unknown begun (limit_warning ∷ []) 20 60 refl

liveness-supervisor_example :
    (materialize (begun ++ checkpoint_made ∷ []) [] 90 60).runtime_liveness
    ≡ (materialize begun [] 90 60).runtime_liveness
unfolding is_supervisor_authored
liveness-supervisor_example = liveness-supervisor begun checkpoint_made [] 90 60 refl

materialize-Tally_example :
    Tally
      (materialize begun [] 20 60).handoff_requested_seen
      (materialize begun [] 20 60).handoff_requested_generations
      (materialize begun [] 20 60).handoff_requested_signals
    × Tally
        (materialize begun [] 20 60).pre_compact_seen
        (materialize begun [] 20 60).pre_compact_generations
        (materialize begun [] 20 60).pre_compact_signals
materialize-Tally_example = materialize-Tally begun [] 20 60

record_warning_size_example :
    (length (record_warning (invalid_json 4) 8 false (limit_warning ∷ json_warning ∷ []))
      ≤ max_retained_warnings)
    × (count_sticky (limit_warning ∷ json_warning ∷ [])
        ≤ count_sticky
            (record_warning (invalid_json 4) 8 false (limit_warning ∷ json_warning ∷ [])))
record_warning_size_example =
    record_warning_size (invalid_json 4) 8 false (limit_warning ∷ json_warning ∷ []) (omega arith)

abbrev first_part : Chunk
first_part = record {
  lines = event shell_starts ∷ bad_json ∷ [];
  ends_short = false;
  offset = 100;
  identity = 1;
  reset = true;
}

abbrev second_part : Chunk
second_part = record {
  lines = event turn_ends ∷ [];
  ends_short = false;
  offset = 150;
  identity = 1;
  reset = false;
}

timeless-read_chunk_example :
    timeless (read_chunk 25 second_part (read_chunk 20 first_part empty_cache))
    ≡ timeless (read_chunk 30 (joined first_part second_part) empty_cache)
timeless-read_chunk_example =
    timeless-read_chunk 20 25 30 first_part second_part empty_cache refl refl refl (omega arith)
