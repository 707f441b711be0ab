-- ===== src/Examples/Stages.antt =====
-- The governor on concrete observations.
use agent_session_harness.Prelude.{
  ◌+◌, ◌≤◌, ◌≡◌, inl, refl, true, false, none, some, [], ◌∷◌, length,
}
use agent_session_harness.Models.{confident, Quiescence}
use agent_session_harness.Governor.{
  GovernorConfig, GovernorSnapshot, OperationResult, running, draining, checkpointing, succeeded,
  failed, evaluate,
}
use agent_session_harness.Governor.Laws.{Edge, evaluate-Edge}
use agent_session_harness.Governor.Rotation.{
  run, progress, progress-run, Some, Fences, run_hand_over, IsObserving, run-IsObserving,
}

abbrev config : GovernorConfig
config = record {
  warn_percent = 65_000_000;
  rotate_percent = 70_000_000;
  stale_event_timeout = 300;
}

-- A predecessor whose checkpoint and fence have both succeeded.
abbrev verified : GovernorSnapshot
verified = record {
  state = checkpointing;
  context_percent = some 80_000_000;
  context_confidence = confident;
  quiescence = Quiescence.idle;
  required_capabilities_known = true;
  observe_only = false;
  checkpoint_result = succeeded;
  fence_result = succeeded;
  launch_result = OperationResult.unknown;
  acknowledgement_result = OperationResult.unknown;
  claim_result = OperationResult.unknown;
  operator_command = none;
}

-- The same, observed only.
abbrev watched : GovernorSnapshot
watched = record verified { observe_only = true }

-- Its checkpoint has failed.
abbrev refused : GovernorSnapshot
refused = record verified { checkpoint_result = failed }

evaluate-Edge_example :
    Edge config verified checkpointing (evaluate config verified).next_state
    × ((evaluate config verified).previous_state ≡ checkpointing)
evaluate-Edge_example = evaluate-Edge config verified

progress-run_example :
    progress (run config draining (verified ∷ verified ∷ []))
    ≤ progress draining + length (verified ∷ verified ∷ [])
progress-run_example = progress-run config draining (verified ∷ verified ∷ [])

run_hand_over_example : Some Fences (verified ∷ verified ∷ [])
unfolding evaluate run
run_hand_over_example = run_hand_over config draining (verified ∷ verified ∷ []) refl refl

run-IsObserving_example : IsObserving (run config running (watched ∷ watched ∷ []))
run-IsObserving_example =
    run-IsObserving config running (watched ∷ watched ∷ []) (refl, (refl, tt)) (inl refl)
