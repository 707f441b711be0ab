-- ===== src/Governor.antt =====
-- governor.py: the pure state machine of a context rotation. `reason` is a constructor for each
-- text of the source. A percentage is a number in a fixed unit, and the code only compares them.
pub mod Laws
pub mod Rotation
use agent_session_harness.Prelude.{
  ℕ, Bool, true, false, not, ◌&&◌, ◌||◌, Option, none, some, leb, is_none, if◌then◌else◌,
}
use agent_session_harness.Models.{Confidence, Quiescence, confident}

pub data GovernorState : Type 0 where
  running warning draining checkpointing fenced launching awaiting_ack : GovernorState

pub data OperationResult : Type 0 where
  unknown pending succeeded failed : OperationResult

pub data OperatorCommand : Type 0 where
  cancel_rotation : OperatorCommand

-- 100 percent, in the unit of every percentage: a millionth of a percent.
abbrev pub hundred_percent : ℕ
hundred_percent = 100_000_000

pub record GovernorConfig : Type 0 where
  pub warn_percent : ℕ
  pub rotate_percent : ℕ
  pub stale_event_timeout : ℕ

-- The bounds of the three fields, and `require_warning_before_rotation` of config.py.
unfoldable pub validate_config : ℕ → ℕ → ℕ → Option GovernorConfig
validate_config warn rotate stale =
    if leb 1 warn
      && leb warn hundred_percent
      && (leb 1 rotate && leb rotate hundred_percent)
      && leb 1 stale
      && not (leb rotate warn)
    then some (record { warn_percent = warn; rotate_percent = rotate; stale_event_timeout = stale })
    else none

pub record GovernorSnapshot : Type 0 where
  pub state : GovernorState
  pub context_percent : Option ℕ
  pub context_confidence : Confidence
  pub quiescence : Quiescence
  pub required_capabilities_known : Bool
  pub observe_only : Bool
  pub checkpoint_result : OperationResult
  pub fence_result : OperationResult
  pub launch_result : OperationResult
  pub acknowledgement_result : OperationResult
  pub claim_result : OperationResult
  pub operator_command : Option OperatorCommand

-- The texts of `reason`, in the order of the source; `waiting` is the one of `_wait_for_operation`.
pub data Operation : Type 0 where
  required_checkpoint coordinator_fence successor_launch : Operation
  successor_acknowledgement successor_claim : Operation

pub data Reason : Type 0 where
  operator_canceled ownership_fenced not_confident rotation_disabled : Reason
  rotation_threshold warning_threshold below_warning : Reason
  capabilities_lost_draining activity_stale waiting_for_quiescence quiescence_verified : Reason
  capabilities_lost_checkpoint checkpoint_verified successor_launched successor_claimed : Reason
  waiting : Operation → OperationResult → Reason

pub record Transition : Type 0 where
  pub previous_state : GovernorState
  pub next_state : GovernorState
  pub reason : Reason
  pub blocked : Bool

stay : GovernorSnapshot → Reason → Bool → Transition
stay s reason blocked = record {
  previous_state = s.state;
  next_state = s.state;
  reason = reason;
  blocked = blocked;
}

move : GovernorSnapshot → GovernorState → Reason → Bool → Transition
move s next reason blocked = record {
  previous_state = s.state;
  next_state = next;
  reason = reason;
  blocked = blocked;
}

-- `result in {UNKNOWN, FAILED}`
unfoldable pub is_stuck : OperationResult → Bool
is_stuck OperationResult.unknown = true
is_stuck failed = true
is_stuck _ = false

unfoldable pub is_succeeded : OperationResult → Bool
is_succeeded succeeded = true
is_succeeded _ = false

wait_for_operation : GovernorSnapshot → OperationResult → Operation → Transition
unfolding stay is_stuck
wait_for_operation s result operation = stay s (waiting operation result) (is_stuck result)

unfoldable pub is_confident : Confidence → Bool
is_confident confident = true
is_confident _ = false

evaluate_percent : GovernorConfig → GovernorSnapshot → ℕ → Transition
unfolding move
evaluate_percent c s percent =
    if leb c.rotate_percent percent
    then (if s.observe_only || not s.required_capabilities_known
        then move s warning rotation_disabled true
        else move s draining rotation_threshold false)
    else if leb c.warn_percent percent
    then move s warning warning_threshold false
    else move s running below_warning false

evaluate_context : GovernorConfig → GovernorSnapshot → Transition
unfolding evaluate_percent stay is_confident
evaluate_context c s = elim s.context_percent [
  | none ↦ stay s not_confident true
  | some percent ↦
      if is_confident s.context_confidence
      then evaluate_percent c s percent
      else stay s not_confident true
]

evaluate_quiescence : GovernorSnapshot → Quiescence → Transition
unfolding stay move
evaluate_quiescence s Quiescence.unknown = stay s activity_stale true
evaluate_quiescence s Quiescence.busy = stay s waiting_for_quiescence false
evaluate_quiescence s Quiescence.idle = move s checkpointing quiescence_verified false

evaluate_draining : GovernorSnapshot → Transition
unfolding stay evaluate_quiescence
evaluate_draining s =
    if s.observe_only || not s.required_capabilities_known
    then stay s capabilities_lost_draining true
    else evaluate_quiescence s s.quiescence

evaluate_checkpointing : GovernorSnapshot → Transition
unfolding stay move is_succeeded wait_for_operation
evaluate_checkpointing s =
    if s.observe_only || not s.required_capabilities_known
    then stay s capabilities_lost_checkpoint true
    else if not (is_succeeded s.checkpoint_result)
    then wait_for_operation s s.checkpoint_result required_checkpoint
    else if not (is_succeeded s.fence_result)
    then wait_for_operation s s.fence_result coordinator_fence
    else move s fenced checkpoint_verified false

evaluate_launching : GovernorSnapshot → Transition
unfolding move is_succeeded wait_for_operation
evaluate_launching s =
    if not (is_succeeded s.launch_result)
    then wait_for_operation s s.launch_result successor_launch
    else move s awaiting_ack successor_launched false

evaluate_acknowledgement : GovernorSnapshot → Transition
unfolding move is_succeeded wait_for_operation
evaluate_acknowledgement s =
    if not (is_succeeded s.acknowledgement_result)
    then wait_for_operation s s.acknowledgement_result successor_acknowledgement
    else if not (is_succeeded s.claim_result)
    then wait_for_operation s s.claim_result successor_claim
    else move s running successor_claimed false

-- The chain of tests on the state; a rotation can be canceled in two states only.
dispatch : GovernorConfig → GovernorSnapshot → GovernorState → Bool → Transition
unfolding move evaluate_context evaluate_draining evaluate_checkpointing evaluate_launching
    evaluate_acknowledgement
dispatch c s draining true = move s running operator_canceled false
dispatch c s checkpointing true = move s running operator_canceled false
dispatch c s running _ = evaluate_context c s
dispatch c s warning _ = evaluate_context c s
dispatch c s draining false = evaluate_draining s
dispatch c s checkpointing false = evaluate_checkpointing s
dispatch c s fenced _ = move s launching ownership_fenced false
dispatch c s launching _ = evaluate_launching s
dispatch c s awaiting_ack _ = evaluate_acknowledgement s

unfoldable pub evaluate : GovernorConfig → GovernorSnapshot → Transition
unfolding dispatch
evaluate c s = dispatch c s s.state (not (is_none s.operator_command))
