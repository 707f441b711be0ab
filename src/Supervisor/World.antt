-- ===== src/Supervisor/World.antt =====
-- What a supervisor calls and does not implement: the clock, the process driver, the checkpoint
-- manager, the coordinator and the files that other processes write. Each answer may depend on all
-- that was done before, and may be a failure.
use agent_session_harness.Prelude.{ℕ, String, Bool, Option}
use agent_session_harness.Supervisor.State.{Trace, ManagedProcess, ExitStatus, ClaimHandle}

-- The exceptions that the supervisor's handlers tell apart; `runtime` is OSError or RuntimeError.
pub data Fault : Type 0 where
  stale_owner runtime value other : Fault

pub data Answer {ℓ} (A : Type ℓ) : Type ℓ where
  answered : A → Answer A
  raised : Fault → Answer A

-- `VerifiedCheckpoint`
pub record Receipt : Type 0 where
  pub verified : Bool
  pub fingerprint : String
  pub path : String

-- The fields of `HandoffCapsule` that the supervisor reads.
pub record Capsule : Type 0 where
  pub fingerprint : String
  pub chain_id : String
  pub target_generation : ℕ

-- `AcknowledgementRecord`
pub record Acknowledgement : Type 0 where
  pub generation : ℕ
  pub fingerprint : String
  pub conversation_id : String
  pub owner_pid : ℕ

pub record World : Type 0 where
  pub clock : Trace → ℕ
  pub is_alive : Trace → ManagedProcess → Answer Bool
  pub exit_status : Trace → ManagedProcess → Answer (Option ExitStatus)
  pub graceful_stop : Trace → ManagedProcess → Answer (Unit {0})
  pub clear_exit_status : Trace → ManagedProcess → Answer (Unit {0})
  pub start_fresh : Trace → ℕ → Answer ManagedProcess
  pub checkpoint : Trace → String → ℕ → Answer Receipt
  pub acknowledge : Trace → Capsule → Answer Bool
  pub capsule_at : Trace → String → Answer Capsule
  pub ledger_append : Trace → ℕ → Answer (Unit {0})
  pub claim : Trace → ℕ → ℕ → Answer ClaimHandle
  pub heartbeat : Trace → ClaimHandle → ℕ → Answer ClaimHandle
  pub fence : Trace → ClaimHandle → Answer (Unit {0})
  pub acknowledgement : Trace → Option Acknowledgement
