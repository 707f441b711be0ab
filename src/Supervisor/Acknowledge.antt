-- ===== src/Supervisor/Acknowledge.antt =====
-- supervisor.py: a successor's acknowledgement (`_acknowledge_unlocked`, `_verified_capsule`), and
-- the retry with the rotation that follows it.
pub mod Sound
use agent_session_harness.Prelude.{
  ℕ, String, Bool, true, false, not, ◌&&◌, ◌||◌, Option, none, some, [], ◌==◌, str_eq,
}
use agent_session_harness.Models.{Confidence}
use agent_session_harness.Supervisor.State.{
  Phase, running, awaiting_ack, Settings, Snapshot, initial_usage, initial_compaction,
  initial_liveness, started, finished, acknowledge_effect, append_event, verify_acknowledgement,
  read_capsule,
}
use agent_session_harness.Supervisor.World.{World, Fault, runtime, value, Capsule}
use agent_session_harness.Supervisor.Exec.{
  M, choose, Result, ok, err, Error, fault, pure, raise, fail, attempt, get, ask, note, update,
  save, now, ◌>>=◌, ◌>>◌,
}
use agent_session_harness.Supervisor.Heartbeat.{heartbeat_if_due}
use agent_session_harness.Supervisor.Rotation.{pid_of, retry_successor, advance_rotation}

unfoldable pub is_awaiting : Phase → Bool
is_awaiting awaiting_ack = true
is_awaiting _ = false

unfoldable pub same_fingerprint : Option String → Option String → Bool
same_fingerprint none none = true
same_fingerprint (some f) (some g) = str_eq f g
same_fingerprint _ _ = false

unfoldable pub is_pid : ℕ → Option ℕ → Bool
is_pid n none = false
is_pid n (some m) = n == m

-- A generation that was acknowledged starts with a clean record.
unfoldable pub accept : String → Snapshot → Snapshot
accept conversation s = record s {
  phase = running;
  conversation_id = some conversation;
  warning_emitted = false;
  successor_ack_deadline_at = none;
  usage = initial_usage;
  compaction = initial_compaction;
  liveness = initial_liveness;
}

module _ (w : World) (settings : Settings) where
  -- `_retry_successor_unlocked`, with its tail call.
  unfoldable pub retry_and_advance : M (Unit {0})
  retry_and_advance = do retry_successor w settings; advance_rotation w settings

  -- The checks of `_verified_capsule`; a file that cannot be read is an error of its value.
  pub check_capsule : ℕ → String → Result Capsule → M Capsule
  check_capsule generation fingerprint (ok capsule) =
      choose (str_eq capsule.fingerprint fingerprint)
        (choose (str_eq capsule.chain_id settings.chain_id)
          (choose (capsule.target_generation == generation) (pure capsule) (raise value))
          (raise value))
        (raise value)
  check_capsule generation fingerprint (err (fault runtime)) = raise value
  check_capsule generation fingerprint (err e) = fail e

  pub verified_capsule : ℕ → Option String → Option String → M Capsule
  unfolding check_capsule
  verified_capsule generation (some path) (some fingerprint) = do
    r ← attempt (ask (read_capsule path) λ t. w.capsule_at t path)
    check_capsule generation fingerprint r
  verified_capsule generation _ _ = raise value

  pub finish_acknowledgement : ℕ → String → Result Bool → M (Unit {0})
  finish_acknowledgement generation conversation (ok true) = do
    at ← now w
    ask (append_event generation) (λ t. w.ledger_append t generation)
    update (accept conversation)
    save
    note acknowledge_effect finished generation
  finish_acknowledgement generation conversation _ = retry_and_advance

  pub confirm : ℕ → Option String → String → M (Unit {0})
  unfolding verified_capsule finish_acknowledgement
  confirm generation fingerprint conversation = do
    s ← get
    capsule ← verified_capsule s.snapshot.generation s.snapshot.checkpoint_path fingerprint
    heartbeat_if_due w settings true
    note acknowledge_effect started generation
    r ← attempt (ask (verify_acknowledgement generation) λ t. w.acknowledge t capsule)
    finish_acknowledgement generation conversation r

  -- The four checks of an acknowledgement.
  unfoldable pub is_expected : ℕ → Option String → ℕ → Snapshot → Bool
  is_expected generation fingerprint owner_pid s =
      is_awaiting s.phase
      && generation == s.generation
      && same_fingerprint fingerprint s.checkpoint_fingerprint
      && is_pid owner_pid (pid_of s.process)

  -- `_acknowledge_unlocked`
  unfoldable pub acknowledge_unlocked : ℕ → Option String → String → ℕ → M (Unit {0})
  unfolding confirm
  acknowledge_unlocked generation fingerprint conversation owner_pid = do
    s ← get
    choose (is_expected generation fingerprint owner_pid s.snapshot)
        (confirm generation fingerprint conversation) (raise value)
