-- ===== src/Supervisor/Rotation.antt =====
-- supervisor.py: `_advance_rotation`, the loop that takes a rotation from the checkpoint to the
-- successor, and `_retry_successor_unlocked`. Each phase of the loop is an action that says whether
-- the loop goes on. The tail calls between the two are rounds of the loop.

pub mod Measure
pub mod Checkpoint
pub mod Handover
pub mod Retry
pub mod Launch
pub mod Order
use agent_session_harness.Prelude.{
  ℕ, zero, suc, ◌+◌, String, Bool, true, false, not, ◌&&◌, ◌||◌, Option, none, some, ltb, leb, ◌==◌,
  is_none,
}
use agent_session_harness.Supervisor.State.{
  Phase, checkpointing, checkpointed, stopping, stopped, fencing, fenced, claiming, launching,
  awaiting_ack, blocked, ManagedProcess, ClaimHandle, Settings, Snapshot, started, finished, failed,
  scheduled, claim_effect, launch_effect, checkpoint_effect, stop_effect, fence_effect,
  successor_attempt_effect, successor_retry_effect, probe_alive, clear_exit, stop_process,
  start_process, make_checkpoint, append_event, claim_task, fence_claim, clear_ack, clear_abort,
}
use agent_session_harness.Supervisor.World.{
  World, Fault, stale_owner, runtime, Receipt, Answer, answered,
}
use agent_session_harness.Supervisor.Exec.{
  M, choose, Result, ok, err, Error, fault, diverged, pure, raise, fail, attempt, get, ask, note,
  update, save, set_current, set_abort_pending, now, set_phase, persist_blocked, ◌>>=◌, ◌>>◌,
}
use agent_session_harness.Supervisor.Heartbeat.{heartbeat_if_due, fail_closed}

unfoldable pub pid_of : Option ManagedProcess → Option ℕ
pid_of none = none
pid_of (some p) = some p.pid

module _ (w : World) (settings : Settings) where
  pub finish_checkpoint : String → ℕ → Receipt → M Bool
  finish_checkpoint predecessor target receipt =
      choose (not receipt.verified) (do note checkpoint_effect failed target; pure false)
        (do
          note checkpoint_effect finished target
          at ← now w
          ask (append_event target) (λ t. w.ledger_append t target)
          update (λ snapshot. record snapshot {
            phase = checkpointed;
            checkpoint_fingerprint = some receipt.fingerprint;
            checkpoint_path = some receipt.path;
          })
          save
          pure true)

  pub checkpoint_from : Option String → ℕ → M Bool
  unfolding finish_checkpoint
  checkpoint_from none target = pure false
  checkpoint_from (some predecessor) target = do
    heartbeat_if_due w settings true
    note checkpoint_effect started target
    receipt ← ask (make_checkpoint predecessor target) (λ t. w.checkpoint t predecessor target)
    heartbeat_if_due w settings true
    finish_checkpoint predecessor target receipt

  pub stop_predecessor : Option ManagedProcess → ℕ → M Bool
  stop_predecessor none generation = raise runtime
  stop_predecessor (some p) generation = do
    note stop_effect started generation
    ask (stop_process p) (λ t. w.graceful_stop t p)
    alive ← ask (probe_alive p) (λ t. w.is_alive t p)
    choose alive (raise runtime) (do
      note stop_effect finished generation
      ask (clear_exit p) (λ t. w.clear_exit_status t p)
      set_current none
      update (λ snapshot. record snapshot { phase = stopped; process = none })
      save
      pure true)

  pub finish_fence : ℕ → Result (Unit {0}) → M Bool
  finish_fence generation (ok _) = do
    note fence_effect finished generation
    set_phase fenced
    pure true
  finish_fence generation (err (fault stale_owner)) = do fail_closed w; raise stale_owner
  finish_fence generation (err e) = fail e

  pub fence_predecessor : Option ClaimHandle → ℕ → M Bool
  unfolding finish_fence
  fence_predecessor none generation = raise runtime
  fence_predecessor (some claim) generation = do
    note fence_effect started generation
    r ← attempt (ask (fence_claim claim) λ t. w.fence t claim)
    finish_fence generation r

  pub claim_successor : ℕ → M Bool
  claim_successor target = do
    note claim_effect started target
    at ← now w
    claim ← ask (claim_task target) (λ t. w.claim t target at)
    update (λ snapshot. record snapshot {
      generation = target;
      successor_attempt = 0;
      phase = launching;
      owner_session_id = some target;
      conversation_id = none;
      claim = some claim;
      last_heartbeat_at = some at;
    })
    save
    note claim_effect finished target
    pure true

  -- The body of the `try` of `_retry_successor_unlocked`.
  pub stop_failed_successor : ManagedProcess → M (Unit {0})
  stop_failed_successor p = do
    alive ← ask (probe_alive p) (λ t. w.is_alive t p)
    choose alive (ask (stop_process p) (λ t. w.graceful_stop t p)) (pure tt)
    still ← ask (probe_alive p) (λ t. w.is_alive t p)
    choose still (raise runtime) (pure tt)
    ask (clear_exit p) (λ t. w.clear_exit_status t p)

  pub abort_unless_stopped : Result (Unit {0}) → M (Unit {0})
  abort_unless_stopped (ok _) = pure tt
  abort_unless_stopped (err e) = do set_abort_pending true; persist_blocked; raise runtime

  pub discard_successor : Option ManagedProcess → M (Unit {0})
  unfolding stop_failed_successor abort_unless_stopped
  discard_successor none = pure tt
  discard_successor (some p) = do r ← attempt (stop_failed_successor p); abort_unless_stopped r

  pub is_retryable : Phase → Bool
  is_retryable awaiting_ack = true
  is_retryable launching = true
  is_retryable _ = false

  pub clear_abort_of : Option ℕ → M (Unit {0})
  clear_abort_of none = pure tt
  clear_abort_of (some pid) = ask clear_abort (λ t. answered tt)

  pub schedule_retry : Snapshot → M (Unit {0})
  schedule_retry before =
      choose (leb settings.successor_retry_limit before.successor_attempt)
        (do
          update (λ snapshot. record snapshot {
            phase = blocked;
            process = none;
            conversation_id = none;
            successor_ack_deadline_at = none;
          })
          save
          raise runtime)
        (do
          update (λ snapshot. record snapshot {
            phase = launching;
            successor_attempt = snapshot.successor_attempt + 1;
            process = none;
            conversation_id = none;
            successor_ack_deadline_at = none;
          })
          save
          note successor_retry_effect scheduled before.generation)

  -- `_retry_successor_unlocked`, up to the tail call of `_advance_rotation`.
  unfoldable pub retry_successor : M (Unit {0})
  unfolding is_retryable discard_successor clear_abort_of schedule_retry pid_of
  retry_successor = do
    s ← get
    choose (s.snapshot.generation == 0 || not (is_retryable s.snapshot.phase)) (raise runtime) (do
      note successor_attempt_effect failed s.snapshot.generation
      discard_successor s.current_process
      set_current none
      ask clear_ack (λ t. answered tt)
      clear_abort_of (pid_of s.snapshot.process)
      schedule_retry s.snapshot)

  -- The check of `_launch_request`; the rest of the request is built from constants.
  pub launch_request : Snapshot → M (Unit {0})
  launch_request snapshot =
      choose
        (not (snapshot.generation == 0)
          && (is_none snapshot.checkpoint_path || is_none snapshot.checkpoint_fingerprint))
        (raise runtime) (pure tt)

  pub finish_launch : ℕ → Result ManagedProcess → M Bool
  finish_launch generation (ok p) = do
    set_current (some p)
    at ← now w
    update (λ snapshot. record snapshot {
      phase = awaiting_ack;
      successor_ack_deadline_at = some (at + settings.successor_ack_timeout);
      process = some p;
    })
    save
    note launch_effect finished generation
    heartbeat_if_due w settings false
    pure true
  finish_launch generation (err e) = do
    note launch_effect failed generation
    choose (generation == 0) (fail e) retry_successor
    pure true

  pub launch_successor : Snapshot → M Bool
  unfolding launch_request finish_launch
  launch_successor snapshot = do
    launch_request snapshot
    note launch_effect started snapshot.generation
    r ← attempt (ask (start_process snapshot.generation) λ t. w.start_fresh t snapshot.generation)
    finish_launch snapshot.generation r

  -- One round of the `while True` loop.
  unfoldable pub rotation_round : Phase → Snapshot → Option ManagedProcess → M Bool
  unfolding checkpoint_from stop_predecessor fence_predecessor claim_successor launch_successor
  rotation_round checkpointing s p = checkpoint_from s.conversation_id (s.generation + 1)
  rotation_round checkpointed s p = do set_phase stopping; pure true
  rotation_round stopping s p = stop_predecessor p s.generation
  rotation_round stopped s p = do set_phase fencing; pure true
  rotation_round fencing s p = fence_predecessor s.claim s.generation
  rotation_round fenced s p = do set_phase claiming; pure true
  rotation_round claiming s p = claim_successor (s.generation + 1)
  rotation_round launching s p = launch_successor s
  rotation_round _ s p = pure false

  unfoldable pub rotate : ℕ → M (Unit {0})
  rotate zero = fail diverged
  rotate (suc fuel) =
      let rest = rotate fuel in
      do
        s ← get
        more ← rotation_round s.snapshot.phase s.snapshot s.current_process
        choose more rest (pure tt)

  -- `_advance_rotation`. The fuel is one round for each phase and each retry that is left.
  unfoldable pub advance_rotation : M (Unit {0})
  advance_rotation = rotate (settings.successor_retry_limit + 10)
