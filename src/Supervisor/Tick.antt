-- ===== src/Supervisor/Tick.antt =====
-- supervisor.py: one tick of a supervisor (`_tick_unlocked`), with the check that its process lives
-- (`_ensure_active_process_is_live`) and the clean exit (`_complete_clean_exit`).
pub mod Order
use agent_session_harness.Prelude.{ℕ, Bool, true, false, not, ◌&&◌, ◌||◌, Option, none, some, leb}
use agent_session_harness.Models.{ActivitySnapshot}
use agent_session_harness.Supervisor.State.{
  Phase, initial, running, warning, draining, checkpointing, checkpointed, awaiting_ack, completed,
  Settings, ManagedProcess, ClaimHandle, ExitStatus, ExitReason, natural, terminal_exit_effect,
  started, finished, probe_alive, probe_exit, clear_exit, fence_claim, read_ack, clear_ack,
}
use agent_session_harness.Supervisor.World.{
  World, Fault, stale_owner, runtime, answered, Acknowledgement,
}
use agent_session_harness.Supervisor.Exec.{
  M, choose, Result, ok, err, Error, fault, pure, raise, fail, attempt, get, ask, note, update,
  save, set_current, now, set_phase, persist_blocked, ◌>>=◌, ◌>>◌,
}
use agent_session_harness.Supervisor.Heartbeat.{heartbeat_if_due, is_io}
use agent_session_harness.Supervisor.Rotation.{advance_rotation}
use agent_session_harness.Supervisor.Usage.{UsageSample, observe_usage, is_before_drain}
use agent_session_harness.Supervisor.Compaction.{
  release_drain_on_self_compaction, is_draining, may_rotate,
}
use agent_session_harness.Supervisor.Liveness.{observe_runtime_liveness}
use agent_session_harness.Supervisor.Acknowledge.{
  is_awaiting, retry_and_advance, acknowledge_unlocked,
}

unfoldable pub is_initial : Phase → Bool
is_initial initial = true
is_initial _ = false

unfoldable pub is_completed : Phase → Bool
is_completed completed = true
is_completed _ = false

-- The phases in which the managed process must be live.
unfoldable pub is_supervised : Phase → Bool
is_supervised running = true
is_supervised warning = true
is_supervised draining = true
is_supervised checkpointing = true
is_supervised checkpointed = true
is_supervised awaiting_ack = true
is_supervised _ = false

is_natural : ExitReason → Bool
is_natural natural = true
is_natural _ = false

unfoldable pub is_clean_exit : Option ExitStatus → Phase → Bool
unfolding is_natural
is_clean_exit none phase = false
is_clean_exit (some terminal) phase =
    terminal.returned_zero && is_natural terminal.reason && is_before_drain phase

module _ (w : World) (settings : Settings) where
  unfoldable pub finalize_process : Option ManagedProcess → M (Unit {0})
  finalize_process none = pure tt
  finalize_process (some p) = do
    ask (clear_exit p) (λ t. w.clear_exit_status t p)
    set_current none
    update (λ snapshot. record snapshot { process = none })
    save

  -- `_finalize_completed_cleanup`
  unfoldable pub finalize_completed_cleanup : M (Unit {0})
  unfolding finalize_process
  finalize_completed_cleanup = do
    s ← get
    choose (is_completed s.snapshot.phase) (finalize_process s.current_process) (pure tt)

  pub after_release : Result (Unit {0}) → M (Unit {0})
  after_release (ok _) = pure tt
  after_release (err (fault stale_owner)) = pure tt
  after_release (err (fault runtime)) = do persist_blocked; raise runtime
  after_release (err e) = fail e

  pub release_claim : Option ClaimHandle → M (Unit {0})
  unfolding after_release
  release_claim none = pure tt
  release_claim (some c) = do r ← attempt (ask (fence_claim c) λ t. w.fence t c); after_release r

  pub report_exit : ℕ → Result (Unit {0}) → M (Unit {0})
  report_exit generation (ok _) = note terminal_exit_effect finished generation
  report_exit generation (err e) = choose (is_io e) (raise runtime) (fail e)

  -- `_complete_clean_exit`
  unfoldable pub complete_clean_exit : M (Unit {0})
  unfolding release_claim report_exit
  complete_clean_exit = do
    s ← get
    note terminal_exit_effect started s.snapshot.generation
    release_claim s.snapshot.claim
    update (λ snapshot. record snapshot {
      phase = completed;
      owner_session_id = none;
      claim = none;
      last_heartbeat_at = none;
    })
    save
    r ← attempt finalize_completed_cleanup
    report_exit s.snapshot.generation r

  pub block_on_io : Error → M (Unit {0})
  block_on_io e = do choose (is_io e) persist_blocked (pure tt); fail e

  pub end_of : Bool → Option ExitStatus → M (Unit {0})
  end_of has_process terminal = do
    s ← get
    choose (is_awaiting s.snapshot.phase) (retry_and_advance w settings) (
        choose (has_process && is_clean_exit terminal s.snapshot.phase) complete_clean_exit
          (do persist_blocked; raise runtime))

  pub after_exit : Result (Option ExitStatus) → M (Unit {0})
  unfolding end_of block_on_io
  after_exit (ok terminal) = end_of true terminal
  after_exit (err e) = block_on_io e

  pub after_probe : ManagedProcess → Result Bool → M (Unit {0})
  unfolding after_exit block_on_io
  after_probe p (ok true) = pure tt
  after_probe p (ok false) = do
    r ← attempt (ask (probe_exit p) λ t. w.exit_status t p)
    after_exit r
  after_probe p (err e) = block_on_io e

  pub ensure_process : Option ManagedProcess → M (Unit {0})
  unfolding after_probe end_of
  ensure_process none = end_of false none
  ensure_process (some p) = do
    r ← attempt (ask (probe_alive p) λ t. w.is_alive t p)
    after_probe p r

  -- `_ensure_active_process_is_live`
  unfoldable pub ensure_active_process_is_live : M (Unit {0})
  unfolding ensure_process
  ensure_active_process_is_live = do
    s ← get
    choose (is_supervised s.snapshot.phase) (ensure_process s.current_process) (pure tt)

  pub wait_until : Option ℕ → M (Unit {0})
  wait_until none = retry_and_advance w settings
  wait_until (some deadline) = do
    at ← now w
    choose (leb deadline at) (retry_and_advance w settings) (pure tt)

  pub receive : Option Acknowledgement → M (Unit {0})
  unfolding wait_until
  receive none = do s ← get; wait_until s.snapshot.successor_ack_deadline_at
  receive (some a) = do
    acknowledge_unlocked w settings a.generation (some a.fingerprint) a.conversation_id a.owner_pid
    ask clear_ack (λ t. answered tt)

  pub await_acknowledgement : M (Unit {0})
  unfolding receive
  await_acknowledgement = do r ← ask read_ack (λ t. answered (w.acknowledgement t)); receive r

  -- The gates of a draining session.
  unfoldable pub drain : ActivitySnapshot → M (Unit {0})
  drain activity = do
    s ← get
    choose (may_rotate settings s.snapshot activity)
        (do set_phase checkpointing; advance_rotation w settings) (pure tt)

  pub observe_session : ActivitySnapshot → Option UsageSample → M (Unit {0})
  observe_session activity sample = do
    observe_usage w settings sample
    release_drain_on_self_compaction w activity
    observe_runtime_liveness w settings activity
    s ← get
    choose (is_draining s.snapshot.phase) (drain activity) (advance_rotation w settings)

  pub live_tick : ActivitySnapshot → Option UsageSample → M (Unit {0})
  unfolding await_acknowledgement observe_session
  live_tick activity sample = do
    heartbeat_if_due w settings false
    s ← get
    choose (is_awaiting s.snapshot.phase) await_acknowledgement (
        choose (is_before_drain s.snapshot.phase || is_draining s.snapshot.phase)
          (observe_session activity sample) (advance_rotation w settings))

  -- `_tick_unlocked`
  unfoldable pub tick_unlocked : ActivitySnapshot → Option UsageSample → M (Unit {0})
  unfolding live_tick
  tick_unlocked activity sample = do
    s ← get
    choose (is_initial s.snapshot.phase) (raise runtime) (do
      ensure_active_process_is_live
      t ← get
      choose (is_completed t.snapshot.phase) (pure tt) (live_tick activity sample))
