-- ===== src/Supervisor/Heartbeat.antt =====
-- supervisor.py: the lease heartbeat, and the loss of the lease.
pub mod Sound
use agent_session_harness.Prelude.{ℕ, ◌+◌, Bool, true, false, not, ◌&&◌, Option, none, some, ltb}
use agent_session_harness.Supervisor.State.{
  Phase, running, warning, draining, checkpointing, checkpointed, launching, awaiting_ack, blocked,
  ManagedProcess, ClaimHandle, Settings, Snapshot, probe_alive, clear_exit, heartbeat_claim,
}
use agent_session_harness.Supervisor.World.{World, Fault, stale_owner, runtime, value, other}
use agent_session_harness.Supervisor.Exec.{
  M, choose, Result, ok, err, Error, fault, pure, raise, fail, attempt, get, ask, update, save,
  set_current, now, persist_blocked, ◌>>=◌, ◌>>◌,
}

-- `except (OSError, RuntimeError, ValueError)`; StaleOwnerError is a RuntimeError.
unfoldable pub is_io : Error → Bool
is_io (fault stale_owner) = true
is_io (fault runtime) = true
is_io (fault value) = true
is_io _ = false

unfoldable pub pass_io : Error → M (Unit {0})
unfolding is_io
pass_io e = choose (is_io e) (pure tt) (fail e)

module _ (w : World) where
  reaped : Result (Unit {0}) → M (Unit {0})
  unfolding pass_io
  reaped (ok _) = do set_current none; update (λ snapshot. record snapshot { process = none }); save
  reaped (err e) = pass_io e

  reap_if_gone : ManagedProcess → Result Bool → M (Unit {0})
  unfolding reaped pass_io
  reap_if_gone p (ok true) = pure tt
  reap_if_gone p (ok false) = do
    r ← attempt (ask (clear_exit p) λ t. w.clear_exit_status t p)
    reaped r
  reap_if_gone p (err e) = pass_io e

  reap_current : Option ManagedProcess → M (Unit {0})
  unfolding reap_if_gone
  reap_current none = pure tt
  reap_current (some p) = do r ← attempt (ask (probe_alive p) λ t. w.is_alive t p); reap_if_gone p r

  -- `_fail_closed_for_stale_owner`
  unfoldable pub fail_closed : M (Unit {0})
  unfolding reap_current
  fail_closed = do persist_blocked; s ← get; reap_current s.current_process

  unfoldable pub is_beating : Phase → Bool
  is_beating running = true
  is_beating warning = true
  is_beating draining = true
  is_beating checkpointing = true
  is_beating checkpointed = true
  is_beating launching = true
  is_beating awaiting_ack = true
  is_beating _ = false

  -- `not force and last is not None and now - last < interval`
  unfoldable pub is_recent : ℕ → Bool → Option ℕ → ℕ → Bool
  is_recent interval force none at = false
  is_recent interval force (some last) at = not force && ltb at (last + interval)

  finish_heartbeat : ℕ → Result ClaimHandle → M (Unit {0})
  unfolding fail_closed
  finish_heartbeat at (ok refreshed) = do
    update (λ snapshot. record snapshot { claim = some refreshed; last_heartbeat_at = some at })
    save
  finish_heartbeat at (err (fault stale_owner)) = do fail_closed; raise stale_owner
  finish_heartbeat at (err e) = fail e

  beat : Settings → Bool → Option ClaimHandle → M (Unit {0})
  unfolding finish_heartbeat is_recent
  beat settings force none = raise runtime
  beat settings force (some claim) = do
    at ← now w
    s ← get
    choose (is_recent settings.heartbeat_interval force s.snapshot.last_heartbeat_at at) (pure tt)
        (do
          r ← attempt (ask (heartbeat_claim claim) λ t. w.heartbeat t claim at)
          finish_heartbeat at r)

  -- `_heartbeat_if_due`
  unfoldable pub heartbeat_if_due : Settings → Bool → M (Unit {0})
  unfolding beat is_beating
  heartbeat_if_due settings force = do
    s ← get
    choose (is_beating s.snapshot.phase) (beat settings force s.snapshot.claim) (pure tt)
