-- ===== src/Daemon/Launch.antt =====
-- daemon_supervisor.py: `start`, and what the methods share.
use agent_session_harness.Prelude.{
  ℕ, suc, Bool, true, false, Option, none, some, Except, returned, thrown, same, string_eq,
}
use agent_session_harness.Resources.State.{ProcessIdentity, ProcessState}
use agent_session_harness.Daemon.{
  starting, running, failed, Detail, creation_failed, probe_failed, publication_failed,
  cleanup_failed, DaemonLifecycleRecord, ChildState, child_running, child_missing, DaemonError,
  identity_unknown, launch_failed, stop_timeout, different_daemon, term, kill, spawn, capture,
  child_status, poll, pause, System, Definition,
}
use agent_session_harness.Daemon.Exec.{
  M, pure, choose, raise, attempt, get, set_child, ask, owned_child, read, store, publish_phase,
  observe_identity, signal, wait_child, wait_group_absent, ◌>>=◌, ◌>>◌,
}

unfoldable pub is_child_running : ChildState → Bool
is_child_running child_running = true
is_child_running _ = false

unfoldable pub is_child_missing : ChildState → Bool
is_child_missing child_missing = true
is_child_missing _ = false

-- `current.generation if current is not None else 0`
unfoldable pub generation_of : Option DaemonLifecycleRecord → ℕ
generation_of none = 0
generation_of (some r) = r.generation

module _ (x : System) (d : Definition) where
  -- `_require_matching_daemon`
  unfoldable pub require_matching : Option DaemonLifecycleRecord → M (Unit {0})
  require_matching none = pure tt
  require_matching (some r) =
      choose (same r.daemon_key d.daemon_key) (pure tt) (raise different_daemon)

  -- `_terminate_owned_child`, after the first signal.
  unfoldable pub end_group : ℕ → M (Unit {0})
  end_group child = do
    absent ← wait_group_absent x d child (some child)
    choose absent (pure tt) (do
      ignored ← signal x d kill child
      gone ← wait_group_absent x d child (some child)
      choose gone (pure tt) (raise stop_timeout))
    set_child none

  unfoldable pub terminate_owned_child : ℕ → M (Unit {0})
  terminate_owned_child child = do
    found ← signal x d term child
    choose found (end_group child) (wait_child x d (some child))

  unfoldable pub reap_child : Option ℕ → M (Unit {0})
  reap_child none = pure tt
  reap_child (some child) = do
    over ← ask (poll child) (λ t. x.ended t child)
    choose over (do wait_child x d (some child); set_child none) (pure tt)

  -- `_reap_owned_child`
  unfoldable pub reap_owned_child : ℕ → M (Unit {0})
  reap_owned_child pid = do s ← get; reap_child (owned_child pid s.child)

  -- The publication of a failure, whose own failure changes nothing of what is raised.
  unfoldable pub publish_failure :
      ℕ → Detail → Option ProcessIdentity → DaemonError → M DaemonLifecycleRecord
  publish_failure generation detail identity e = do
    ignored ← attempt (publish_phase x d failed generation (some detail) identity)
    raise e

  unfoldable pub after_cleanup :
      ℕ → ProcessIdentity → DaemonError → Except DaemonError (Unit {0}) → M DaemonLifecycleRecord
  after_cleanup generation identity e (returned _) =
      publish_failure generation publication_failed none e
  after_cleanup generation identity e (thrown c) =
      publish_failure generation cleanup_failed (some identity) c

  unfoldable pub after_publication :
      ℕ → ℕ → ProcessIdentity → Except DaemonError DaemonLifecycleRecord → M DaemonLifecycleRecord
  after_publication generation child identity (returned r) = pure r
  after_publication generation child identity (thrown e) = do
    c ← attempt (terminate_owned_child child)
    after_cleanup generation identity e c

  -- A launch that fails its probe.
  unfoldable pub give_up : ℕ → ℕ → ChildState → M DaemonLifecycleRecord
  give_up generation child state = do
    choose (is_child_missing state) (set_child none) (terminate_owned_child child)
    ignored ← publish_phase x d failed generation (some probe_failed) none
    raise launch_failed

  unfoldable pub probe : ℕ → ℕ → ChildState → Option ProcessIdentity → M DaemonLifecycleRecord
  probe generation child state none = give_up generation child state
  probe generation child state (some identity) =
      choose (is_child_running state)
        (do
          r ← attempt (publish_phase x d running generation none (some identity))
          after_publication generation child identity r)
        (give_up generation child state)

  unfoldable pub launched : ℕ → Option ℕ → M DaemonLifecycleRecord
  launched generation none = do
    ignored ← publish_phase x d failed generation (some creation_failed) none
    raise launch_failed
  launched generation (some child) = do
    set_child (some child)
    ask pause (λ _. tt)
    identity ← ask (capture child) (λ t. x.captured t child)
    state ← ask (child_status child) (λ t. x.child_state t child)
    probe generation child state identity

  -- `subprocess.Popen`; the history notes the child's pid.
  unfoldable pub spawn_child : M (Option ℕ)
  spawn_child = do s ← get; ask (spawn (x.spawned s.trace)) (λ _. x.spawned s.trace)

  -- `_start_locked`
  unfoldable pub start_locked : ℕ → M DaemonLifecycleRecord
  start_locked generation = do
    ignored ← publish_phase x d starting generation none none
    child ← spawn_child
    launched generation child

  -- `_verified_running`, once the identity is observed.
  unfoldable pub running_or_none :
      DaemonLifecycleRecord → ProcessState → M (Option DaemonLifecycleRecord)
  running_or_none r ProcessState.running = do
    let normalized : DaemonLifecycleRecord = record r { phase = running }
    store x d normalized
    pure (some normalized)
  running_or_none r ProcessState.unknown = raise identity_unknown
  running_or_none r _ = pure none

  unfoldable pub observed_running :
      DaemonLifecycleRecord → Option ProcessIdentity → M (Option DaemonLifecycleRecord)
  observed_running r none = pure none
  observed_running r (some i) = do state ← observe_identity x d i; running_or_none r state

  unfoldable pub verified_running : Option DaemonLifecycleRecord → M (Option DaemonLifecycleRecord)
  verified_running none = pure none
  verified_running (some r) = do require_matching (some r); observed_running r r.process_identity

  unfoldable pub start_unless : ℕ → Option DaemonLifecycleRecord → M DaemonLifecycleRecord
  start_unless generation (some r) = pure r
  start_unless generation none = start_locked (suc generation)

  unfoldable pub start : M DaemonLifecycleRecord
  start = do
    current ← read x d
    live ← verified_running current
    start_unless (generation_of current) live
