-- ===== src/Daemon/Control.antt =====
-- daemon_supervisor.py: stop, restart and status, and the requests of a controller.
use agent_session_harness.Prelude.{
  ℕ, suc, List, [], ◌∷◌, Bool, true, false, not, ◌&&◌, ◌||◌, Option, none, some, is_none,
}
use agent_session_harness.Resources.State.{ProcessIdentity, ProcessState}
use agent_session_harness.Daemon.{
  stopped, running, stopping, failed, group_remains, lifetime_absent, deadlines_passed,
  DaemonLifecycleRecord, identity_unknown, stop_timeout, term, kill, System, Definition,
  DaemonSupervisor,
}
use agent_session_harness.Daemon.Exec.{
  M, pure, choose, raise, get, owned_child, read, publish_phase, observe_identity, has_live_members,
  signal, wait_group_absent, ◌>>=◌, ◌>>◌,
}
use agent_session_harness.Daemon.Launch.{
  generation_of, require_matching, terminate_owned_child, reap_owned_child, start_locked, start,
}

module _ (x : System) (d : Definition) where
  -- A stop that signals: the group is asked to end, and killed if it does not.
  unfoldable pub kill_group :
      DaemonLifecycleRecord → ProcessIdentity → Option ℕ → M DaemonLifecycleRecord
  kill_group r i child = do
    ignored ← signal x d kill i.pid
    gone ← wait_group_absent x d i.pid child
    choose gone (publish_phase x d stopped r.generation none none) (do
      failure ← publish_phase x d failed r.generation (some deadlines_passed) (some i)
      raise stop_timeout)

  unfoldable pub signal_daemon :
      DaemonLifecycleRecord → ProcessIdentity → Option ℕ → M DaemonLifecycleRecord
  signal_daemon r i child = do
    announced ← publish_phase x d stopping r.generation none (some i)
    ignored ← signal x d term i.pid
    absent ← wait_group_absent x d i.pid child
    choose absent (publish_phase x d stopped r.generation none none) (kill_group r i child)

  unfoldable pub take_down : DaemonLifecycleRecord → ProcessIdentity → M DaemonLifecycleRecord
  take_down r i = do
    s ← get
    choose (is_none (owned_child i.pid s.child) && not d.allow_process_takeover)
        (raise identity_unknown) (signal_daemon r i (owned_child i.pid s.child))

  unfoldable pub publish_absent : DaemonLifecycleRecord → M DaemonLifecycleRecord
  publish_absent r = publish_phase x d stopped r.generation (some lifetime_absent) none

  -- A leader that is a zombie, by the owned child and whether its group has live members.
  unfoldable pub stop_zombie :
      DaemonLifecycleRecord → ProcessIdentity → Option ℕ → Bool → M DaemonLifecycleRecord
  stop_zombie r i (some child) true = do terminate_owned_child x d child; publish_absent r
  stop_zombie r i none true =
      choose d.allow_process_takeover (take_down r i)
        (do reap_owned_child x d i.pid; publish_absent r)
  stop_zombie r i child false = do reap_owned_child x d i.pid; publish_absent r

  unfoldable pub stop_missing : DaemonLifecycleRecord → Option ℕ → M DaemonLifecycleRecord
  stop_missing r none = publish_absent r
  stop_missing r (some child) = raise identity_unknown

  unfoldable pub stop_observed :
      DaemonLifecycleRecord → ProcessIdentity → ProcessState → M DaemonLifecycleRecord
  stop_observed r i ProcessState.unknown = raise identity_unknown
  stop_observed r i ProcessState.missing = do s ← get; stop_missing r (owned_child i.pid s.child)
  stop_observed r i ProcessState.zombie = do
    s ← get
    live ← has_live_members x d i.pid
    stop_zombie r i (owned_child i.pid s.child) live
  stop_observed r i ProcessState.running = take_down r i

  unfoldable pub stop_identified :
      DaemonLifecycleRecord → Option ProcessIdentity → M DaemonLifecycleRecord
  stop_identified r none = publish_phase x d stopped r.generation none none
  stop_identified r (some i) = do state ← observe_identity x d i; stop_observed r i state

  unfoldable pub stop_current : Option DaemonLifecycleRecord → M DaemonLifecycleRecord
  stop_current none = publish_phase x d stopped 0 none none
  stop_current (some r) = stop_identified r r.process_identity

  -- `_stop_locked`, which is `stop` under the lock.
  unfoldable pub stop : M DaemonLifecycleRecord
  stop = do current ← read x d; require_matching x d current; stop_current current

  unfoldable pub restart : M DaemonLifecycleRecord
  restart = do current ← read x d; ignored ← stop; start_locked x d (suc (generation_of current))

  -- `status`, by the state of the identity.
  unfoldable pub status_absent : DaemonLifecycleRecord → ProcessIdentity → M DaemonLifecycleRecord
  status_absent r i = do reap_owned_child x d i.pid; publish_absent r

  unfoldable pub status_zombie :
      DaemonLifecycleRecord → ProcessIdentity → Option ℕ → M DaemonLifecycleRecord
  status_zombie r i child =
      choose (not (is_none child) || d.allow_process_takeover)
        (do
          live ← has_live_members x d i.pid
          choose live (publish_phase x d failed r.generation (some group_remains) (some i))
              (status_absent r i))
        (status_absent r i)

  unfoldable pub status_observed :
      DaemonLifecycleRecord → ProcessIdentity → ProcessState → M DaemonLifecycleRecord
  status_observed r i ProcessState.unknown = raise identity_unknown
  status_observed r i ProcessState.running = publish_phase x d running r.generation none (some i)
  status_observed r i ProcessState.zombie = do
    s ← get
    status_zombie r i (owned_child i.pid s.child)
  status_observed r i ProcessState.missing = status_absent r i

  unfoldable pub status_identified :
      DaemonLifecycleRecord → Option ProcessIdentity → M DaemonLifecycleRecord
  status_identified r none = pure r
  status_identified r (some i) = do state ← observe_identity x d i; status_observed r i state

  unfoldable pub status_of : Option DaemonLifecycleRecord → M DaemonLifecycleRecord
  status_of none = publish_phase x d stopped 0 none none
  status_of (some r) = status_identified r r.process_identity

  unfoldable pub status : M DaemonLifecycleRecord
  status = do current ← read x d; require_matching x d current; status_of current

-- The calls of a controller.
pub data Request : Type 0 where
  starts stops restarts asks : Request

unfoldable pub serve : System → Definition → Request → M DaemonLifecycleRecord
unfolding start stop restart status
serve x d starts = start x d
serve x d stops = stop x d
serve x d restarts = restart x d
serve x d asks = status x d

-- The supervisor after a sequence of calls, each of which may have raised.
unfoldable pub serve_all : System → Definition → List Request → DaemonSupervisor → DaemonSupervisor
unfolding serve
serve_all x d [] s = s
serve_all x d (r ∷ rs) s = serve_all x d rs (serve x d r s).1
