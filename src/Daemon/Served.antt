-- ===== src/Daemon/Served.antt =====
-- daemon_supervisor.py: the groups that `start`, `stop`, `restart` and `status` signal.
use agent_session_harness.Prelude.{ℕ, ◌≡◌, refl, true, List, [], ◌∷◌, Option, none, some}
use agent_session_harness.Resources.State.{ProcessIdentity, ProcessState}
use agent_session_harness.Daemon.{DaemonLifecycleRecord, System, Definition, DaemonSupervisor}
use agent_session_harness.Daemon.Exec.{owned_child, observe_identity, has_live_members}
use agent_session_harness.Daemon.Launch.{
  generation_of, require_matching, running_or_none, observed_running, verified_running,
  start_unless, start,
}
use agent_session_harness.Daemon.Control.{
  stop_identified, stop_current, stop, restart, status_absent, status_zombie, status_observed,
  status_identified, status_of, status, Request, starts, stops, restarts, asks, serve, serve_all,
}
use agent_session_harness.Daemon.Grants.{
  is_permitted, IsCareful, Grant, nothing, Keeps, Keeps-pure, Keeps-raise, Keeps-choose, Keeps-bind,
  Keeps-then, Keeps-get, Keeps-ask,
}
use agent_session_harness.Daemon.Signals.{store-Keeps, read-Keeps, publish-Keeps, observe-Keeps}
use agent_session_harness.Daemon.Launches.{start_locked-Keeps}
use agent_session_harness.Daemon.Stops.{reap_absent-Keeps, stop_present-Keeps, stop_gone-Keeps}

module _ (x : System) (d : Definition) where
  matching-Keeps :
      (g : Grant) (o : Option DaemonLifecycleRecord) → Keeps x d g (require_matching x d o)
  unfolding require_matching
  matching-Keeps g none = Keeps-pure x d g tt
  matching-Keeps g (some r) =
      Keeps-choose x d g _ _ _ (λ _. Keeps-pure x d g tt) (λ _. Keeps-raise x d g _)

  stop_current-Keeps : (o : Option DaemonLifecycleRecord) → Keeps x d nothing (stop_current x d o)
  unfolding stop_current stop_identified
  stop_current-Keeps none = publish-Keeps x d nothing _ _ _ _
  stop_current-Keeps (some r) = identified r.process_identity
    where
      identified : (i : Option ProcessIdentity) → Keeps x d nothing (stop_identified x d r i)
      identified none = publish-Keeps x d nothing _ _ _ _
      identified (some i) =
          observe-Keeps x d i _ (stop_present-Keeps x d r i) (stop_gone-Keeps x d r i)

  stop-Keeps : Keeps x d nothing (stop x d)
  unfolding stop
  stop-Keeps =
      Keeps-bind x d nothing _ _ (read-Keeps x d nothing)
        (λ o. Keeps-then x d nothing _ _ (matching-Keeps nothing o) (stop_current-Keeps o))

  restart-Keeps : Keeps x d nothing (restart x d)
  unfolding restart
  restart-Keeps =
      Keeps-bind x d nothing _ _ (read-Keeps x d nothing)
        (λ o. Keeps-bind x d nothing _ _ stop-Keeps (λ _. start_locked-Keeps x d _))

  running-Keeps :
      (r : DaemonLifecycleRecord) (state : ProcessState)
      → Keeps x d nothing (running_or_none x d r state)
  unfolding running_or_none
  running-Keeps r ProcessState.running =
      Keeps-then x d nothing _ _ (store-Keeps x d nothing _) (Keeps-pure x d nothing _)
  running-Keeps r ProcessState.zombie = Keeps-pure x d nothing none
  running-Keeps r ProcessState.missing = Keeps-pure x d nothing none
  running-Keeps r ProcessState.unknown = Keeps-raise x d nothing _

  verified-Keeps : (o : Option DaemonLifecycleRecord) → Keeps x d nothing (verified_running x d o)
  unfolding verified_running observed_running observe_identity
  verified-Keeps none = Keeps-pure x d nothing none
  verified-Keeps (some r) =
      Keeps-then x d nothing _ _ (matching-Keeps nothing (some r)) (observed r.process_identity)
    where
      observed : (i : Option ProcessIdentity) → Keeps x d nothing (observed_running x d r i)
      observed none = Keeps-pure x d nothing none
      observed (some i) =
          Keeps-bind x d nothing _ _ (Keeps-ask x d nothing _ _ (λ t k. refl)) (running-Keeps r)

  start-Keeps : Keeps x d nothing (start x d)
  unfolding start start_unless
  start-Keeps =
      Keeps-bind x d nothing _ _ (read-Keeps x d nothing)
        (λ o. Keeps-bind x d nothing _ _ (verified-Keeps o) (started o))
    where
      started :
          (o live : Option DaemonLifecycleRecord)
          → Keeps x d nothing (start_unless x d (generation_of o) live)
      started o none = start_locked-Keeps x d _
      started o (some r) = Keeps-pure x d nothing r

  status_zombie-Keeps :
      (r : DaemonLifecycleRecord) (i : ProcessIdentity) (child : Option ℕ)
      → Keeps x d nothing (status_zombie x d r i child)
  unfolding status_zombie has_live_members status_absent
  status_zombie-Keeps r i child =
      Keeps-choose x d nothing _ _ _
        (λ _. Keeps-bind x d nothing _ _ (Keeps-ask x d nothing _ _ (λ t k. refl)) (λ live.
          Keeps-choose x d nothing live _ _ (λ _. publish-Keeps x d nothing _ _ _ _)
            (λ _. reap_absent-Keeps x d nothing r i.pid)))
        (λ _. reap_absent-Keeps x d nothing r i.pid)

  status_observed-Keeps :
      (r : DaemonLifecycleRecord) (i : ProcessIdentity) (state : ProcessState)
      → Keeps x d nothing (status_observed x d r i state)
  unfolding status_observed status_absent
  status_observed-Keeps r i ProcessState.unknown = Keeps-raise x d nothing _
  status_observed-Keeps r i ProcessState.running = publish-Keeps x d nothing _ _ _ _
  status_observed-Keeps r i ProcessState.missing = reap_absent-Keeps x d nothing r i.pid
  status_observed-Keeps r i ProcessState.zombie =
      Keeps-get x d nothing _
        (λ s h k. (status_zombie-Keeps r i (owned_child i.pid s.child)).runs s h k)

  status-Keeps : Keeps x d nothing (status x d)
  unfolding status status_of status_identified observe_identity
  status-Keeps =
      Keeps-bind x d nothing _ _ (read-Keeps x d nothing)
        (λ o. Keeps-then x d nothing _ _ (matching-Keeps nothing o) (of_record o))
    where
      identified :
          (r : DaemonLifecycleRecord) (i : Option ProcessIdentity)
          → Keeps x d nothing (status_identified x d r i)
      identified r none = Keeps-pure x d nothing r
      identified r (some i) =
          Keeps-bind x d nothing _ _ (Keeps-ask x d nothing _ _ (λ t k. refl))
            (status_observed-Keeps r i)

      of_record : (o : Option DaemonLifecycleRecord) → Keeps x d nothing (status_of x d o)
      of_record none = publish-Keeps x d nothing _ _ _ _
      of_record (some r) = identified r r.process_identity

  serve-Keeps : (r : Request) → Keeps x d nothing (serve x d r)
  unfolding serve
  serve-Keeps starts = start-Keeps
  serve-Keeps stops = stop-Keeps
  serve-Keeps restarts = restart-Keeps
  serve-Keeps asks = status-Keeps

  serve_all-IsCareful :
      (rs : List Request) (s : DaemonSupervisor)
      → IsCareful x d s
      → IsCareful x d (serve_all x d rs s)
  unfolding serve_all
  serve_all-IsCareful [] s h = h
  serve_all-IsCareful (r ∷ rs) s h =
      serve_all-IsCareful rs _ ((serve-Keeps r).runs s h refl).careful

-- Whatever the state file says and the system answers, in any sequence of start, stop, restart and
-- status calls of a new controller, each of which may raise, every process group that is signalled
-- was launched by this controller earlier, or the controller may take processes over and had observed
-- the identity of the group's leader, running or a zombie, earlier.
pub serve_all-permitted :
    (x : System) (d : Definition) (rs : List Request) (file : Option DaemonLifecycleRecord)
    → is_permitted x d (serve_all x d rs (record { file = file; child = none; trace = [] })).trace
      ≡ true
serve_all-permitted x d rs file =
    (serve_all-IsCareful x d rs _ (record { signals = refl; child = refl })).signals
