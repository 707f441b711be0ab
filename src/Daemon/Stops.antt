-- ===== src/Daemon/Stops.antt =====
-- daemon_supervisor.py: what `stop` relies on to signal.
use agent_session_harness.Prelude.{
  ℕ, subst, ◌≡◌, refl, Bool, true, false, not, ◌&&◌, List, Option, none, some, is_none, arith, same,
  same_iff, nat_eq, Bool-cases, inl, inr,
}
use agent_session_harness.Resources.State.{ProcessIdentity, ProcessState}
use agent_session_harness.Daemon.{
  DaemonLifecycleRecord, Call, term, kill, System, Definition, DaemonSupervisor,
}
use agent_session_harness.Daemon.Exec.{choose, raise, ◌>>=◌, ◌>>◌, owned_child, has_live_members}
use agent_session_harness.Daemon.Launch.{reap_owned_child}
use agent_session_harness.Daemon.Control.{
  kill_group, signal_daemon, take_down, publish_absent, stop_zombie, stop_missing, stop_observed,
}
use agent_session_harness.Daemon.Grants.{
  is_present, launched_before, verified_before, may_signal, child_launched, IsCareful, Grant,
  nothing, Left, Keeps, Left-self, Keeps-raise, Keeps-choose, Keeps-bind, Keeps-then, Keeps-get,
  Keeps-ask,
}
use agent_session_harness.Daemon.Signals.{
  publish-Keeps, group-Keeps, signal-Keeps, launched_allowed, terminate-Keeps, reap-Keeps,
}

module _ (x : System) (d : Definition) where
  -- The owned child was launched by this controller.
  owned_child-launched :
      (pid : ℕ) (o : Option ℕ) (t : List Call)
      → child_launched x d o t ≡ true
      → child_launched x d (owned_child pid o) t ≡ true
  unfolding owned_child
  owned_child-launched pid none t h = refl
  owned_child-launched pid (some c) t h = ground (arith, h)

  owned_launched :
      (pid : ℕ) (o : Option ℕ) (t : List Call)
      → child_launched x d o t ≡ true
      → is_none (owned_child pid o) ≡ false
      → launched_before x d pid t ≡ true
  unfolding owned_child
  owned_launched pid none t h k = ground arith
  owned_launched pid (some c) t h k = elim (Bool-cases (same c pid)) [
    | inl e ↦ subst (λ p. launched_before x d p t ≡ true) ((same_iff c pid).0 e) h
    | inr e ↦ ground (arith, e, k)
  ]

  kill_group-Keeps :
      (r : DaemonLifecycleRecord) (i : ProcessIdentity) (child : Option ℕ)
      → Keeps x d (Grant.allowed i.pid) (kill_group x d r i child)
  unfolding kill_group
  kill_group-Keeps r i child =
      let g = Grant.allowed i.pid in
      Keeps-bind x d g _ _ (signal-Keeps x d kill i.pid) (λ _.
        Keeps-bind x d g _ _ (group-Keeps x d g i.pid child) (λ gone.
          Keeps-choose x d g gone _ _ (λ _. publish-Keeps x d g _ _ _ _)
            (λ _. Keeps-bind x d g _ _ (publish-Keeps x d g _ _ _ _) (λ _. Keeps-raise x d g _))))

  signal_daemon-Keeps :
      (r : DaemonLifecycleRecord) (i : ProcessIdentity) (child : Option ℕ)
      → Keeps x d (Grant.allowed i.pid) (signal_daemon x d r i child)
  unfolding signal_daemon
  signal_daemon-Keeps r i child =
      let g = Grant.allowed i.pid in
      Keeps-bind x d g _ _ (publish-Keeps x d g _ _ _ _) (λ _.
        Keeps-bind x d g _ _ (signal-Keeps x d term i.pid) (λ _.
          Keeps-bind x d g _ _ (group-Keeps x d g i.pid child) (λ absent.
            Keeps-choose x d g absent _ _ (λ _. publish-Keeps x d g _ _ _ _)
              (λ _. kill_group-Keeps r i child))))

  take_down_allowed :
      (pid : ℕ) (s : DaemonSupervisor)
      → IsCareful x d s
      → verified_before x d pid s.trace ≡ true
      → is_none (owned_child pid s.child) && not d.allow_process_takeover ≡ false
      → may_signal x d pid s.trace ≡ true
  take_down_allowed pid s h v k = elim (Bool-cases (is_none (owned_child pid s.child))) [
    | inl n ↦ ground (arith, n, k, v)
    | inr n ↦ ground (arith, owned_launched pid s.child s.trace h.child n)
  ]

  take_down-Keeps :
      (r : DaemonLifecycleRecord) (i : ProcessIdentity)
      → Keeps x d (Grant.verified i.pid) (take_down x d r i)
  unfolding take_down choose raise
  take_down-Keeps r i = Keeps-get x d (Grant.verified i.pid) _ (λ s h k.
      elim (Bool-cases (is_none (owned_child i.pid s.child) && not d.allow_process_takeover)) [
        | inl b ↦ rw (b, choose) (Left-self x d s h)
        | inr b ↦
            rw (b, choose)
              ((signal_daemon-Keeps r i (owned_child i.pid s.child)).runs s h
                (take_down_allowed i.pid s h k b))
      ])

  absent-Keeps : (g : Grant) (r : DaemonLifecycleRecord) → Keeps x d g (publish_absent x d r)
  unfolding publish_absent
  absent-Keeps g r = publish-Keeps x d g _ _ _ _

  pub reap_absent-Keeps :
      (g : Grant) (r : DaemonLifecycleRecord) (pid : ℕ)
      → Keeps x d g (reap_owned_child x d pid >> publish_absent x d r)
  reap_absent-Keeps g r pid = Keeps-then x d g _ _ (reap-Keeps x d g pid) (absent-Keeps g r)

  zombie_child-Keeps :
      (r : DaemonLifecycleRecord) (i : ProcessIdentity) (child : ℕ) (live : Bool)
      → Keeps x d (Grant.launched child) (stop_zombie x d r i (some child) live)
  unfolding stop_zombie
  zombie_child-Keeps r i child true =
      let g = Grant.launched child in
      Keeps-then x d g _ _ (launched_allowed x d child _ (terminate-Keeps x d child))
        (absent-Keeps g r)
  zombie_child-Keeps r i child false = reap_absent-Keeps (Grant.launched child) r i.pid

  zombie_alone-Keeps :
      (r : DaemonLifecycleRecord) (i : ProcessIdentity) (live : Bool)
      → Keeps x d (Grant.verified i.pid) (stop_zombie x d r i none live)
  unfolding stop_zombie
  zombie_alone-Keeps r i true =
      let g = Grant.verified i.pid in
      Keeps-choose x d g _ _ _ (λ _. take_down-Keeps r i) (λ _. reap_absent-Keeps g r i.pid)
  zombie_alone-Keeps r i false = reap_absent-Keeps (Grant.verified i.pid) r i.pid

  zombie-Keeps :
      (r : DaemonLifecycleRecord) (i : ProcessIdentity)
      → Keeps x d (Grant.verified i.pid) (stop_observed x d r i ProcessState.zombie)
  unfolding stop_observed has_live_members
  zombie-Keeps r i = Keeps-get x d (Grant.verified i.pid) _ (λ s h k.
      by_child s h k (owned_child i.pid s.child)
        (owned_child-launched i.pid s.child s.trace h.child))
    where
      by_child :
          (s : DaemonSupervisor)
          → IsCareful x d s
          → verified_before x d i.pid s.trace ≡ true
          → (o : Option ℕ) → child_launched x d o s.trace ≡ true
          → Left x d s.trace
              ((has_live_members x d i.pid >>= λ live. stop_zombie x d r i o live) s).1
      by_child s h k none c =
          (Keeps-bind x d (Grant.verified i.pid) _ _ (Keeps-ask x d _ _ _ (λ t q. refl))
              (zombie_alone-Keeps r i)).runs
            s h k
      by_child s h k (some child) c =
          (Keeps-bind x d (Grant.launched child) _ _ (Keeps-ask x d _ _ _ (λ t q. refl))
              (zombie_child-Keeps r i child)).runs
            s h c

  pub stop_present-Keeps :
      (r : DaemonLifecycleRecord) (i : ProcessIdentity) (state : ProcessState)
      → is_present state ≡ true
      → Keeps x d (Grant.verified i.pid) (stop_observed x d r i state)
  unfolding stop_observed
  stop_present-Keeps r i ProcessState.running h = take_down-Keeps r i
  stop_present-Keeps r i ProcessState.zombie h = zombie-Keeps r i
  stop_present-Keeps r i ProcessState.missing h = ground (arith, h)
  stop_present-Keeps r i ProcessState.unknown h = ground (arith, h)

  pub stop_gone-Keeps :
      (r : DaemonLifecycleRecord) (i : ProcessIdentity) (state : ProcessState)
      → is_present state ≡ false
      → Keeps x d nothing (stop_observed x d r i state)
  unfolding stop_observed stop_missing
  stop_gone-Keeps r i ProcessState.running h = ground (arith, h)
  stop_gone-Keeps r i ProcessState.zombie h = ground (arith, h)
  stop_gone-Keeps r i ProcessState.unknown h = Keeps-raise x d nothing _
  stop_gone-Keeps r i ProcessState.missing h =
      Keeps-get x d nothing _ (λ s c k. (missing (owned_child i.pid s.child)).runs s c k)
    where
      missing : (o : Option ℕ) → Keeps x d nothing (stop_missing x d r o)
      missing none = absent-Keeps nothing r
      missing (some child) = Keeps-raise x d nothing _
