-- ===== src/Daemon/Launches.antt =====
-- daemon_supervisor.py: `_start_locked` signals only the group that it launched.
use agent_session_harness.Prelude.{ℕ, refl, Option, none, some, Except, returned, thrown}
use agent_session_harness.Resources.State.{ProcessIdentity}
use agent_session_harness.Daemon.{
  Detail, DaemonLifecycleRecord, ChildState, DaemonError, System, Definition,
}
use agent_session_harness.Daemon.Launch.{
  publish_failure, after_cleanup, after_publication, give_up, probe, launched, start_locked,
}
use agent_session_harness.Daemon.Grants.{
  Grant, nothing, Keeps, Keeps-pure, Keeps-raise, Keeps-choose, Keeps-bind, Keeps-then,
  Keeps-attempt, Keeps-ask,
}
use agent_session_harness.Daemon.Signals.{
  clear-Keeps, set-Keeps, publish-Keeps, launched_allowed, terminate-Keeps, spawn-Keeps,
}

module _ (x : System) (d : Definition) where
  publish_failure-Keeps :
      (g : Grant) (n : ℕ) (t : Detail) (i : Option ProcessIdentity) (e : DaemonError)
      → Keeps x d g (publish_failure x d n t i e)
  unfolding publish_failure
  publish_failure-Keeps g n t i e =
      Keeps-bind x d g _ _ (Keeps-attempt x d g _ (publish-Keeps x d g _ _ _ _))
        (λ _. Keeps-raise x d g e)

  after_publication-Keeps :
      (n child : ℕ) (i : ProcessIdentity) (e : Except DaemonError DaemonLifecycleRecord)
      → Keeps x d (Grant.launched child) (after_publication x d n child i e)
  unfolding after_publication after_cleanup
  after_publication-Keeps n child i (returned r) = Keeps-pure x d _ r
  after_publication-Keeps n child i (thrown e) =
      let g = Grant.launched child in
      Keeps-bind x d g _ _
        (Keeps-attempt x d g _ (launched_allowed x d child _ (terminate-Keeps x d child))) cleaned
    where
      cleaned :
          (c : Except DaemonError (Unit {0}))
          → Keeps x d (Grant.launched child) (after_cleanup x d n i e c)
      cleaned (returned u) = publish_failure-Keeps (Grant.launched child) n _ _ e
      cleaned (thrown f) = publish_failure-Keeps (Grant.launched child) n _ _ f

  give_up-Keeps :
      (n child : ℕ) (state : ChildState)
      → Keeps x d (Grant.launched child) (give_up x d n child state)
  unfolding give_up
  give_up-Keeps n child state =
      let g = Grant.launched child in
      Keeps-then x d g _ _
        (Keeps-choose x d g _ _ _ (λ _. clear-Keeps x d g)
          (λ _. launched_allowed x d child _ (terminate-Keeps x d child)))
        (Keeps-bind x d g _ _ (publish-Keeps x d g _ _ _ _) (λ _. Keeps-raise x d g _))

  probe-Keeps :
      (n child : ℕ) (state : ChildState) (i : Option ProcessIdentity)
      → Keeps x d (Grant.launched child) (probe x d n child state i)
  unfolding probe
  probe-Keeps n child state none = give_up-Keeps n child state
  probe-Keeps n child state (some i) =
      let g = Grant.launched child in
      Keeps-choose x d g _ _ _
        (λ _.
          Keeps-bind x d g _ _ (Keeps-attempt x d g _ (publish-Keeps x d g _ _ _ _))
            (after_publication-Keeps n child i))
        (λ _. give_up-Keeps n child state)

  pub start_locked-Keeps : (n : ℕ) → Keeps x d nothing (start_locked x d n)
  unfolding start_locked launched
  start_locked-Keeps n = Keeps-bind x d nothing _ _ (publish-Keeps x d nothing _ _ _ _) (λ _.
      spawn-Keeps x d _
        (Keeps-bind x d nothing _ _ (publish-Keeps x d nothing _ _ _ _)
          (λ _. Keeps-raise x d nothing _))
        (λ pid.
          let g = Grant.launched pid in
          Keeps-then x d g _ _ (set-Keeps x d pid) (
            Keeps-then x d g _ _ (Keeps-ask x d g _ _ (λ t k. refl)) (
              Keeps-bind x d g _ _ (Keeps-ask x d g _ _ (λ t k. refl)) (λ i.
                Keeps-bind x d g _ _ (Keeps-ask x d g _ _ (λ t k. refl))
                  (λ c. probe-Keeps n pid c i))))))
