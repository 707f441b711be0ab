-- ===== src/Daemon/Signals.antt =====
-- daemon_supervisor.py: what the statements of the methods rely on to signal.
use agent_session_harness.Prelude.{
  ℕ, zero, suc, subst, sym, ◌≡◌, refl, true, false, ◌∷◌, Option, none, some, arith, same_iff,
  nat_eq, Bool-cases, inl, inr,
}
use agent_session_harness.Resources.State.{ProcessIdentity, ProcessState}
use agent_session_harness.Daemon.{
  DaemonLifecyclePhase, Detail, DaemonLifecycleRecord, Signal, term, kill, spawn, observe, System,
  Definition, DaemonSupervisor, is_valid, publish,
}
use agent_session_harness.Daemon.Exec.{
  M, continue_with, get, set_child, ask, ◌>>=◌, owned_child, read, store, publish_phase,
  observe_identity, has_live_members, signal, wait_child, poll_group, wait_group_absent,
}
use agent_session_harness.Daemon.Launch.{
  end_group, terminate_owned_child, reap_child, reap_owned_child, spawn_child,
}
use agent_session_harness.Daemon.Grants.{
  is_present, IsCareful, Grows-trans, Grant, nothing, Left, Keeps, Left-self, Left-call, Keeps-pure,
  Keeps-raise, Keeps-choose, Keeps-bind, Keeps-then, Keeps-get, Keeps-ask, Keeps-weaker,
}

module _ (x : System) (d : Definition) where
  pub store-Keeps : (g : Grant) (r : DaemonLifecycleRecord) → Keeps x d g (store x d r)
  unfolding store
  store-Keeps g r = record {
    runs = λ s h k. elim (Bool-cases (is_valid r)) [
      | inr v ↦ rw (v, store) (Left-self x d s h)
      | inl v ↦ elim (Bool-cases (x.written s.trace r)) [
        | inr w ↦ rw (v, w, store) (Left-self x d s h)
        | inl w ↦ rw (v, w, store) (Left-call x d (publish r) s (some r) h refl)
      ]
    ];
  }

  pub read-Keeps : (g : Grant) → Keeps x d g (read x d)
  unfolding read
  read-Keeps g = record {
    runs = λ s h k.
        let unchanged : (read x d s).1 ≡ s = ground arith in
        subst (Left x d s.trace) (sym unchanged) (Left-self x d s h);
  }

  pub clear-Keeps : (g : Grant) → Keeps x d g (set_child none)
  unfolding set_child
  clear-Keeps g = record {
    runs = λ s h k. record {
      careful = record { signals = h.signals; child = refl };
      grows = (Left-self x d s h).grows;
    };
  }

  pub set-Keeps : (pid : ℕ) → Keeps x d (Grant.launched pid) (set_child (some pid))
  unfolding set_child
  set-Keeps pid = record {
    runs = λ s h k. record {
      careful = record { signals = h.signals; child = k };
      grows = (Left-self x d s h).grows;
    };
  }

  pub publish-Keeps :
      (g : Grant) (p : DaemonLifecyclePhase) (n : ℕ) (t : Option Detail)
      (i : Option ProcessIdentity)
      → Keeps x d g (publish_phase x d p n t i)
  unfolding publish_phase
  publish-Keeps g p n t i =
      Keeps-get x d g _
        (λ s h k. (Keeps-then x d g _ _ (store-Keeps g _) (Keeps-pure x d g _)).runs s h k)

  poll-Keeps : (g : Grant) (n pid : ℕ) (child : Option ℕ) → Keeps x d g (poll_group x d n pid child)
  unfolding poll_group wait_child has_live_members
  poll-Keeps g zero pid child = Keeps-pure x d g false
  poll-Keeps g (suc n) pid child =
      Keeps-bind x d g _ _ (Keeps-ask x d g _ _ (λ t k. refl)) (λ alive.
        Keeps-choose x d g alive _ _
          (λ _. Keeps-then x d g _ _ (Keeps-ask x d g _ _ (λ t k. refl)) (poll-Keeps g n pid child))
          (λ _. Keeps-then x d g _ _ (waited child) (Keeps-pure x d g true)))
    where
      waited : (o : Option ℕ) → Keeps x d g (wait_child x d o)
      waited none = Keeps-pure x d g tt
      waited (some c) = Keeps-ask x d g _ _ (λ t k. refl)

  pub group-Keeps :
      (g : Grant) (pid : ℕ) (child : Option ℕ) → Keeps x d g (wait_group_absent x d pid child)
  unfolding wait_group_absent
  group-Keeps g pid child = Keeps-get x d g _ (λ s h k. (poll-Keeps g _ pid child).runs s h k)

  pub signal-Keeps :
      (which : Signal) (pid : ℕ) → Keeps x d (Grant.allowed pid) (signal x d which pid)
  unfolding signal
  signal-Keeps which pid = Keeps-ask x d (Grant.allowed pid) _ _ (λ t k. k)

  pub launched_allowed :
      {A : Type 0} (pid : ℕ) (m : M A)
      → Keeps x d (Grant.allowed pid) m
      → Keeps x d (Grant.launched pid) m
  launched_allowed pid m h = Keeps-weaker x d _ _ m (λ t k. ground (arith, k)) h

  end_group-Keeps : (child : ℕ) → Keeps x d (Grant.allowed child) (end_group x d child)
  unfolding end_group
  end_group-Keeps child =
      let g = Grant.allowed child in
      Keeps-bind x d g _ _ (group-Keeps g child (some child)) (λ absent.
        Keeps-then x d g _ _
          (Keeps-choose x d g absent _ _ (λ _. Keeps-pure x d g tt)
            (λ _. Keeps-bind x d g _ _ (signal-Keeps kill child) (λ _.
              Keeps-bind x d g _ _ (group-Keeps g child (some child)) (λ gone.
                Keeps-choose x d g gone _ _ (λ _. Keeps-pure x d g tt)
                  (λ _. Keeps-raise x d g _)))))
          (clear-Keeps g))

  pub terminate-Keeps :
      (child : ℕ) → Keeps x d (Grant.allowed child) (terminate_owned_child x d child)
  unfolding terminate_owned_child wait_child
  terminate-Keeps child =
      let g = Grant.allowed child in
      Keeps-bind x d g _ _ (signal-Keeps term child) (λ found.
        Keeps-choose x d g found _ _ (λ _. end_group-Keeps child)
          (λ _. Keeps-ask x d g _ _ (λ t k. refl)))

  -- The child's pid is in the history.
  pub spawn-Keeps :
      {A : Type 0} (f : Option ℕ → M A)
      → Keeps x d nothing (f none)
      → ((pid : ℕ) → Keeps x d (Grant.launched pid) (f (some pid)))
      → Keeps x d nothing (spawn_child x d >>= f)
  unfolding spawn_child get ask ◌>>=◌ continue_with
  spawn-Keeps f none_kept some_kept = record { runs = λ s h k. after s h (x.spawned s.trace) }
    where
      after :
          (s : DaemonSupervisor)
          → IsCareful x d s
          → (c : Option ℕ) → Left x d s.trace (f c (record s { trace = spawn c ∷ s.trace })).1
      after s h none =
          let first = Left-call x d (spawn none) s s.file h refl in
          let rest =
            none_kept.runs (record s { trace = spawn none ∷ s.trace }) first.careful refl in
          record { careful = rest.careful; grows = Grows-trans x d _ _ _ first.grows rest.grows }
      after s h (some pid) =
          let first = Left-call x d (spawn (some pid)) s s.file h refl in
          let rest =
            (some_kept pid).runs (record s { trace = spawn (some pid) ∷ s.trace }) first.careful
              (ground (arith, same_iff pid pid)) in
          record { careful = rest.careful; grows = Grows-trans x d _ _ _ first.grows rest.grows }

  -- A state that says that the process is there verifies its group.
  pub observe-Keeps :
      {A : Type 0} (i : ProcessIdentity) (f : ProcessState → M A)
      → ((o : ProcessState) → is_present o ≡ true → Keeps x d (Grant.verified i.pid) (f o))
      → ((o : ProcessState) → is_present o ≡ false → Keeps x d nothing (f o))
      → Keeps x d nothing (observe_identity x d i >>= f)
  unfolding observe_identity ask ◌>>=◌ continue_with
  observe-Keeps i f there absent = record {
    runs = λ s h k.
        let first = Left-call x d (observe i) s s.file h refl in
        let t : DaemonSupervisor = record s { trace = observe i ∷ s.trace } in
        let o = x.observed s.trace i in
        let rest : Left x d t.trace (f o t).1 = elim (Bool-cases (is_present o)) [
          | inl p ↦ (there o p).runs t first.careful (ground (arith, p, same_iff i.pid i.pid))
          | inr p ↦ (absent o p).runs t first.careful refl
        ] in
        record { careful = rest.careful; grows = Grows-trans x d _ _ _ first.grows rest.grows };
  }

  pub reap-Keeps : (g : Grant) (pid : ℕ) → Keeps x d g (reap_owned_child x d pid)
  unfolding reap_owned_child reap_child wait_child
  reap-Keeps g pid = Keeps-get x d g _ (λ s h k. (reaped (owned_child pid s.child)).runs s h k)
    where
      reaped : (o : Option ℕ) → Keeps x d g (reap_child x d o)
      reaped none = Keeps-pure x d g tt
      reaped (some c) = Keeps-bind x d g _ _ (Keeps-ask x d g _ _ (λ t k. refl)) (λ over.
          Keeps-choose x d g over _ _
            (λ _. Keeps-then x d g _ _ (Keeps-ask x d g _ _ (λ t k. refl)) (clear-Keeps g))
            (λ _. Keeps-pure x d g tt))
