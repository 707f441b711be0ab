-- ===== src/Supervisor/Rotation/Handover.antt =====
-- supervisor.py: the stopping, fencing and claiming phases of `_advance_rotation`, against the
-- order of a rotation.
use agent_session_harness.Prelude.{
  ℕ, ◌+◌, ◌<◌, ◌≡◌, ◌≢◌, refl, ap, Bool, true, false, not, ◌&&◌, Option, none, some, arith, any,
  ◌∷◌,
}
use agent_session_harness.Supervisor.State.{
  Trace, Phase, stopping, stopped, fencing, fenced, claiming, Supervisor, Settings, ManagedProcess,
  ClaimHandle, started, finished, claim_effect, stop_effect, fence_effect, probe_alive, clear_exit,
  stop_process, claim_task, fence_claim, effect, read_clock,
}
use agent_session_harness.Supervisor.World.{World, stale_owner, runtime, value, other, answered}
use agent_session_harness.Supervisor.Exec.{◌>>◌, pure, Result, ok, err, fault, diverged, set_phase}
use agent_session_harness.Supervisor.Post.{
  Runs, noted, Runs-pure, Runs-raise, Runs-fail, Runs-choose, Runs-ask, Runs-save, Runs-then,
  now-bind, note-then, update-then, save-then, set_current-then, attempt-bind, ask-bind, ask-then,
}
use agent_session_harness.Supervisor.Journal.{
  IsSound, staged, allowed, seen_dead, seen_fenced, is_dead, is_answered, checkpoint_verified,
  stop_done, handed_over, granted_now, is_granted,
}
use agent_session_harness.Supervisor.Sound.{
  Sound-noted, Sound-saved, Sound-updated, Sound-current, Fails,
}
use agent_session_harness.Supervisor.Heartbeat.Sound.{fail_closed-Runs}
use agent_session_harness.Supervisor.Rotation.{
  stop_predecessor, finish_fence, fence_predecessor, claim_successor,
}
use agent_session_harness.Supervisor.Rotation.Measure.{
  handed-of, account, staged-in, remaining-in, rounds_left, Round,
}

module _ (w : World) (settings : Settings) where
  -- A change of phase.
  set_phase-Runs :
      (p : Phase) (s : Supervisor)
      → IsSound w s
      → staged w p (s.snapshot.generation + 1) s.trace ≡ true
      → Runs (λ _ t. IsSound w t × (t.snapshot.phase ≡ p)) (Fails w) (set_phase p) s
  unfolding set_phase
  set_phase-Runs p s h k = update-then _ _ _ _ s (
      Runs-save _ _ _ (
        Sound-saved w _ (
            Sound-updated w s _ h (
              account w settings p s.snapshot.generation s.trace
                (handed-of w settings s.snapshot s.trace h.memory) k)),
        refl,
      ))

  -- A round that only changes the phase.
  pub phase-Runs :
      (p : Phase) (bound : ℕ) (s : Supervisor)
      → IsSound w s
      → staged w p (s.snapshot.generation + 1) s.trace ≡ true
      → ((a : ℕ) → rounds_left settings.successor_retry_limit p a < bound)
      → Runs (Round w settings bound) (Fails w) (set_phase p >> pure true) s
  phase-Runs p bound s h k d =
      Runs-then _ _ (λ t. IsSound w t × (t.snapshot.phase ≡ p)) _ _ s (set_phase-Runs p s h k)
        (λ t q. Runs-pure _ _ true t (
          q.0,
          λ _. remaining-in w settings p t.snapshot bound q.1 (d t.snapshot.successor_attempt),
        ))

  dead-now :
      (p : ManagedProcess) (t : Trace) (alive : Bool)
      → w.is_alive t p ≡ answered alive
      → alive ≡ false
      → seen_dead w (probe_alive p ∷ t) ≡ true
  dead-now p t alive e f =
      let k : is_dead (w.is_alive t p) ≡ not alive = ap is_dead e in ground arith

  pub stop_predecessor-Runs :
      (p : Option ManagedProcess) (s : Supervisor)
      → IsSound w s
      → s.snapshot.phase ≡ stopping
      → Runs
          (Round w settings (settings.successor_retry_limit + 7))
          (Fails w)
          (stop_predecessor w settings p s.snapshot.generation)
          s
  unfolding stop_predecessor
  stop_predecessor-Runs none s h e = Runs-raise _ _ runtime s (h, λ c. cc)
  stop_predecessor-Runs (some p) s h e =
      let g = s.snapshot.generation in
      let v : checkpoint_verified w (g + 1) s.trace ≡ true =
        staged-in w settings stopping s.snapshot s.trace e h.memory in
      let s1 = noted (effect stop_effect started g) s in
      let h1 = Sound-noted w (effect stop_effect started g) s h v in
      let s2 = noted (stop_process p) s1 in
      let h2 = Sound-noted w (stop_process p) s1 h1 refl in
      let s3 = noted (probe_alive p) s2 in
      let h3 = Sound-noted w (probe_alive p) s2 h2 refl in
      let s4 = noted (effect stop_effect finished g) s3 in
      let s5 = noted (clear_exit p) s4 in
      note-then _ _ stop_effect started g _ s (
        ask-then _ _ (stop_process p) _ _ s1
          (λ _ _.
            ask-bind _ _ (probe_alive p) _ _ s2
              (λ alive a.
                Runs-choose _ _ alive _ _ s3 (λ _. Runs-raise _ _ runtime s3 (h3, λ c. cc))
                  (λ f.
                    let h4 =
                      Sound-noted w (effect stop_effect finished g) s3 h3
                        (dead-now p s2.trace alive a f) in
                    let h5 = Sound-noted w (clear_exit p) s4 h4 refl in
                    note-then _ _ stop_effect finished g _ s3 (
                      ask-then _ _ (clear_exit p) _ _ s4
                        (λ _ _. set_current-then _ _ none _ s5 (
                          update-then _ _ _ _ _ (
                            save-then _ _ _ _ (
                              Runs-pure _ _ true _ (
                                Sound-saved w _ (
                                    Sound-updated w _ _ (Sound-current w s5 none h5) (
                                      account w settings stopped g s5.trace
                                        (handed-of w settings s5.snapshot s5.trace h5.memory)
                                        (stop-staged v))),
                                λ _. omega arith,
                              )))))
                        (λ _ _. (h5, λ c. cc)))))
              (λ _ _. (h3, λ c. cc)))
          (λ _ _. (h2, λ c. cc)))
    where
      stop-staged :
          checkpoint_verified w (s.snapshot.generation + 1) s.trace ≡ true
          → staged w stopped (s.snapshot.generation + 1) (
              clear_exit p
              ∷ effect stop_effect finished s.snapshot.generation
              ∷ probe_alive p
              ∷ stop_process p
              ∷ effect stop_effect started s.snapshot.generation
              ∷ s.trace)
            ≡ true
      stop-staged v = ground arith

  fenced-now :
      (c : ClaimHandle) (t : Trace) (u : Unit {0})
      → w.fence t c ≡ answered u
      → seen_fenced w (fence_claim c ∷ t) ≡ true
  fenced-now c t u e = ap is_answered e

  finish_fence-Runs :
      (g : ℕ) (r : Result (Unit {0})) (s : Supervisor)
      → IsSound w s
      → s.snapshot.generation ≡ g
      → staged w fencing (g + 1) s.trace ≡ true
      → (r ≡ ok tt → seen_fenced w s.trace ≡ true)
      → r ≢ err diverged
      → Runs
          (Round w settings (settings.successor_retry_limit + 5))
          (Fails w)
          (finish_fence w settings g r)
          s
  unfolding finish_fence
  finish_fence-Runs g (ok u) s h e k f d = note-then _ _ fence_effect finished g _ s (
      phase-Runs fenced (settings.successor_retry_limit + 5) _
        (Sound-noted w (effect fence_effect finished g) s h (f refl)) (grown e k)
        (λ a. omega arith))
    where
      grown :
          s.snapshot.generation ≡ g
          → staged w fencing (g + 1) s.trace ≡ true
          → staged w fenced (s.snapshot.generation + 1) (effect fence_effect finished g ∷ s.trace)
            ≡ true
      grown e k = ground arith
  finish_fence-Runs g (err (fault stale_owner)) s h e k f d =
      Runs-then _ _ (λ u. IsSound w u) _ _ s (fail_closed-Runs w s h)
        (λ u k. Runs-raise _ _ stale_owner u (k, λ e. cc))
  finish_fence-Runs g (err (fault runtime)) s h e k f d = Runs-fail _ _ _ s (h, λ e. cc)
  finish_fence-Runs g (err (fault value)) s h e k f d = Runs-fail _ _ _ s (h, λ e. cc)
  finish_fence-Runs g (err (fault other)) s h e k f d = Runs-fail _ _ _ s (h, λ e. cc)
  finish_fence-Runs g (err diverged) s h e k f d = absurd (d refl)

  -- What the call of `fence` leaves.
  abbrev Asked : ℕ → Result (Unit {0}) → Supervisor → Type 0
  Asked g r t =
      IsSound w t
      × (t.snapshot.generation ≡ g)
      × (staged w fencing (g + 1) t.trace ≡ true)
      × (r ≡ ok tt → seen_fenced w t.trace ≡ true)
      × (r ≢ err diverged)

  pub fence_predecessor-Runs :
      (c : Option ClaimHandle) (s : Supervisor)
      → IsSound w s
      → s.snapshot.phase ≡ fencing
      → Runs
          (Round w settings (settings.successor_retry_limit + 5))
          (Fails w)
          (fence_predecessor w settings c s.snapshot.generation)
          s
  unfolding fence_predecessor
  fence_predecessor-Runs none s h e = Runs-raise _ _ runtime s (h, λ c. cc)
  fence_predecessor-Runs (some c) s h e =
      let g = s.snapshot.generation in
      let v : staged w fencing (g + 1) s.trace ≡ true =
        staged-in w settings fencing s.snapshot s.trace e h.memory in
      let s1 = noted (effect fence_effect started g) s in
      let h1 = Sound-noted w (effect fence_effect started g) s h (stopped-before s.trace v) in
      let s2 = noted (fence_claim c) s1 in
      let h2 = Sound-noted w (fence_claim c) s1 h1 refl in
      note-then _ _ fence_effect started g _ s (
        attempt-bind _ _ (Asked g) _ _ s1
          (Runs-ask _ _ (fence_claim c) _ s1
            (λ u a. (h2, refl, fence-staged v, (λ _. fenced-now c s1.trace u a), λ q. cc))
            (λ x _. (h2, refl, fence-staged v, (λ q. cc), λ q. cc)))
          (λ r t k. finish_fence-Runs g r t k.0 k.1 k.2 k.3 k.4))
    where
      stopped-before :
          (t : Trace)
          → staged w fencing (s.snapshot.generation + 1) t ≡ true
          → any (stop_done (s.snapshot.generation + 1)) t ≡ true
      stopped-before t v = ground arith

      fence-staged :
          staged w fencing (s.snapshot.generation + 1) s.trace ≡ true
          → staged w fencing
              (s.snapshot.generation + 1)
              (fence_claim c ∷ effect fence_effect started s.snapshot.generation ∷ s.trace)
            ≡ true
      fence-staged v = ground arith

  pub claim_successor-Runs :
      (s : Supervisor)
      → IsSound w s
      → s.snapshot.phase ≡ claiming
      → Runs
          (Round w settings (settings.successor_retry_limit + 3))
          (Fails w)
          (claim_successor w settings (s.snapshot.generation + 1))
          s
  unfolding claim_successor
  claim_successor-Runs s h e =
      let target = s.snapshot.generation + 1 in
      let v : staged w claiming target s.trace ≡ true =
        staged-in w settings claiming s.snapshot s.trace e h.memory in
      let s1 = noted (effect claim_effect started target) s in
      let h1 = Sound-noted w (effect claim_effect started target) s h refl in
      let s2 = noted read_clock s1 in
      let h2 = Sound-noted w read_clock s1 h1 refl in
      let s3 = noted (claim_task target) s2 in
      let h3 = Sound-noted w (claim_task target) s2 h2 (fenced-before v) in
      note-then _ _ claim_effect started target _ s (
        now-bind _ _ w _ s1 (
          ask-bind _ _ (claim_task target) _ _ s2
            (λ claim a. update-then _ _ _ _ s3 (
              save-then _ _ _ _ (
                note-then _ _ claim_effect finished target _ _ (
                  Runs-pure _ _ true _ (
                    Sound-noted w (effect claim_effect finished target) _
                        (Sound-saved w _ (Sound-updated w s3 _ h3 (claimed v claim a))) refl,
                    λ _. omega arith,
                  )))))
            (λ _ _. (h3, λ c. cc))))
    where
      fenced-before :
          staged w claiming (s.snapshot.generation + 1) s.trace ≡ true
          → allowed w
              (claim_task (s.snapshot.generation + 1))
              (read_clock ∷ effect claim_effect started (s.snapshot.generation + 1) ∷ s.trace)
            ≡ true
      fenced-before v = ground arith

      granted :
          (claim : ClaimHandle)
          → w.claim
              (read_clock ∷ effect claim_effect started (s.snapshot.generation + 1) ∷ s.trace)
              (s.snapshot.generation + 1)
              (w.clock (effect claim_effect started (s.snapshot.generation + 1) ∷ s.trace))
            ≡ answered claim
          → granted_now w
              (s.snapshot.generation + 1)
              (read_clock ∷ effect claim_effect started (s.snapshot.generation + 1) ∷ s.trace)
            ≡ true
      granted claim a = ap is_granted a

      claimed :
          staged w claiming (s.snapshot.generation + 1) s.trace ≡ true
          → (claim : ClaimHandle)
          → w.claim
              (read_clock ∷ effect claim_effect started (s.snapshot.generation + 1) ∷ s.trace)
              (s.snapshot.generation + 1)
              (w.clock (effect claim_effect started (s.snapshot.generation + 1) ∷ s.trace))
            ≡ answered claim
          → (handed_over w (s.snapshot.generation + 1) (
                claim_task (s.snapshot.generation + 1)
                ∷ read_clock
                ∷ effect claim_effect started (s.snapshot.generation + 1)
                ∷ s.trace)
              && true)
            ≡ true
      claimed v claim a = ground (arith, granted claim a)
