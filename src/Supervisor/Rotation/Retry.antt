-- ===== src/Supervisor/Rotation/Retry.antt =====
-- supervisor.py: `_retry_successor_unlocked`, against the order of a rotation.
use mathlib.Core.Path.{subst}
use agent_session_harness.Prelude.{
  ℕ, ◌+◌, ◌-◌, ◌<◌, ◌≡◌, ◌≢◌, refl, ap, true, false, Option, none, some, arith, leb, sym,
}
use agent_session_harness.Supervisor.State.{
  Call, Supervisor, Settings, ManagedProcess, failed, scheduled, successor_attempt_effect,
  successor_retry_effect, probe_alive, clear_exit, stop_process, clear_ack, clear_abort, effect,
}
use agent_session_harness.Supervisor.World.{World, runtime}
use agent_session_harness.Supervisor.Exec.{Result, ok, err, diverged, persist_blocked}
use agent_session_harness.Supervisor.Post.{
  Runs, noted, Runs-pure, Runs-raise, Runs-choose, Runs-ask, Runs-note, Runs-then, get-bind,
  note-then, update-then, save-then, set_current-then, set_abort_pending-then, attempt-bind,
  ask-bind, ask-then,
}
use agent_session_harness.Supervisor.Journal.{IsSound, allowed}
use agent_session_harness.Supervisor.Sound.{
  Sound-noted, Sound-saved, Sound-current, Sound-abort, Sound-plain, save-Sound, Fails,
}
use agent_session_harness.Supervisor.Rotation.{
  pid_of, abort_unless_stopped, stop_failed_successor, discard_successor, clear_abort_of,
  schedule_retry, retry_successor,
}
use agent_session_harness.Supervisor.Rotation.Measure.{remaining}

module _ (w : World) (settings : Settings) where
  -- What the discarding of a failed successor leaves alone.
  abbrev Kept : Supervisor → Supervisor → Type 0
  Kept s t = IsSound w t × (t.snapshot ≡ s.snapshot)

  -- What the attempt to stop it leaves.
  abbrev Tried : Supervisor → Result (Unit {0}) → Supervisor → Type 0
  Tried s r t = Kept s t × (r ≢ err diverged)

  Kept-noted :
      (c : Call) (s t : Supervisor) → allowed w c t.trace ≡ true → Kept s t → Kept s (noted c t)
  Kept-noted c s t a k = (Sound-noted w c t k.0 a, k.1)

  stop_failed-Runs :
      (p : ManagedProcess) (s : Supervisor)
      → IsSound w s
      → Runs
          (λ a t. Tried s (ok a) t)
          (λ e t. Tried s (err e) t)
          (stop_failed_successor w settings p)
          s
  unfolding stop_failed_successor
  stop_failed-Runs p s h =
      let k1 = Kept-noted (probe_alive p) s s refl (h, refl) in
      ask-bind _ _ (probe_alive p) _ _ s
        (λ alive _.
          Runs-then _ _ (Kept s) _ _ (noted (probe_alive p) s)
            (Runs-choose _ _ alive _ _ _
              (λ _.
                Runs-ask _ _ (stop_process p) _ _
                  (λ _ _. Kept-noted (stop_process p) s (noted (probe_alive p) s) refl k1)
                  (λ _ _.
                    (Kept-noted (stop_process p) s (noted (probe_alive p) s) refl k1, λ e. cc)))
              (λ _. Runs-pure _ _ tt _ k1))
            (λ t k.
              ask-bind _ _ (probe_alive p) _ _ t
                (λ still _.
                  Runs-then _ _ (Kept s) _ _ (noted (probe_alive p) t)
                    (Runs-choose _ _ still _ _ _
                      (λ _.
                        Runs-raise _ _ runtime _ (Kept-noted (probe_alive p) s t refl k, λ e. cc))
                      (λ _. Runs-pure _ _ tt _ (Kept-noted (probe_alive p) s t refl k)))
                    (λ u l.
                      Runs-ask _ _ (clear_exit p) _ u
                        (λ _ _. (Kept-noted (clear_exit p) s u refl l, λ e. cc))
                        (λ _ _. (Kept-noted (clear_exit p) s u refl l, λ e. cc))))
                (λ _ _. (Kept-noted (probe_alive p) s t refl k, λ e. cc))))
        (λ _ _. (k1, λ e. cc))

  abort-Runs :
      (r : Result (Unit {0})) (s t : Supervisor)
      → Tried s r t
      → Runs (λ _ u. Kept s u) (Fails w) (abort_unless_stopped w settings r) t
  unfolding abort_unless_stopped persist_blocked
  abort-Runs (ok u) s t k = Runs-pure _ _ tt t k.0
  abort-Runs (err e) s t k = set_abort_pending-then _ _ true _ t (
      Runs-then _ _ (λ u. IsSound w u) _ _ _
        (update-then _ _ _ _ _
          (save-Sound w _ (Sound-plain w _ _ refl refl (Sound-abort w t true k.0.0))))
        (λ u l. Runs-raise _ _ runtime u (l, λ e. cc)))

  discard-Runs :
      (p : Option ManagedProcess) (s : Supervisor)
      → IsSound w s
      → Runs (λ _ u. Kept s u) (Fails w) (discard_successor w settings p) s
  unfolding discard_successor
  discard-Runs none s h = Runs-pure _ _ tt s (h, refl)
  discard-Runs (some p) s h =
      attempt-bind _ _ (Tried s) _ _ s (stop_failed-Runs p s h) (λ r t k. abort-Runs r s t k)

  clear_abort-Runs :
      (pid : Option ℕ) (s t : Supervisor)
      → Kept s t
      → Runs (λ _ u. Kept s u) (Fails w) (clear_abort_of w settings pid) t
  unfolding clear_abort_of
  clear_abort-Runs none s t k = Runs-pure _ _ tt t k
  clear_abort-Runs (some pid) s t k =
      Runs-ask _ _ clear_abort _ t (λ _ _. Kept-noted clear_abort s t refl k)
        (λ x e. (Sound-noted w clear_abort t k.0 refl, λ e. cc))

  -- One retry fewer is left.
  abbrev pub Retried : ℕ → Supervisor → Type 0
  Retried attempt t =
      IsSound w t × (remaining w settings t.snapshot < settings.successor_retry_limit - attempt + 1)

  below : (limit a : ℕ) → leb limit a ≡ false → limit - (a + 1) + 1 < limit - a + 1
  below limit a h = ground arith

  schedule-Runs :
      (s t : Supervisor)
      → Kept s t
      → Runs
          (λ _ u. Retried s.snapshot.successor_attempt u)
          (Fails w)
          (schedule_retry w settings s.snapshot)
          t
  unfolding schedule_retry
  schedule-Runs s t k =
      Runs-choose _ _ _ _ _ t
        (λ _. update-then _ _ _ _ t (
          save-then _ _ _ _ (
            Runs-raise _ _ runtime _ (Sound-saved w _ (Sound-plain w t _ refl refl k.0), λ e. cc))))
        (λ b. update-then _ _ _ _ t (
          save-then _ _ _ _ (
            Runs-note _ _ successor_retry_effect scheduled s.snapshot.generation _ (
              Sound-noted w (effect successor_retry_effect scheduled s.snapshot.generation) _
                  (Sound-saved w _ (Sound-plain w t _ refl refl k.0)) refl,
              subst
                  (λ a.
                    settings.successor_retry_limit - (a + 1) + 1
                    < settings.successor_retry_limit - s.snapshot.successor_attempt + 1)
                  (sym (ap (λ r. r.successor_attempt) k.1))
                  (below settings.successor_retry_limit s.snapshot.successor_attempt b),
            ))))

  pub retry_successor-Runs :
      (s : Supervisor)
      → IsSound w s
      → Runs
          (λ _ u. Retried s.snapshot.successor_attempt u)
          (Fails w)
          (retry_successor w settings)
          s
  unfolding retry_successor
  retry_successor-Runs s h =
      let s1 = noted (effect successor_attempt_effect failed s.snapshot.generation) s in
      let h1 =
        Sound-noted w (effect successor_attempt_effect failed s.snapshot.generation) s h refl in
      get-bind _ _ _ s (
        Runs-choose _ _ _ _ _ s (λ _. Runs-raise _ _ runtime s (h, λ e. cc))
          (λ _. note-then _ _ successor_attempt_effect failed s.snapshot.generation _ s (
            Runs-then _ _ (Kept s1) _ _ s1 (discard-Runs s.current_process s1 h1) (λ t k.
              set_current-then _ _ none _ t (
                let t1 = noted clear_ack (record t { current_process = none }) in
                let k1 =
                  Kept-noted clear_ack s1 (record t { current_process = none }) refl
                    (Sound-current w t none k.0, k.1) in
                ask-then _ _ clear_ack _ _ _
                  (λ _ _.
                    Runs-then _ _ (Kept s1) _ _ t1
                      (clear_abort-Runs (pid_of s.snapshot.process) s1 t1 k1)
                      (λ u l. schedule-Runs s u (l.0, l.1)))
                  (λ _ _. (k1.0, λ e. cc)))))))
