-- ===== src/Supervisor/Rotation/Launch.antt =====
-- supervisor.py: the launching phase of `_advance_rotation`, against the order of a rotation.
use mathlib.Core.Path.{subst}
use agent_session_harness.Prelude.{
  ℕ, ◌+◌, ◌-◌, ◌≡◌, ◌≢◌, refl, ap, Bool, true, false, some, arith, sym,
}
use agent_session_harness.Supervisor.State.{
  awaiting_ack, Supervisor, Settings, ManagedProcess, started, finished, failed, launch_effect,
  start_process, effect, read_clock,
}
use agent_session_harness.Supervisor.World.{World, runtime}
use agent_session_harness.Supervisor.Exec.{
  ◌>>◌, ◌>>=◌, note, ask, attempt, Result, ok, err, diverged,
}
use agent_session_harness.Supervisor.Post.{
  Runs, noted, Runs-pure, Runs-raise, Runs-fail, Runs-choose, Runs-ask, Runs-then, now-bind,
  note-then, update-then, save-then, set_current-then, attempt-bind,
}
use agent_session_harness.Supervisor.Journal.{IsSound}
use agent_session_harness.Supervisor.Sound.{
  Sound-noted, Sound-saved, Sound-current, Sound-plain, Fails,
}
use agent_session_harness.Supervisor.Heartbeat.Sound.{Beaten, heartbeat-Runs}
use agent_session_harness.Supervisor.Rotation.{launch_request, finish_launch, launch_successor}
use agent_session_harness.Supervisor.Rotation.Measure.{handed-of, remaining-in, Round}
use agent_session_harness.Supervisor.Rotation.Retry.{Retried, retry_successor-Runs}

module _ (w : World) (settings : Settings) where
  -- Where a round of a launch ends.
  abbrev Launched : ℕ → Bool → Supervisor → Type 0
  Launched attempt more t = Round w settings (settings.successor_retry_limit - attempt + 1) more t

  finish_launch-Runs :
      (r : Result ManagedProcess) (s : Supervisor)
      → IsSound w s
      → r ≢ err diverged
      → Runs
          (Launched s.snapshot.successor_attempt)
          (Fails w)
          (finish_launch w settings s.snapshot.generation r)
          s
  unfolding finish_launch
  finish_launch-Runs (ok p) s h d =
      let s1 = record s { current_process = some p } in
      let h1 = Sound-current w s (some p) h in
      let s2 = noted read_clock s1 in
      let h2 = Sound-noted w read_clock s1 h1 refl in
      set_current-then _ _ (some p) _ s (
        now-bind _ _ w _ s1 (
          update-then _ _ _ _ s2 (
            save-then _ _ _ _ (
              note-then _ _ launch_effect finished s.snapshot.generation _ _ (
                let h3 =
                  Sound-noted w (effect launch_effect finished s.snapshot.generation) _
                    (Sound-saved w _ (Sound-plain w s2 _ refl refl h2)) refl in
                Runs-then _ _ (Beaten w _) _ _ _ (heartbeat-Runs w settings false _ h3) (λ u b.
                  Runs-pure _ _ true u (
                    b.sound,
                    λ _. remaining-in w settings awaiting_ack u.snapshot _ b.phase (omega arith),
                  )))))))
  finish_launch-Runs (err e) s h d =
      let s1 = noted (effect launch_effect failed s.snapshot.generation) s in
      let h1 = Sound-noted w (effect launch_effect failed s.snapshot.generation) s h refl in
      note-then _ _ launch_effect failed s.snapshot.generation _ s (
        Runs-then _ _ (Retried w settings s.snapshot.successor_attempt) _ _ s1
          (Runs-choose _ _ _ _ _ s1 (λ _. Runs-fail _ _ e s1 (h1, λ q. d (ap err q)))
            (λ _. retry_successor-Runs w settings s1 h1))
          (λ t k. Runs-pure _ _ true t (k.0, λ _. k.1)))

  -- What the start of the process leaves.
  abbrev Started : Supervisor → Result ManagedProcess → Supervisor → Type 0
  Started s r t = (IsSound w t × (t.snapshot ≡ s.snapshot)) × (r ≢ err diverged)

  pub launch_successor-Runs :
      (s : Supervisor)
      → IsSound w s
      → Runs
          (Launched s.snapshot.successor_attempt)
          (Fails w)
          (launch_successor w settings s.snapshot)
          s
  unfolding launch_successor launch_request
  launch_successor-Runs s h =
      let g = s.snapshot.generation in
      let s1 = noted (effect launch_effect started g) s in
      let h1 = Sound-noted w (effect launch_effect started g) s h refl in
      let h2 =
        Sound-noted w (start_process g) s1 h1
          (handed-of w settings s1.snapshot s1.trace h1.memory) in
      Runs-then _ _ (λ t. t ≡ s) _ _ s
        (Runs-choose _ _ _ _ _ s (λ _. Runs-raise _ _ runtime s (h, λ e. cc))
          (λ _. Runs-pure _ _ tt s refl))
        (λ t q.
          subst
            (λ t.
              Runs (Launched s.snapshot.successor_attempt) (Fails w)
                (note launch_effect started g
                  >> (attempt (ask (start_process g) λ t. w.start_fresh t g)
                      >>= finish_launch w settings g))
                t)
            (sym q)
            (note-then _ _ launch_effect started g _ s (
              attempt-bind _ _ (Started s) _ _ s1
                (Runs-ask _ _ (start_process g) _ s1 (λ _ _. ((h2, refl), λ e. cc))
                  (λ _ _. ((h2, refl), λ e. cc)))
                (λ r t k. launch-on r t k))))
    where
      launch-on :
          (r : Result ManagedProcess) (t : Supervisor)
          → Started s r t
          → Runs
              (Launched s.snapshot.successor_attempt)
              (Fails w)
              (finish_launch w settings s.snapshot.generation r)
              t
      launch-on r t k =
          subst
            (λ q.
              Runs (Launched q.successor_attempt) (Fails w)
                (finish_launch w settings q.generation r) t)
            k.0.1 (finish_launch-Runs r t k.0.0 k.1)
