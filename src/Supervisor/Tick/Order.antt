-- ===== src/Supervisor/Tick/Order.antt =====
-- supervisor.py: `_tick_unlocked`, against the order of a rotation.
use agent_session_harness.Prelude.{ℕ, String, ◌≢◌, refl, Bool, true, false, Option, none, some}
use agent_session_harness.Models.{ActivitySnapshot}
use agent_session_harness.Supervisor.State.{
  Settings, Supervisor, ManagedProcess, ClaimHandle, ExitStatus, completed, checkpointing,
  fence_claim, probe_alive, probe_exit, clear_exit,
}
use agent_session_harness.Supervisor.World.{
  World, stale_owner, runtime, value, other, Acknowledgement,
}
use agent_session_harness.Supervisor.Exec.{Result, ok, err, Error, fault, diverged, set_phase}
use agent_session_harness.Supervisor.Post.{Post}
use agent_session_harness.Supervisor.Journal.{IsSound}
use agent_session_harness.Supervisor.Sound.{accounted-plain, Fails}
use agent_session_harness.Supervisor.Keeps.{
  Keeps-pure, Keeps-raise, Keeps-fail, Keeps-choose, Keeps-bind, Keeps-then, Keeps-get, Keeps-now,
  Keeps-ask, Keeps-note, Keeps-attempt, Keeps-update, Keeps-save, Keeps-current, Keeps-blocked,
  Keeps,
}
use agent_session_harness.Supervisor.Usage.{UsageSample}
use agent_session_harness.Supervisor.Usage.Sound.{observe_usage-Keeps}
use agent_session_harness.Supervisor.Compaction.Sound.{release_drain-Keeps}
use agent_session_harness.Supervisor.Liveness.Sound.{observe_runtime_liveness-Keeps}
use agent_session_harness.Supervisor.Acknowledge.Sound.{
  heartbeat-Keeps, rotation-Keeps, retry_and_advance-Keeps, acknowledge-Keeps,
}
use agent_session_harness.Supervisor.Acknowledge.{acknowledge_unlocked}
use agent_session_harness.Supervisor.Tick.{
  finalize_process, finalize_completed_cleanup, after_release, release_claim, report_exit,
  complete_clean_exit, block_on_io, end_of, after_exit, after_probe, ensure_process,
  ensure_active_process_is_live, wait_until, receive, await_acknowledgement, drain, observe_session,
  live_tick, tick_unlocked,
}

module _ (w : World) (settings : Settings) where
  finalize_process-Keeps : (p : Option ManagedProcess) → Keeps w (finalize_process w settings p)
  unfolding finalize_process
  finalize_process-Keeps none = Keeps-pure w tt
  finalize_process-Keeps (some p) = Keeps-then w _ _ (Keeps-ask w (clear_exit p) _ (λ t. refl)) (
      Keeps-then w _ _ (Keeps-current w none)
        (Keeps-then w _ _ (Keeps-update w _ (λ s t h. h)) (Keeps-save w)))

  pub cleanup-Keeps : Keeps w (finalize_completed_cleanup w settings)
  unfolding finalize_completed_cleanup
  cleanup-Keeps =
      Keeps-get w _
        (λ s. Keeps-choose w _ _ _ (finalize_process-Keeps s.current_process) (Keeps-pure w tt))

  after_release-Keeps :
      (r : Result (Unit {0})) → r ≢ err diverged → Keeps w (after_release w settings r)
  unfolding after_release
  after_release-Keeps (ok u) d = Keeps-pure w tt
  after_release-Keeps (err (fault stale_owner)) d = Keeps-pure w tt
  after_release-Keeps (err (fault runtime)) d =
      Keeps-then w _ _ (Keeps-blocked w) (Keeps-raise w runtime)
  after_release-Keeps (err (fault value)) d = Keeps-fail w _ (λ e. cc)
  after_release-Keeps (err (fault other)) d = Keeps-fail w _ (λ e. cc)
  after_release-Keeps (err diverged) d = absurd (d refl)

  release_claim-Keeps : (c : Option ClaimHandle) → Keeps w (release_claim w settings c)
  unfolding release_claim
  release_claim-Keeps none = Keeps-pure w tt
  release_claim-Keeps (some c) =
      Keeps-attempt w _ _ (Keeps-ask w (fence_claim c) _ (λ t. refl)) after_release-Keeps

  report-Keeps :
      (g : ℕ) (r : Result (Unit {0})) → r ≢ err diverged → Keeps w (report_exit w settings g r)
  unfolding report_exit
  report-Keeps g (ok u) d = Keeps-note w _ _ _ (λ t. refl)
  report-Keeps g (err e) d =
      Keeps-choose w _ _ _ (Keeps-raise w runtime) (Keeps-fail w e (λ q. d cc))

  complete-Keeps : Keeps w (complete_clean_exit w settings)
  unfolding complete_clean_exit
  complete-Keeps = Keeps-get w _ (λ s. Keeps-then w _ _ (Keeps-note w _ _ _ (λ t. refl)) (
      Keeps-then w _ _ (release_claim-Keeps s.snapshot.claim) (
        Keeps-then w _ _
          (Keeps-update w _ (λ s t h.
            accounted-plain w s
              (record s {
                phase = completed;
                owner_session_id = none;
                claim = none;
                last_heartbeat_at = none;
              })
              t refl refl h))
          (Keeps-then w _ _ (Keeps-save w)
            (Keeps-attempt w _ _ cleanup-Keeps (report-Keeps s.snapshot.generation))))))

  block-Keeps : (e : Error) → e ≢ diverged → Keeps w (block_on_io w settings e)
  unfolding block_on_io
  block-Keeps e d =
      Keeps-then w _ _ (Keeps-choose w _ _ _ (Keeps-blocked w) (Keeps-pure w tt)) (Keeps-fail w e d)

  end-Keeps : (b : Bool) (x : Option ExitStatus) → Keeps w (end_of w settings b x)
  unfolding end_of
  end-Keeps b x = Keeps-get w _ (λ s. Keeps-choose w _ _ _ (retry_and_advance-Keeps w settings) (
      Keeps-choose w _ _ _ complete-Keeps
        (Keeps-then w _ _ (Keeps-blocked w) (Keeps-raise w runtime))))

  exit-Keeps :
      (r : Result (Option ExitStatus)) → r ≢ err diverged → Keeps w (after_exit w settings r)
  unfolding after_exit
  exit-Keeps (ok x) d = end-Keeps true x
  exit-Keeps (err e) d = block-Keeps e (λ q. d cc)

  probe-Keeps :
      (p : ManagedProcess) (r : Result Bool)
      → r ≢ err diverged
      → Keeps w (after_probe w settings p r)
  unfolding after_probe
  probe-Keeps p (ok true) d = Keeps-pure w tt
  probe-Keeps p (ok false) d =
      Keeps-attempt w _ _ (Keeps-ask w (probe_exit p) _ (λ t. refl)) exit-Keeps
  probe-Keeps p (err e) d = block-Keeps e (λ q. d cc)

  ensure_process-Keeps : (p : Option ManagedProcess) → Keeps w (ensure_process w settings p)
  unfolding ensure_process
  ensure_process-Keeps none = end-Keeps false none
  ensure_process-Keeps (some p) =
      Keeps-attempt w _ _ (Keeps-ask w (probe_alive p) _ (λ t. refl)) (probe-Keeps p)

  pub ensure-Keeps : Keeps w (ensure_active_process_is_live w settings)
  unfolding ensure_active_process_is_live
  ensure-Keeps =
      Keeps-get w _
        (λ s. Keeps-choose w _ _ _ (ensure_process-Keeps s.current_process) (Keeps-pure w tt))

  wait-Keeps : (deadline : Option ℕ) → Keeps w (wait_until w settings deadline)
  unfolding wait_until
  wait-Keeps none = retry_and_advance-Keeps w settings
  wait-Keeps (some deadline) =
      Keeps-now w _
        (λ at. Keeps-choose w _ _ _ (retry_and_advance-Keeps w settings) (Keeps-pure w tt))

  receive-Keeps : (a : Option Acknowledgement) → Keeps w (receive w settings a)
  unfolding receive
  receive-Keeps none = Keeps-get w _ (λ s. wait-Keeps s.snapshot.successor_ack_deadline_at)
  receive-Keeps (some a) =
      Keeps-then w _ _ (acknowledge-Keeps w settings _ _ _ _) (Keeps-ask w _ _ (λ t. refl))

  await-Keeps : Keeps w (await_acknowledgement w settings)
  unfolding await_acknowledgement
  await-Keeps = Keeps-bind w _ _ (Keeps-ask w _ _ (λ t. refl)) receive-Keeps

  drain-Keeps : (activity : ActivitySnapshot) → Keeps w (drain w settings activity)
  unfolding drain set_phase
  drain-Keeps activity = Keeps-get w _ (λ s.
      Keeps-choose w _ _ _
        (Keeps-then w _ _
          (Keeps-then w _ _
            (Keeps-update w _
              (λ s t h. accounted-plain w s (record s { phase = checkpointing }) t refl refl h))
            (Keeps-save w))
          (rotation-Keeps w settings))
        (Keeps-pure w tt))

  session-Keeps :
      (activity : ActivitySnapshot) (sample : Option UsageSample)
      → Keeps w (observe_session w settings activity sample)
  unfolding observe_session
  session-Keeps activity sample = Keeps-then w _ _ (observe_usage-Keeps w settings sample) (
      Keeps-then w _ _ (release_drain-Keeps w activity) (
        Keeps-then w _ _ (observe_runtime_liveness-Keeps w settings activity) (
          Keeps-get w _
            (λ s. Keeps-choose w _ _ _ (drain-Keeps activity) (rotation-Keeps w settings)))))

  live-Keeps :
      (activity : ActivitySnapshot) (sample : Option UsageSample)
      → Keeps w (live_tick w settings activity sample)
  unfolding live_tick
  live-Keeps activity sample = Keeps-then w _ _ (heartbeat-Keeps w settings false) (
      Keeps-get w _ (λ s.
        Keeps-choose w _ _ _ await-Keeps
          (Keeps-choose w _ _ _ (session-Keeps activity sample) (rotation-Keeps w settings))))

  pub tick-Keeps :
      (activity : ActivitySnapshot) (sample : Option UsageSample)
      → Keeps w (tick_unlocked w settings activity sample)
  unfolding tick_unlocked
  tick-Keeps activity sample = Keeps-get w _ (λ s. Keeps-choose w _ _ _ (Keeps-raise w runtime) (
      Keeps-then w _ _ ensure-Keeps
        (Keeps-get w _ (λ t. Keeps-choose w _ _ _ (Keeps-pure w tt) (live-Keeps activity sample)))))

  pub outcome :
      (r : Result (Unit {0}) × Supervisor)
      → Post (λ _ t. IsSound w t) (Fails w) r
      → IsSound w r.1 × (r.0 ≢ err diverged)
  outcome (ok u, t) k = (k, λ q. cc)
  outcome (err e, t) k = (k.0, λ q. k.1 cc)

  -- From a supervisor whose history is in order, a tick returns or raises an exception of the
  -- program, whatever the activity, the usage sample and the answers of its collaborators are; its
  -- rotation never runs out of rounds, and the history is in order afterwards, with both the
  -- snapshot in memory and the one on disk accounted for.
  pub tick_unlocked-IsSound :
      (activity : ActivitySnapshot) (sample : Option UsageSample) (s : Supervisor)
      → IsSound w s
      → IsSound w (tick_unlocked w settings activity sample s).1
        × ((tick_unlocked w settings activity sample s).0 ≢ err diverged)
  tick_unlocked-IsSound activity sample s h =
      outcome _ ((tick-Keeps activity sample).runs s h).holds

  -- An acknowledgement keeps the order in the same way, accepted or refused.
  acknowledge_unlocked-IsSound :
      (generation : ℕ) (fingerprint : Option String) (conversation : String) (owner_pid : ℕ)
      (s : Supervisor)
      → IsSound w s
      → IsSound w
          (acknowledge_unlocked w settings generation fingerprint conversation owner_pid s).1
        × ((acknowledge_unlocked w settings generation fingerprint conversation owner_pid s).0
            ≢ err diverged)
  acknowledge_unlocked-IsSound g f c pid s h =
      outcome _ ((acknowledge-Keeps w settings g f c pid).runs s h).holds
