-- ===== src/Supervisor/Usage/Sound.antt =====
-- supervisor.py: `_observe_usage`, against the order of a rotation.
use agent_session_harness.Prelude.{
  ℕ, ◌≡◌, refl, Bool, true, false, ◌&&◌, String, Option, none, some, arith, if◌then◌else◌, leb,
}
use agent_session_harness.Supervisor.State.{
  UsageObservation, Snapshot, Trace, Settings, Alarm, ManagedProcess, CompactionFields, warning,
  draining,
}
use agent_session_harness.Supervisor.World.{World, runtime}
use agent_session_harness.Supervisor.Exec.{update}
use agent_session_harness.Supervisor.Journal.{accounted}
use agent_session_harness.Supervisor.Sound.{accounted-plain}
use agent_session_harness.Supervisor.Keeps.{
  Keeps-pure, Keeps-raise, Keeps-choose, Keeps-bind, Keeps-then, Keeps-get, Keeps-now, Keeps-note,
  Keeps-update, Keeps-save, Keeps,
}
use agent_session_harness.Supervisor.Usage.{
  Observed, measured, sample_error, UsageSample, raise_usage_alarm, clear_pending,
  wait_for_compaction, settle_compaction, warn_if_due, drain_if_due, apply_usage_thresholds,
  record_usage_sample_failure, record_sample, announce_recovery, announce_streak, observe,
  observe_of, observe_usage, is_running, is_before_drain,
}

module _ (w : World) (settings : Settings) where
  raise-Keeps : (message : Alarm) → Keeps w (raise_usage_alarm w settings message)
  unfolding raise_usage_alarm
  raise-Keeps message = Keeps-get w _ (λ s. Keeps-choose w _ _ _ (Keeps-pure w tt) (
      Keeps-then w _ _ (Keeps-update w _ (λ s t h. h))
        (Keeps-then w _ _ (Keeps-save w) (Keeps-note w _ _ _ (λ t. refl)))))

  clear-Keeps : Keeps w (update clear_pending)
  unfolding clear_pending
  clear-Keeps = Keeps-update w _ (λ s t h. h)

  wait-Keeps : (until : Option ℕ) → Keeps w (wait_for_compaction w settings until)
  unfolding wait_for_compaction
  wait-Keeps none = Keeps-then w _ _ clear-Keeps (Keeps-pure w true)
  wait-Keeps (some until) = Keeps-now w _ (λ at.
      Keeps-choose w _ _ _ (Keeps-pure w false) (Keeps-then w _ _ clear-Keeps (Keeps-pure w true)))

  settle-Keeps :
      (percent : ℕ) (c : CompactionFields) → Keeps w (settle_compaction w settings percent c)
  unfolding settle_compaction
  settle-Keeps percent c =
      Keeps-choose w _ _ _ (Keeps-pure w true)
        (Keeps-choose w _ _ _ (Keeps-then w _ _ clear-Keeps (Keeps-pure w false)) (wait-Keeps _))

  either-accounted :
      (b : Bool) (r s : Snapshot) (t : Trace)
      → accounted w r t ≡ true
      → accounted w s t ≡ true
      → accounted w (if b then r else s) t ≡ true
  either-accounted true r s t h k = h
  either-accounted false r s t h k = k

  warn-accounted :
      (percent : ℕ) (s : Snapshot) (t : Trace)
      → accounted w s t ≡ true
      → accounted w (warn_if_due w settings percent s) t ≡ true
  unfolding warn_if_due
  warn-accounted percent s t h =
      let warned = record s { phase = warning; warning_emitted = true } in
      either-accounted (is_running s.phase && leb settings.warn_percent percent) warned s t
        (accounted-plain w s warned t refl refl h) h

  drain-accounted :
      (percent : ℕ) (s : Snapshot) (t : Trace)
      → accounted w s t ≡ true
      → accounted w (drain_if_due w settings percent s) t ≡ true
  unfolding drain_if_due
  drain-accounted percent s t h =
      let drained = record s { phase = draining } in
      either-accounted (is_before_drain s.phase && leb settings.rotate_percent percent) drained s t
        (accounted-plain w s drained t refl refl h) h

  thresholds-Keeps : (percent : ℕ) → Keeps w (apply_usage_thresholds w settings percent)
  unfolding apply_usage_thresholds
  thresholds-Keeps percent = Keeps-get w _ (λ s.
      Keeps-bind w _ _ (settle-Keeps percent s.snapshot.compaction) (λ b.
        Keeps-choose w b _ _
          (Keeps-update w _ (λ s t h. drain-accounted percent _ t (warn-accounted percent s t h)))
          (Keeps-pure w tt)))

  failure-Keeps : (cause : String) → Keeps w (record_usage_sample_failure w settings cause)
  unfolding record_usage_sample_failure
  failure-Keeps cause = Keeps-get w _ (λ s. Keeps-then w _ _ (Keeps-update w _ (λ s t h. h)) (
      Keeps-then w _ _ (Keeps-save w) (
        Keeps-then w _ _ (Keeps-choose w _ _ _ (Keeps-note w _ _ _ (λ t. refl)) (Keeps-pure w tt))
          (Keeps-choose w _ _ _ (raise-Keeps _) (Keeps-pure w tt)))))

  sample-accounted :
      (o : UsageObservation) (s : Snapshot) (t : Trace)
      → accounted w s t ≡ true
      → accounted w (record_sample w settings o s) t ≡ true
  unfolding record_sample
  sample-accounted o s t h = ground arith

  observe-Keeps : (o : Observed) → Keeps w (observe w settings o)
  unfolding observe announce_recovery announce_streak
  observe-Keeps (sample_error cause) = failure-Keeps cause
  observe-Keeps (measured o) = Keeps-get w _ (λ s.
      Keeps-then w _ _ (Keeps-update w _ (sample-accounted o)) (
        Keeps-then w _ _
          (Keeps-choose w _ _ _ (Keeps-pure w tt) (thresholds-Keeps o.context_percent))
          (Keeps-then w _ _ (Keeps-save w) (
            Keeps-choose w _ _ _
              (Keeps-choose w _ _ _ (Keeps-note w _ _ _ (λ t. refl)) (Keeps-pure w tt))
              (Keeps-get w _ (λ s. Keeps-choose w _ _ _ (raise-Keeps _) (Keeps-pure w tt)))))))

  observe_of-Keeps :
      (p : Option ManagedProcess) (sampled : Option UsageSample)
      → Keeps w (observe_of w settings p sampled)
  unfolding observe_of
  observe_of-Keeps none sampled = Keeps-raise w runtime
  observe_of-Keeps (some p) none = Keeps-pure w tt
  observe_of-Keeps (some p) (some sampled) =
      Keeps-choose w _ _ _ (observe-Keeps sampled.sample) (Keeps-pure w tt)

  pub observe_usage-Keeps :
      (sampled : Option UsageSample) → Keeps w (observe_usage w settings sampled)
  unfolding observe_usage
  observe_usage-Keeps sampled = Keeps-get w _ (λ s. observe_of-Keeps s.current_process sampled)
