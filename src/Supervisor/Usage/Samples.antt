-- ===== src/Supervisor/Usage/Samples.antt =====
-- supervisor.py: when a sample that `_observe_usage` takes starts a drain.
use mathlib.Core.Path.{ap₂}
use agent_session_harness.Prelude.{
  ap, ◌∙◌, ℕ, ◌≡◌, refl, Bool, ◌&&◌, String, Option, none, some, arith, if◌then◌else◌, ◌==◌, str_eq,
  not, ◌||◌, leb,
}
use agent_session_harness.Supervisor.State.{
  UsageObservation, Snapshot, Supervisor, Phase, Settings, Alarm, ManagedProcess, CompactionFields,
}
use agent_session_harness.Supervisor.World.{World, runtime}
use agent_session_harness.Supervisor.Exec.{M, Result, ok, err, choose, pure}
use agent_session_harness.Supervisor.Post.{
  Runs, Post, Runs-pure, Runs-raise, Runs-choose, Runs-note, Runs-then, update-then, save-then,
  get-bind,
}
use agent_session_harness.Supervisor.Usage.{
  Observed, measured, sample_error, UsageSample, raise_usage_alarm, apply_usage_thresholds,
  record_usage_sample_failure, record_sample, announce_recovery, announce_streak, observe,
  observe_of, observe_usage, is_before_drain, is_unknown, is_confident,
}
use agent_session_harness.Supervisor.Usage.Thresholds.{
  is_draining_now, is_in_grace, DrainsBy, thresholds-Runs,
}

-- The percentage that counts: of a sample of the process that is held, which was measured.
abbrev pub percent_of : Observed → Option ℕ
percent_of (sample_error cause) = none
percent_of (measured o) = if is_unknown o.confidence then none else some o.context_percent

abbrev pub counted_percent : Option ManagedProcess → Option UsageSample → Option ℕ
counted_percent none sampled = none
counted_percent (some p) none = none
counted_percent (some p) (some u) =
    if u.pid == p.pid && str_eq u.registry_key p.registry_key then percent_of u.sample else none

module _ (w : World) (settings : Settings) where
  -- Without such a percentage the sample starts and ends no drain.
  abbrev pub DrainsOn : Option ℕ → Supervisor → Supervisor → Type 0
  DrainsOn none s t = is_draining_now t.snapshot.phase ≡ is_draining_now s.snapshot.phase
  DrainsOn (some percent) s t = DrainsBy w settings percent s t

  -- Both on a return and on an exception.
  record Settles (P : Phase → Type 0) (m : M (Unit {0})) : Type 0 where
    runs :
        (s : Supervisor)
        → P s.snapshot.phase
        → Runs (λ _ t. P t.snapshot.phase) (λ _ t. P t.snapshot.phase) m s

  alarm-Settles : (P : Phase → Type 0) (a : Alarm) → Settles P (raise_usage_alarm w settings a)
  unfolding raise_usage_alarm
  alarm-Settles P a = record {
    runs = λ s h. get-bind _ _ _ s (
        Runs-choose _ _ _ _ _ s (λ _. Runs-pure _ _ tt s h)
          (λ _. update-then _ _ _ _ s (save-then _ _ _ _ (Runs-note _ _ _ _ _ _ h))));
  }

  note-Settles :
      (P : Phase → Type 0) (b : Bool) (m : M (Unit {0}))
      → Settles P m
      → (s : Supervisor) → P s.snapshot.phase
      → Runs (λ _ t. P t.snapshot.phase) (λ _ t. P t.snapshot.phase) (choose b m (pure tt)) s
  note-Settles P b m k s h = Runs-choose _ _ b _ _ s (λ _. k.runs s h) (λ _. Runs-pure _ _ tt s h)

  failure-Settles :
      (P : Phase → Type 0) (cause : String)
      → Settles P (record_usage_sample_failure w settings cause)
  unfolding record_usage_sample_failure
  failure-Settles P cause = record {
    runs = λ s h. get-bind _ _ _ s (
        update-then _ _ _ _ s (
          save-then _ _ _ _ (
            Runs-then _ _ (λ t. P t.snapshot.phase) _ _ _
              (Runs-choose _ _ _ _ _ _ (λ _. Runs-note _ _ _ _ _ _ h) (λ _. Runs-pure _ _ tt _ h))
              (λ t k. note-Settles P _ _ (alarm-Settles P _) t k))));
  }

  -- A sample changes neither the phase nor what is known of a compaction.
  phase-record_sample :
      (o : UsageObservation) (s : Snapshot) → (record_sample w settings o s).phase ≡ s.phase
  unfolding record_sample
  phase-record_sample o s = ground arith

  compaction-record_sample :
      (o : UsageObservation) (s : Snapshot)
      → (record_sample w settings o s).compaction ≡ s.compaction
  unfolding record_sample
  compaction-record_sample o s = ground arith

  weaken-Runs :
      {P Q : Supervisor → Type 0} (m : M (Unit {0})) (s : Supervisor)
      → Runs (λ _ t. P t) (λ _ _. ⊥) m s
      → ((t : Supervisor) → P t → Q t)
      → Runs (λ _ t. Q t) (λ _ t. Q t) m s
  weaken-Runs {P = P} {Q = Q} m s h k = record { holds = weaken (m s) h.holds }
    where
      weaken :
          (r : Result (Unit {0}) × Supervisor)
          → Post (λ _ t. P t) (λ _ _. ⊥) r
          → Post (λ _ t. Q t) (λ _ t. Q t) r
      weaken (ok u, t) p = k t p
      weaken (err e, t) p = absurd p

  same-DrainsBy :
      (percent : ℕ) (o : UsageObservation) (s t : Supervisor)
      → DrainsBy w settings percent
          (record s { snapshot = record_sample w settings o s.snapshot })
          t
      → DrainsBy w settings percent s t
  same-DrainsBy percent o s t h =
      h
      ∙ ap₂
          (λ (p : Phase) (c : CompactionFields).
            is_draining_now p
            || is_before_drain p
              && leb settings.rotate_percent percent
              && not (is_in_grace c (w.clock s.trace)))
          (phase-record_sample o s.snapshot) (compaction-record_sample o s.snapshot)

  -- The rest of a sample that was measured.
  announce-Settles :
      (P : Phase → Type 0) (o : UsageObservation) (had_alarm : Bool) (g : ℕ) (s : Supervisor)
      → P s.snapshot.phase
      → Runs
          (λ _ t. P t.snapshot.phase)
          (λ _ t. P t.snapshot.phase)
          (choose
            (is_confident o.confidence)
            (announce_recovery w settings had_alarm g)
            (announce_streak w settings))
          s
  unfolding announce_recovery announce_streak
  announce-Settles P o had_alarm g s h =
      Runs-choose _ _ _ _ _ s
        (λ _.
          Runs-choose _ _ had_alarm _ _ s (λ _. Runs-note _ _ _ _ _ s h)
            (λ _. Runs-pure _ _ tt s h))
        (λ _. get-bind _ _ _ s (note-Settles P _ _ (alarm-Settles P _) s h))

  -- What a phase must be after a sample.
  abbrev IsLeft : Option ℕ → Supervisor → Phase → Type 0
  IsLeft percent s p = DrainsOn percent s (record s { snapshot = record s.snapshot { phase = p } })

  IsLeft-DrainsOn :
      (percent : Option ℕ) (s t : Supervisor)
      → IsLeft percent s t.snapshot.phase
      → DrainsOn percent s t
  IsLeft-DrainsOn none s t h = h
  IsLeft-DrainsOn (some percent) s t h = h

  IsLeft-self : (s : Supervisor) → IsLeft none s s.snapshot.phase
  IsLeft-self s = refl

  thresholds-IsLeft :
      (o : UsageObservation) (s : Supervisor)
      → Runs
          (λ _ t. IsLeft (percent_of (measured o)) s t.snapshot.phase)
          (λ _ t. IsLeft (percent_of (measured o)) s t.snapshot.phase)
          (choose
            (is_unknown o.confidence)
            (pure tt)
            (apply_usage_thresholds w settings o.context_percent))
          (record s { snapshot = record_sample w settings o s.snapshot })
  thresholds-IsLeft o s =
      Runs-choose _ _ _ _ _ _
        (λ e. Runs-pure _ _ tt _ (rw e (ap is_draining_now (phase-record_sample o s.snapshot))))
        (λ e.
          weaken-Runs _ _ (thresholds-Runs w settings o.context_percent _)
            (λ t h. rw e (same-DrainsBy o.context_percent o s t h)))

  observe-Drains :
      (u : Observed) (s : Supervisor)
      → Runs
          (λ _ t. IsLeft (percent_of u) s t.snapshot.phase)
          (λ _ t. IsLeft (percent_of u) s t.snapshot.phase)
          (observe w settings u)
          s
  unfolding observe
  observe-Drains (sample_error cause) s =
      (failure-Settles (IsLeft none s) cause).runs s (IsLeft-self s)
  observe-Drains (measured o) s =
      let P = IsLeft (percent_of (measured o)) s in
      get-bind _ _ _ s (
        update-then _ _ _ _ s (
          Runs-then _ _ (λ t. P t.snapshot.phase) _ _ _ (thresholds-IsLeft o s)
            (λ t h. save-then _ _ _ _ (announce-Settles P o _ _ _ h))))

  observe_of-Drains :
      (p : Option ManagedProcess) (u : Option UsageSample) (s : Supervisor)
      → Runs
          (λ _ t. IsLeft (counted_percent p u) s t.snapshot.phase)
          (λ _ t. IsLeft (counted_percent p u) s t.snapshot.phase)
          (observe_of w settings p u)
          s
  unfolding observe_of
  observe_of-Drains none u s = Runs-raise _ _ runtime s (IsLeft-self s)
  observe_of-Drains (some p) none s = Runs-pure _ _ tt s (IsLeft-self s)
  observe_of-Drains (some p) (some u) s =
      Runs-choose _ _ _ _ _ s (λ e. rw e (observe-Drains u.sample s))
        (λ e. rw e (Runs-pure _ _ tt s (IsLeft-self s)))

  -- Whether `_observe_usage` returns or raises: where the sample is of the process that is held and
  -- was measured with a known confidence, the supervisor is draining afterwards exactly when it was
  -- before, or when it was running or warning, the percentage has reached the rotation threshold, and
  -- no self-compaction is in its grace; with any other sample or none, it is draining exactly when it
  -- was before.
  pub observe_usage-draining :
      (sampled : Option UsageSample) (s : Supervisor)
      → DrainsOn
          (counted_percent s.current_process sampled)
          s
          (observe_usage w settings sampled s).1
  unfolding observe_usage
  observe_usage-draining sampled s =
      IsLeft-DrainsOn (counted_percent s.current_process sampled) s _ (
        either (λ t. IsLeft (counted_percent s.current_process sampled) s t.snapshot.phase) _
          (get-bind _ _ _ s (observe_of-Drains s.current_process sampled s)).holds)
    where
      either :
          (Q : Supervisor → Type 0) (r : Result (Unit {0}) × Supervisor)
          → Post (λ _ t. Q t) (λ _ t. Q t) r
          → Q r.1
      either Q (ok u, t) h = h
      either Q (err e, t) h = h
