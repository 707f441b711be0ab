-- ===== src/Supervisor/Usage.antt =====
-- supervisor.py: what a tick makes of a usage sample (`_observe_usage`, `_apply_usage_thresholds`,
-- `_record_usage_sample_failure`), and the alarms of `_raise_alarm`.
pub mod Thresholds
pub mod Samples
pub mod Sound
use agent_session_harness.Prelude.{
  ℕ, ◌+◌, String, Bool, true, false, not, ◌&&◌, ◌||◌, Option, none, some, ltb, leb, ◌==◌, is_none,
  if◌then◌else◌, str_eq,
}
use agent_session_harness.Models.{
  Confidence, confident, RuntimeLiveness, reporting, never_reported, silent_idle, silent_active,
}
use agent_session_harness.Supervisor.State.{
  Phase, running, warning, draining, ManagedProcess, Settings, Snapshot, UsageObservation, Alarm,
  sampling_not_confident, sampling_failed, hooks_silent, UsageFields, CompactionFields, Effect,
  usage_sample_effect, failed, recovered, alarm,
}
use agent_session_harness.Supervisor.World.{World, runtime}
use agent_session_harness.Supervisor.Exec.{
  M, choose, pure, raise, get, note, update, save, now, ◌>>=◌, ◌>>◌,
}

-- `_UsageSampleResult`: the process that was sampled, and its sample or the text of the exception.
pub data Observed : Type 0 where
  measured : UsageObservation → Observed
  sample_error : String → Observed

pub record UsageSample : Type 0 where
  pub pid : ℕ
  pub registry_key : String
  pub sample : Observed

unfoldable pub is_running : Phase → Bool
is_running running = true
is_running _ = false

unfoldable pub is_before_drain : Phase → Bool
is_before_drain running = true
is_before_drain warning = true
is_before_drain _ = false

unfoldable pub is_confident : Confidence → Bool
is_confident confident = true
is_confident _ = false

unfoldable pub is_unknown : Confidence → Bool
is_unknown Confidence.unknown = true
is_unknown _ = false

same_liveness : RuntimeLiveness → RuntimeLiveness → Bool
same_liveness reporting reporting = true
same_liveness never_reported never_reported = true
same_liveness silent_idle silent_idle = true
same_liveness silent_active silent_active = true
same_liveness _ _ = false

-- `current == bounded`
unfoldable pub is_raised : Option Alarm → Alarm → Bool
unfolding same_liveness
is_raised (some sampling_not_confident) sampling_not_confident = true
is_raised (some (sampling_failed cause)) (sampling_failed other) = str_eq cause other
is_raised (some (hooks_silent fault)) (hooks_silent other) = same_liveness fault other
is_raised _ _ = false

clear_pending : Snapshot → Snapshot
clear_pending s = record s {
  compaction = record s.compaction {
    self_compaction_pending = false;
    self_compaction_pending_until = none;
  };
}

module _ (w : World) (settings : Settings) where
  -- `_raise_alarm`, for the field of `_raise_usage_alarm`.
  unfoldable pub raise_usage_alarm : Alarm → M (Unit {0})
  raise_usage_alarm message = do
    s ← get
    choose (is_raised s.snapshot.usage.usage_alarm message) (pure tt) (do
      update (λ snapshot. record snapshot {
        usage = record snapshot.usage { usage_alarm = some message };
      })
      save
      note usage_sample_effect alarm s.snapshot.generation)

  wait_for_compaction : Option ℕ → M Bool
  unfolding clear_pending
  wait_for_compaction none = do update clear_pending; pure true
  wait_for_compaction (some pending_until) = do
    at ← now w
    choose (ltb at pending_until) (pure false) (do update clear_pending; pure true)

  -- The first half of `_apply_usage_thresholds`: whether its second half is reached.
  settle_compaction : ℕ → CompactionFields → M Bool
  unfolding clear_pending wait_for_compaction
  settle_compaction percent c = choose (not c.self_compaction_pending) (pure true) (
      choose (ltb percent settings.rotate_percent) (do update clear_pending; pure false)
        (wait_for_compaction c.self_compaction_pending_until))

  unfoldable pub warn_if_due : ℕ → Snapshot → Snapshot
  warn_if_due percent s =
      if is_running s.phase && leb settings.warn_percent percent
      then record s { phase = warning; warning_emitted = true }
      else s

  unfoldable pub drain_if_due : ℕ → Snapshot → Snapshot
  drain_if_due percent s =
      if is_before_drain s.phase && leb settings.rotate_percent percent
      then record s { phase = draining }
      else s

  -- `_apply_usage_thresholds`
  unfoldable pub apply_usage_thresholds : ℕ → M (Unit {0})
  unfolding settle_compaction
  apply_usage_thresholds percent = do
    s ← get
    is_settled ← settle_compaction percent s.snapshot.compaction
    choose is_settled (update (λ snapshot. drain_if_due percent (warn_if_due percent snapshot)))
        (pure tt)

  -- `_record_usage_sample_failure`
  unfoldable pub record_usage_sample_failure : String → M (Unit {0})
  record_usage_sample_failure cause = do
    s ← get
    update (λ snapshot. record snapshot {
      usage = record snapshot.usage {
        context_confidence = Confidence.unknown;
        usage_sample_failure_streak = snapshot.usage.usage_sample_failure_streak + 1;
        non_confident_sample_streak = snapshot.usage.non_confident_sample_streak + 1;
      };
    })
    save
    choose (s.snapshot.usage.usage_sample_failure_streak + 1 == 1)
        (note usage_sample_effect failed s.snapshot.generation) (pure tt)
    choose
        (leb settings.usage_failure_alarm_ticks (s.snapshot.usage.usage_sample_failure_streak + 1))
        (raise_usage_alarm (sampling_failed cause)) (pure tt)

  -- The update of `_observe_usage`: an unknown sample overwrites no measurement.
  unfoldable pub record_sample : UsageObservation → Snapshot → Snapshot
  record_sample o s =
      let streaks = record s.usage {
        context_confidence = o.confidence;
        usage_sample_failure_streak = 0;
        non_confident_sample_streak =
            if is_confident o.confidence then 0 else s.usage.non_confident_sample_streak + 1;
        usage_alarm = if is_confident o.confidence then none else s.usage.usage_alarm;
      } in
      if is_unknown o.confidence then record s { usage = streaks } else record s {
        conversation_id = some o.conversation_id;
        usage = record streaks {
          context_percent = some o.context_percent;
          context_tokens = o.context_tokens;
          window_tokens = o.window_tokens;
          cumulative_tokens = o.cumulative_tokens;
        };
      }

  announce_recovery : Bool → ℕ → M (Unit {0})
  announce_recovery had_alarm generation =
      choose had_alarm (note usage_sample_effect recovered generation) (pure tt)

  announce_streak : M (Unit {0})
  announce_streak = do
    s ← get
    choose
        (leb settings.non_confident_rotation_tolerance_ticks
          s.snapshot.usage.non_confident_sample_streak)
        (raise_usage_alarm sampling_not_confident) (pure tt)

  observe : Observed → M (Unit {0})
  unfolding announce_recovery announce_streak
  observe (sample_error cause) = record_usage_sample_failure cause
  observe (measured o) = do
    s ← get
    update (record_sample o)
    choose (is_unknown o.confidence) (pure tt) (apply_usage_thresholds o.context_percent)
    save
    choose (is_confident o.confidence)
        (announce_recovery (not (is_none s.snapshot.usage.usage_alarm)) s.snapshot.generation)
        announce_streak

  observe_of : Option ManagedProcess → Option UsageSample → M (Unit {0})
  unfolding observe
  observe_of none sampled = raise runtime
  observe_of (some p) none = pure tt
  observe_of (some p) (some sampled) =
      choose (sampled.pid == p.pid && str_eq sampled.registry_key p.registry_key)
        (observe sampled.sample) (pure tt)

  -- `_observe_usage`
  unfoldable pub observe_usage : Option UsageSample → M (Unit {0})
  unfolding observe_of
  observe_usage sampled = do s ← get; observe_of s.current_process sampled
