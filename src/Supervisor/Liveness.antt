-- ===== src/Supervisor/Liveness.antt =====
-- supervisor.py: the alarm for a runtime whose hooks fell silent (`_observe_runtime_liveness`).
pub mod Sound
use agent_session_harness.Prelude.{
  ℕ, ◌+◌, ◌-◌, Bool, true, false, not, ◌&&◌, ◌||◌, Option, none, some, ltb, ◌==◌, is_none,
}
use agent_session_harness.Models.{ActivitySnapshot, RuntimeLiveness, is_faulted}
use agent_session_harness.Supervisor.State.{
  Settings, Snapshot, LivenessFields, Alarm, hooks_silent, runtime_liveness_effect, alarm,
  recovered,
}
use agent_session_harness.Supervisor.World.{World}
use agent_session_harness.Supervisor.Exec.{
  M, choose, pure, get, note, update, save, now, ◌>>=◌, ◌>>◌,
}
use agent_session_harness.Supervisor.Usage.{is_raised}

-- `_raise_alarm`, for the field of the liveness alarm.
unfoldable pub raise_liveness_alarm : Alarm → M (Unit {0})
raise_liveness_alarm message = do
  s ← get
  choose (is_raised s.snapshot.liveness.liveness_alarm message) (pure tt) (do
    update (λ snapshot. record snapshot {
      liveness = record snapshot.liveness { liveness_alarm = some message };
    })
    save
    note runtime_liveness_effect alarm s.snapshot.generation)

clear_silence : LivenessFields → ℕ → M (Unit {0})
clear_silence l generation = do
  choose (not (is_none l.liveness_alarm) || not (l.runtime_silence_streak == 0))
      (do
        update (λ snapshot. record snapshot {
          liveness = record {
            runtime_silence_streak = 0;
            runtime_silence_since = none;
            liveness_alarm = none;
          };
        })
        save)
      (pure tt)
  choose (not (is_none l.liveness_alarm)) (note runtime_liveness_effect recovered generation)
      (pure tt)

-- `self.snapshot.runtime_silence_since or now`
unfoldable pub silent_since : Option ℕ → ℕ → ℕ
silent_since none at = at
silent_since (some since) at = since

-- The two floors that a silence clears before the alarm.
unfoldable pub is_long_silence : Settings → ℕ → ℕ → ℕ → Bool
is_long_silence settings streak since at =
    not (ltb streak settings.runtime_silence_alarm_ticks)
    && not (ltb (at - since) settings.runtime_silence_grace)

count_silence : Settings → RuntimeLiveness → LivenessFields → ℕ → M (Unit {0})
count_silence settings fault l at = do
  update (λ snapshot. record snapshot {
    liveness = record snapshot.liveness {
      runtime_silence_streak = l.runtime_silence_streak + 1;
      runtime_silence_since = some (silent_since l.runtime_silence_since at);
    };
  })
  save
  choose
      (is_long_silence settings (l.runtime_silence_streak + 1)
        (silent_since l.runtime_silence_since at) at)
      (raise_liveness_alarm (hooks_silent fault)) (pure tt)

-- `_observe_runtime_liveness`
unfoldable pub observe_runtime_liveness : World → Settings → ActivitySnapshot → M (Unit {0})
unfolding clear_silence count_silence
observe_runtime_liveness w settings activity = do
  at ← now w
  s ← get
  choose (is_faulted activity.runtime_liveness)
      (count_silence settings activity.runtime_liveness s.snapshot.liveness at)
      (clear_silence s.snapshot.liveness s.snapshot.generation)
