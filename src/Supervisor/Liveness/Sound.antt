-- ===== src/Supervisor/Liveness/Sound.antt =====
-- supervisor.py: `_observe_runtime_liveness`, against the order of a rotation.
use agent_session_harness.Prelude.{ℕ, refl}
use agent_session_harness.Models.{ActivitySnapshot, RuntimeLiveness}
use agent_session_harness.Supervisor.State.{Settings, Alarm, LivenessFields}
use agent_session_harness.Supervisor.World.{World}
use agent_session_harness.Supervisor.Keeps.{
  Keeps-pure, Keeps-choose, Keeps-then, Keeps-get, Keeps-now, Keeps-note, Keeps-update, Keeps-save,
  Keeps,
}
use agent_session_harness.Supervisor.Liveness.{
  raise_liveness_alarm, clear_silence, count_silence, observe_runtime_liveness,
}

module _ (w : World) (settings : Settings) where
  raise_liveness-Keeps : (message : Alarm) → Keeps w (raise_liveness_alarm message)
  unfolding raise_liveness_alarm
  raise_liveness-Keeps message = Keeps-get w _ (λ s. Keeps-choose w _ _ _ (Keeps-pure w tt) (
      Keeps-then w _ _ (Keeps-update w _ (λ s t h. h))
        (Keeps-then w _ _ (Keeps-save w) (Keeps-note w _ _ _ (λ t. refl)))))

  clear_silence-Keeps : (l : LivenessFields) (g : ℕ) → Keeps w (clear_silence l g)
  unfolding clear_silence
  clear_silence-Keeps l g =
      Keeps-then w _ _
        (Keeps-choose w _ _ _ (Keeps-then w _ _ (Keeps-update w _ (λ s t h. h)) (Keeps-save w))
          (Keeps-pure w tt))
        (Keeps-choose w _ _ _ (Keeps-note w _ _ _ (λ t. refl)) (Keeps-pure w tt))

  count_silence-Keeps :
      (fault : RuntimeLiveness) (l : LivenessFields) (at : ℕ)
      → Keeps w (count_silence settings fault l at)
  unfolding count_silence
  count_silence-Keeps fault l at = Keeps-then w _ _ (Keeps-update w _ (λ s t h. h)) (
      Keeps-then w _ _ (Keeps-save w)
        (Keeps-choose w _ _ _ (raise_liveness-Keeps _) (Keeps-pure w tt)))

  pub observe_runtime_liveness-Keeps :
      (activity : ActivitySnapshot) → Keeps w (observe_runtime_liveness w settings activity)
  unfolding observe_runtime_liveness
  observe_runtime_liveness-Keeps activity = Keeps-now w _ (λ at. Keeps-get w _ (λ s.
      Keeps-choose w _ _ _ (count_silence-Keeps activity.runtime_liveness s.snapshot.liveness at)
        (clear_silence-Keeps s.snapshot.liveness s.snapshot.generation)))
