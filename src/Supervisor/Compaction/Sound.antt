-- ===== src/Supervisor/Compaction/Sound.antt =====
-- supervisor.py: `_release_drain_on_self_compaction`, against the order of a rotation.
use agent_session_harness.Prelude.{refl}
use agent_session_harness.Models.{ActivitySnapshot}
use agent_session_harness.Supervisor.World.{World}
use agent_session_harness.Supervisor.Sound.{accounted-plain}
use agent_session_harness.Supervisor.Keeps.{
  Keeps-pure, Keeps-choose, Keeps-then, Keeps-get, Keeps-now, Keeps-ask, Keeps-note, Keeps-update,
  Keeps-save, Keeps,
}
use agent_session_harness.Supervisor.Compaction.{consume, release, release_drain_on_self_compaction}

module _ (w : World) where
  pub release_drain-Keeps :
      (activity : ActivitySnapshot) → Keeps w (release_drain_on_self_compaction w activity)
  unfolding release_drain_on_self_compaction consume release
  release_drain-Keeps activity = Keeps-get w _ (λ s.
      Keeps-choose w _ _ _
        (Keeps-choose w _ _ _
          (Keeps-now w _ (λ at.
            Keeps-then w _ _
              (Keeps-update w _
                (λ s t h. accounted-plain w s (release activity at s) t refl refl h))
              (Keeps-then w _ _ (Keeps-save w)
                (Keeps-then w _ _ (Keeps-ask w _ _ (λ t. refl)) (Keeps-note w _ _ _ (λ t. refl))))))
          (Keeps-then w _ _ (Keeps-update w _ (λ s t h. h)) (Keeps-save w)))
        (Keeps-pure w tt))
