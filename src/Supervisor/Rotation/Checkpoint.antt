-- ===== src/Supervisor/Rotation/Checkpoint.antt =====
-- supervisor.py: the checkpointing phase of `_advance_rotation`, against the order of a rotation.
use agent_session_harness.Prelude.{
  ℕ, ◌+◌, ◌≡◌, refl, ap, String, true, false, Option, none, some, arith, ◌∙◌,
}
use agent_session_harness.Supervisor.State.{
  checkpointed, Supervisor, Settings, started, finished, failed, checkpoint_effect, make_checkpoint,
  append_event, effect, read_clock,
}
use agent_session_harness.Supervisor.World.{World, Receipt}
use agent_session_harness.Supervisor.Post.{
  Runs, noted, now-bind, Runs-pure, Runs-choose, Runs-then, note-then, update-then, save-then,
  ask-bind, ask-then,
}
use agent_session_harness.Supervisor.Journal.{IsSound, checkpoint_verified}
use agent_session_harness.Supervisor.Sound.{
  Sound-noted, Sound-saved, Sound-updated, Fails, verified-grow,
}
use agent_session_harness.Supervisor.Heartbeat.Sound.{Beaten, heartbeat-Runs}
use agent_session_harness.Supervisor.Rotation.{finish_checkpoint, checkpoint_from}
use agent_session_harness.Supervisor.Rotation.Measure.{
  from-not, handed-of, account, verified-now, Round,
}

module _ (w : World) (settings : Settings) where
  finish_checkpoint-Runs :
      (predecessor : String) (n : ℕ) (receipt : Receipt) (s : Supervisor)
      → IsSound w s
      → (receipt.verified ≡ true → checkpoint_verified w (s.snapshot.generation + 1) s.trace ≡ true)
      → Runs
          (Round w settings (settings.successor_retry_limit + 9))
          (Fails w)
          (finish_checkpoint w settings predecessor n receipt)
          s
  unfolding finish_checkpoint
  finish_checkpoint-Runs predecessor n receipt s h v =
      Runs-choose _ _ _ _ _ s
        (λ _.
          note-then _ _ checkpoint_effect failed _ _ s
            (Runs-pure _ _ false _ (Sound-noted w _ s h refl, λ c. cc)))
        (λ e.
          let target = s.snapshot.generation + 1 in
          let s1 = noted (effect checkpoint_effect finished n) s in
          let h1 = Sound-noted w (effect checkpoint_effect finished n) s h refl in
          let s0 = noted read_clock s1 in
          let h0 = Sound-noted w read_clock s1 h1 refl in
          let s2 = noted (append_event n) s0 in
          let h2 = Sound-noted w (append_event n) s0 h0 refl in
          note-then _ _ checkpoint_effect finished _ _ s (
            now-bind _ _ w _ s1 (
              ask-then _ _ (append_event _) _ _ s0
                (λ _ _. update-then _ _ _ _ s2 (
                  save-then _ _ _ _ (
                    Runs-pure _ _ true _ (
                      Sound-saved w _ (
                          Sound-updated w s2 _ h2 (
                            account w settings checkpointed s.snapshot.generation s2.trace
                              (handed-of w settings s2.snapshot s2.trace h2.memory)
                              (verified-grow w target (append_event n) s0.trace (
                                verified-grow w target read_clock s1.trace (
                                  verified-grow w target (effect checkpoint_effect finished n)
                                    s.trace (v (from-not receipt.verified e))))))),
                      λ _. omega arith,
                    ))))
                (λ _ _. (h2, λ e. cc)))))

  pub checkpoint_from-Runs :
      (c : Option String) (s : Supervisor)
      → IsSound w s
      → Runs
          (Round w settings (settings.successor_retry_limit + 9))
          (Fails w)
          (checkpoint_from w settings c (s.snapshot.generation + 1))
          s
  unfolding checkpoint_from
  checkpoint_from-Runs none s h = Runs-pure _ _ false s (h, λ c. cc)
  checkpoint_from-Runs (some predecessor) s h =
      let target = s.snapshot.generation + 1 in
      Runs-then _ _ (Beaten w s) _ _ s (heartbeat-Runs w settings true s h) (λ t b.
        let s1 = noted (effect checkpoint_effect started target) t in
        let h1 = Sound-noted w (effect checkpoint_effect started target) t b.sound refl in
        let s2 = noted (make_checkpoint predecessor target) s1 in
        let h2 = Sound-noted w (make_checkpoint predecessor target) s1 h1 refl in
        note-then _ _ checkpoint_effect started target _ t (
          ask-bind _ _ (make_checkpoint predecessor target) _ _ s1
            (λ receipt e.
              Runs-then _ _ (Beaten w s2) _ _ s2 (heartbeat-Runs w settings true s2 h2) (λ u k.
                finish_checkpoint-Runs predecessor target receipt u k.sound (λ v.
                  ap (λ g. checkpoint_verified w (g + 1) u.trace) (k.generation ∙ b.generation)
                  ∙ k.verified target
                      (verified-now w settings predecessor target s1.trace receipt e v))))
            (λ x _. (h2, λ e. cc))))
