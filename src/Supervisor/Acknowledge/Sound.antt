-- ===== src/Supervisor/Acknowledge/Sound.antt =====
-- supervisor.py: `_acknowledge_unlocked` and the retry of a successor, against the order of a
-- rotation.
use agent_session_harness.Prelude.{ℕ, String, ◌≢◌, refl, Bool, true, false, Option, none, some}
use agent_session_harness.Supervisor.State.{Settings, read_capsule, verify_acknowledgement}
use agent_session_harness.Supervisor.World.{World, Capsule, value, stale_owner, runtime, other}
use agent_session_harness.Supervisor.Exec.{Result, ok, err, fault, diverged}
use agent_session_harness.Supervisor.Post.{Runs-weaken}
use agent_session_harness.Supervisor.Sound.{accounted-plain}
use agent_session_harness.Supervisor.Keeps.{
  Keeps-pure, Keeps-raise, Keeps-fail, Keeps-choose, Keeps-bind, Keeps-then, Keeps-get, Keeps-now,
  Keeps-ask, Keeps-note, Keeps-attempt, Keeps-update, Keeps-save, Keeps,
}
use agent_session_harness.Supervisor.Heartbeat.{heartbeat_if_due}
use agent_session_harness.Supervisor.Heartbeat.Sound.{heartbeat-Runs}
use agent_session_harness.Supervisor.Rotation.{retry_successor, advance_rotation}
use agent_session_harness.Supervisor.Rotation.Retry.{retry_successor-Runs}
use agent_session_harness.Supervisor.Rotation.Order.{advance_rotation-Runs}
use agent_session_harness.Supervisor.Acknowledge.{
  retry_and_advance, check_capsule, verified_capsule, finish_acknowledgement, confirm, accept,
  acknowledge_unlocked,
}

module _ (w : World) (settings : Settings) where
  pub heartbeat-Keeps : (force : Bool) → Keeps w (heartbeat_if_due w settings force)
  heartbeat-Keeps force = record {
    runs = λ s h.
        Runs-weaken _ _ _ _ _ s (λ _ _ b. b.sound) (λ _ _ e. e)
          (heartbeat-Runs w settings force s h);
  }

  pub rotation-Keeps : Keeps w (advance_rotation w settings)
  rotation-Keeps = record { runs = λ s h. advance_rotation-Runs w settings s h }

  retry-Keeps : Keeps w (retry_successor w settings)
  retry-Keeps = record {
    runs = λ s h.
        Runs-weaken _ _ _ _ _ s (λ _ _ r. r.0) (λ _ _ e. e) (retry_successor-Runs w settings s h);
  }

  pub retry_and_advance-Keeps : Keeps w (retry_and_advance w settings)
  unfolding retry_and_advance
  retry_and_advance-Keeps = Keeps-then w _ _ retry-Keeps rotation-Keeps

  check-Keeps :
      (g : ℕ) (f : String) (r : Result Capsule)
      → r ≢ err diverged
      → Keeps w (check_capsule w settings g f r)
  unfolding check_capsule
  check-Keeps g f (ok capsule) d =
      Keeps-choose w _ _ _
        (Keeps-choose w _ _ _ (Keeps-choose w _ _ _ (Keeps-pure w capsule) (Keeps-raise w value))
          (Keeps-raise w value))
        (Keeps-raise w value)
  check-Keeps g f (err (fault runtime)) d = Keeps-raise w value
  check-Keeps g f (err (fault stale_owner)) d = Keeps-fail w _ (λ e. cc)
  check-Keeps g f (err (fault value)) d = Keeps-fail w _ (λ e. cc)
  check-Keeps g f (err (fault other)) d = Keeps-fail w _ (λ e. cc)
  check-Keeps g f (err diverged) d = absurd (d refl)

  capsule-Keeps : (g : ℕ) (path f : Option String) → Keeps w (verified_capsule w settings g path f)
  unfolding verified_capsule
  capsule-Keeps g (some path) (some f) =
      Keeps-attempt w _ _ (Keeps-ask w (read_capsule path) _ (λ t. refl)) (check-Keeps g f)
  capsule-Keeps g none (some f) = Keeps-raise w value
  capsule-Keeps g none none = Keeps-raise w value
  capsule-Keeps g (some path) none = Keeps-raise w value

  finish_ack-Keeps :
      (g : ℕ) (c : String) (r : Result Bool) → Keeps w (finish_acknowledgement w settings g c r)
  unfolding finish_acknowledgement accept
  finish_ack-Keeps g c (ok true) = Keeps-now w _ (λ at.
      Keeps-then w _ _ (Keeps-ask w _ _ (λ t. refl)) (
        Keeps-then w _ _
          (Keeps-update w _ (λ s t h. accounted-plain w s (accept c s) t refl refl h))
          (Keeps-then w _ _ (Keeps-save w) (Keeps-note w _ _ _ (λ t. refl)))))
  finish_ack-Keeps g c (ok false) = retry_and_advance-Keeps
  finish_ack-Keeps g c (err e) = retry_and_advance-Keeps

  confirm-Keeps : (g : ℕ) (f : Option String) (c : String) → Keeps w (confirm w settings g f c)
  unfolding confirm
  confirm-Keeps g f c = Keeps-get w _ (λ s. Keeps-bind w _ _ (capsule-Keeps _ _ f) (λ capsule.
      Keeps-then w _ _ (heartbeat-Keeps true) (
        Keeps-then w _ _ (Keeps-note w _ _ _ (λ t. refl)) (
          Keeps-attempt w _ _ (Keeps-ask w (verify_acknowledgement g) _ (λ t. refl))
            (λ r _. finish_ack-Keeps g c r)))))

  pub acknowledge-Keeps :
      (g : ℕ) (f : Option String) (c : String) (pid : ℕ)
      → Keeps w (acknowledge_unlocked w settings g f c pid)
  unfolding acknowledge_unlocked
  acknowledge-Keeps g f c pid =
      Keeps-get w _ (λ s. Keeps-choose w _ _ _ (confirm-Keeps g f c) (Keeps-raise w value))
