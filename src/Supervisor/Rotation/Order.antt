-- ===== src/Supervisor/Rotation/Order.antt =====
-- supervisor.py: the whole loop of `_advance_rotation`, against the order of a rotation.
use agent_session_harness.Prelude.{ℕ, zero, suc, ◌+◌, ◌<◌, ◌≡◌, ◌≢◌, refl, false, arith}
use agent_session_harness.Supervisor.State.{
  Phase, checkpointing, checkpointed, stopping, stopped, fencing, fenced, claiming, launching,
  Supervisor, Settings,
}
use agent_session_harness.Supervisor.World.{World}
use agent_session_harness.Supervisor.Exec.{Result, ok, err, diverged}
use agent_session_harness.Supervisor.Post.{Post, Runs, Runs-pure, Runs-choose, Runs-bind, get-bind}
use agent_session_harness.Supervisor.Journal.{IsSound}
use agent_session_harness.Supervisor.Sound.{Fails}
use agent_session_harness.Supervisor.Rotation.{rotation_round, rotate, advance_rotation}
use agent_session_harness.Supervisor.Rotation.Measure.{staged-in, remaining, rounds_left, Round}
use agent_session_harness.Supervisor.Rotation.Checkpoint.{checkpoint_from-Runs}
use agent_session_harness.Supervisor.Rotation.Handover.{
  phase-Runs, stop_predecessor-Runs, fence_predecessor-Runs, claim_successor-Runs,
}
use agent_session_harness.Supervisor.Rotation.Launch.{launch_successor-Runs}

module _ (w : World) (settings : Settings) where
  Round-Runs :
      (p : Phase) (s : Supervisor)
      → IsSound w s
      → s.snapshot.phase ≡ p
      → Runs
          (Round w settings
            (rounds_left settings.successor_retry_limit p s.snapshot.successor_attempt))
          (Fails w)
          (rotation_round w settings p s.snapshot s.current_process)
          s
  unfolding rotation_round
  Round-Runs checkpointing s h e = checkpoint_from-Runs w settings s.snapshot.conversation_id s h
  Round-Runs checkpointed s h e =
      phase-Runs w settings stopping _ s h
        (staged-in w settings checkpointed s.snapshot s.trace e h.memory) (λ a. omega arith)
  Round-Runs stopping s h e = stop_predecessor-Runs w settings s.current_process s h e
  Round-Runs stopped s h e =
      phase-Runs w settings fencing _ s h
        (staged-in w settings stopped s.snapshot s.trace e h.memory) (λ a. omega arith)
  Round-Runs fencing s h e = fence_predecessor-Runs w settings s.snapshot.claim s h e
  Round-Runs fenced s h e =
      phase-Runs w settings claiming _ s h
        (staged-in w settings fenced s.snapshot s.trace e h.memory) (λ a. omega arith)
  Round-Runs claiming s h e = claim_successor-Runs w settings s h e
  Round-Runs launching s h e = launch_successor-Runs w settings s h
  Round-Runs _ s h e = Runs-pure _ _ false s (h, λ c. cc)

  rotate-Runs :
      (fuel : ℕ) (s : Supervisor)
      → IsSound w s
      → remaining w settings s.snapshot < fuel
      → Runs (λ _ t. IsSound w t) (Fails w) (rotate w settings fuel) s
  unfolding rotate
  rotate-Runs zero s h d = absurd (omega arith)
  rotate-Runs (suc fuel) s h d = get-bind _ _ _ s (
      Runs-bind _ _ (Round w settings (remaining w settings s.snapshot)) _ _ s
        (Round-Runs s.snapshot.phase s h refl)
        (λ more t k.
          Runs-choose _ _ more _ _ t (λ m. rotate-Runs fuel t k.0 (nearer (k.1 m) d))
            (λ _. Runs-pure _ _ tt t k.0)))
    where
      nearer : {a b c : ℕ} → a < b → b < suc c → a < c
      nearer p q = omega arith

  bounded : (limit : ℕ) (p : Phase) (attempt : ℕ) → rounds_left limit p attempt < limit + 10
  bounded limit p attempt = ground arith

  -- A whole rotation keeps the invariant.
  pub advance_rotation-Runs :
      (s : Supervisor)
      → IsSound w s
      → Runs (λ _ t. IsSound w t) (Fails w) (advance_rotation w settings) s
  unfolding advance_rotation
  advance_rotation-Runs s h = rotate-Runs (settings.successor_retry_limit + 10) s h (bounded _ _ _)

  -- From a supervisor whose history is in order, a rotation returns or raises an exception of the
  -- program, its loop never runs out of rounds, and the history is in order afterwards: each
  -- predecessor is stopped only once its checkpoint is verified, fenced only once it was seen dead,
  -- a successor is claimed only after the fence, and it starts only after the claim; and what is on
  -- disk and in memory is accounted for.
  pub advance_rotation-IsSound :
      (s : Supervisor)
      → IsSound w s
      → IsSound w (advance_rotation w settings s).1
        × ((advance_rotation w settings s).0 ≢ err diverged)
  advance_rotation-IsSound s h = outcome _ (advance_rotation-Runs s h).holds
    where
      outcome :
          (r : Result (Unit {0}) × Supervisor)
          → Post (λ _ t. IsSound w t) (Fails w) r
          → IsSound w r.1 × (r.0 ≢ err diverged)
      outcome (ok u, t) k = (k, λ q. cc)
      outcome (err e, t) k = (k.0, λ q. k.1 cc)
