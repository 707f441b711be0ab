-- ===== src/Supervisor/Usage/Thresholds.antt =====
-- supervisor.py: when `_apply_usage_thresholds` starts a drain.
use agent_session_harness.Prelude.{
  ℕ, ◌≡◌, refl, Bool, true, false, not, ◌&&◌, ◌||◌, Option, none, some, arith, leb, ltb,
}
use agent_session_harness.Supervisor.State.{
  Phase, draining, Settings, Snapshot, Supervisor, CompactionFields,
}
use agent_session_harness.Supervisor.World.{World}
use agent_session_harness.Supervisor.Exec.{Result, ok, err}
use agent_session_harness.Supervisor.Post.{
  Runs, Post, Runs-pure, Runs-choose, Runs-bind, Runs-update, update-then, now-bind, get-bind,
}
use agent_session_harness.Supervisor.Usage.{
  is_running, is_before_drain, clear_pending, wait_for_compaction, settle_compaction, warn_if_due,
  drain_if_due, apply_usage_thresholds,
}

abbrev pub is_draining_now : Phase → Bool
is_draining_now draining = true
is_draining_now _ = false

-- A self-compaction was announced, and its grace has not ended.
abbrev pub is_in_grace : CompactionFields → ℕ → Bool
is_in_grace c at = c.self_compaction_pending && is_before c.self_compaction_pending_until
  where
    is_before : Option ℕ → Bool
    is_before none = false
    is_before (some pending_until) = ltb at pending_until

module _ (w : World) (settings : Settings) where
  cross-drains :
      (percent : ℕ) (s : Snapshot)
      → is_draining_now (drain_if_due w settings percent (warn_if_due w settings percent s)).phase
        ≡ (is_draining_now s.phase
            || is_before_drain s.phase && leb settings.rotate_percent percent)
  unfolding drain_if_due warn_if_due is_running is_before_drain
  cross-drains percent s = ground arith

  -- Whether the second half of the thresholds is reached.
  is_reached : ℕ → ℕ → CompactionFields → Bool
  is_reached percent at c =
      not (c.self_compaction_pending && ltb percent settings.rotate_percent || is_in_grace c at)

  -- What the first half leaves.
  abbrev Settled : ℕ → Supervisor → Bool → Supervisor → Type 0
  Settled percent s b t =
      (t.snapshot.phase ≡ s.snapshot.phase)
      × (b ≡ is_reached percent (w.clock s.trace) s.snapshot.compaction)

  wait-Runs :
      (percent : ℕ) (until : Option ℕ) (s : Supervisor)
      → s.snapshot.compaction.self_compaction_pending ≡ true
      → s.snapshot.compaction.self_compaction_pending_until ≡ until
      → ltb percent settings.rotate_percent ≡ false
      → Runs (Settled percent s) (λ _ _. ⊥) (wait_for_compaction w settings until) s
  unfolding wait_for_compaction is_reached clear_pending
  wait-Runs percent none s p u b =
      update-then _ _ clear_pending _ s (Runs-pure _ _ true _ (refl, ground arith))
  wait-Runs percent (some until) s p u b = now-bind _ _ w _ s (
      Runs-choose _ _ _ _ _ _ (λ e. Runs-pure _ _ false _ (refl, ground arith))
        (λ e. update-then _ _ clear_pending _ _ (Runs-pure _ _ true _ (refl, ground arith))))

  settle-Runs :
      (percent : ℕ) (s : Supervisor)
      → Runs
          (Settled percent s)
          (λ _ _. ⊥)
          (settle_compaction w settings percent s.snapshot.compaction)
          s
  unfolding settle_compaction is_reached clear_pending
  settle-Runs percent s =
      Runs-choose _ _ _ _ _ s (λ n. Runs-pure _ _ true s (refl, ground arith))
        (λ p.
          Runs-choose _ _ _ _ _ s
            (λ b. update-then _ _ clear_pending _ s (Runs-pure _ _ false _ (refl, ground arith)))
            (λ b.
              wait-Runs percent s.snapshot.compaction.self_compaction_pending_until s (ground arith)
                refl b))

  -- The phase that a sample leaves.
  abbrev pub DrainsBy : ℕ → Supervisor → Supervisor → Type 0
  DrainsBy percent s t = is_draining_now t.snapshot.phase ≡ (
      is_draining_now s.snapshot.phase
      || is_before_drain s.snapshot.phase
        && leb settings.rotate_percent percent
        && not (is_in_grace s.snapshot.compaction (w.clock s.trace)))

  pub thresholds-Runs :
      (percent : ℕ) (s : Supervisor)
      → Runs (λ _ t. DrainsBy percent s t) (λ _ _. ⊥) (apply_usage_thresholds w settings percent) s
  unfolding apply_usage_thresholds is_reached
  thresholds-Runs percent s = get-bind _ _ _ s (
      Runs-bind _ _ (Settled percent s) _ _ s (settle-Runs percent s) (λ b t k.
        Runs-choose _ _ b _ _ t (λ e. Runs-update _ _ _ t (moves percent s t (k.1) e k.0))
          (λ e. Runs-pure _ _ tt t (stays percent s t k.1 e k.0))))
    where
      moves :
          {b : Bool} (percent : ℕ) (s t : Supervisor)
          → b ≡ is_reached percent (w.clock s.trace) s.snapshot.compaction
          → b ≡ true
          → t.snapshot.phase ≡ s.snapshot.phase
          → is_draining_now
              (drain_if_due w settings percent (warn_if_due w settings percent t.snapshot)).phase
            ≡ (is_draining_now s.snapshot.phase
                || is_before_drain s.snapshot.phase
                  && leb settings.rotate_percent percent
                  && not (is_in_grace s.snapshot.compaction (w.clock s.trace)))
      moves percent s t r e p = ground (arith, cross-drains percent t.snapshot)

      stays :
          {b : Bool} (percent : ℕ) (s t : Supervisor)
          → b ≡ is_reached percent (w.clock s.trace) s.snapshot.compaction
          → b ≡ false
          → t.snapshot.phase ≡ s.snapshot.phase
          → DrainsBy percent s t
      stays percent s t r e p = ground arith

  -- `_apply_usage_thresholds` returns, and leaves a supervisor draining exactly when it was before, or
  -- when it was running or warning, the percentage has reached the rotation threshold, and no
  -- self-compaction is in its grace.
  apply_usage_thresholds-draining :
      (percent : ℕ) (s : Supervisor)
      → ((apply_usage_thresholds w settings percent s).0 ≡ ok tt)
        × DrainsBy percent s (apply_usage_thresholds w settings percent s).1
  apply_usage_thresholds-draining percent s = outcome percent s _ (thresholds-Runs percent s).holds
    where
      outcome :
          (percent : ℕ) (s : Supervisor) (r : Result (Unit {0}) × Supervisor)
          → Post (λ _ t. DrainsBy percent s t) (λ _ _. ⊥) r
          → (r.0 ≡ ok tt) × DrainsBy percent s r.1
      outcome percent s (ok u, t) k = (refl, k)
      outcome percent s (err e, t) k = absurd k
