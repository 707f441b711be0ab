-- ===== src/Supervisor/Journal.antt =====
-- The order of a rotation, as conditions on the trace that can be evaluated. A successor is named
-- by its generation, its predecessor by the one before.
use agent_session_harness.Prelude.{
  ℕ, ◌+◌, ◌≡◌, Bool, true, false, not, ◌&&◌, ◌||◌, [], ◌∷◌, any, ◌==◌,
}
use agent_session_harness.Supervisor.State.{
  Phase, checkpointed, stopping, stopped, fencing, fenced, claiming, Snapshot, Supervisor, Call,
  Trace, effect, persist, started, finished, stop_effect, fence_effect, claim_task, fence_claim,
  probe_alive, start_process, make_checkpoint, read_clock, ClaimHandle,
}
use agent_session_harness.Supervisor.World.{World, Answer, answered, raised, Receipt}

abbrev pub stop_done : ℕ → Call → Bool
stop_done target (effect stop_effect finished n) = n + 1 == target
stop_done target _ = false

abbrev pub fence_done : ℕ → Call → Bool
fence_done target (effect fence_effect finished n) = n + 1 == target
fence_done target _ = false

abbrev pub is_verified : Answer Receipt → Bool
is_verified (answered r) = r.verified
is_verified (raised f) = false

abbrev pub is_dead : Answer Bool → Bool
is_dead (answered alive) = not alive
is_dead (raised f) = false

abbrev pub is_answered : Answer (Unit {0}) → Bool
is_answered (answered _) = true
is_answered (raised f) = false

abbrev pub is_granted : Answer ClaimHandle → Bool
is_granted (answered c) = true
is_granted (raised f) = false

module _ (w : World) where
  -- The coordinator's answer to a claim, which is made at the time that was read just before.
  abbrev pub granted_now : ℕ → Trace → Bool
  granted_now target (read_clock ∷ t) = is_granted (w.claim (read_clock ∷ t) target (w.clock t))
  granted_now target _ = false

  -- The coordinator has granted the lease of this generation.
  abbrev pub claim_granted : ℕ → Trace → Bool
  claim_granted target [] = false
  claim_granted target (claim_task n ∷ t) = n == target && granted_now n t || claim_granted target t
  claim_granted target (_ ∷ t) = claim_granted target t

  -- The checkpoint manager has returned a verified checkpoint for this successor.
  abbrev pub checkpoint_verified : ℕ → Trace → Bool
  checkpoint_verified target [] = false
  checkpoint_verified target (make_checkpoint predecessor n ∷ t) =
      n == target && is_verified (w.checkpoint t predecessor n) || checkpoint_verified target t
  checkpoint_verified target (_ ∷ t) = checkpoint_verified target t

  -- All that must have happened before a successor of this generation may start.
  abbrev pub handed_over : ℕ → Trace → Bool
  handed_over g t =
      g == 0
      || checkpoint_verified g t && any (stop_done g) t && any (fence_done g) t && claim_granted g t

  -- How far the rotation to `target` has come in each phase.
  abbrev pub staged : Phase → ℕ → Trace → Bool
  staged checkpointed target t = checkpoint_verified target t
  staged stopping target t = checkpoint_verified target t
  staged stopped target t = checkpoint_verified target t && any (stop_done target) t
  staged fencing target t = checkpoint_verified target t && any (stop_done target) t
  staged fenced target t =
      checkpoint_verified target t && any (stop_done target) t && any (fence_done target) t
  staged claiming target t =
      checkpoint_verified target t && any (stop_done target) t && any (fence_done target) t
  staged _ target t = true

  -- The trace accounts for what a snapshot says.
  abbrev pub accounted : Snapshot → Trace → Bool
  accounted s t = handed_over s.generation t && staged s.phase (s.generation + 1) t

  abbrev pub seen_dead : Trace → Bool
  seen_dead (probe_alive p ∷ t) = is_dead (w.is_alive t p)
  seen_dead _ = false

  abbrev pub seen_fenced : Trace → Bool
  seen_fenced (fence_claim c ∷ t) = is_answered (w.fence t c)
  seen_fenced _ = false

  -- What each call demands of the calls before it.
  abbrev pub allowed : Call → Trace → Bool
  allowed (effect stop_effect started g) t = checkpoint_verified (g + 1) t
  allowed (effect stop_effect finished g) t = seen_dead t
  allowed (effect fence_effect started g) t = any (stop_done (g + 1)) t
  allowed (effect fence_effect finished g) t = seen_fenced t
  allowed (claim_task g) t = g == 0 || any (fence_done g) t
  allowed (start_process g) t = handed_over g t
  allowed (persist s) t = accounted s t
  allowed _ t = true

  -- A probe has found the predecessor of this generation dead.
  abbrev pub stop_seen : ℕ → Trace → Bool
  stop_seen target [] = false
  stop_seen target (effect stop_effect finished n ∷ t) =
      n + 1 == target && seen_dead t || stop_seen target t
  stop_seen target (_ ∷ t) = stop_seen target t

  -- The coordinator has granted the fence for the predecessor of this generation.
  abbrev pub fence_granted : ℕ → Trace → Bool
  fence_granted target [] = false
  fence_granted target (effect fence_effect finished n ∷ t) =
      n + 1 == target && seen_fenced t || fence_granted target t
  fence_granted target (_ ∷ t) = fence_granted target t

  abbrev pub is_ordered : Trace → Bool
  is_ordered [] = true
  is_ordered (c ∷ t) = allowed c t && is_ordered t

  -- The invariant of a supervisor: its history is ordered, and accounts both for the snapshot in
  -- memory and for the one on disk.
  pub record IsSound (s : Supervisor) : Type 0 where
    pub ordered : is_ordered s.trace ≡ true
    pub memory : accounted s.snapshot s.trace ≡ true
    pub disk : accounted s.disk s.trace ≡ true
