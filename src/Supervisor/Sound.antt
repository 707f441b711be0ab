-- ===== src/Supervisor/Sound.antt =====
-- The invariant of a supervisor under the single statements.
use mathlib.Core.Path.{ap₂}
use agent_session_harness.Prelude.{
  Option, ◌∙◌, ℕ, ◌+◌, ◌≡◌, ◌≢◌, refl, Bool, true, false, ◌&&◌, ◌∷◌, any, arith,
}
use agent_session_harness.Supervisor.State.{
  Phase, checkpointed, stopping, stopped, fencing, fenced, claiming, Snapshot, Supervisor,
  ManagedProcess, Call, Trace, persist, make_checkpoint, claim_task,
}
use agent_session_harness.Supervisor.World.{World}
use agent_session_harness.Supervisor.Exec.{Error, diverged, save}
use agent_session_harness.Supervisor.Post.{Runs, noted, saved, Runs-save}
use agent_session_harness.Supervisor.Journal.{
  checkpoint_verified, stop_done, fence_done, claim_granted, handed_over, staged, accounted,
  allowed, IsSound,
}

any-grow : (p : Call → Bool) (c : Call) (t : Trace) → any p t ≡ true → any p (c ∷ t) ≡ true
any-grow p c t h = ground arith

module _ (w : World) where
  pub verified-grow :
      (target : ℕ) (c : Call) (t : Trace)
      → checkpoint_verified w target t ≡ true
      → checkpoint_verified w target (c ∷ t) ≡ true
  verified-grow target (make_checkpoint p n) t h = ground arith
  verified-grow target _ t h = h

  granted-grow :
      (target : ℕ) (c : Call) (t : Trace)
      → claim_granted w target t ≡ true
      → claim_granted w target (c ∷ t) ≡ true
  granted-grow target (claim_task n) t h = ground arith
  granted-grow target _ t h = h

  pub handed-grow :
      (g : ℕ) (c : Call) (t : Trace) → handed_over w g t ≡ true → handed_over w g (c ∷ t) ≡ true
  handed-grow g c t h = ground (
    arith,
    verified-grow g c t,
    any-grow (stop_done g) c t,
    any-grow (fence_done g) c t,
    granted-grow g c t,
  )

  staged-grow :
      (p : Phase) (g : ℕ) (c : Call) (t : Trace)
      → staged w p g t ≡ true
      → staged w p g (c ∷ t) ≡ true
  staged-grow checkpointed g c t h = verified-grow g c t h
  staged-grow stopping g c t h = verified-grow g c t h
  staged-grow stopped g c t h = ground (arith, verified-grow g c t, any-grow (stop_done g) c t)
  staged-grow fencing g c t h = ground (arith, verified-grow g c t, any-grow (stop_done g) c t)
  staged-grow fenced g c t h =
      ground (arith, verified-grow g c t, any-grow (stop_done g) c t, any-grow (fence_done g) c t)
  staged-grow claiming g c t h =
      ground (arith, verified-grow g c t, any-grow (stop_done g) c t, any-grow (fence_done g) c t)
  staged-grow _ g c t h = refl

  pub accounted-grow :
      (s : Snapshot) (c : Call) (t : Trace) → accounted w s t ≡ true → accounted w s (c ∷ t) ≡ true
  accounted-grow s c t h =
      ground (arith, handed-grow s.generation c t, staged-grow s.phase (s.generation + 1) c t)

  -- One more call, which its past allows.
  pub Sound-noted :
      (c : Call) (s : Supervisor) → IsSound w s → allowed w c s.trace ≡ true → IsSound w (noted c s)
  Sound-noted c s h a = record {
    ordered = both (allowed w c s.trace) a h.ordered;
    memory = accounted-grow s.snapshot c s.trace h.memory;
    disk = accounted-grow s.disk c s.trace h.disk;
  }
    where
      both : {b : Bool} (a : Bool) → a ≡ true → b ≡ true → (a && b) ≡ true
      both a h k = ground arith

  pub Sound-saved : (s : Supervisor) → IsSound w s → IsSound w (saved s)
  Sound-saved s h =
      let n = Sound-noted (persist s.snapshot) s h h.memory in
      record { ordered = n.ordered; memory = n.memory; disk = n.memory }

  pub Sound-updated :
      (s : Supervisor) (snapshot : Snapshot)
      → IsSound w s
      → accounted w snapshot s.trace ≡ true
      → IsSound w (record s { snapshot = snapshot })
  Sound-updated s snapshot h a = record { ordered = h.ordered; memory = a; disk = h.disk }

  -- A snapshot in a phase outside the hand-over needs the account of its generation only.
  abbrev pub is_plain : Phase → Bool
  is_plain checkpointed = false
  is_plain stopping = false
  is_plain stopped = false
  is_plain fencing = false
  is_plain fenced = false
  is_plain claiming = false
  is_plain _ = true

  pub accounted-plain :
      (s r : Snapshot) (t : Trace)
      → is_plain r.phase ≡ true
      → r.generation ≡ s.generation
      → accounted w s t ≡ true
      → accounted w r t ≡ true
  accounted-plain s r t p e h = ground arith

  -- What every exception leaves.
  abbrev pub Fails : Error → Supervisor → Type 0
  Fails e t = IsSound w t × (e ≢ diverged)

  pub Sound-current :
      (s : Supervisor) (p : Option ManagedProcess)
      → IsSound w s
      → IsSound w (record s { current_process = p })
  Sound-current s p h = record { ordered = h.ordered; memory = h.memory; disk = h.disk }

  pub Sound-abort :
      (s : Supervisor) (b : Bool)
      → IsSound w s
      → IsSound w (record s { successor_abort_pending = b })
  Sound-abort s b h = record { ordered = h.ordered; memory = h.memory; disk = h.disk }

  -- A new snapshot of the same generation, in a phase outside the hand-over.
  pub Sound-plain :
      (s : Supervisor) (r : Snapshot)
      → is_plain r.phase ≡ true
      → r.generation ≡ s.snapshot.generation
      → IsSound w s
      → IsSound w (record s { snapshot = r })
  Sound-plain s r p e h = Sound-updated s r h (accounted-plain s.snapshot r s.trace p e h.memory)

  -- A new snapshot of the same generation and phase.
  pub Sound-same :
      (s : Supervisor) (r : Snapshot)
      → r.phase ≡ s.snapshot.phase
      → r.generation ≡ s.snapshot.generation
      → IsSound w s
      → IsSound w (record s { snapshot = r })
  Sound-same s r p e h = Sound-updated s r h (
      ap₂ (λ (q : Phase) (g : ℕ). handed_over w g s.trace && staged w q (g + 1) s.trace) p e
      ∙ h.memory)

  pub save-Sound : (s : Supervisor) → IsSound w s → Runs (λ _ t. IsSound w t) Fails save s
  save-Sound s h = Runs-save _ _ s (Sound-saved s h)
