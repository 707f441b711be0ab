-- ===== src/Governor/Rotation.antt =====
-- Runs of the governor: each observation is evaluated in the state that the one before it left.
use agent_session_harness.Prelude.{
  ℕ, ◌+◌, ◌≤◌, ◌≡◌, ◌⊎◌, inl, inr, Bool, true, false, List, [], ◌∷◌, length, arith, Every,
}
use agent_session_harness.Governor.{
  GovernorConfig, GovernorSnapshot, GovernorState, running, warning, draining, checkpointing,
  fenced, launching, awaiting_ack, succeeded, evaluate,
}
use agent_session_harness.Governor.Laws.{is_capable}

abbrev pub next : GovernorConfig → GovernorState → GovernorSnapshot → GovernorState
next c a o = (evaluate c (record o { state = a })).next_state

unfoldable pub run : GovernorConfig → GovernorState → List GovernorSnapshot → GovernorState
run c a [] = a
run c a (o ∷ os) = run c (next c a o) os

-- How far a rotation has come.
abbrev pub progress : GovernorState → ℕ
progress running = 0
progress warning = 0
progress draining = 1
progress checkpointing = 2
progress fenced = 3
progress launching = 4
progress awaiting_ack = 5

progress-next :
    (c : GovernorConfig) (a : GovernorState) (o : GovernorSnapshot)
    → progress (next c a o) ≤ progress a + 1
unfolding evaluate
progress-next c a o = ground arith

-- No observation skips a stage: n observations take a rotation at most n stages further, so that
-- a successor is awaited no sooner than five observations after a calm state.
pub progress-run :
    (c : GovernorConfig) (a : GovernorState) (os : List GovernorSnapshot)
    → progress (run c a os) ≤ progress a + length os
unfolding run
progress-run c a [] = omega arith
progress-run c a (o ∷ os) = omega (arith, progress-next c a o, progress-run c (next c a o) os)

-- Some observation of a run has the property.
abbrev pub Some : (GovernorSnapshot → Type 0) → List GovernorSnapshot → Type 0
Some P [] = ⊥
Some P (o ∷ os) = P o ⊎ Some P os

abbrev pub Fences : GovernorSnapshot → Type 0
Fences o = (o.checkpoint_result ≡ succeeded) × (o.fence_result ≡ succeeded) × (is_capable o ≡ true)

-- The predecessor has lost ownership.
abbrev pub is_handed_over : GovernorState → Bool
is_handed_over fenced = true
is_handed_over launching = true
is_handed_over awaiting_ack = true
is_handed_over _ = false

next_hand_over :
    (c : GovernorConfig) (a : GovernorState) (o : GovernorSnapshot)
    → is_handed_over a ≡ false
    → Fences o ⊎ (is_handed_over (next c a o) ≡ false)
unfolding evaluate
next_hand_over c a o h = ground arith

-- Whatever is observed, a run that begins before the hand-over and ends after it has seen a
-- capable observation in which the required checkpoint and the coordinator fence had succeeded.
pub run_hand_over :
    (c : GovernorConfig) (a : GovernorState) (os : List GovernorSnapshot)
    → is_handed_over a ≡ false
    → is_handed_over (run c a os) ≡ true
    → Some Fences os
unfolding run
run_hand_over c a [] before after = cc
run_hand_over c a (o ∷ os) before after = elim (next_hand_over c a o before) [
  | inl seen ↦ inl seen
  | inr still ↦ inr (run_hand_over c (next c a o) os still after)
]

abbrev pub IsObserving : GovernorState → Type 0
IsObserving a = (a ≡ running) ⊎ (a ≡ warning)

next-IsObserving :
    (c : GovernorConfig) (a : GovernorState) (o : GovernorSnapshot)
    → is_capable o ≡ false
    → IsObserving a
    → IsObserving (next c a o)
unfolding evaluate
next-IsObserving c a o h i = ground arith

-- While every observation is observe-only or lacks a capability, no rotation starts: a governor
-- that is running or warning stays so.
pub run-IsObserving :
    (c : GovernorConfig) (a : GovernorState) (os : List GovernorSnapshot)
    → Every (λ o. is_capable o ≡ false) os
    → IsObserving a
    → IsObserving (run c a os)
unfolding run
run-IsObserving c a [] h i = i
run-IsObserving c a (o ∷ os) h i =
    run-IsObserving c (next c a o) os h.1 (next-IsObserving c a o h.0 i)
