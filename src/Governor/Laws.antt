-- ===== src/Governor/Laws.antt =====
-- What one evaluation of the governor does.
use agent_session_harness.Prelude.{
  ℕ, ◌≤◌, ◌<◌, ◌≡◌, ◌≢◌, ◌↔◌, ◌⊎◌, Bool, true, not, ◌||◌, Option, none, some, arith,
}
use agent_session_harness.Models.{confident, Quiescence}
use agent_session_harness.Governor.{
  GovernorConfig, GovernorSnapshot, GovernorState, running, warning, draining, checkpointing,
  fenced, launching, awaiting_ack, succeeded, evaluate, hundred_percent, validate_config,
}

-- A configuration is accepted exactly when the three bounds of its fields hold and the warning
-- threshold lies below the rotation threshold; then it has the given values.
validate_config_iff :
    (warn rotate stale : ℕ)
    → (validate_config warn rotate stale
        ≡ some
            (record { warn_percent = warn; rotate_percent = rotate; stale_event_timeout = stale }))
      ↔ ((0 < warn) × (warn < rotate) × (rotate ≤ hundred_percent) × (0 < stale))
unfolding validate_config
validate_config_iff warn rotate stale = (λ h. ground arith, λ h. ground arith)

-- Rotation may be started or continued.
abbrev pub is_capable : GovernorSnapshot → Bool
is_capable s = not (s.observe_only || not s.required_capabilities_known)

-- A measured percentage at or above a threshold, and one below it.
abbrev pub Reaches : ℕ → Option ℕ → Type 0
Reaches threshold none = ⊥
Reaches threshold (some p) = threshold ≤ p

abbrev pub FallsBelow : ℕ → Option ℕ → Type 0
FallsBelow threshold none = ⊥
FallsBelow threshold (some p) = p < threshold

-- The edges of the rotation, each with what the snapshot must show.
pub data Edge (c : GovernorConfig) (s : GovernorSnapshot)
    : GovernorState → GovernorState → Type 0 where
  stays : {a : GovernorState} → Edge c s a a
  warn :
      Reaches c.warn_percent s.context_percent ⊎ Reaches c.rotate_percent s.context_percent
      → s.context_confidence ≡ confident
      → Edge c s running warning
  calm :
      FallsBelow c.warn_percent s.context_percent
      → s.context_confidence ≡ confident
      → Edge c s warning running
  drain :
      {a : GovernorState}
      → (a ≡ running) ⊎ (a ≡ warning)
      → Reaches c.rotate_percent s.context_percent
      → s.context_confidence ≡ confident
      → is_capable s ≡ true
      → Edge c s a draining
  cancel :
      {a : GovernorState}
      → (a ≡ draining) ⊎ (a ≡ checkpointing)
      → s.operator_command ≢ none
      → Edge c s a running
  checkpoint :
      is_capable s ≡ true → s.quiescence ≡ Quiescence.idle → Edge c s draining checkpointing
  fence :
      is_capable s ≡ true
      → s.checkpoint_result ≡ succeeded
      → s.fence_result ≡ succeeded
      → Edge c s checkpointing fenced
  launch : Edge c s fenced launching
  await : s.launch_result ≡ succeeded → Edge c s launching awaiting_ack
  resume :
      s.acknowledgement_result ≡ succeeded
      → s.claim_result ≡ succeeded
      → Edge c s awaiting_ack running

-- Every evaluation stays where it is or follows an edge of the rotation whose guard the snapshot
-- meets; it reports the snapshot's state as the previous one.
pub evaluate-Edge :
    (c : GovernorConfig) (s : GovernorSnapshot)
    → Edge c s s.state (evaluate c s).next_state × ((evaluate c s).previous_state ≡ s.state)
unfolding evaluate
evaluate-Edge c s =
    grind (arith, stays, warn, calm, drain, cancel, checkpoint, fence, launch, await, resume)

-- Ownership is declared fenced exactly from the checkpointing state, with no cancellation, the
-- capabilities known, rotation enabled, and both the checkpoint and the fence succeeded.
evaluate-fenced_iff :
    (c : GovernorConfig) (s : GovernorSnapshot)
    → ((evaluate c s).next_state ≡ fenced) ↔ (
        (s.state ≡ checkpointing)
        × (s.operator_command ≡ none)
        × (is_capable s ≡ true)
        × (s.checkpoint_result ≡ succeeded)
        × (s.fence_result ≡ succeeded))
unfolding evaluate
evaluate-fenced_iff c s = (λ h. ground arith, λ h. ground arith)

-- A blocked evaluation never advances a rotation: the state stays, or a running governor shows
-- the warning.
evaluate-blocked :
    (c : GovernorConfig) (s : GovernorSnapshot)
    → (evaluate c s).blocked ≡ true
    → ((evaluate c s).next_state ≡ s.state)
      ⊎ ((s.state ≡ running) × ((evaluate c s).next_state ≡ warning))
unfolding evaluate
evaluate-blocked c s h = ground arith
