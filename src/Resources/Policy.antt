-- ===== src/Resources/Policy.antt =====
-- resource_guardian.py: the observations on which a guardian reaps or retains, and its evidence.
use agent_session_harness.Prelude.{
  ◌≤◌, ◌≡◌, ◌↔◌, refl, Bool, true, false, not, ◌&&◌, ◌||◌, Option, List, [], ◌∷◌, ◌++◌, arith, ap,
  sym, subst, length, length-append, is_none,
}
use agent_session_harness.Resources.State.{
  GuardianDecision, retain, reap, GuardianObservation, GuardianEvidence, is_running, is_terminal,
  is_mismatch, is_live, is_active, is_expired, is_ownerless, is_deleted, ProcessState, LeaseState,
  is_unknown_process,
}
use agent_session_harness.Resources.Decision.{
  has_identity_state_mismatch, is_inspection_failure, is_ambiguous, decide_guardian_action,
  state_evidence, decision, found, reason_code_of,
}

-- The observation was complete, and says the same of the resource wherever it speaks of it.
abbrev pub IsTrusted : GuardianObservation → Type 0
IsTrusted o =
    (is_inspection_failure o.evidence ≡ false)
    × (is_ambiguous o ≡ false)
    × (has_identity_state_mismatch o ≡ false)

-- Nothing that the observation says speaks for the resource being in use.
abbrev pub IsAbandoned : GuardianObservation → Type 0
IsAbandoned o =
    (is_running o.process_state ≡ false)
    × (is_live o.managed_owner_state ≡ false)
    × (is_active o.lease_state ≡ false)

-- What a reap stands on: a process that is gone, another process in its place after its lease
-- ended, or a worktree that is gone with its owner.
abbrev pub is_released : GuardianObservation → Bool
is_released o =
    not (is_none o.resource.process_identity)
      && is_terminal o.process_state
      && not (is_mismatch o.process_identity_state)
    || is_mismatch o.process_identity_state && is_expired o.lease_state
    || is_deleted o.worktree_state
      && is_ownerless o.managed_owner_state
      && not (is_mismatch o.process_identity_state)

terminal-running : (p : Option ProcessState) → is_terminal p ≡ true → is_running p ≡ false
unfolding is_terminal is_running
terminal-running p h = ground arith

absent-running : (p : Option ProcessState) → is_none p ≡ true → is_running p ≡ false
unfolding is_running
absent-running p h = ground arith

expired-active : (l : LeaseState) → is_expired l ≡ true → is_active l ≡ false
unfolding is_expired is_active
expired-active l h = ground arith

without-process :
    (o : GuardianObservation)
    → has_identity_state_mismatch o ≡ false
    → is_none o.resource.process_identity ≡ true
    → is_none o.process_state ≡ true
unfolding has_identity_state_mismatch
without-process o h k = ground arith

present-terminal :
    (o : GuardianObservation)
    → is_ambiguous o ≡ false
    → has_identity_state_mismatch o ≡ false
    → is_running o.process_state ≡ false
    → is_none o.resource.process_identity ≡ false
    → is_terminal o.process_state ≡ true
unfolding is_ambiguous has_identity_state_mismatch is_running is_terminal is_unknown_process
present-terminal o a m r p = ground arith

-- The guardian reaps a resource exactly when the observation can be trusted, nothing in it speaks
-- for the resource being in use, and one of three things releases it: a process that is gone,
-- another process in its place after its lease ended, or a worktree that is gone with its owner.
pub reap_iff :
    (o : GuardianObservation)
    → ((decide_guardian_action o).action ≡ reap)
      ↔ (IsTrusted o × IsAbandoned o × (is_released o ≡ true))
unfolding decide_guardian_action
reap_iff o = (
  λ h. ground (
    arith,
    terminal-running o.process_state,
    absent-running o.process_state,
    expired-active o.lease_state,
    without-process o,
  ),
  λ h. ground (arith, present-terminal o, expired-active o.lease_state),
)

-- The guardian retains a resource exactly when the observation can be trusted and shows its owner
-- alive.
retain_iff :
    (o : GuardianObservation)
    → ((decide_guardian_action o).action ≡ retain)
      ↔ (IsTrusted o × (is_live o.managed_owner_state ≡ true))
unfolding decide_guardian_action
retain_iff o = (λ h. ground arith, λ h. ground arith)

decide-decision :
    (o : GuardianObservation)
    → decide_guardian_action o
      ≡ decision o (decide_guardian_action o).action (decide_guardian_action o).reason_code
unfolding decide_guardian_action
decide-decision o = ground arith

append-bound :
    (xs ys : List GuardianEvidence) → length xs ≤ 26 → length ys ≡ 6 → length (xs ++ ys) ≤ 32
append-bound xs ys h k = omega (arith, length-append xs ys)

-- A decision keeps all the evidence of its observation, adds the five observed states and its own
-- reason, and so stays within the 32 entries of its schema when the observation has at most 26.
decide-evidence :
    (o : GuardianObservation)
    → length o.evidence ≤ 26
    → ((decide_guardian_action o).evidence
        ≡ o.evidence
          ++ (state_evidence o
              ++ found "guardian-policy" (reason_code_of (decide_guardian_action o).reason_code)
                ∷ []))
      × (length (decide_guardian_action o).evidence ≤ 32)
decide-evidence o h =
    let e = ap (λ (d : GuardianDecision). d.evidence) (decide-decision o) in
    (
      e,
      subst (λ es. length es ≤ 32) (sym e)
          (append-bound o.evidence
            (state_evidence o
              ++ found "guardian-policy" (reason_code_of (decide_guardian_action o).reason_code)
                ∷ [])
            h refl),
    )
