-- ===== src/Examples/Policy.antt =====
-- A resource whose worktree and owner are gone, and one whose owner lives.
use agent_session_harness.Prelude.{◌≡◌, ◌↔◌, true, none, some, [], ◌∷◌}
use agent_session_harness.Resources.State.{
  GuardianObservation, GuardianEvidence, ManagedResource, ProcessIdentityState, WorktreeState,
  ManagedOwnerState, LeaseState, reap,
}
use agent_session_harness.Resources.Decision.{decide_guardian_action}
use agent_session_harness.Resources.Policy.{IsTrusted, IsAbandoned, is_released, reap_iff}

abbrev worktree : ManagedResource
worktree = record {
  kind = "worktree";
  resource_key = "w1";
  process_identity = none;
  worktree_identity = some "/tmp/w1";
  owner_lease = none;
  cleanup_adapter = "git";
}

abbrev inspected : GuardianEvidence
inspected = record { source = "adapter"; code = "inspected"; detail = none }

abbrev deserted : GuardianObservation
deserted = record {
  resource = worktree;
  process_state = none;
  process_identity_state = ProcessIdentityState.not_applicable;
  worktree_state = WorktreeState.deleted;
  managed_owner_state = ManagedOwnerState.missing;
  lease_state = LeaseState.not_applicable;
  evidence = inspected ∷ [];
  observed_at = 7;
}

abbrev owned : GuardianObservation
owned = record deserted { managed_owner_state = ManagedOwnerState.live }

reap_iff_example :
    ((decide_guardian_action deserted).action ≡ reap)
    ↔ (IsTrusted deserted × IsAbandoned deserted × (is_released deserted ≡ true))
reap_iff_example = reap_iff deserted
