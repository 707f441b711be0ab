-- ===== src/Resources/Decision.antt =====
-- resource_guardian.py: `decide_guardian_action` and what it is composed of.
use agent_session_harness.Prelude.{
  String, Bool, true, false, not, ◌&&◌, ◌||◌, Option, none, some, List, [], ◌∷◌, ◌++◌, any, is_none,
  if◌then◌else◌, str_eq,
}
use agent_session_harness.Resources.State.{
  GuardianAction, GuardianReasonCode, ProcessState, WorktreeState, ManagedOwnerState, LeaseState,
  ProcessIdentityState, GuardianEvidence, GuardianObservation, GuardianDecision, is_running,
  is_terminal, is_missing, is_unknown_process, is_exact, is_mismatch, is_unidentified,
  is_unknown_identity, is_deleted, is_without_worktree, is_unknown_worktree, is_live, is_ownerless,
  is_unknown_owner, is_active, is_expired, is_without_lease, is_unknown_lease, retain, alert, reap,
  inspection_failed, ambiguous_identity, live_managed_owner, deleted_worktree_without_live_owner,
  expired_fenced_identity, terminal_managed_child, process_identity_mismatch, live_unowned_resource,
  active_owner_lease, identity_state_mismatch, insufficient_evidence,
}

-- `!=` on truth values.
abbrev pub differ : Bool → Bool → Bool
differ true b = not b
differ false b = b

-- `_has_identity_state_mismatch`
unfoldable pub has_identity_state_mismatch : GuardianObservation → Bool
has_identity_state_mismatch o =
    not (is_none o.resource.process_identity)
      && (is_none o.process_state || is_unidentified o.process_identity_state)
    || is_missing o.process_state && is_exact o.process_identity_state
    || is_none o.resource.process_identity
      && (not (is_none o.process_state) || not (is_unidentified o.process_identity_state))
    || differ (is_none o.resource.worktree_identity) (is_without_worktree o.worktree_state)
    || differ (is_none o.resource.owner_lease) (is_without_lease o.lease_state)

-- The codes of `_state_evidence`.
unfoldable pub process_code : Option ProcessState → String
process_code none = "process_not_applicable"
process_code (some ProcessState.running) = "process_running"
process_code (some ProcessState.zombie) = "process_zombie"
process_code (some ProcessState.missing) = "process_missing"
process_code (some ProcessState.unknown) = "process_unknown"

unfoldable pub identity_code : ProcessIdentityState → String
identity_code ProcessIdentityState.not_applicable = "process_identity_not_applicable"
identity_code ProcessIdentityState.exact = "process_identity_exact"
identity_code ProcessIdentityState.missing = "process_identity_missing"
identity_code ProcessIdentityState.mismatch = "process_identity_mismatch"
identity_code ProcessIdentityState.unknown = "process_identity_unknown"

unfoldable pub worktree_code : WorktreeState → String
worktree_code WorktreeState.not_applicable = "worktree_not_applicable"
worktree_code WorktreeState.present = "worktree_present"
worktree_code WorktreeState.deleted = "worktree_deleted"
worktree_code WorktreeState.unknown = "worktree_unknown"

unfoldable pub owner_code : ManagedOwnerState → String
owner_code ManagedOwnerState.not_applicable = "managed_owner_not_applicable"
owner_code ManagedOwnerState.live = "managed_owner_live"
owner_code ManagedOwnerState.missing = "managed_owner_missing"
owner_code ManagedOwnerState.unknown = "managed_owner_unknown"

unfoldable pub lease_code : LeaseState → String
lease_code LeaseState.not_applicable = "lease_not_applicable"
lease_code LeaseState.active = "lease_active"
lease_code LeaseState.expired = "lease_expired"
lease_code LeaseState.unknown = "lease_unknown"

unfoldable pub reason_code_of : GuardianReasonCode → String
reason_code_of inspection_failed = "inspection_failed"
reason_code_of ambiguous_identity = "ambiguous_identity"
reason_code_of live_managed_owner = "live_managed_owner"
reason_code_of deleted_worktree_without_live_owner = "deleted_worktree_without_live_owner"
reason_code_of expired_fenced_identity = "expired_fenced_identity"
reason_code_of terminal_managed_child = "terminal_managed_child"
reason_code_of process_identity_mismatch = "process_identity_mismatch"
reason_code_of live_unowned_resource = "live_unowned_resource"
reason_code_of active_owner_lease = "active_owner_lease"
reason_code_of identity_state_mismatch = "identity_state_mismatch"
reason_code_of insufficient_evidence = "insufficient_evidence"

unfoldable pub found : String → String → GuardianEvidence
found source code = record { source = source; code = code; detail = none }

-- `_state_evidence`
abbrev pub state_evidence : GuardianObservation → List GuardianEvidence
state_evidence o =
    found "guardian-observation" (process_code o.process_state)
    ∷ found "guardian-observation" (identity_code o.process_identity_state)
    ∷ found "guardian-observation" (worktree_code o.worktree_state)
    ∷ found "guardian-observation" (owner_code o.managed_owner_state)
    ∷ found "guardian-observation" (lease_code o.lease_state)
    ∷ []

-- `_decision`
abbrev pub decision : GuardianObservation → GuardianAction → GuardianReasonCode → GuardianDecision
decision o action reason = record {
  kind = o.resource.kind;
  resource_key = o.resource.resource_key;
  action = action;
  reason_code = reason;
  evidence =
      o.evidence ++ (state_evidence o ++ found "guardian-policy" (reason_code_of reason) ∷ []);
  observed_at = o.observed_at;
}

unfoldable pub is_inspection_failure : List GuardianEvidence → Bool
is_inspection_failure evidence = any (λ e. str_eq e.code "inspection_failed") evidence

unfoldable pub is_ambiguous : GuardianObservation → Bool
is_ambiguous o =
    is_unknown_process o.process_state
    || is_unknown_identity o.process_identity_state
    || is_unknown_worktree o.worktree_state
    || is_unknown_owner o.managed_owner_state
    || is_unknown_lease o.lease_state

unfoldable pub decide_guardian_action : GuardianObservation → GuardianDecision
decide_guardian_action o =
    if is_inspection_failure o.evidence
    then decision o alert inspection_failed
    else if is_ambiguous o
    then decision o alert ambiguous_identity
    else if has_identity_state_mismatch o
    then decision o alert identity_state_mismatch
    else if is_live o.managed_owner_state
    then decision o retain live_managed_owner
    else if is_running o.process_state && is_exact o.process_identity_state
    then decision o alert live_unowned_resource
    else if is_expired o.lease_state
        && not (is_running o.process_state)
        && is_mismatch o.process_identity_state
    then decision o reap expired_fenced_identity
    else if is_mismatch o.process_identity_state
    then decision o alert process_identity_mismatch
    else if is_active o.lease_state
    then decision o alert active_owner_lease
    else if is_deleted o.worktree_state
        && is_ownerless o.managed_owner_state
        && (is_none o.resource.process_identity || is_terminal o.process_state)
    then decision o reap deleted_worktree_without_live_owner
    else if not (is_none o.resource.process_identity) && is_terminal o.process_state
    then decision o reap terminal_managed_child
    else decision o alert insufficient_evidence
