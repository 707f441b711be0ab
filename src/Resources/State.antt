-- ===== src/Resources/State.antt =====
-- resource_guardian.py, process_identity.py: the states that a guardian observes, and its decisions.
use agent_session_harness.Prelude.{ℕ, String, Bool, true, false, Option, some, List}

pub data GuardianAction : Type 0 where
  retain alert reap : GuardianAction

pub data GuardianReasonCode : Type 0 where
  inspection_failed ambiguous_identity live_managed_owner : GuardianReasonCode
  deleted_worktree_without_live_owner expired_fenced_identity terminal_managed_child :
      GuardianReasonCode
  process_identity_mismatch live_unowned_resource active_owner_lease : GuardianReasonCode
  identity_state_mismatch insufficient_evidence : GuardianReasonCode

pub data ProcessState : Type 0 where
  running zombie missing unknown : ProcessState

pub data WorktreeState : Type 0 where
  not_applicable present deleted unknown : WorktreeState

pub data ManagedOwnerState : Type 0 where
  not_applicable live missing unknown : ManagedOwnerState

pub data LeaseState : Type 0 where
  not_applicable active expired unknown : LeaseState

pub data ProcessIdentityState : Type 0 where
  not_applicable exact missing mismatch unknown : ProcessIdentityState

pub record ProcessIdentity : Type 0 where
  pub platform : String
  pub pid : ℕ
  pub opaque_start_token : String
  pub executable_identity : String
  pub captured_at : ℕ

pub record OwnerLeaseIdentity : Type 0 where
  pub owner_id : String
  pub fencing_token : ℕ
  pub expires_at : ℕ

pub record ManagedResource : Type 0 where
  pub kind : String
  pub resource_key : String
  pub process_identity : Option ProcessIdentity
  pub worktree_identity : Option String
  pub owner_lease : Option OwnerLeaseIdentity
  pub cleanup_adapter : String

pub record GuardianEvidence : Type 0 where
  pub source : String
  pub code : String
  pub detail : Option String

pub record GuardianObservation : Type 0 where
  pub resource : ManagedResource
  pub process_state : Option ProcessState
  pub process_identity_state : ProcessIdentityState
  pub worktree_state : WorktreeState
  pub managed_owner_state : ManagedOwnerState
  pub lease_state : LeaseState
  pub evidence : List GuardianEvidence
  pub observed_at : ℕ

pub record GuardianDecision : Type 0 where
  pub kind : String
  pub resource_key : String
  pub action : GuardianAction
  pub reason_code : GuardianReasonCode
  pub evidence : List GuardianEvidence
  pub observed_at : ℕ

-- The comparisons of the decision, one for each state it asks about.
unfoldable pub is_running : Option ProcessState → Bool
is_running (some ProcessState.running) = true
is_running _ = false

-- `in {ProcessState.MISSING, ProcessState.ZOMBIE}`
unfoldable pub is_terminal : Option ProcessState → Bool
is_terminal (some ProcessState.missing) = true
is_terminal (some ProcessState.zombie) = true
is_terminal _ = false

unfoldable pub is_missing : Option ProcessState → Bool
is_missing (some ProcessState.missing) = true
is_missing _ = false

unfoldable pub is_unknown_process : Option ProcessState → Bool
is_unknown_process (some ProcessState.unknown) = true
is_unknown_process _ = false

unfoldable pub is_exact : ProcessIdentityState → Bool
is_exact ProcessIdentityState.exact = true
is_exact _ = false

unfoldable pub is_mismatch : ProcessIdentityState → Bool
is_mismatch ProcessIdentityState.mismatch = true
is_mismatch _ = false

unfoldable pub is_unidentified : ProcessIdentityState → Bool
is_unidentified ProcessIdentityState.not_applicable = true
is_unidentified _ = false

unfoldable pub is_unknown_identity : ProcessIdentityState → Bool
is_unknown_identity ProcessIdentityState.unknown = true
is_unknown_identity _ = false

unfoldable pub is_deleted : WorktreeState → Bool
is_deleted WorktreeState.deleted = true
is_deleted _ = false

unfoldable pub is_without_worktree : WorktreeState → Bool
is_without_worktree WorktreeState.not_applicable = true
is_without_worktree _ = false

unfoldable pub is_unknown_worktree : WorktreeState → Bool
is_unknown_worktree WorktreeState.unknown = true
is_unknown_worktree _ = false

unfoldable pub is_live : ManagedOwnerState → Bool
is_live ManagedOwnerState.live = true
is_live _ = false

unfoldable pub is_ownerless : ManagedOwnerState → Bool
is_ownerless ManagedOwnerState.missing = true
is_ownerless _ = false

unfoldable pub is_unknown_owner : ManagedOwnerState → Bool
is_unknown_owner ManagedOwnerState.unknown = true
is_unknown_owner _ = false

unfoldable pub is_active : LeaseState → Bool
is_active LeaseState.active = true
is_active _ = false

unfoldable pub is_expired : LeaseState → Bool
is_expired LeaseState.expired = true
is_expired _ = false

unfoldable pub is_without_lease : LeaseState → Bool
is_without_lease LeaseState.not_applicable = true
is_without_lease _ = false

unfoldable pub is_unknown_lease : LeaseState → Bool
is_unknown_lease LeaseState.unknown = true
is_unknown_lease _ = false
