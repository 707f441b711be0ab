-- ===== src/Finalization.antt =====
-- finalization.py: the progress of one session's finalization, kept across runtimes.
pub mod Progress
pub mod Begin
use agent_session_harness.Prelude.{
  ℕ, ◌≡◌, String, Bool, true, false, not, ◌&&◌, ◌||◌, List, [], ◌∷◌, Option, none, some,
  if◌then◌else◌, same, string_eq, leb, text_length, is_within, strip, is_none, Except, returned,
  thrown,
}

pub data FinalizationPhase : Type 0 where
  active blocked finalized : FinalizationPhase

pub record FinalizationRecord : Type 0 where
  pub session_id : String
  pub summary : String
  pub phase : FinalizationPhase
  pub pending_block : Option String
  pub block_dispatch_id : Option String
  pub retro_submitted : Bool
  pub summary_surfaced : Bool

pub data FinalizationError : Type 0 where
  invalid not_found file_too_large other_request after_finalization : FinalizationError
  pending_block_left incomplete : FinalizationError

unfoldable pub is_blocked : FinalizationPhase → Bool
is_blocked blocked = true
is_blocked _ = false

unfoldable pub is_finalized : FinalizationPhase → Bool
is_finalized finalized = true
is_finalized _ = false

unfoldable pub is_both_or_none : Option String → Option String → Bool
is_both_or_none none none = true
is_both_or_none (some block) (some dispatch) = true
is_both_or_none _ _ = false

-- `require_consistent_block`
unfoldable pub is_consistent : FinalizationRecord → Bool
unfolding is_both_or_none is_blocked
is_consistent r =
    is_both_or_none r.pending_block r.block_dispatch_id
    && not (is_blocked r.phase && is_none r.pending_block)

unfoldable pub is_optional_within : ℕ → Option String → Bool
is_optional_within limit none = true
is_optional_within limit (some text) = is_within limit text

unfoldable pub is_dispatch : Option String → Bool
is_dispatch none = true
is_dispatch (some text) = leb (text_length text) 160

-- `FinalizationRecord.model_validate`
unfoldable pub is_record : FinalizationRecord → Bool
unfolding is_consistent is_optional_within is_dispatch
is_record r =
    is_within 160 r.session_id
    && is_within 20000 r.summary
    && is_optional_within 20000 r.pending_block
    && is_dispatch r.block_dispatch_id
    && is_consistent r

abbrev pub FinalizationFile : Type 0
FinalizationFile = Option FinalizationRecord

abbrev pub max_bytes : ℕ
max_bytes = 65536

abbrev pub Outcome : Type 0
Outcome = Except FinalizationError FinalizationRecord

-- `bytes` is the size of a record's canonical text.
module _ (bytes : FinalizationRecord → ℕ) where
  unfoldable pub load : FinalizationFile → Outcome
  unfolding is_record
  load none = thrown not_found
  load (some r) =
      if not (leb (bytes r) max_bytes)
      then thrown file_too_large
      else if is_record r
      then returned r
      else thrown invalid

  -- What `begin` does with the record that is there.
  unfoldable pub resume : String → String → Outcome → Outcome
  resume session_id summary (thrown e) = thrown e
  resume session_id summary (returned current) =
      if not (same current.session_id session_id) || not (same current.summary summary)
      then thrown other_request
      else returned current

  unfoldable pub candidate : String → String → FinalizationRecord
  candidate session_id summary = record {
    session_id = session_id;
    summary = strip summary;
    phase = active;
    pending_block = none;
    block_dispatch_id = none;
    retro_submitted = false;
    summary_surfaced = false;
  }

  unfoldable pub begin_with : FinalizationRecord → FinalizationFile → Outcome × FinalizationFile
  unfolding load resume
  begin_with new none = (returned new, some new)
  begin_with new (some r) = (resume new.session_id new.summary (load (some r)), some r)

  unfoldable pub begin : String → String → FinalizationFile → Outcome × FinalizationFile
  unfolding candidate is_record begin_with
  begin session_id summary file =
      if not (is_record (candidate session_id summary))
      then (thrown invalid, file)
      else begin_with (candidate session_id summary) file

  -- The changes are validated and written.
  unfoldable pub store : Outcome → FinalizationFile → Outcome × FinalizationFile
  unfolding is_record
  store (thrown e) file = (thrown e, file)
  store (returned updated) file =
      if is_record updated then (returned updated, some updated) else (thrown invalid, file)

  unfoldable pub apply : (FinalizationRecord → Outcome) → Outcome → Outcome
  apply change (thrown e) = thrown e
  apply change (returned current) = change current

  -- `_transition`
  unfoldable pub transition :
      (FinalizationRecord → Outcome) → FinalizationFile → Outcome × FinalizationFile
  unfolding load apply store
  transition change file = store (apply change (load file)) file

  unfoldable pub blocked_with : String → String → FinalizationRecord → Outcome
  unfolding is_finalized
  blocked_with dispatch_id message current =
      if is_finalized current.phase
      then thrown after_finalization
      else returned (record current {
        phase = blocked;
        pending_block = some (strip message);
        block_dispatch_id = some dispatch_id;
      })

  unfoldable pub record_block : String → String → FinalizationFile → Outcome × FinalizationFile
  unfolding blocked_with transition
  record_block dispatch_id message = transition (blocked_with dispatch_id message)

  unfoldable pub is_dispatched : String → Option String → Bool
  is_dispatched dispatch_id none = false
  is_dispatched dispatch_id (some current) = same current dispatch_id

  unfoldable pub unblocked : String → FinalizationRecord → Outcome
  unfolding is_dispatched
  unblocked dispatch_id current =
      if is_dispatched dispatch_id current.block_dispatch_id
      then returned
          (record current { phase = active; pending_block = none; block_dispatch_id = none })
      else returned current

  unfoldable pub acknowledge_block : String → FinalizationFile → Outcome × FinalizationFile
  unfolding unblocked transition
  acknowledge_block dispatch_id = transition (unblocked dispatch_id)

  unfoldable pub mark_retro_submitted : FinalizationFile → Outcome × FinalizationFile
  unfolding transition
  mark_retro_submitted = transition (λ r. returned (record r { retro_submitted = true }))

  unfoldable pub mark_summary_surfaced : FinalizationFile → Outcome × FinalizationFile
  unfolding transition
  mark_summary_surfaced = transition (λ r. returned (record r { summary_surfaced = true }))

  unfoldable pub finished : FinalizationRecord → Outcome
  finished current =
      if not (is_none current.pending_block)
      then thrown pending_block_left
      else if not current.retro_submitted || not current.summary_surfaced
      then thrown incomplete
      else returned (record current { phase = finalized })

  unfoldable pub finalize : FinalizationFile → Outcome × FinalizationFile
  unfolding finished transition
  finalize = transition finished
