-- ===== src/Examples/Closing.antt =====
-- A session that is finalized, and one whose summary is too large to be read back.
use agent_session_harness.Prelude.{
  ℕ, ◌≡◌, ◌⊎◌, refl, String, true, false, List, [], ◌∷◌, none, some, Except, returned, thrown,
  strip, string_eq, arith,
}
use agent_session_harness.Finalization.{
  FinalizationRecord, FinalizationError, active, begin, begin_with, candidate, is_record,
  is_consistent, is_both_or_none, is_blocked, is_optional_within, is_dispatch, load, transition,
  other_request, file_too_large,
}
use agent_session_harness.Finalization.Progress.{
  Call, begins, records, acknowledges, submits, surfaces, finalizes, run, AllProper, AllLater,
  run-AllProper,
}
use agent_session_harness.Finalization.Begin.{begin-begin, begin-unreadable}

abbrev small : FinalizationRecord → ℕ
small r = 100

abbrev large : FinalizationRecord → ℕ
large r = 70000

abbrev calls : List Call
calls =
    begins "session" "all done"
    ∷ records "d1" "one question"
    ∷ acknowledges "d1"
    ∷ submits
    ∷ surfaces
    ∷ finalizes
    ∷ []

run-AllProper_example :
    AllProper small (run small calls none) × AllLater small none (run small calls none)
run-AllProper_example = run-AllProper small calls none tt

abbrev begun : FinalizationRecord
begun = record {
  session_id = "session";
  summary = "all done";
  phase = active;
  pending_block = none;
  block_dispatch_id = none;
  retro_submitted = false;
  summary_surfaced = false;
}

returns_small : (begin small "session" "all done" none).0 ≡ returned begun
unfolding begin begin_with candidate is_record is_consistent is_both_or_none is_blocked
    is_optional_within is_dispatch
returns_small = refl

returns_large : (begin large "session" "all done" none).0 ≡ returned begun
unfolding begin begin_with candidate is_record is_consistent is_both_or_none is_blocked
    is_optional_within is_dispatch
returns_large = refl

spaced : is_record (candidate small "session" " all done ") ≡ true
unfolding candidate is_record is_consistent is_both_or_none is_blocked is_optional_within
    is_dispatch
spaced = refl

begin-begin_example :
    ((begin small "session" " all done " (begin small "session" "all done" none).1
        ≡ (returned begun, some begun))
      × (begun.session_id ≡ begun.session_id)
      × (strip " all done " ≡ strip "all done"))
    ⊎ ((begin small "session" " all done " (begin small "session" "all done" none).1
          ≡ (thrown other_request, some begun))
        × ¬ ((begun.session_id ≡ begun.session_id) × (strip " all done " ≡ strip "all done")))
begin-begin_example =
    begin-begin small "session" "all done" "session" " all done " begun returns_small (omega arith)
      spaced

begin-unreadable_example :
    ((begin large "session" "all done" none).1 ≡ some begun)
    × (load large (some begun) ≡ thrown file_too_large)
    × ((change : FinalizationRecord → Except FinalizationError FinalizationRecord)
        → transition large change (some begun) ≡ (thrown file_too_large, some begun))
    × ((other_id other : String)
        → (e : FinalizationError) × (begin large other_id other (some begun)
            ≡ (thrown e, some begun)))
begin-unreadable_example =
    begin-unreadable large "session" "all done" begun returns_large (omega arith)
