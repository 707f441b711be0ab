-- ===== src/Safety.antt =====
-- safety.py: the merge of the runtime's activity with what a project's safety probe observed. The
-- probe itself is an external command.
pub mod Merge
use agent_session_harness.Prelude.{
  String, Bool, true, false, not, ◌&&◌, List, [], ◌∷◌, ◌++◌, map, is_nonempty, if◌then◌else◌,
}
use agent_session_harness.Models.{ActivitySnapshot, Quiescence, project}

pub data ProjectSafetyStatus : Type 0 where
  quiescent busy unknown : ProjectSafetyStatus

pub record ProjectSafetyObservation : Type 0 where
  pub status : ProjectSafetyStatus
  pub active_critical_sections : List String
  pub warnings : List String

unfoldable pub is_probe_busy : ProjectSafetyStatus → Bool
is_probe_busy ProjectSafetyStatus.busy = true
is_probe_busy _ = false

-- The three branches of the verdict.
unfoldable pub merge_quiescence : Quiescence → ProjectSafetyStatus → Quiescence
merge_quiescence Quiescence.unknown status = Quiescence.unknown
merge_quiescence q ProjectSafetyStatus.unknown = Quiescence.unknown
merge_quiescence Quiescence.busy status = Quiescence.busy
merge_quiescence q ProjectSafetyStatus.busy = Quiescence.busy
merge_quiescence Quiescence.idle ProjectSafetyStatus.quiescent = Quiescence.idle

-- The union of the two sets, with a name of its own for a busy probe that reports none.
unfoldable pub merge_sections : ProjectSafetyStatus → List String → List String
merge_sections status sections =
    if is_probe_busy status && not (is_nonempty sections)
    then "project-safety-probe" ∷ []
    else sections

unfoldable pub merge_project_safety : ActivitySnapshot → ProjectSafetyObservation → ActivitySnapshot
merge_project_safety activity observation = record activity {
  quiescence = merge_quiescence activity.quiescence observation.status;
  active_critical_section_ids =
      merge_sections observation.status
        (activity.active_critical_section_ids ++ observation.active_critical_sections);
  integrity_warnings = activity.integrity_warnings ++ map project observation.warnings;
}
