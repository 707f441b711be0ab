-- ===== src/Safety/Merge.antt =====
-- safety.py: what the merge makes of the verdict and of the critical sections.
use agent_session_harness.Prelude.{◌≡◌, ◌↔◌, ◌⊎◌, true, is_nonempty, arith}
use agent_session_harness.Models.{ActivitySnapshot, Quiescence}
use agent_session_harness.Safety.{
  ProjectSafetyStatus, ProjectSafetyObservation, is_probe_busy, merge_quiescence, merge_sections,
  merge_project_safety,
}

-- The merged activity is idle exactly when both the runtime is idle and the probe quiescent, and
-- unknown exactly when one of the two is unknown: a probe can only take safety away.
pub merge-quiescence :
    (a : ActivitySnapshot) (o : ProjectSafetyObservation)
    → (((merge_project_safety a o).quiescence ≡ Quiescence.idle)
        ↔ ((a.quiescence ≡ Quiescence.idle) × (o.status ≡ ProjectSafetyStatus.quiescent)))
      × (((merge_project_safety a o).quiescence ≡ Quiescence.unknown)
          ↔ ((a.quiescence ≡ Quiescence.unknown) ⊎ (o.status ≡ ProjectSafetyStatus.unknown)))
unfolding merge_project_safety merge_quiescence
merge-quiescence a o =
    ((λ h. ground arith, λ h. ground arith), (λ h. ground arith, λ h. ground arith))

-- A busy probe always leaves a critical section in the merged activity.
merge-busy :
    (a : ActivitySnapshot) (o : ProjectSafetyObservation)
    → o.status ≡ ProjectSafetyStatus.busy
    → is_nonempty (merge_project_safety a o).active_critical_section_ids ≡ true
unfolding merge_project_safety merge_sections is_probe_busy
merge-busy a o h = ground arith
