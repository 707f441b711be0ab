-- ===== src/Resources.antt =====
-- resource_guardian.py: what a resource guardian concludes from one observation of a managed
-- resource. The guardian's own loop, which executes the decisions, is not modelled.
pub mod State
pub mod Decision
pub mod Policy
