-- ===== src/Examples.antt =====
-- Concrete runs of the models, and the theorems applied to them.
mod Machine
mod Drains
mod Journal
mod Policy
mod Stages
mod Probe
mod Mirrors
mod Registrations
mod Closing
mod Departure
mod Controller
