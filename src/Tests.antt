-- ===== src/Tests.antt =====
-- Runs of the model, and the witnesses of the theorems at concrete inputs.
mod Platform
mod Traffic
mod Runs
mod Witnesses
mod Console
mod Sessions
mod Parsing
mod Boots
mod Opening
mod Links
mod Utilities
