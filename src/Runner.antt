-- ===== src/Runner.antt =====
-- internal/sloff/runner: what a run does with the planned tasks.
pub mod Defs
pub mod Inputs
pub mod Tools
pub mod Lookup
pub mod Task
pub mod Schedule
pub mod Check
pub mod Produced
pub mod Collect
pub mod Tests
