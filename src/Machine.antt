-- ===== src/Machine.antt =====
-- The Mealy machine of src/state_machine.cpp, over the state of the controller that owns it.
pub mod Table
pub mod Actions
pub mod Process
pub mod Graph
pub mod Step
