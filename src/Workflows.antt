-- ===== src/Workflows.antt =====
-- The canvas workflows of src/workflows.rs: a graph of media steps, and the check that it passes before
-- it is stored or run.
pub mod Order
pub mod Nodes
pub mod Graph
