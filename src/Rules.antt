-- ===== src/Rules.antt =====
-- The rule engine of src/rules.rs: conditions, the decision on a request, and response filters.
pub mod Conditions
pub mod Nodes
pub mod Decision
pub mod Filters
