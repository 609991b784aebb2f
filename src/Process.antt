-- ===== src/Process.antt =====
-- The process of src/main.rs around the requests: its arguments, its start, and the loop that accepts
-- connections and reloads the configuration.
pub mod Arguments
pub mod Start
pub mod Report
pub mod Listener
pub mod Server
