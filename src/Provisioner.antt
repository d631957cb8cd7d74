-- ===== src/Provisioner.antt =====
-- internal/provisioner/provisioner.go: an instance is created and destroyed. What the program does
-- not implement (the SQL engine, the deployment target, files, the clock, randomness) is the
-- argument `Outside`, over a state `W` of the world that each call may change.
pub mod Defs
pub mod Service
pub mod Ports
pub mod Reserve
pub mod Calls
pub mod Deploy
pub mod Undone
pub mod Failure
pub mod Outcome
