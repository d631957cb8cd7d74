-- ===== src/Registry.antt =====
-- internal/registry/registry.go: the store of the instances and of the signing keys.
-- A table is the list of its rows in the order of their insertion; a statement has the meaning that
-- SQL gives it, and what the engine reports when it does not execute is the argument `fault`.
-- A time is its Unix second, and 0 stands for the empty text: RFC 3339 texts in UTC are ordered as
-- their seconds are.
pub mod Rows
pub mod Instances
pub mod Unique
pub mod Lookup
pub mod Writes
pub mod Invariant
pub mod Tokens
pub mod Keys
pub mod Backfill
