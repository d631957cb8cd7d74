-- ===== src/Cloud.antt =====
-- internal/cloud: the users of the cloud, who log in to an instance each, and their sessions. Their
-- tables stand in the registry's database, with foreign keys on: a user's instance is a row of
-- `instances` (ON DELETE SET NULL), a session's user is a row of `cloud_users` (ON DELETE CASCADE).
-- The user names are compared by SQLite's NOCASE, which is the argument `nocase`: two names are the
-- same where it gives the same text.
-- The argument `fault` of a method is an error of the SQL engine other than that of a constraint,
-- which the model finds itself.
pub mod Rows
pub mod Users
pub mod Sessions
pub mod Unique
pub mod Hashes
pub mod Invariant
pub mod Stages
pub mod Methods
pub mod Operations
pub mod Access
