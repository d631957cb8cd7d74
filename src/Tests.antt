-- ===== src/Tests.antt =====
-- Runs of the model at concrete inputs, and the theorems applied to them.
mod World
mod Services
mod Tables
mod Buffers
mod Rollouts
mod SourceRuns
mod Polls
mod CloudRuns
mod PanelRuns
mod Tokens
mod Ingests
mod Injects
