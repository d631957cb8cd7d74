-- ===== src/Events.antt =====
-- internal/events: the fleet's event log (a ring in memory, a table behind it, subscribers and
-- webhooks).
pub mod Event
pub mod Store
pub mod Webhook
pub mod Log
