-- ===== src/Events/Event.antt =====
-- `Event` of internal/events/events.go. A time is its Unix second.
use fox_fleet.Prelude.{ℕ, String}

pub record Event : Type 0 where
  pub id : ℕ
  pub type : String
  pub instance_id : String
  pub message : String
  pub created_at : ℕ

-- What a fresh slot of the ring holds.
abbrev pub zero_event : Event
zero_event = record { id = 0; type = ""; instance_id = ""; message = ""; created_at = 0 }
