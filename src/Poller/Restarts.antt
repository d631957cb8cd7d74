-- ===== src/Poller/Restarts.antt =====
-- When panel/api/poller.go restarts an instance.
use fox_fleet.Prelude.{ℕ, ◌-◌, ◌≤◌, ◌≡◌, String, Option, none, some, ◌⊎◌, Error}
use fox_fleet.Poller.{AutoRestartConfig, Outside, State, lookup, restart}

module _ {W : Type 0} (o : Outside W) (c : AutoRestartConfig) where
  -- The last restart, if there was one, is at least the cooldown back when the clock is read.
  abbrev pub Cooled : Option ℕ → W → Type 0
  Cooled none w = Unit {0}
  Cooled (some last) w = c.cooldown ≤ (o.now w).0 - last

  -- The world in which the target is asked: where there was a restart, the clock has been read.
  abbrev pub asked_at : Option ℕ → W → W
  asked_at none w = w
  asked_at (some last) w = (o.now w).1

  -- A restart that succeeds is the last one from then on; one that fails leaves no mark.
  abbrev pub Marks : String → W → State W → State W → Type 0
  Marks id w s t =
      ((o.plugin.restart id w).0 ≡ none
        × (lookup id t.poller.last_restart ≡ some (o.now (o.plugin.restart id w).1).0))
      ⊎ ((e : Error) × ((o.plugin.restart id w).0 ≡ some e)
          × (t.poller.last_restart ≡ s.poller.last_restart))
