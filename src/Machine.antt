-- ===== src/Machine.antt =====
-- The state that the services share and the calls on it: the table `instances`, the world beyond the
-- program, and what the service has asked of that world, newest first. A call that fails keeps what
-- it has done so far, as a Go function that returns early does.
use fox_fleet.Prelude.{
  String, Option, none, some, List, ◌∷◌, Bool, true, false, Result, ok, err, Error, wrap,
}
use fox_fleet.Registry.Rows.{Row}

pub record State (W E : Type 0) : Type 0 where
  pub world : W
  pub rows : List Row
  pub trace : List E

abbrev pub M : Type 0 → Type 0 → Type 0 → Type 0
M W E A = State W E → Result A × State W E

module _ {W E : Type 0} where
  abbrev pub pure : {A : Type 0} → A → M W E A
  pure a s = (ok a, s)

  infixl 5 ◌>>=◌ ◌>>◌
  abbrev pub ◌>>=◌ : {A B : Type 0} → M W E A → (A → M W E B) → M W E B
  ◌>>=◌ m f s = let (a, s') = m s in elim a [ ok x ↦ f x s' | err e ↦ (err e, s') ]

  abbrev pub ◌>>◌ : {B : Type 0} → M W E (Unit {0}) → M W E B → M W E B
  m >> k = m >>= λ _. k

  abbrev pub guard : Bool → Error → M W E (Unit {0})
  guard true e s = (ok tt, s)
  guard false e s = (err e, s)

  abbrev pub lift : {A : Type 0} → Result A → M W E A
  lift a s = (a, s)

  -- `fmt.Errorf("…: %w", err)` round a call.
  abbrev pub wrapping : {A : Type 0} → List String → M W E A → M W E A
  wrapping words m s =
      let (a, s') = m s in elim a [ ok x ↦ (ok x, s') | err e ↦ (err (wrap words e), s') ]

  -- Calls of the outside: one that cannot fail, one with an answer or an error, one with an error.
  abbrev pub ask : {A : Type 0} → (W → A × W) → M W E A
  ask f s = let (a, w) = f s.world in (ok a, record s { world = w })

  abbrev pub attempt : {A : Type 0} → (W → Result A × W) → M W E A
  attempt f s = let (a, w) = f s.world in (a, record s { world = w })

  abbrev pub act : (W → Option Error × W) → M W E (Unit {0})
  act f s =
      let (fault, w) = f s.world in
      (elim fault [ none ↦ ok tt | some e ↦ err e ], record s { world = w })

  abbrev pub note : E → M W E (Unit {0})
  note e s = (ok tt, record s { trace = e ∷ s.trace })

  -- A call whose error is dropped, `_ = f()`.
  abbrev pub ignoring : M W E (Unit {0}) → M W E (Unit {0})
  ignoring m s = (ok tt, (m s).1)

  -- One statement on the table that reads, and one that writes; the first argument gives the SQL
  -- engine's error, if it does not execute the statement.
  abbrev pub reads :
      {A : Type 0} → (W → Option Error × W) → (Option Error → List Row → Result A) → M W E A
  reads sql q s = let (fault, w) = sql s.world in (q fault s.rows, record s { world = w })

  abbrev pub writes :
      (W → Option Error × W)
      → (Option Error → List Row → Result (Unit {0}) × List Row)
      → M W E (Unit {0})
  writes sql q s =
      let (fault, w) = sql s.world in
      let (a, rows) = q fault s.rows in (a, record s { world = w; rows = rows })
