-- ===== src/Provisioner/Reserve.antt =====
-- The critical section of `Provision`: what it has checked when it succeeds.
use fox_fleet.Prelude.{
  ℕ, suc, ◌<◌, ◌≡◌, ◌≢◌, refl, ap, ◌∙◌, String, none, List, [], ◌∷◌, ◌++◌, false, arith, length, ok,
  err, Error, map,
}
use fox_fleet.Machine.{State}
use fox_fleet.Registry.Rows.{Row, find, port_taken, insert_by_time, order_by_time}
use fox_fleet.Registry.Instances
use fox_fleet.Registry.Instances.{hash_of, upsert, create}
use fox_fleet.Provisioner.Defs.{Settings, Request, Outside, Effect, contains, has_id, allocate_port}
use fox_fleet.Provisioner.Service.{Reservation, reserve}
use fox_fleet.Provisioner.Ports.{allocate_port-first}

length-map_inst : (rs : List Row) → length (map (λ x. x.inst) rs) ≡ length rs
length-map_inst [] = refl
length-map_inst (r ∷ rs) = ap suc (length-map_inst rs)

length-insert-rows : (r : Row) (rs : List Row) → length (insert_by_time r rs) ≡ suc (length rs)
unfolding insert_by_time
length-insert-rows r [] = refl
length-insert-rows r (q ∷ qs) = ground (arith, length-insert-rows r qs)

has_id-insert :
    (id : String) (r : Row) (rs : List Row)
    → has_id id (map (λ x. x.inst) (insert_by_time r rs)) ≡ has_id id (map (λ x. x.inst) (r ∷ rs))
unfolding insert_by_time has_id
has_id-insert id r [] = refl
has_id-insert id r (q ∷ qs) = ground (arith, has_id-insert id r qs)

length-order-rows : (rs : List Row) → length (order_by_time rs) ≡ length rs
unfolding order_by_time
length-order-rows [] = refl
length-order-rows (r ∷ rs) = length-insert-rows r (order_by_time rs) ∙ ap suc (length-order-rows rs)

pub has_id-order :
    (id : String) (rs : List Row)
    → has_id id (map (λ x. x.inst) (order_by_time rs)) ≡ has_id id (map (λ x. x.inst) rs)
unfolding order_by_time has_id
has_id-order id [] = refl
has_id-order id (r ∷ rs) =
    has_id-insert id r (order_by_time rs) ∙ ground (arith, has_id-order id rs)

length-order : (rs : List Row) → length (map (λ x. x.inst) (order_by_time rs)) ≡ length rs
length-order rs = length-map_inst (order_by_time rs) ∙ length-order-rows rs

find-has_id :
    (id : String) (rs : List Row) → has_id id (map (λ x. x.inst) rs) ≡ false → find id rs ≡ none
unfolding has_id find
find-has_id id [] h = refl
find-has_id id (r ∷ rs) h = ground (arith, find-has_id id rs)

port_free :
    (id : String) (p : ℕ) (rs : List Row)
    → contains p (map (λ x. x.port) rs) ≡ false
    → port_taken id p rs ≡ false
unfolding contains port_taken
port_free id p [] h = refl
port_free id p (r ∷ rs) h = ground (arith, port_free id p rs)

module _ {W : Type 0} (o : Outside W) (c : Settings) where
  -- The table with the reservation, and what was seen of the table before.
  pub record Reserved (req : Request) (rows rows' : List Row) (r : Reservation) : Type 0 where
    pub appended :
        rows'
        ≡ rows
          ++ record { inst = r.inst; query_token_hash = hash_of o.sha256_hex r.inst.query_token }
            ∷ []
    pub id_eq : r.inst.id ≡ req.instance_id
    pub new : find req.instance_id rows ≡ none
    pub room : length rows < c.max_instances
    pub port_eq : r.inst.port ≡ allocate_port c (map (λ x. x.port) rows)
    pub port_found : allocate_port c (map (λ x. x.port) rows) ≢ 0

  module _ (req : Request) (name : String) (s s' : State W Effect) (r : Reservation)
      (h : reserve o c req name s ≡ (ok r, s')) where
    reserve-room : length s.rows < c.max_instances
    unfolding reserve Instances.list
    reserve-room = ground (arith, length-order s.rows)

    reserve-new : find req.instance_id s.rows ≡ none
    unfolding reserve Instances.list
    reserve-new =
        ground (arith, has_id-order req.instance_id s.rows, find-has_id req.instance_id s.rows)

    reserve-port :
        (r.inst.port ≡ allocate_port c (map (λ x. x.port) s.rows))
        × (allocate_port c (map (λ x. x.port) s.rows) ≢ 0)
    unfolding reserve Instances.used_ports
    reserve-port = ground arith

    reserve-id : (r.inst.id ≡ req.instance_id) × (r.inst.created_at ≡ r.now)
    unfolding reserve
    reserve-id = ground arith

    reserve-append :
        find r.inst.id s.rows ≡ none
        → port_taken r.inst.id r.inst.port s.rows ≡ false
        → s'.rows
          ≡ s.rows
            ++ record { inst = r.inst; query_token_hash = hash_of o.sha256_hex r.inst.query_token }
              ∷ []
    unfolding reserve create upsert
    reserve-append f p = ground arith

    -- The table after a reservation that succeeds.
    pub reserve-Reserved : Reserved req s.rows s'.rows r
    reserve-Reserved = record {
      appended = reserve-append (rw reserve-id.0 reserve-new) (
          rw reserve-port.0
            (port_free r.inst.id _ s.rows (allocate_port-first c _ reserve-port.1).free));
      id_eq = reserve-id.0;
      new = reserve-new;
      room = reserve-room;
      port_eq = reserve-port.0;
      port_found = reserve-port.1;
    }

  pub reserve-error :
      (req : Request) (name : String) (s s' : State W Effect) (e : Error)
      → reserve o c req name s ≡ (err e, s')
      → s'.rows ≡ s.rows
  unfolding reserve create upsert
  reserve-error req name s s' e h = ground arith
