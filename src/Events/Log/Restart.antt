-- ===== src/Events/Log/Restart.antt =====
-- `NewPersistentLog` of events.go, and what a failed INSERT does to the ids.
use native.Mathlib.Nat.{mod-eq_of_lt}
use mathlib.Core.List.{reverse-reverse}
use fox_fleet.Prelude.{
  ℕ, suc, ◌+◌, ◌-◌, ◌^◌, ◌<◌, ◌≡◌, ap, ◌∙◌, List, [], ◌∷◌, ◌++◌, arith, length, take, drop, reverse,
  some, none, if◌then◌else◌, ◌==◌, ltb, Error, append_assoc, append-nil, length-take,
  length-reverse,
}
use fox_fleet.Events.Event.{Event}
use fox_fleet.Events.Store.{Store}
use fox_fleet.Events.Log.{
  Ring, Log, new_ring, new_persistent_log, write, recent, reload, emit, add_one,
}
use fox_fleet.Events.Log.History.{
  Tracks, new_ring-Tracks, write-Tracks, Tracks-recent, capacity_of, Call, event_of,
}

reload-Tracks :
    (cap : ℕ) (es : List Event) (r : Ring) (seq : ℕ) (h : List Event)
    → Tracks cap r h
    → Tracks cap (reload es (r, seq)).0 (h ++ es)
unfolding reload
reload-Tracks cap [] r seq h t = rw append-nil t
reload-Tracks cap (e ∷ es) r seq h t = rw append_assoc at (
    reload-Tracks cap es (write e r) (if ltb seq e.id then e.id else seq) (h ++ e ∷ [])
      (write-Tracks cap r h e t))

-- A log that is opened on a table shows the newest rows of the table, newest first.
pub restart-recent :
    (cap n : ℕ) (s : Store)
    → 0 < cap
    → recent n (new_persistent_log none cap s).ring
      ≡ take (if n == 0 then cap else n) (take cap s.rows)
unfolding new_persistent_log
restart-recent cap n s pos =
    let rows = reverse (take cap s.rows) in
    let c : capacity_of cap ≡ cap = ground arith in
    let few : length rows - cap ≡ 0 =
      omega (arith, length-reverse (take cap s.rows), length-take cap s.rows) in
    let t : Tracks cap (reload rows (new_ring cap, 0)).0 rows =
      reload-Tracks cap rows (new_ring cap) 0 [] (new_ring-Tracks cap pos) in
    rw c (
      Tracks-recent cap n (reload rows (new_ring cap, 0)).0 rows t
      ∙ ap (λ k. take (if n == 0 then cap else n) (reverse (drop k rows))) few
      ∙ ap (take (if n == 0 then cap else n)) (reverse-reverse (take cap s.rows)))

emit_failed :
    (l : Log) (s : Store) (c : Call) (x : Error)
    → l.store ≡ some s
    → c.fault ≡ some x
    → let l' = (emit c.fault c.now c.type c.instance_id c.message l).0 in
      (l'.ring ≡ write (event_of (add_one l.seq) c) l.ring) × (l'.store ≡ some s)
unfolding emit
emit_failed l s c x e f = ground arith

pub emit_stored :
    (l : Log) (s : Store) (c : Call)
    → l.store ≡ some s
    → c.fault ≡ none
    → let l' = (emit c.fault c.now c.type c.instance_id c.message l).0 in
      (l'.ring ≡ write (event_of (s.last_id + 1) c) l.ring) × (l'.seq ≡ s.last_id + 1)
unfolding emit
emit_stored l s c e f = ground arith

-- An INSERT that fails makes the log number the event by its own counter, and the next INSERT
-- that succeeds gives the same number again: two events of one log then share an id.
pub failed_insert-duplicates :
    (l : Log) (s : Store) (c d : Call) (x : Error)
    → l.store ≡ some s
    → l.seq ≡ s.last_id
    → c.fault ≡ some x
    → d.fault ≡ none
    → s.last_id + 1 < 2 ^ 64
    → (emit d.fault d.now d.type d.instance_id d.message
        (emit c.fault c.now c.type c.instance_id c.message l).0).0.ring
      ≡ write (event_of (suc s.last_id) d) (write (event_of (suc s.last_id) c) l.ring)
failed_insert-duplicates l s c d x e f g k small =
    let (ring_c, store_c) = emit_failed l s c x e g in
    let (ring_d, _) =
      emit_stored (emit c.fault c.now c.type c.instance_id c.message l).0 s d store_c k in
    let a : add_one l.seq ≡ suc s.last_id = ap add_one f ∙ mod-eq_of_lt small ∙ omega arith in
    let b : s.last_id + 1 ≡ suc s.last_id = omega arith in rw (ring_d, ring_c, a, b)
