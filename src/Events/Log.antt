-- ===== src/Events/Log.antt =====
-- internal/events/events.go: the log. A call that changes it returns the new log. The calls of
-- one log are taken one after another; in the source `Emit` gives an event its id outside the lock, so
-- that of two calls at one time the one with the greater id may be written first, which is not
-- modelled. The time of a call and the SQL
-- engine's error, if its statement fails, are arguments.
pub mod Contents
pub mod Reads
pub mod History
pub mod Restart
use fox_fleet.Prelude.{
  ℕ, zero, suc, ◌+◌, ◌-◌, ◌/◌, ◌%◌, ◌^◌, ◌==◌, String, Option, none, some, List, [], ◌∷◌, ◌++◌,
  Bool, true, false, Result, ok, err, Error, ite, ltb, ◌||◌, if◌then◌else◌, ℕ_discrete, length,
  get_or, set, replicate, reverse,
}
use fox_fleet.Events.Event.{Event, zero_event}
use fox_fleet.Events.Store
use fox_fleet.Events.Store.{Store}
use fox_fleet.Events.Webhook.{WebhookDispatcher, WebhookTarget, dispatch}

-- A subscriber: its number, and what waits in its channel.
pub record Subscriber : Type 0 where
  pub number : ℕ
  pub channel : List Event

abbrev pub channel_size : ℕ
channel_size = 16

pub record Ring : Type 0 where
  pub buf : List Event
  pub cap : ℕ
  pub pos : ℕ
  pub full : Bool

pub record Log : Type 0 where
  pub ring : Ring
  pub seq : ℕ
  pub store : Option Store
  pub subs : List Subscriber
  pub sub_seq : ℕ
  pub webhooks : Option WebhookDispatcher

-- Counters are `uint64`.
abbrev pub add_one : ℕ → ℕ
add_one n = (n + 1) % 2 ^ 64

unfoldable pub new_ring : ℕ → Ring
new_ring cap = record { buf = replicate cap zero_event; cap = cap; pos = 0; full = false }

-- A capacity below one is replaced by 200.
unfoldable pub new_log : ℕ → Log
unfolding new_ring
new_log capacity = record {
  ring = new_ring (if ltb capacity 1 then 200 else capacity);
  seq = 0;
  store = none;
  subs = [];
  sub_seq = 0;
  webhooks = none;
}

-- `l.buf[l.pos] = e`, and the position moved on.
unfoldable pub write : Event → Ring → Ring
write e r =
    let pos = (r.pos + 1) % r.cap in
    record r { buf = set r.buf r.pos e; pos = pos; full = if pos == 0 then true else r.full }

-- The number of the slots that hold an event.
abbrev pub size : Ring → ℕ
size r = if r.full then r.cap else r.pos

-- `l.buf[(l.pos - n + i + l.cap) % l.cap]`, for `n` at most `l.pos + l.cap`.
abbrev pub slot : Ring → ℕ → ℕ → Event
slot r n i = get_or r.buf ((r.pos + i + r.cap - n) % r.cap) zero_event

-- The loop of `Recent`: round `i` fills the slice from its end, so each event goes before those
-- of the earlier rounds.
unfoldable pub recent_loop : Ring → ℕ → ℕ → ℕ → List Event → List Event
recent_loop r n zero i out = out
recent_loop r n (suc rounds) i out = recent_loop r n rounds (i + 1) (slot r n i ∷ out)

-- `n` is a positive number here; `0` stands for what is not, which asks for everything.
unfoldable pub recent : ℕ → Ring → List Event
unfolding recent_loop
recent n r = let k = if n == 0 || ltb (size r) n then size r else n in recent_loop r k k 0 []

-- The loop of `SinceID`.
unfoldable pub since_loop : Ring → ℕ → ℕ → ℕ → List Event → List Event
since_loop r last_id zero i out = out
since_loop r last_id (suc rounds) i out =
    let e = slot r (size r) i in
    since_loop r last_id rounds (i + 1) (if ltb last_id e.id then out ++ e ∷ [] else out)

unfoldable pub since_id : ℕ → Ring → List Event
unfolding since_loop
since_id last_id r = since_loop r last_id (size r) 0 []

-- The `for` of `NewPersistentLog` over the loaded rows, oldest first.
unfoldable pub reload : List Event → Ring × ℕ → Ring × ℕ
unfolding write
reload [] s = s
reload (e ∷ es) (r, seq) = reload es (write e r, if ltb seq e.id then e.id else seq)

unfoldable pub new_persistent_log : Option Error → ℕ → Store → Log
unfolding new_log reload Store.recent
new_persistent_log fault capacity store =
    let l = record (new_log capacity) { store = some store } in
    elim (Store.recent fault capacity store) [
      | err e ↦ l
      | ok rows ↦
          let (r, seq) = reload (reverse rows) (l.ring, 0) in record l { ring = r; seq = seq }
    ]

-- A send that does not wait: a full channel loses the event.
unfoldable pub offer : Event → List Subscriber → List Subscriber
offer e [] = []
offer e (s ∷ ss) =
    (if ltb (length s.channel) channel_size then record s { channel = s.channel ++ e ∷ [] } else s)
    ∷ offer e ss

-- The id of a new event, by the table's key or else by the counter.
unfoldable pub assign_id : Option Error → Event → Log → ℕ × Log
unfolding Store.insert
assign_id fault e l = elim l.store [
  | none ↦ (add_one l.seq, record l { seq = add_one l.seq })
  | some store ↦
      let (answer, store') = Store.insert fault e store in
      elim answer [
        | err x ↦ (add_one l.seq, record l { seq = add_one l.seq; store = some store' })
        | ok id ↦ (id, record l { seq = id; store = some store' })
      ]
]

unfoldable pub run_webhooks : ℕ → Event → Log → Log × List WebhookTarget
run_webhooks now e l = elim l.webhooks [
  | none ↦ (l, [])
  | some wd ↦ let (wd', sent) = dispatch now e wd in (record l { webhooks = some wd' }, sent)
]

-- `now` in nanoseconds. The second part is the targets that a delivery is started for.
unfoldable pub emit : Option Error → ℕ → String → String → String → Log → Log × List WebhookTarget
unfolding assign_id run_webhooks
emit fault now type instance_id message l =
    let draft : Event = record {
      id = 0;
      type = type;
      instance_id = instance_id;
      message = message;
      created_at = now / 1_000_000_000;
    } in
    let (id, l') = assign_id fault draft l in
    let e : Event = record draft { id = id } in
    run_webhooks now e (record l' { ring = write e l'.ring; subs = offer e l'.subs })

unfoldable pub subscribe : Log → Log × ℕ
subscribe l =
    let number = add_one l.sub_seq in
    (
      record l { sub_seq = number; subs = record { number = number; channel = [] } ∷ l.subs },
      number,
    )

-- The function that `Subscribe` returns.
unfoldable pub without : ℕ → List Subscriber → List Subscriber
without n [] = []
without n (s ∷ ss) = let rest = without n ss in ite (ℕ_discrete s.number n) rest (s ∷ rest)

unfoldable pub unsubscribe : ℕ → Log → Log
unfolding without
unsubscribe n l = record l { subs = without n l.subs }
