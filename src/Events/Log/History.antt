-- ===== src/Events/Log/History.antt =====
-- The log of events.go over a whole history of calls to `Emit`.
use native.Mathlib.Nat.{mod-eq_of_lt}
use fox_fleet.Prelude.{
  ℕ, suc, ◌+◌, ◌-◌, ◌^◌, ◌≤◌, ◌<◌, ◌≡◌, refl, ap, sym, ◌∙◌, List, [], ◌∷◌, ◌++◌, arith, length,
  take, drop, reverse, none, if◌then◌else◌, leb, ltb, ◌==◌, ◌||◌, drop-append, drop-nil, drop-drop,
  length-append, ◌/◌, Option, Error, append_assoc, String, ℕ_discrete, append-nil, length-reverse,
  take_of_length-le, length-replicate,
}
use fox_fleet.Events.Event.{Event, zero_event}
use fox_fleet.Events.Store.{newer}
use fox_fleet.Events.Log.{
  Ring, Log, new_ring, new_log, write, size, recent, since_id, emit, add_one,
}
use fox_fleet.Events.Log.Contents.{
  contents, IsValid, contents-write, write-IsValid, write-inner, write-last, write-cap,
  length-contents,
}
use fox_fleet.Events.Log.Reads.{recent-contents, since_id-contents}

-- The last `n` of a list.
abbrev pub last_n {ℓ} : {A : Type ℓ} → ℕ → List A → List A
last_n n xs = drop (length xs - n) xs

-- The ring holds the last `cap` events of a history, oldest first.
pub record Tracks (cap : ℕ) (r : Ring) (h : List Event) : Type 0 where
  pub valid : IsValid r
  pub capacity : r.cap ≡ cap
  pub window : contents r ≡ last_n cap h
  pub fullness : r.full ≡ leb cap (length h)
  pub filling : length h < cap → r.pos ≡ length h

pub new_ring-Tracks : (cap : ℕ) → 0 < cap → Tracks cap (new_ring cap) []
unfolding new_ring
new_ring-Tracks cap h = record {
  valid = record { length_buf = length-replicate cap zero_event; positive = h; in_range = h };
  capacity = refl;
  window = sym (drop-nil (0 - cap));
  fullness = ground arith;
  filling = λ _. refl;
}

window_full :
    (cap : ℕ) (h : List Event) (e : Event)
    → 0 < cap
    → cap ≤ length h
    → drop 1 (last_n cap h) ++ e ∷ [] ≡ last_n cap (h ++ e ∷ [])
window_full cap h e pos full =
    let k : length (h ++ e ∷ []) - cap ≡ length h - cap + 1 =
      omega (arith, length-append h (e ∷ [])) in
    rw (k, drop-drop 1 (length h - cap) h)
      (sym (drop-append (length h - cap + 1) h (e ∷ []) (omega arith)))

window_part :
    (cap : ℕ) (h : List Event) (e : Event)
    → length h < cap
    → last_n cap h ++ e ∷ [] ≡ last_n cap (h ++ e ∷ [])
window_part cap h e part =
    let k : length (h ++ e ∷ []) - cap ≡ 0 = omega (arith, length-append h (e ∷ [])) in
    let j : length h - cap ≡ 0 = omega arith in rw (k, j)

module _ (cap : ℕ) (r : Ring) (h : List Event) (e : Event) (t : Tracks cap r h) where
  write-window : contents (write e r) ≡ last_n cap (h ++ e ∷ [])
  write-window =
      contents-write e r t.valid ∙ ground (arith, window_full cap h e, window_part cap h e)

  write-full : (write e r).full ≡ leb cap (length (h ++ e ∷ []))
  write-full = elim (ℕ_discrete (suc r.pos) r.cap) [
    | yes last ↦ rw (write-last e r last) (ground (arith, length-append h (e ∷ [])))
    | no inner ↦
        rw (write-inner e r (omega (arith, t.valid.in_range)))
          (ground (arith, length-append h (e ∷ [])))
  ]

  write-filling : length (h ++ e ∷ []) < cap → (write e r).pos ≡ length (h ++ e ∷ [])
  write-filling short =
      let n = length-append h (e ∷ []) in
      rw (write-inner e r (omega (arith, t.filling (omega arith))))
        (omega (arith, t.filling (omega arith)))

  pub write-Tracks : Tracks cap (write e r) (h ++ e ∷ [])
  write-Tracks = record {
    valid = write-IsValid e r t.valid;
    capacity = write-cap e r ∙ t.capacity;
    window = write-window;
    fullness = write-full;
    filling = write-filling;
  }

-- One call of `Emit`: what the outside answers and the arguments.
pub record Call : Type 0 where
  pub fault : Option Error
  pub now : ℕ
  pub type : String
  pub instance_id : String
  pub message : String

abbrev pub emits : List Call → Log → Log
emits [] l = l
emits (c ∷ cs) l = emits cs (emit c.fault c.now c.type c.instance_id c.message l).0

abbrev pub event_of : ℕ → Call → Event
event_of id c = record {
  id = id;
  type = c.type;
  instance_id = c.instance_id;
  message = c.message;
  created_at = c.now / 1_000_000_000;
}

-- The events of a history, numbered on from `seq`.
abbrev pub numbered : ℕ → List Call → List Event
numbered seq [] = []
numbered seq (c ∷ cs) = event_of (suc seq) c ∷ numbered (suc seq) cs

emit_memory :
    (c : Call) (l : Log)
    → l.store ≡ none
    → l.seq + 1 < 2 ^ 64
    → let l' = (emit c.fault c.now c.type c.instance_id c.message l).0 in
      (l'.ring ≡ write (event_of (suc l.seq) c) l.ring) × (l'.seq ≡ suc l.seq) × (l'.store ≡ none)
unfolding emit
emit_memory c l e small =
    let k : add_one l.seq ≡ suc l.seq = mod-eq_of_lt small ∙ omega arith in ground (arith, k)

emits-Tracks :
    (cap : ℕ) (cs : List Call) (l : Log) (h : List Event)
    → l.store ≡ none
    → l.seq + length cs < 2 ^ 64
    → Tracks cap l.ring h
    → Tracks cap (emits cs l).ring (h ++ numbered l.seq cs)
emits-Tracks cap [] l h e small t = rw append-nil t
emits-Tracks cap (c ∷ cs) l h e small t =
    let (ring_eq, seq_eq, store_eq) = emit_memory c l e (omega arith) in
    let l' = (emit c.fault c.now c.type c.instance_id c.message l).0 in
    let x = event_of (suc l.seq) c in
    let after : Tracks cap l'.ring (h ++ x ∷ []) = rw ring_eq (write-Tracks cap l.ring h x t) in
    rw (seq_eq, append_assoc) at (emits-Tracks cap cs l' (h ++ x ∷ []) store_eq (omega arith) after)

-- The capacity that `NewLog` settles on.
abbrev pub capacity_of : ℕ → ℕ
capacity_of capacity = if ltb capacity 1 then 200 else capacity

memory_log-Tracks :
    (capacity : ℕ) (cs : List Call)
    → length cs < 2 ^ 64
    → Tracks (capacity_of capacity) (emits cs (new_log capacity)).ring (numbered 0 cs)
unfolding new_log
memory_log-Tracks capacity cs small =
    emits-Tracks (capacity_of capacity) cs (new_log capacity) [] refl (omega arith)
      (new_ring-Tracks (capacity_of capacity) (ground arith))

take_saturated :
    (n cap s : ℕ) (xs : List Event)
    → length xs ≡ s
    → s ≤ cap
    → take (if n == 0 || ltb s n then s else n) xs ≡ take (if n == 0 then cap else n) xs
take_saturated n cap s xs e h =
    ground (arith, take_of_length-le s xs, take_of_length-le cap xs, take_of_length-le n xs)

pub Tracks-recent :
    (cap n : ℕ) (r : Ring) (h : List Event)
    → Tracks cap r h
    → recent n r ≡ take (if n == 0 then cap else n) (reverse (last_n cap h))
Tracks-recent cap n r h t =
    let xs = reverse (last_n cap h) in
    let size_le : size r ≤ r.cap = ground (arith, t.valid.in_range) in
    let length_eq : length xs ≡ size r =
      length-reverse (last_n cap h) ∙ ap length (sym t.window) ∙ length-contents r t.valid in
    recent-contents n r t.valid
    ∙ ap (λ ys. take (if n == 0 || ltb (size r) n then size r else n) (reverse ys)) t.window
    ∙ take_saturated n cap (size r) xs length_eq (omega (arith, t.capacity))

-- A log in memory numbers its events from 1 on, and `Recent` gives the newest ones first, no more
-- than its capacity.
pub memory_log-recent :
    (capacity n : ℕ) (cs : List Call)
    → length cs < 2 ^ 64
    → let cap = capacity_of capacity in
      recent n (emits cs (new_log capacity)).ring
      ≡ take (if n == 0 then cap else n) (reverse (last_n cap (numbered 0 cs)))
memory_log-recent capacity n cs small =
    Tracks-recent (capacity_of capacity) n _ _ (memory_log-Tracks capacity cs small)

-- `SinceID` on a log in memory gives the events numbered above `last_id` that are among the last
-- `cap`, oldest first.
pub memory_log-since_id :
    (capacity last_id : ℕ) (cs : List Call)
    → length cs < 2 ^ 64
    → since_id last_id (emits cs (new_log capacity)).ring
      ≡ newer last_id (last_n (capacity_of capacity) (numbered 0 cs))
memory_log-since_id capacity last_id cs small =
    let t = memory_log-Tracks capacity cs small in
    since_id-contents last_id _ t.valid ∙ ap (newer last_id) t.window
