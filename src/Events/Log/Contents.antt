-- ===== src/Events/Log/Contents.antt =====
-- The ring of events.go as the list of what it holds, oldest first.
use fox_fleet.Prelude.{
  ℕ, suc, ◌+◌, ◌%◌, ◌<◌, ◌≡◌, refl, sym, ◌∙◌, List, [], ◌∷◌, ◌++◌, true, arith, length, length-set,
  length-append, length-drop, length-take, take_of_length-le, take-suc-set, drop-suc-set,
  drop_of_length-le, drop-cons, ℕ_discrete, append-nil, append_assoc, set, take, drop,
  if◌then◌else◌,
}
use native.Mathlib.Nat.{mod_self, mod-eq_of_lt}
use fox_fleet.Events.Event.{Event, zero_event}
use fox_fleet.Events.Log.{Ring, write, size}

abbrev pub contents : Ring → List Event
contents r = if r.full then drop r.pos r.buf ++ take r.pos r.buf else take r.pos r.buf

pub record IsValid (r : Ring) : Type 0 where
  pub length_buf : length r.buf ≡ r.cap
  pub positive : 0 < r.cap
  pub in_range : r.pos < r.cap

pub write-IsValid : (e : Event) (r : Ring) → IsValid r → IsValid (write e r)
unfolding write
write-IsValid e r v = record {
  length_buf = length-set r.buf r.pos e ∙ v.length_buf;
  positive = v.positive;
  in_range = ground arith;
}

pub write-cap : (e : Event) (r : Ring) → (write e r).cap ≡ r.cap
unfolding write
write-cap e r = refl

set_last :
    (buf : List Event) (pos : ℕ) (e : Event)
    → suc pos ≡ length buf
    → set buf pos e ≡ take pos buf ++ e ∷ []
set_last buf pos e h =
    sym (take_of_length-le (suc pos) (set buf pos e) (omega (arith, length-set buf pos e)))
    ∙ take-suc-set pos buf e (omega arith)

pub write-last :
    (e : Event) (r : Ring)
    → suc r.pos ≡ r.cap
    → write e r ≡ record r { buf = set r.buf r.pos e; pos = 0; full = true }
unfolding write
write-last e r last = let z : (r.pos + 1) % r.cap ≡ 0 = grind (arith, mod_self) in ground (arith, z)

pub write-inner :
    (e : Event) (r : Ring)
    → suc r.pos < r.cap
    → write e r ≡ record r { buf = set r.buf r.pos e; pos = suc r.pos }
unfolding write
write-inner e r inner =
    let z : (r.pos + 1) % r.cap ≡ suc r.pos = grind (arith, mod-eq_of_lt) in ground (arith, z)

-- The contents without the event that the next write drops.
kept :
    (r : Ring)
    → IsValid r
    → (if r.full then drop 1 (contents r) else contents r)
      ≡ (if r.full then drop (suc r.pos) r.buf ++ take r.pos r.buf else take r.pos r.buf)
kept r v =
    let split = drop-cons r.pos r.buf zero_event (omega (arith, v.length_buf, v.in_range)) in
    ground (arith, split)

-- A write appends the event, and drops the oldest one where the ring is full.
pub contents-write :
    (e : Event) (r : Ring)
    → IsValid r
    → contents (write e r) ≡ (if r.full then drop 1 (contents r) else contents r) ++ e ∷ []
contents-write e r v = elim (ℕ_discrete (suc r.pos) r.cap) [
  | yes last ↦
      rw (write-last e r last, kept r v)
        (ground (
          arith,
          set_last r.buf r.pos e (last ∙ sym v.length_buf),
          drop_of_length-le (suc r.pos) r.buf (omega (arith, v.length_buf)),
          append-nil (set r.buf r.pos e),
        ))
  | no inner ↦
      rw (write-inner e r (omega (arith, v.in_range)), kept r v)
        (ground (
          arith,
          take-suc-set r.pos r.buf e (omega (arith, v.length_buf, v.in_range)),
          drop-suc-set r.pos r.buf e,
          append_assoc (drop (suc r.pos) r.buf) (take r.pos r.buf) (e ∷ []),
        ))
]

pub length-contents : (r : Ring) → IsValid r → length (contents r) ≡ size r
length-contents r v = ground (
  arith,
  length-append (drop r.pos r.buf) (take r.pos r.buf),
  length-drop r.pos r.buf,
  length-take r.pos r.buf,
)
