-- ===== src/Events/Log/Reads.antt =====
-- What `Recent` and `SinceID` of events.go read off the ring.
use fox_fleet.Prelude.{
  ℕ, zero, ltb, ◌==◌, ◌||◌, dec_lt, Bool-cases, inl, inr, get_elem?-append_left,
  get_elem?-append_right, get_elem?-drop, get_elem?-take, get_elem?-eq-get_or, take-reverse, suc,
  ◌+◌, ◌-◌, ◌%◌, ◌≤◌, ◌<◌, ◌≡◌, ap, sym, ◌∙◌, List, [], ◌∷◌, ◌++◌, arith, length, length-drop,
  drop_of_length-le, drop-cons, append-nil, append_assoc, get_elem?, get_or, take, drop, reverse,
  some, if◌then◌else◌,
}
use native.Mathlib.Nat.{mod-eq_of_lt, mod-eq-sub-mod}
use mathlib.Core.List.{reverse-cons}
use fox_fleet.Events.Event.{Event, zero_event}
use fox_fleet.Events.Store.{newer}
use fox_fleet.Events.Log.{Ring, size, slot, recent, recent_loop, since_id, since_loop}
use fox_fleet.Events.Log.Contents.{contents, IsValid, length-contents}

mod_wrap : (a c : ℕ) → c ≤ a → a < c + c → a % c ≡ a - c
mod_wrap a c h k = mod-eq-sub-mod h ∙ mod-eq_of_lt {n = a - c} {m = c} (omega arith)

-- A full ring read from its oldest event on.
get_elem?-full :
    (buf : List Event) (pos cap j : ℕ)
    → length buf ≡ cap
    → pos < cap
    → j < cap
    → get_elem? (drop pos buf ++ take pos buf) j ≡ some (get_or buf ((pos + j) % cap) zero_event)
get_elem?-full buf pos cap j e h k = elim (dec_lt (pos + j) cap) [
  | yes low ↦
      get_elem?-append_left j (drop pos buf) (take pos buf) (omega (arith, length-drop pos buf))
      ∙ get_elem?-drop pos j buf
      ∙ get_elem?-eq-get_or (pos + j) buf zero_event (omega arith)
      ∙ ap (λ m. some (get_or buf m zero_event)) (sym (mod-eq_of_lt low))
  | no high ↦
      let m = pos + j - cap in
      let j_eq : j ≡ length (drop pos buf) + m = omega (arith, length-drop pos buf) in
      ap (get_elem? (drop pos buf ++ take pos buf)) j_eq
      ∙ get_elem?-append_right m (drop pos buf) (take pos buf)
      ∙ get_elem?-take pos m buf (omega arith)
      ∙ get_elem?-eq-get_or m buf zero_event (omega arith)
      ∙ ap (λ m. some (get_or buf m zero_event))
          (sym (mod_wrap (pos + j) cap (omega arith) (omega arith)))
]

get_elem?-part :
    (buf : List Event) (pos cap j : ℕ)
    → length buf ≡ cap
    → pos < cap
    → j < pos
    → get_elem? (take pos buf) j ≡ some (get_or buf ((j + cap) % cap) zero_event)
get_elem?-part buf pos cap j e h k =
    get_elem?-take pos j buf k
    ∙ get_elem?-eq-get_or j buf zero_event (omega arith)
    ∙ ap (λ m. some (get_or buf m zero_event))
        (sym (mod_wrap (j + cap) cap (omega arith) (omega arith) ∙ omega arith))

-- Slot `i` of a read of the last `n` events.
pub get_elem?-contents :
    (r : Ring) (n i : ℕ)
    → IsValid r
    → n ≤ size r
    → i < n
    → get_elem? (contents r) (size r - n + i) ≡ some (slot r n i)
get_elem?-contents r n i v h k = elim (Bool-cases r.full) [
  | inl full ↦
      let h' : n ≤ r.cap = rw full at h in
      let e : r.pos + i + r.cap - n ≡ r.pos + (r.cap - n + i) = omega arith in
      rw (full, e)
        (get_elem?-full r.buf r.pos r.cap (r.cap - n + i) v.length_buf v.in_range (omega arith))
  | inr part ↦
      let h' : n ≤ r.pos = rw part at h in
      let e : r.pos + i + r.cap - n ≡ r.pos - n + i + r.cap = omega arith in
      rw (part, e)
        (get_elem?-part r.buf r.pos r.cap (r.pos - n + i) v.length_buf v.in_range (omega arith))
]

drop-contents :
    (r : Ring) (n i : ℕ)
    → IsValid r
    → n ≤ size r
    → i < n
    → drop (size r - n + i) (contents r) ≡ slot r n i ∷ drop (size r - n + (i + 1)) (contents r)
drop-contents r n i v h k =
    let j = size r - n + i in
    let inside : j < length (contents r) = omega (arith, length-contents r v) in
    let e : size r - n + (i + 1) ≡ suc j = omega arith in
    rw (e, drop-cons j (contents r) zero_event inside)
      (ground (
        arith,
        get_elem?-contents r n i v h k,
        get_elem?-eq-get_or j (contents r) zero_event inside,
      ))

-- `Recent` copies the last events, newest first.
recent_loop-eq :
    (r : Ring) (n rounds i : ℕ) (out : List Event)
    → IsValid r
    → n ≤ size r
    → i + rounds ≡ n
    → recent_loop r n rounds i out ≡ reverse (drop (size r - n + i) (contents r)) ++ out
unfolding recent_loop
recent_loop-eq r n zero i out v h e =
    rw (drop_of_length-le (size r - n + i) (contents r) (omega (arith, length-contents r v)))
recent_loop-eq r n (suc rounds) i out v h e =
    rw (drop-contents r n i v h (omega arith), reverse-cons, append_assoc)
      (recent_loop-eq r n rounds (i + 1) (slot r n i ∷ out) v h (omega arith))

sub_cancel : (n i : ℕ) → n - n + i ≡ i
sub_cancel n i = omega arith

-- `SinceID` copies the events with a larger id, oldest first.
since_loop-eq :
    (r : Ring) (last_id rounds i : ℕ) (out : List Event)
    → IsValid r
    → i + rounds ≡ size r
    → since_loop r last_id rounds i out ≡ out ++ newer last_id (drop i (contents r))
unfolding since_loop newer
since_loop-eq r last_id zero i out v e =
    rw (drop_of_length-le i (contents r) (omega (arith, length-contents r v)))
      (sym (append-nil out))
since_loop-eq r last_id (suc rounds) i out v e =
    let x = slot r (size r) i in
    let out' = if ltb last_id x.id then out ++ x ∷ [] else out in
    let at : drop i (contents r) ≡ x ∷ drop (i + 1) (contents r) =
      rw (sub_cancel (size r) i, sub_cancel (size r) (i + 1)) at
        (drop-contents r (size r) i v (omega arith) (omega arith)) in
    ground (
      arith,
      at,
      since_loop-eq r last_id rounds (i + 1) out' v (omega arith),
      append_assoc out (x ∷ []) (newer last_id (drop (i + 1) (contents r))),
    )

newest :
    (k s : ℕ) (xs : List Event)
    → length xs ≡ s
    → k ≤ s
    → reverse (drop (s - k + 0) xs) ++ [] ≡ take k (reverse xs)
newest k s xs e h =
    let f : length xs - k ≡ s - k + 0 = omega arith in
    append-nil (reverse (drop (s - k + 0) xs))
    ∙ ap (λ m. reverse (drop m xs)) (sym f)
    ∙ sym (take-reverse k xs (omega arith))

-- `Recent` gives the newest events first: all of them for an `n` that is zero or too large, and
-- else the newest `n`.
pub recent-contents :
    (n : ℕ) (r : Ring)
    → IsValid r
    → recent n r ≡ take (if n == 0 || ltb (size r) n then size r else n) (reverse (contents r))
unfolding recent
recent-contents n r v =
    let k = if n == 0 || ltb (size r) n then size r else n in
    let small : k ≤ size r = ground arith in
    recent_loop-eq r k k 0 [] v small (omega arith)
    ∙ newest k (size r) (contents r) (length-contents r v) small

-- `SinceID` gives the events held with an id above the given one, oldest first.
pub since_id-contents :
    (last_id : ℕ) (r : Ring) → IsValid r → since_id last_id r ≡ newer last_id (contents r)
unfolding since_id
since_id-contents last_id r v = since_loop-eq r last_id (size r) 0 [] v (omega arith)
