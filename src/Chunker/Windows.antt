-- ===== src/Chunker/Windows.antt =====
-- What the loop of chunker.go computes.
use fox_fleet.Prelude.Int.{
  ℤ, pos, negsuc, ◌+ℤ◌, ◌-ℤ◌, pos_part, neg_part, sub_ℕ, wrap_int, wrap_int-pos, wrap_int-negsuc,
}
use fox_fleet.Prelude.{
  ℕ, zero, suc, ◌^◌, leb, Bool-cases, inl, inr, false, ◌==◌, ◌+◌, ◌-◌, ◌*◌, ◌<◌, ◌≡◌, refl, ap, ◌∙◌,
  List, [], ◌∷◌, arith, length, take, drop, min, length-drop, dec_lt, get_elem?, some, none,
  if◌then◌else◌, ltb, Option,
}
use native.Mathlib.Nat.{zero-add}
use fox_fleet.Chunker.{
  Options, Chunk, chunks, slice_panic, cons_chunk, window_end, next_start, split_loop, split,
  apply_defaults,
}

-- How far one window begins behind the last.
abbrev pub stride : ℕ → ℤ → ℕ
stride n (pos v) = if ltb v n then n - v else 1
stride n (negsuc v) = n + v + 1

abbrev pub opts : ℕ → ℤ → Options
opts n v = record { chunk_size = pos n; overlap = v }

-- The sums that the loop makes stay within an `int` while `start` is in a text of `len` runes.
abbrev pub Fits : ℕ → ℕ → ℤ → Type 0
Fits len n v = (len + n + neg_part v < 2 ^ 63) × (pos_part v < 2 ^ 63)

sub_ℕ-wrap : (a b : ℕ) → a < 2 ^ 63 → b < 2 ^ 63 → wrap_int (sub_ℕ a b) ≡ sub_ℕ a b
sub_ℕ-wrap a b h k = elim (Bool-cases (leb b a)) [
  | inl p ↦ rw p (wrap_int-pos (a - b) (omega arith))
  | inr p ↦ rw p (wrap_int-negsuc (b - a - 1) (omega arith))
]

add-wrap : (n start : ℕ) → start + n < 2 ^ 63 → wrap_int (pos start +ℤ pos n) ≡ pos (start + n)
unfolding ◌+ℤ◌
add-wrap n start h = sub_ℕ-wrap (start + n) 0 h (omega arith) ∙ ground arith

next_start-stride :
    (len n : ℕ) (v : ℤ) (start : ℕ)
    → Fits len n v
    → start < len
    → next_start (opts n v) start ≡ start + stride n v
unfolding next_start ◌-ℤ◌
next_start-stride len n (pos v) start f h =
    rw
      (
        add-wrap n start (omega (arith, f.0)),
        sub_ℕ-wrap (start + n + 0) (0 + v) (omega (arith, f.0)) (omega (arith, f.1)),
      )
      (ground arith)
next_start-stride len n (negsuc v) start f h =
    rw
      (
        add-wrap n start (omega (arith, f.0)),
        sub_ℕ-wrap (start + n + suc v) 0 (omega (arith, f.0)) (omega arith),
      )
      (ground arith)

window_end-eq :
    (len n start : ℕ)
    → start + n < 2 ^ 63
    → window_end len (pos n) start ≡ pos (min (start + n) len)
unfolding window_end
window_end-eq len n start h = rw (add-wrap n start h) (ground arith)

take-min {ℓ} : {A : Type ℓ} (k n : ℕ) (xs : List A) → k ≡ min n (length xs) → take k xs ≡ take n xs
take-min zero zero xs e = refl
take-min zero (suc n) [] e = refl
take-min zero (suc n) (x ∷ xs) e = absurd (omega arith)
take-min (suc k) zero xs e = absurd (omega arith)
take-min (suc k) (suc n) [] e = refl
take-min (suc k) (suc n) (x ∷ xs) e = ap (◌∷◌ x) (take-min k n xs (omega arith))

window-text :
    (runes : List ℕ) (n start : ℕ)
    → start < length runes
    → take (min (start + n) (length runes) - start) (drop start runes) ≡ take n (drop start runes)
window-text runes n start h = take-min _ n _ (omega (arith, length-drop start runes))

pub split_loop-step :
    (f : ℕ) (runes : List ℕ) (n : ℕ) (v : ℤ) (start idx : ℕ)
    → Fits (length runes) n v
    → start < length runes
    → split_loop (suc f) runes (opts n v) start idx
      ≡ cons_chunk
          (record { text = take n (drop start runes); index = idx })
          (split_loop f runes (opts n v) (start + stride n v) (idx + 1))
unfolding split_loop
split_loop-step f runes n v start idx fits h =
    rw
      (
        window_end-eq (length runes) n start (omega (arith, fits.0)),
        next_start-stride (length runes) n v start fits h,
      )
      (ground (arith, window-text runes n start))

pub stride_pos : (n : ℕ) (v : ℤ) → 0 < stride n v
stride_pos n (pos v) = ground arith
stride_pos n (negsuc v) = omega arith

pub split_loop-past :
    (f : ℕ) (runes : List ℕ) (n : ℕ) (v : ℤ) (start idx : ℕ)
    → ¬ (start < length runes)
    → split_loop (suc f) runes (opts n v) start idx ≡ chunks []
unfolding split_loop
split_loop-past f runes n v start idx h = ground arith

-- The window that begins at rune `p`, as chunk `j`; past the end of the text there is none.
abbrev pub window_at : List ℕ → ℕ → ℕ → ℕ → Option Chunk
window_at runes n p j =
    if ltb p (length runes) then some (record { text = take n (drop p runes); index = j }) else none

window_at-shift :
    (runes : List ℕ) (n st start idx i : ℕ)
    → window_at runes n (start + st + i * st) (idx + 1 + i)
      ≡ window_at runes n (start + suc i * st) (idx + suc i)
window_at-shift runes n st start idx i =
    let e : start + st + i * st ≡ start + suc i * st = omega arith in
    let f : idx + 1 + i ≡ idx + suc i = omega arith in rw (e, f)

window_at-zero :
    (runes : List ℕ) (n st start idx : ℕ)
    → start < length runes
    → some (record { text = take n (drop start runes); index = idx })
      ≡ window_at runes n (start + 0 * st) (idx + 0)
window_at-zero runes n st start idx h =
    let e : start + 0 * st ≡ start = omega arith in
    let f : idx + 0 ≡ idx = omega arith in rw (e, f) (ground arith)

windows-cons :
    (runes : List ℕ) (n st start idx : ℕ) (cs : List Chunk)
    → start < length runes
    → ((i : ℕ) → get_elem? cs i ≡ window_at runes n (start + st + i * st) (idx + 1 + i))
    → (i : ℕ)
    → get_elem? (record { text = take n (drop start runes); index = idx } ∷ cs) i
      ≡ window_at runes n (start + i * st) (idx + i)
windows-cons runes n st start idx cs h rest zero = window_at-zero runes n st start idx h
windows-cons runes n st start idx cs h rest (suc i) =
    rest i ∙ window_at-shift runes n st start idx i

-- With enough fuel the loop ends, and its chunks are the windows from `start` on.
split_loop-windows :
    (f : ℕ) (runes : List ℕ) (n : ℕ) (v : ℤ) (start idx : ℕ)
    → Fits (length runes) n v
    → 0 < f
    → length runes < start + f
    → (cs : List Chunk) × (split_loop f runes (opts n v) start idx ≡ chunks cs)
      × ((i : ℕ) → get_elem? cs i ≡ window_at runes n (start + i * stride n v) (idx + i))
split_loop-windows zero runes n v start idx fits fuel h = absurd (omega arith)
split_loop-windows (suc f) runes n v start idx fits fuel h = elim (dec_lt start (length runes)) [
  | no past ↦ ([], split_loop-past f runes n v start idx past, λ i. ground arith)
  | yes inside ↦
      let (cs, e, w) =
        split_loop-windows f runes n v (start + stride n v) (idx + 1) fits (omega arith)
          (omega (arith, stride_pos n v)) in
      (
        record { text = take n (drop start runes); index = idx } ∷ cs,
        rw (split_loop-step f runes n v start idx fits inside, e),
        windows-cons runes n (stride n v) start idx cs inside w,
      )
]

-- The options as the loop sees them, where the size is not negative.
abbrev pub size_of : Options → ℕ
size_of o = pos_part (apply_defaults o).chunk_size

abbrev pub stride_of : Options → ℕ
stride_of o = stride (size_of o) (apply_defaults o).overlap

apply_defaults-opts :
    (n : ℕ) (v : ℤ)
    → apply_defaults (opts n v) ≡ opts (size_of (opts n v)) (apply_defaults (opts n v)).overlap
unfolding apply_defaults
apply_defaults-opts n v = ground arith

pub split-loop :
    (runes : List ℕ) (n : ℕ) (v : ℤ)
    → split runes (opts n v)
      ≡ split_loop
          (length runes + 1)
          runes
          (opts (size_of (opts n v)) (apply_defaults (opts n v)).overlap)
          0
          0
unfolding split split_loop
split-loop [] n v = ground arith
split-loop (x ∷ runes) n v =
    let e : (suc (length runes) == 0) ≡ false = ground arith in rw (e, ← apply_defaults-opts n v)

window_at-from_zero :
    (runes : List ℕ) (n p j : ℕ) → window_at runes n (0 + p) (0 + j) ≡ window_at runes n p j
window_at-from_zero runes n p j = rw (zero-add p, zero-add j)

-- The text and the options are such that no sum of the loop leaves an `int`.
abbrev pub FitsInt : List ℕ → Options → Type 0
FitsInt runes o = Fits (length runes) (size_of o) (apply_defaults o).overlap

-- For every size that is not negative `Split` returns, where the length of the text, the size and a
-- negative overlap's absolute value are together below 2^63, and so is the overlap. Chunk `i` is the
-- window of `size` runes that begins at rune `i * stride`, numbered `i`; there is a chunk `i` exactly
-- where that rune is in the text.
pub split-windows :
    (runes : List ℕ) (n : ℕ) (v : ℤ)
    → let o = opts n v in
      FitsInt runes o
      → (cs : List Chunk) × (split runes o ≡ chunks cs)
        × ((i : ℕ) → get_elem? cs i ≡ window_at runes (size_of o) (i * stride_of o) i)
split-windows runes n v fits =
    let (cs, e, w) =
      split_loop-windows (length runes + 1) runes (size_of (opts n v))
        (apply_defaults (opts n v)).overlap 0 0 fits (omega arith) (omega arith) in
    (cs, rw split-loop e, λ i. w i ∙ window_at-from_zero runes _ _ i)

-- A negative size is a panic on every text but the empty one.
split_negative :
    (x : ℕ) (runes : List ℕ) (n : ℕ) (v : ℤ)
    → n < 2 ^ 63
    → split (x ∷ runes) (record { chunk_size = negsuc n; overlap = v }) ≡ slice_panic
unfolding split window_end ◌+ℤ◌ apply_defaults split_loop
split_negative x runes n v h =
    let f : pos 0 +ℤ negsuc n ≡ negsuc n = ground arith in
    let e : wrap_int (pos 0 +ℤ negsuc n) ≡ negsuc n = ap wrap_int f ∙ wrap_int-negsuc n h in
    ground (arith, e)
