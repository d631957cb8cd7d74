-- ===== src/Chunker/Rebuild.antt =====
-- The chunks of chunker.go put together again.
use fox_fleet.Prelude.Int.{ℤ, pos}
use fox_fleet.Prelude.{
  ℕ, zero, suc, ◌+◌, ◌≤◌, ◌<◌, ◌≡◌, sym, List, [], ◌∷◌, ◌++◌, arith, length, take, drop, drop-drop,
  take-take, take-append-drop, drop_of_length-le, dec_lt,
}
use fox_fleet.Chunker.{Chunk, chunks, split_loop, split, apply_defaults}
use fox_fleet.Chunker.Windows.{
  Fits, FitsInt, opts, stride, size_of, stride_of, split_loop-step, split_loop-past, stride_pos,
  split-loop,
}

-- The first `k` runes of each chunk, joined.
unfoldable pub prefixes : ℕ → List Chunk → List ℕ
prefixes k [] = []
prefixes k (c ∷ cs) = take k c.text ++ prefixes k cs

-- A stride that does not pass the end of a window loses no rune.
prefixes-cons :
    (runes : List ℕ) (n st start idx : ℕ) (cs : List Chunk)
    → st ≤ n
    → prefixes st cs ≡ drop (start + st) runes
    → prefixes st (record { text = take n (drop start runes); index = idx } ∷ cs) ≡ drop start runes
unfolding prefixes
prefixes-cons runes n st start idx cs k e =
    rw (e, take-take st n (drop start runes) k, ← drop-drop st start runes)
      (take-append-drop st (drop start runes))

split_loop-prefixes :
    (f : ℕ) (runes : List ℕ) (n : ℕ) (v : ℤ) (start idx : ℕ)
    → Fits (length runes) n v
    → 0 < f
    → length runes < start + f
    → stride n v ≤ n
    → (cs : List Chunk) × (split_loop f runes (opts n v) start idx ≡ chunks cs)
      × (prefixes (stride n v) cs ≡ drop start runes)
unfolding prefixes
split_loop-prefixes zero runes n v start idx fits fuel h k = absurd (omega arith)
split_loop-prefixes (suc f) runes n v start idx fits fuel h k = elim (dec_lt start (length runes)) [
  | no past ↦ (
    [],
    split_loop-past f runes n v start idx past,
    sym (drop_of_length-le start runes (omega arith)),
  )
  | yes inside ↦
      let (cs, e, w) =
        split_loop-prefixes f runes n v (start + stride n v) (idx + 1) fits (omega arith)
          (omega (arith, stride_pos n v)) k in
      (
        record { text = take n (drop start runes); index = idx } ∷ cs,
        rw (split_loop-step f runes n v start idx fits inside, e),
        prefixes-cons runes n (stride n v) start idx cs k w,
      )
]

stride_of-le : (n v : ℕ) → stride_of (opts n (pos v)) ≤ size_of (opts n (pos v))
unfolding apply_defaults
stride_of-le n v = ground arith

-- Where the size and the overlap are not negative and no sum of the loop leaves an `int`, nothing is
-- lost: the chunks' first `stride` runes, joined, are the text. That is so where the length of the
-- text and the size are together below 2^63, and the overlap is.
pub split-rebuild :
    (runes : List ℕ) (n v : ℕ)
    → let o = opts n (pos v) in
      FitsInt runes o
      → (cs : List Chunk) × (split runes o ≡ chunks cs) × (prefixes (stride_of o) cs ≡ runes)
split-rebuild runes n v fits = rw split-loop (
    split_loop-prefixes (length runes + 1) runes (size_of (opts n (pos v)))
      (apply_defaults (opts n (pos v))).overlap 0 0 fits (omega arith) (omega arith)
      (stride_of-le n v))
