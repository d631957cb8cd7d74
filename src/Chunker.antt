-- ===== src/Chunker.antt =====
-- data-plane/chunker/chunker.go: a text is cut into overlapping windows of runes.
-- A rune is a number and a text the list of its runes. `int` has 64 bits and wraps
-- around; an `Options` holds two of them.
pub mod Windows
pub mod Rebuild
use fox_fleet.Prelude.Int.{ℤ, pos, pos_part, ◌+ℤ◌, ◌-ℤ◌, leb_ℤ, wrap_int}
use fox_fleet.Prelude.{
  ℕ, zero, suc, ◌+◌, ◌-◌, List, [], ◌∷◌, Bool, true, false, ◌==◌, ltb, ◌&&◌, if◌then◌else◌, length,
  take, drop,
}

abbrev pub default_chunk_size : ℤ
default_chunk_size = pos 512

abbrev pub default_overlap : ℤ
default_overlap = pos 64

pub record Options : Type 0 where
  pub chunk_size : ℤ
  pub overlap : ℤ

abbrev is_zero : ℤ → Bool
is_zero (pos n) = n == 0
is_zero _ = false

unfoldable pub apply_defaults : Options → Options
apply_defaults o =
    if is_zero o.chunk_size
    then record {
      chunk_size = default_chunk_size;
      overlap = if is_zero o.overlap then default_overlap else o.overlap;
    }
    else o

pub record Chunk : Type 0 where
  pub text : List ℕ
  pub index : ℕ

-- What a run of the loop gives: the chunks, Go's panic on `runes[start:end]` with the bounds out
-- of order, or that the rounds allowed were not enough.
pub data Outcome : Type 0 where
  chunks : List Chunk → Outcome
  slice_panic : Outcome
  out_of_fuel : Outcome

abbrev pub cons_chunk : Chunk → Outcome → Outcome
cons_chunk c (chunks cs) = chunks (c ∷ cs)
cons_chunk c slice_panic = slice_panic
cons_chunk c out_of_fuel = out_of_fuel

-- The end of the window that begins at `start`, clamped to the length.
unfoldable pub window_end : ℕ → ℤ → ℕ → ℤ
unfolding ◌+ℤ◌ wrap_int
window_end len size start =
    let end = wrap_int (pos start +ℤ size) in if leb_ℤ end (pos len) then end else pos len

-- Where the next window begins: always at least one rune further.
unfoldable pub next_start : Options → ℕ → ℕ
unfolding ◌+ℤ◌ ◌-ℤ◌ wrap_int
next_start o start =
    let next = wrap_int (wrap_int (pos start +ℤ o.chunk_size) -ℤ o.overlap) in
    if leb_ℤ next (pos start) then start + 1 else pos_part next

-- `for start < len(runes)`, on fuel.
unfoldable pub split_loop : ℕ → List ℕ → Options → ℕ → ℕ → Outcome
unfolding window_end next_start
split_loop zero runes o start idx = out_of_fuel
split_loop (suc fuel) runes o start idx =
    let end = window_end (length runes) o.chunk_size start in
    let rest = split_loop fuel runes o (next_start o start) (idx + 1) in
    if ltb start (length runes)
    then (if leb_ℤ (pos start) end
        then cons_chunk
            (record { text = take (pos_part end - start) (drop start runes); index = idx }) rest
        else slice_panic)
    else chunks []

-- `start` grows in each round, so that one round more than there are runes is enough.
unfoldable pub split : List ℕ → Options → Outcome
unfolding split_loop apply_defaults
split runes opts =
    let o = apply_defaults opts in
    if length runes == 0 then chunks [] else split_loop (length runes + 1) runes o 0 0
