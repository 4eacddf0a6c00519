-- ===== src/Cache/Blocks.antt =====
-- src/cache.rs: where a block lies in the file, as `write_range` and `contiguous_from` compute it,
-- and the bookkeeping of one write in the bitmap and in the interval sets of unfinished blocks.
pub mod Geometry
pub mod Step
pub mod Marking
use hydraria.Prelude.{
  ℕ, zero, suc, ◌+◌, ◌-◌, ◌*◌, ◌/◌, ◌%◌, ◌^◌, ◌≤◌, ◌<◌, min, max, ◌≡◌, Bool, true, false, ◌||◌,
  List, [], ◌∷◌, Option, none, some, length, get_elem?, set, ltb, leb, if◌then◌else◌, u64_mod,
  wrapping_add, wrapping_sub, wrapping_mul, div_ceil,
}
use hydraria.Cache.Bitmap.{has_block, mark_block, IsBytes}
use hydraria.Cache.Intervals.{Intervals, merge_interval, interval_set_covers, covered, IsSlot}

-- `b * bs`
unfoldable pub block_start : ℕ → ℕ → ℕ
block_start bs b = wrapping_mul b bs

-- `((b + 1) * bs - 1).min(total - 1)`
pub block_end : ℕ → ℕ → ℕ → ℕ
block_end total bs b =
    min (wrapping_sub (wrapping_mul (wrapping_add b 1) bs) 1) (wrapping_sub total 1)

-- `block_end - block_start + 1`
pub block_len : ℕ → ℕ → ℕ → ℕ
block_len total bs b = wrapping_add (wrapping_sub (block_end total bs b) (block_start bs b)) 1

-- What the critical section of `write_range` changes: the two locked vectors and the local sum.
pub record Marks : Type 0 where
  pub bitmap : List ℕ
  pub partial : List Intervals
  pub total_bytes_marked : ℕ

abbrev pub u32_mod : ℕ
u32_mod = 2 ^ 32

module _ (total bs start end : ℕ) where
  -- `in_start` and `in_end`
  pub first_in : ℕ → ℕ
  first_in b = max start (block_start bs b)

  pub last_in : ℕ → ℕ
  last_in b = min end (block_end total bs b)

  -- `lo` and `hi`, cast to `u32`
  pub lo_in : ℕ → ℕ
  lo_in b = wrapping_sub (first_in b) (block_start bs b) % u32_mod

  pub hi_in : ℕ → ℕ
  hi_in b = wrapping_add (wrapping_sub (last_in b) (block_start bs b)) 1 % u32_mod

  pub complete_slot : ℕ → Marks → Intervals → Marks
  complete_slot b m slot =
      if interval_set_covers slot (block_len total bs b % u32_mod)
      then record {
        bitmap = mark_block m.bitmap b;
        partial = set m.partial b [];
        total_bytes_marked = wrapping_add m.total_bytes_marked (block_len total bs b);
      }
      else record m { partial = set m.partial b slot }

  pub mark_slot : ℕ → Marks → Option Intervals → Marks
  mark_slot b m none = m
  mark_slot b m (some slot) = complete_slot b m (merge_interval slot (lo_in b) (hi_in b))

  -- One round of the `for b in first_block..=last_block` loop.
  pub mark_step : ℕ → Marks → Marks
  mark_step b m =
      if leb (length m.bitmap) (b / 8) || has_block m.bitmap b
      then m
      else if ltb (last_in b) (first_in b)
      then m
      else mark_slot b m (get_elem? m.partial b)

  pub mark_range : ℕ → ℕ → Marks → Marks
  mark_range zero b m = m
  mark_range (suc n) b m = mark_range n (b + 1) (mark_step b m)

-- What the two vectors say of byte `r` of block `b`.
abbrev pub slot_has : Option Intervals → ℕ → Bool
slot_has none r = false
slot_has (some slot) r = covered slot r

unfoldable pub holds_at : Marks → ℕ → ℕ → Bool
holds_at m b r = has_block m.bitmap b || slot_has (get_elem? m.partial b) r

-- The length of block `b`, in plain arithmetic.
abbrev pub size_of_block : ℕ → ℕ → ℕ → ℕ
size_of_block total bs b = min bs (total - b * bs)

-- A file and a block size whose arithmetic stays within 64 bits and whose blocks fit 32.
pub record IsGeometry (total bs : ℕ) : Type 0 where
  pub positive : 0 < bs
  pub small : bs < u32_mod
  pub fits : total + bs ≤ u64_mod

pub record IsMarked (total bs : ℕ) (m : Marks) : Type 0 where
  pub bytes : IsBytes m.bitmap
  pub roomy : (b : ℕ) → b * bs < total → b / 8 < length m.bitmap
  pub slots : (b : ℕ) → b * bs < total → b < length m.partial
  pub minimal :
      (b : ℕ) (slot : Intervals)
      → b * bs < total
      → get_elem? m.partial b ≡ some slot
      → IsSlot (size_of_block total bs b) slot
