-- ===== src/Cache/Intervals.antt =====
-- src/cache.rs, `merge_interval` and `interval_set_covers`: the byte intervals that a block of the
-- cache file has received, as half-open pairs relative to the block's start.
pub mod Merge
pub mod Full
use hydraria.Prelude.{
  ℕ, ◌+◌, ◌≤◌, ◌<◌, min, max, Bool, true, false, ◌&&◌, ◌||◌, List, [], ◌∷◌, ltb, leb, ◌==◌,
  if◌then◌else◌,
}

abbrev pub Intervals : Type 0
Intervals = List (ℕ × ℕ)

-- The `while` loop from `j = i + 1` on, with the `drain`: intervals that touch the growing window
-- are swallowed, and the rest is kept.
swallow : ℕ → ℕ → Intervals → Intervals
swallow lo hi [] = (lo, hi) ∷ []
swallow lo hi ((s, e) ∷ rest) =
    let grown = swallow (min lo s) (max hi e) rest in
    if leb s hi then grown else (lo, hi) ∷ (s, e) ∷ rest

-- The walk to the first interval with `end >= lo` (`position`), and the three cases from there.
place : ℕ → ℕ → Intervals → Intervals
place lo hi [] = (lo, hi) ∷ []
place lo hi ((s, e) ∷ rest) =
    let later = (s, e) ∷ place lo hi rest in
    if ltb e lo
    then later
    else if ltb hi s
    then (lo, hi) ∷ (s, e) ∷ rest
    else swallow (min s lo) (max e hi) rest

unfoldable pub merge_interval : Intervals → ℕ → ℕ → Intervals
unfolding place swallow
merge_interval xs lo hi = if leb hi lo then xs else place lo hi xs

unfoldable pub interval_set_covers : Intervals → ℕ → Bool
interval_set_covers [] block_len = false
interval_set_covers ((s, e) ∷ []) block_len = s == 0 && leb block_len e
interval_set_covers (_ ∷ _ ∷ _) block_len = false

-- The set of bytes that a list of intervals stands for.
abbrev pub within : ℕ → ℕ → ℕ → Bool
within lo hi x = leb lo x && ltb x hi

abbrev pub covered : Intervals → ℕ → Bool
covered [] x = false
covered ((s, e) ∷ rest) x = within s e x || covered rest x

-- Sorted, nonempty intervals of `[from, bound)` that neither overlap nor touch.
abbrev pub IsMinimalIn : ℕ → ℕ → Intervals → Type 0
IsMinimalIn from bound [] = Unit {0}
IsMinimalIn from bound ((s, e) ∷ rest) =
    (from ≤ s) × (s < e) × (e ≤ bound) × IsMinimalIn (e + 1) bound rest

-- A slot of `partial` for a block of `block_len` bytes.
abbrev pub IsSlot : ℕ → Intervals → Type 0
IsSlot block_len xs = IsMinimalIn 0 block_len xs
