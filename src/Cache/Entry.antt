-- ===== src/Cache/Entry.antt =====
-- src/cache.rs, `CacheEntry`: `write_range` and `contiguous_from`. The locks are
-- held over each whole operation, so an operation is a function of the entry. The file system is a
-- parameter: a positional write and the replacement of `bitmap.bin` each give the new disk and
-- whether they succeeded.
pub mod Written
pub mod Accepted
pub mod Staged
pub mod Runs
pub mod Contiguous
use hydraria.Prelude.{
  ℕ, zero, suc, ◌+◌, ◌-◌, ◌*◌, ◌/◌, ◌%◌, ◌^◌, ◌≤◌, ◌<◌, min, max, ◌≡◌, Bool, true, false, ◌||◌,
  ◌&&◌, List, [], ◌∷◌, ◌++◌, Option, none, some, length, get_elem?, ltb, leb, ◌==◌, if◌then◌else◌,
  u64_mod, wrapping_add, wrapping_sub, wrapping_mul,
}
use hydraria.Cache.Bitmap.{has_block}
use hydraria.Cache.Intervals.{Intervals, within}
use hydraria.Cache.Meta.{Meta}
use hydraria.Cache.Blocks.{
  Marks, mark_range, block_start, block_end, block_len, holds_at, IsMarked, IsGeometry,
}

pub record Entry (Disk : Type 0) : Type 0 where
  pub meta : Meta
  pub file : Disk
  pub bitmap : List ℕ
  pub partial : List Intervals
  pub bytes_cached : ℕ
  pub bytes_written : ℕ
  pub progress : ℕ
  pub ephemeral : Bool

-- The two vectors under the locks, with a sum that starts at 0.
abbrev pub marks : {Disk : Type 0} → Entry Disk → Marks
marks e = record { bitmap = e.bitmap; partial = e.partial; total_bytes_marked = 0 }

module _ {Disk : Type 0} (pwrite_all : Disk → List ℕ → ℕ → Disk × Bool)
    (replace_bitmap : Disk → List ℕ → Disk × Bool) where
  -- `self.progress.send_modify`, at the end of a successful write
  notify : Entry Disk → Entry Disk × Bool
  notify e = (record e { progress = wrapping_add e.progress 1 }, true)

  persist_bitmap : Entry Disk → Entry Disk × Bool
  persist_bitmap e =
      let (disk, done) = replace_bitmap e.file e.bitmap in
      if done then notify (record e { file = disk }) else (record e { file = disk }, false)

  -- After the critical section: `bytes_cached`, the persistent bitmap, the wake-up.
  account : Entry Disk → ℕ → Entry Disk × Bool
  account e total_bytes_marked =
      if total_bytes_marked == 0
      then notify e
      else let e' = record e { bytes_cached = wrapping_add e.bytes_cached total_bytes_marked } in
        if e.ephemeral then notify e' else persist_bitmap e'

  -- The critical section of a write of `[start, end]`.
  record_write : Entry Disk → ℕ → ℕ → Entry Disk × Bool
  record_write e start end =
      let bs = e.meta.block_size in
      let m =
        mark_range e.meta.total_size bs start end (end / bs + 1 - start / bs) (start / bs)
          (marks e) in
      account (record e { bitmap = m.bitmap; partial = m.partial }) m.total_bytes_marked

  -- The state after `write_range`, and whether it returned `Ok`.
  pub write_range : Entry Disk → ℕ → List ℕ → Entry Disk × Bool
  write_range e start content =
      if length content == 0 || e.meta.total_size == 0
      then (e, true)
      else let (disk, done) = pwrite_all e.file content start in
        if done
        then record_write
            (record e {
              file = disk;
              bytes_written = wrapping_add e.bytes_written (length content);
            })
            start (wrapping_sub (wrapping_add start (length content)) 1)
        else (record e { file = disk }, false)

-- The search of `contiguous_from` in the intervals of a block: `take_while`, `find`, and the
-- position itself where nothing is found.
unfoldable pub find_run : Intervals → ℕ → ℕ
find_run [] in_block = in_block
find_run ((lo, hi) ∷ rest) in_block =
    let later = find_run rest in_block in
    if leb lo in_block then (if ltb in_block hi then hi else later) else in_block

abbrev pub run_in : Option Intervals → ℕ → ℕ
run_in none in_block = in_block
run_in (some set) in_block = find_run set in_block

-- `covered_to`: where the covered run at `in_block` ends, relative to block `b`.
unfoldable pub covered_to : {Disk : Type 0} → Entry Disk → ℕ → ℕ → ℕ
covered_to e b in_block =
    if has_block e.bitmap b
    then block_len e.meta.total_size e.meta.block_size b
    else run_in (get_elem? e.partial b) in_block

-- The body of the `while avail < limit` loop of `contiguous_from`: the new `avail`, and whether the
-- loop goes on (no `break`).
extend_run : {Disk : Type 0} → Entry Disk → ℕ → ℕ → ℕ → ℕ × Bool
extend_run e offset limit avail =
    let bs = e.meta.block_size in
    let cur = wrapping_add offset avail in
    let b = cur / bs in
    let in_block = wrapping_sub cur (block_start bs b) in
    let to = covered_to e b in_block in
    let avail' = wrapping_add avail (min (to - in_block) (limit - avail)) in
    if leb to in_block
    then (avail, false)
    else if ltb to (block_len e.meta.total_size bs b)
    then (avail', false)
    else (avail', true)

-- The loop, on fuel.
contiguous_loop : {Disk : Type 0} → ℕ → Entry Disk → ℕ → ℕ → ℕ → ℕ
contiguous_loop zero e offset limit avail = avail
contiguous_loop (suc fuel) e offset limit avail =
    let (avail', more) = extend_run e offset limit avail in
    let onward = contiguous_loop fuel e offset limit avail' in
    if ltb avail limit then (if more then onward else avail') else avail

unfoldable pub contiguous_from : {Disk : Type 0} → Entry Disk → ℕ → ℕ → ℕ
unfolding extend_run contiguous_loop
contiguous_from e offset limit =
    let total = e.meta.total_size in
    if limit == 0 || total == 0 || leb total offset
    then 0
    else let limit' = min limit (total - offset) in contiguous_loop (limit' + 1) e offset limit' 0

-- Byte `x` of the file is known to be on disk: its block is complete or its interval is recorded.
pub present : {Disk : Type 0} → Entry Disk → ℕ → Bool
present e x = holds_at (marks e) (x / e.meta.block_size) (x % e.meta.block_size)

pub record IsValid {Disk : Type 0} (e : Entry Disk) : Type 0 where
  pub geometry : IsGeometry e.meta.total_size e.meta.block_size
  pub marked : IsMarked e.meta.total_size e.meta.block_size (marks e)
