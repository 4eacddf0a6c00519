-- ===== src/Cache/Coalescer.antt =====
-- src/cache.rs, `WriteCoalescer`: writes gathered in a buffer in front of `write_range`.
pub mod Stages
pub mod Ends
pub mod Working
pub mod Durable
use hydraria.Prelude.{
  ℕ, ◌+◌, ◌*◌, ◌≤◌, ◌<◌, Bool, true, false, not, ◌&&◌, ◌||◌, List, [], ◌∷◌, ◌++◌, length, leb, ◌==◌,
  if◌then◌else◌, wrapping_add,
}
use hydraria.Cache.Intervals.{within}
use hydraria.Cache.Entry.{Entry, write_range, present}

-- `COALESCE_BYTES`
abbrev pub coalesce_bytes : ℕ
coalesce_bytes = 1024 * 1024

-- `start` and `buf`
pub record Coalescer : Type 0 where
  pub start : ℕ
  pub buf : List ℕ

abbrev pub buffered : Coalescer → ℕ
buffered c = length c.buf

-- The entry and the buffer after an operation, and whether it returned `Ok`.
pub record Written (Disk : Type 0) : Type 0 where
  pub sink : Entry Disk
  pub coalescer : Coalescer
  pub ok : Bool

-- The buffer is empty, or ends where the new bytes begin.
abbrev pub joins : Coalescer → ℕ → Bool
joins c at = length c.buf == 0 || wrapping_add c.start (length c.buf) == at

-- The buffer takes the bytes.
unfoldable pub take_in : ℕ → List ℕ → Coalescer → Coalescer
take_in at content c = record {
  start = if length c.buf == 0 then at else c.start;
  buf = c.buf ++ content;
}

module _ {Disk : Type 0} (pwrite_all : Disk → List ℕ → ℕ → Disk × Bool)
    (replace_bitmap : Disk → List ℕ → Disk × Bool) where
  unfoldable pub flush : Coalescer → Entry Disk → Written Disk
  flush c sink =
      if length c.buf == 0
      then record { sink = sink; coalescer = c; ok = true }
      else let (sink', done) = write_range pwrite_all replace_bitmap sink c.start c.buf in
        record { sink = sink'; coalescer = if done then record c { buf = [] } else c; ok = done }

  -- `sink.write_range(at, data)`, behind a flush
  unfoldable pub write_through : ℕ → List ℕ → Written Disk → Written Disk
  write_through at content w =
      let (sink', done) = write_range pwrite_all replace_bitmap w.sink at content in
      if w.ok then record { sink = sink'; coalescer = w.coalescer; ok = done } else w

  -- The buffer is flushed when it is full.
  unfoldable pub keep : Coalescer → Entry Disk → Written Disk
  keep c sink =
      if leb coalesce_bytes (length c.buf)
      then flush c sink
      else record { sink = sink; coalescer = c; ok = true }

  unfoldable pub append : ℕ → List ℕ → Written Disk → Written Disk
  unfolding keep
  append at content w = if w.ok then keep (take_in at content w.coalescer) w.sink else w

  unfoldable pub write : Coalescer → Entry Disk → ℕ → List ℕ → Bool → Written Disk
  unfolding write_through append flush
  write c sink at content coalesce =
      if length content == 0
      then record { sink = sink; coalescer = c; ok = true }
      else if not coalesce
      then write_through at content (flush c sink)
      else append at content
          (if joins c at then record { sink = sink; coalescer = c; ok = true } else flush c sink)

-- The bytes of the buffer.
abbrev pub pending : Coalescer → ℕ → Bool
pending c x = within c.start (c.start + length c.buf) x

-- What has been accepted: on disk, or in the buffer.
abbrev pub accepted : {Disk : Type 0} → Written Disk → ℕ → Bool
accepted w x = pending w.coalescer x || present w.sink x
