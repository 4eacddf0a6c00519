-- ===== src/Fetch/Stream.antt =====
-- src/engine.rs, `fetch_claim`: the loop over the received bytes, and the attempts. What the network
-- does is a value: the items of a response, and what the shared atomics hold when they are read.
pub mod Items
pub mod Durable
pub mod Complete
pub mod Attempts
use hydraria.Prelude.{
  ℕ, zero, suc, ◌+◌, ◌-◌, ◌≤◌, ◌<◌, min, max, ◌≡◌, Bool, true, false, ◌&&◌, ◌||◌, List, [], ◌∷◌,
  Option, none, some, length, ltb, leb, ◌==◌, if◌then◌else◌, wrapping_add, wrapping_sub, take,
}
use hydraria.Cache.Entry.{Entry}
use hydraria.Cache.Coalescer.{Coalescer, Written, flush, write, buffered}
use hydraria.Fetch.Pipeline.{ByteTransform, transform_outgoing}

-- An item of the response.
pub data Item : Type 0 where
  received : List ℕ → Item
  failed : Item

-- One round: the item, and what `claim.end()` and `write_through_below` give in it.
pub record Round : Type 0 where
  pub item : Item
  pub live_end : ℕ
  pub write_through_below : ℕ

-- The local variables, with the claim's cursor and watermark, and the entry.
pub record Fetch (Disk : Type 0) : Type 0 where
  pub cursor : ℕ
  pub writer : Coalescer
  pub sink : Entry Disk
  pub published : ℕ
  pub reserved : ℕ

-- How a round ends: the loop goes on, `break`, `break` after an error, `return Err(Io)`.
pub data Flow : Type 0 where
  going stopped broken io : Flow

module _ {Disk : Type 0} (pwrite_all : Disk → List ℕ → ℕ → Disk × Bool)
    (replace_bitmap : Disk → List ℕ → Disk × Bool) (pipeline : Option (List ByteTransform))
    (transform_on_write : Bool) where
  outgoing : ℕ → List ℕ → List ℕ
  outgoing cursor bytes =
      if transform_on_write then transform_outgoing pipeline cursor bytes else bytes

  -- After the write of `n` bytes of an item of `size`.
  pub advance : Fetch Disk → ℕ → ℕ → Written Disk → Fetch Disk × Flow
  advance f n size w =
      let cursor = wrapping_add f.cursor n in
      let reserved = max f.reserved cursor in
      if w.ok
      then (
        record {
          cursor = cursor;
          writer = w.coalescer;
          sink = w.sink;
          published = wrapping_sub cursor (buffered w.coalescer);
          reserved = max reserved (wrapping_sub cursor (buffered w.coalescer));
        },
        if ltb n size then stopped else going,
      )
      else (record f { writer = w.coalescer; sink = w.sink; reserved = reserved }, io)

  pub deliver : Fetch Disk → Item → ℕ → ℕ → Fetch Disk × Flow
  unfolding outgoing
  deliver f failed live_end below = (f, broken)
  deliver f (received b) live_end below =
      let n = min (wrapping_add (wrapping_sub live_end f.cursor) 1) (length b) in
      if length b == 0
      then (f, going)
      else if ltb live_end f.cursor
      then (f, stopped)
      else advance f n (length b) (
          write pwrite_all replace_bitmap f.writer f.sink f.cursor (outgoing f.cursor (take n b))
            (leb below f.cursor))

  -- The loop over the stream.
  carry_on : (Fetch Disk → Fetch Disk × Flow) → Fetch Disk × Flow → Fetch Disk × Flow
  carry_on next (f, going) = next f
  carry_on next (f, stopped) = (f, stopped)
  carry_on next (f, broken) = (f, broken)
  carry_on next (f, io) = (f, io)

  pub stream : List Round → Fetch Disk → Fetch Disk × Flow
  unfolding carry_on
  stream [] f = (f, going)
  stream (r ∷ rs) f =
      carry_on (λ f. stream rs f) (deliver f r.item r.live_end r.write_through_below)

  -- The flush behind the loop, and the last `advance_to`.
  settle : Fetch Disk → Flow → Written Disk → Fetch Disk × Flow
  settle f flow w =
      if w.ok
      then (
        record f {
          writer = w.coalescer;
          sink = w.sink;
          published = f.cursor;
          reserved = max f.reserved f.cursor;
        },
        flow,
      )
      else (record f { writer = w.coalescer; sink = w.sink }, io)

  pub land : Fetch Disk × Flow → Fetch Disk × Flow
  unfolding settle
  land (f, io) = (f, io)
  land (f, broken) = settle f broken (flush pwrite_all replace_bitmap f.writer f.sink)
  land (f, stopped) = settle f stopped (flush pwrite_all replace_bitmap f.writer f.sink)
  land (f, going) = settle f going (flush pwrite_all replace_bitmap f.writer f.sink)

  -- One response with its bytes, from a resume point.
  pub respond : ℕ → ℕ → Entry Disk → List Round → Fetch Disk × Flow
  respond merged_start reserved sink rounds = land (
      stream rounds (record {
        cursor = merged_start;
        writer = record { start = 0; buf = [] };
        sink = sink;
        published = merged_start;
        reserved = reserved;
      }))
