-- ===== src/Fetch/Stream/Items.antt =====
-- src/engine.rs, `fetch_claim`: what each item of a response leaves on disk and in the buffer.
use hydraria.Prelude.{
  ℕ, ◌+◌, ◌-◌, ◌≤◌, ◌<◌, min, ◌≡◌, refl, ◌∙◌, Bool, true, ◌||◌, List, [], ◌∷◌, Option, length, ltb,
  leb, ◌==◌, arith, Bool-cases, inl, inr, wrapping_add, wrapping_sub, u64_mod, ◌⊎◌, take,
  length-take,
}
use hydraria.Cache.Intervals.{within}
use hydraria.Cache.Entry.{Entry, present}
use hydraria.Cache.Coalescer.{write, pending, accepted}
use hydraria.Cache.Coalescer.Ends.{EndsAt, write-EndsAt}
use hydraria.Cache.Coalescer.Stages.{IsReady, flush-Accepts}
use hydraria.Cache.Coalescer.Durable.{write-accepted, write-IsReady}
use hydraria.Fetch.Pipeline.{ByteTransform, length-transform_outgoing}
use hydraria.Fetch.Stream.{
  Item, received, failed, Round, Fetch, Flow, going, stopped, broken, io, outgoing, advance,
  deliver, carry_on, stream,
}

-- Between two rounds: what was received from `origin` on is on disk or in the buffer, which ends at
-- the cursor, and nothing else has changed.
pub record IsFetching {Disk : Type 0} (total origin : ℕ) (before : Entry Disk) (f : Fetch Disk)
    : Type 0 where
  pub ready : IsReady total (record { sink = f.sink; coalescer = f.writer; ok = true })
  pub forward : origin ≤ f.cursor
  pub inside : f.cursor ≤ total
  pub ends : EndsAt f.writer f.cursor
  pub mark : f.published ≡ f.cursor - length f.writer.buf
  pub committed : f.reserved ≤ f.cursor
  pub known :
      (x : ℕ)
      → x < total
      → pending f.writer x || present f.sink x ≡ within origin f.cursor x || present before x

-- The claim's end stays in the file.
abbrev pub AllInside : ℕ → List Round → Type 0
AllInside total [] = Unit
AllInside total (r ∷ rs) = (r.live_end < total) × AllInside total rs

module _ {Disk : Type 0} (pwrite_all : Disk → List ℕ → ℕ → Disk × Bool)
    (replace_bitmap : Disk → List ℕ → Disk × Bool) (pipeline : Option (List ByteTransform))
    (transform_on_write : Bool) (total : ℕ) (word : total < u64_mod) (origin : ℕ)
    (before : Entry Disk) where
  length-outgoing :
      (cursor : ℕ) (bytes : List ℕ)
      → length (outgoing pwrite_all replace_bitmap pipeline transform_on_write cursor bytes)
        ≡ length bytes
  unfolding outgoing
  length-outgoing cursor bytes = elim (Bool-cases transform_on_write) [
    | inl on ↦ rw on (length-transform_outgoing pipeline cursor bytes)
    | inr off ↦ rw off refl
  ]

  -- A round's result: the write failed, or the loop's state is sound.
  abbrev pub IsServed : Fetch Disk × Flow → Type 0
  IsServed r = (r.1 ≡ io) ⊎ IsFetching total origin before r.0

  -- A write of bytes at the cursor.
  advance-IsServed :
      (f : Fetch Disk) (n size : ℕ) (bytes : List ℕ) (coalesce : Bool)
      → length bytes ≡ n
      → 0 < n
      → f.cursor + n ≤ total
      → IsFetching total origin before f
      → IsServed (
          advance pwrite_all replace_bitmap pipeline transform_on_write f n size
            (write pwrite_all replace_bitmap f.writer f.sink f.cursor bytes coalesce))
  unfolding advance
  advance-IsServed f n size bytes coalesce e more p v =
      let w = write pwrite_all replace_bitmap f.writer f.sink f.cursor bytes coalesce in
      elim (Bool-cases w.ok) [
        | inr bad ↦ rw bad (inl refl)
        | inl good ↦
            let inside : f.cursor + length bytes ≤ total = omega (arith, e) in
            let clean =
              flush-Accepts pwrite_all replace_bitmap total f.writer f.sink
                (λ x. pending f.writer x || present f.sink x)
                (record { ready = v.ready; knows = λ ok x h. refl }) in
            let ends =
              write-EndsAt pwrite_all replace_bitmap f.writer f.sink f.cursor bytes coalesce
                (omega (arith, e)) (omega (arith, v.ready.inside, word))
                (omega (arith, clean.ready.inside, word)) good in
            let ready =
              write-IsReady pwrite_all replace_bitmap total f.writer f.sink f.cursor bytes coalesce
                v.ready inside in
            let ends' = rw e at ends in
            let all : (x : ℕ)
                → x < total
                → accepted w x
                  ≡ within f.cursor (f.cursor + n) x || (pending f.writer x || present f.sink x) =
              λ x h. rw e at (
                write-accepted pwrite_all replace_bitmap total f.writer f.sink f.cursor bytes
                  coalesce x v.ready inside h good) in
            let moved : wrapping_add f.cursor n ≡ f.cursor + n = omega (arith, word) in
            simp (good, moved)
              (inr (record {
                ready = record { valid = ready.valid; size = ready.size; inside = ready.inside };
                forward = omega (arith, v.forward);
                inside = p;
                ends = ends';
                committed = omega (arith, v.committed, v.mark, word, v.inside);
                mark = ground (arith, ends', word);
                known = λ x h. ground (arith, v.known x h, all x h);
              }))
      ]

  deliver-IsServed :
      (f : Fetch Disk) (i : Item) (live_end below : ℕ)
      → live_end < total
      → IsFetching total origin before f
      → IsServed (deliver pwrite_all replace_bitmap pipeline transform_on_write f i live_end below)
  unfolding deliver
  deliver-IsServed f failed live_end below q v = inr v
  deliver-IsServed f (received b) live_end below q v = elim (Bool-cases (length b == 0)) [
    | inl empty ↦ rw empty (inr v)
    | inr some_bytes ↦ simp some_bytes (elim (Bool-cases (ltb live_end f.cursor)) [
      | inl past ↦ rw past (inr v)
      | inr open_end ↦
          let n = min (wrapping_add (wrapping_sub live_end f.cursor) 1) (length b) in
          let slice : length (take n b) ≡ n = length-take n b ∙ omega arith in
          rw open_end (
            advance-IsServed f n (length b)
              (outgoing pwrite_all replace_bitmap pipeline transform_on_write f.cursor (take n b))
              (leb below f.cursor) (length-outgoing f.cursor (take n b) ∙ slice)
              (ground (arith, word)) (ground (arith, word)) v)
    ])
  ]

  carry_on-IsServed :
      (next : Fetch Disk → Fetch Disk × Flow)
      → ((g : Fetch Disk) → IsFetching total origin before g → IsServed (next g))
      → (out : Fetch Disk × Flow) → IsServed out
      → IsServed (carry_on pwrite_all replace_bitmap pipeline transform_on_write next out)
  unfolding carry_on
  carry_on-IsServed next on (g, going) (inl wrong) = cc
  carry_on-IsServed next on (g, going) (inr v) = on g v
  carry_on-IsServed next on (g, stopped) v = v
  carry_on-IsServed next on (g, broken) v = v
  carry_on-IsServed next on (g, io) v = v

  pub stream-IsServed :
      (rounds : List Round) (f : Fetch Disk)
      → AllInside total rounds
      → IsFetching total origin before f
      → IsServed (stream pwrite_all replace_bitmap pipeline transform_on_write rounds f)
  unfolding stream
  stream-IsServed [] f inside v = inr v
  stream-IsServed (r ∷ rs) f (first, others) v =
      carry_on-IsServed (λ g. stream pwrite_all replace_bitmap pipeline transform_on_write rs g)
        (λ g w. stream-IsServed rs g others w)
        (deliver pwrite_all replace_bitmap pipeline transform_on_write f r.item r.live_end
          r.write_through_below)
        (deliver-IsServed f r.item r.live_end r.write_through_below first v)
