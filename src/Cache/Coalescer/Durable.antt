-- ===== src/Cache/Coalescer/Durable.antt =====
-- src/cache.rs, `WriteCoalescer`: `flush` and `write` as a whole.
use hydraria.Prelude.{
  ℕ, ◌+◌, ◌≤◌, ◌<◌, ◌≡◌, refl, Bool, true, ◌||◌, List, length, ◌==◌, arith, Bool-cases, inl, inr,
}
use hydraria.Cache.Intervals.{within}
use hydraria.Cache.Entry.{Entry, write_range, present}
use hydraria.Cache.Entry.Accepted.{write_range-written}
use hydraria.Cache.Coalescer.{Coalescer, flush, joins, write, pending, accepted}
use hydraria.Cache.Coalescer.Stages.{
  IsReady, Accepts, flush-Accepts, write_through-Accepts, append-Accepts, flush-joins,
}

module _ {Disk : Type 0} (pwrite_all : Disk → List ℕ → ℕ → Disk × Bool)
    (replace_bitmap : Disk → List ℕ → Disk × Bool) (total : ℕ) where
  -- When `flush` of a ready buffer and entry returns `Ok`, the buffer is empty, and the bytes on
  -- disk are those that were on disk or in the buffer.
  pub flush-durable :
      (c : Coalescer) (sink : Entry Disk) (x : ℕ)
      → IsReady total (record { sink = sink; coalescer = c; ok = true })
      → x < total
      → (flush pwrite_all replace_bitmap c sink).ok ≡ true
      → (length (flush pwrite_all replace_bitmap c sink).coalescer.buf ≡ 0)
        × (present (flush pwrite_all replace_bitmap c sink).sink x ≡ pending c x || present sink x)
  unfolding flush
  flush-durable c sink x v h ok = elim (Bool-cases (length c.buf == 0)) [
    | inl empty ↦ rw empty (ground arith, ground arith)
    | inr filled ↦
        let good : (write_range pwrite_all replace_bitmap sink c.start c.buf).1 ≡ true =
          rw filled at ok in
        let fits : c.start + length c.buf ≤ sink.meta.total_size =
          omega (arith, v.size, v.inside) in
        rw (filled, good)
          (
            refl,
            write_range-written pwrite_all replace_bitmap sink c.start c.buf x fits v.valid
                (omega (arith, v.size)) good,
          )
  ]

  -- What `write` starts from.
  known_before : Coalescer → Entry Disk → ℕ → Bool
  known_before c sink x = pending c x || present sink x

  write-Accepts :
      (c : Coalescer) (sink : Entry Disk) (at : ℕ) (content : List ℕ) (coalesce : Bool)
      → IsReady total (record { sink = sink; coalescer = c; ok = true })
      → at + length content ≤ total
      → Accepts total
          (λ x. within at (at + length content) x || known_before c sink x)
          (write pwrite_all replace_bitmap c sink at content coalesce)
  unfolding write known_before
  write-Accepts c sink at content coalesce v p =
      let now : Accepts total (λ x. known_before c sink x)
          (record { sink = sink; coalescer = c; ok = true }) =
        record { ready = v; knows = λ ok x h. refl } in
      let clean =
        flush-Accepts pwrite_all replace_bitmap total c sink (λ x. known_before c sink x) now in
      elim (Bool-cases (length content == 0)) [
        | inl nothing ↦ simp nothing (record { ready = v; knows = λ ok x h. ground arith })
        | inr something ↦ simp something (elim (Bool-cases coalesce) [
          | inr through ↦ rw through (
              write_through-Accepts pwrite_all replace_bitmap total at content
                (λ x. known_before c sink x) _ p clean)
          | inl gather ↦ rw gather (elim (Bool-cases (joins c at)) [
            | inl fits ↦ simp fits (
                append-Accepts pwrite_all replace_bitmap total at content
                  (λ x. known_before c sink x) _ p (λ ok. fits) now)
            | inr apart ↦ simp apart (
                append-Accepts pwrite_all replace_bitmap total at content
                  (λ x. known_before c sink x) _ p
                  (flush-joins pwrite_all replace_bitmap total c sink at) clean)
          ])
        ])
      ]

  -- When `write` of a buffer and an entry that are ready returns `Ok` for bytes within the file,
  -- coalesced or not, the bytes on disk or in the buffer are those that were before and the new
  -- ones: no others, and no fewer.
  pub write-accepted :
      (c : Coalescer) (sink : Entry Disk) (at : ℕ) (content : List ℕ) (coalesce : Bool) (x : ℕ)
      → IsReady total (record { sink = sink; coalescer = c; ok = true })
      → at + length content ≤ total
      → x < total
      → (write pwrite_all replace_bitmap c sink at content coalesce).ok ≡ true
      → accepted (write pwrite_all replace_bitmap c sink at content coalesce) x
        ≡ within at (at + length content) x || (pending c x || present sink x)
  unfolding known_before
  write-accepted c sink at content coalesce x v p h ok =
      (write-Accepts c sink at content coalesce v p).knows ok x h

  -- Whatever the file system does, `write` of bytes within the file leaves the entry well formed
  -- and the buffer within the file.
  pub write-IsReady :
      (c : Coalescer) (sink : Entry Disk) (at : ℕ) (content : List ℕ) (coalesce : Bool)
      → IsReady total (record { sink = sink; coalescer = c; ok = true })
      → at + length content ≤ total
      → IsReady total (write pwrite_all replace_bitmap c sink at content coalesce)
  write-IsReady c sink at content coalesce v p =
      (write-Accepts c sink at content coalesce v p).ready
