-- ===== src/Cache/Coalescer/Ends.antt =====
-- src/cache.rs, `WriteCoalescer`: after a write that returned `Ok`, the buffer is empty or ends where
-- the written bytes end.
use hydraria.Prelude.{
  ℕ, ◌+◌, ◌<◌, ◌≡◌, ◌⊎◌, refl, Bool, true, false, List, length, leb, ◌==◌, Bool-cases, inl, inr,
  arith, u64_mod,
}
use hydraria.Cache.Entry.{Entry, write_range}
use hydraria.Cache.Coalescer.{
  Coalescer, Written, flush, write_through, append, keep, take_in, joins, write, coalesce_bytes,
}
use hydraria.Cache.Coalescer.Stages.{take_in_lem}

abbrev pub EndsAt : Coalescer → ℕ → Type 0
EndsAt c end = (length c.buf ≡ 0) ⊎ (c.start + length c.buf ≡ end)

module _ {Disk : Type 0} (pwrite_all : Disk → List ℕ → ℕ → Disk × Bool)
    (replace_bitmap : Disk → List ℕ → Disk × Bool) where
  flush-empty :
      (c : Coalescer) (sink : Entry Disk)
      → (flush pwrite_all replace_bitmap c sink).ok ≡ true
      → length (flush pwrite_all replace_bitmap c sink).coalescer.buf ≡ 0
  unfolding flush
  flush-empty c sink ok = elim (Bool-cases (length c.buf == 0)) [
    | inl empty ↦ simp empty (ground arith)
    | inr filled ↦
        let good : (write_range pwrite_all replace_bitmap sink c.start c.buf).1 ≡ true =
          simp filled at ok in
        simp (filled, good) refl
  ]

  keep-EndsAt :
      (c : Coalescer) (sink : Entry Disk)
      → (keep pwrite_all replace_bitmap c sink).ok ≡ true
      → EndsAt (keep pwrite_all replace_bitmap c sink).coalescer (c.start + length c.buf)
  unfolding keep
  keep-EndsAt c sink ok = elim (Bool-cases (leb coalesce_bytes (length c.buf))) [
    | inl full ↦ simp full (inl (flush-empty c sink (simp full at ok)))
    | inr room ↦ simp room (inr refl)
  ]

  append-EndsAt :
      (at : ℕ) (content : List ℕ) (w : Written Disk)
      → w.coalescer.start + length w.coalescer.buf < u64_mod
      → (w.ok ≡ true → joins w.coalescer at ≡ true)
      → (append pwrite_all replace_bitmap at content w).ok ≡ true
      → EndsAt (append pwrite_all replace_bitmap at content w).coalescer (at + length content)
  unfolding append
  append-EndsAt at content w small joined ok = elim (Bool-cases w.ok) [
    | inl good ↦
        let grown = (take_in_lem at content w.coalescer (joined good) small).0 in
        simp good
          (rw grown at (keep-EndsAt (take_in at content w.coalescer) w.sink (simp good at ok)))
    | inr bad ↦ let e = simp bad at ok in cc
  ]

  write_through-empty :
      (at : ℕ) (content : List ℕ) (w : Written Disk)
      → (w.ok ≡ true → length w.coalescer.buf ≡ 0)
      → (write_through pwrite_all replace_bitmap at content w).ok ≡ true
      → length (write_through pwrite_all replace_bitmap at content w).coalescer.buf ≡ 0
  unfolding write_through
  write_through-empty at content w clean ok = elim (Bool-cases w.ok) [
    | inl good ↦ simp good (clean good)
    | inr bad ↦ let e = simp bad at ok in cc
  ]

  pub write-EndsAt :
      (c : Coalescer) (sink : Entry Disk) (at : ℕ) (content : List ℕ) (coalesce : Bool)
      → 0 < length content
      → c.start + length c.buf < u64_mod
      → (flush pwrite_all replace_bitmap c sink).coalescer.start
          + length (flush pwrite_all replace_bitmap c sink).coalescer.buf
        < u64_mod
      → (write pwrite_all replace_bitmap c sink at content coalesce).ok ≡ true
      → EndsAt
          (write pwrite_all replace_bitmap c sink at content coalesce).coalescer
          (at + length content)
  unfolding write
  write-EndsAt c sink at content coalesce some_bytes small small' ok =
      let something : length content == 0 ≡ false = ground arith in
      let ok' = simp something at ok in
      simp something (elim (Bool-cases coalesce) [
        | inr through ↦ rw through (
            inl (
              write_through-empty at content (flush pwrite_all replace_bitmap c sink)
                (flush-empty c sink) (rw through at ok')))
        | inl gather ↦ rw gather (elim (Bool-cases (joins c at)) [
          | inl fits ↦ simp fits (
              append-EndsAt at content (record { sink = sink; coalescer = c; ok = true }) small
                (λ good. fits) (simp (gather, fits) at ok'))
          | inr apart ↦ simp apart (
              append-EndsAt at content (flush pwrite_all replace_bitmap c sink) small'
                (λ good. let e = flush-empty c sink good in ground arith)
                (simp (gather, apart) at ok'))
        ])
      ])
