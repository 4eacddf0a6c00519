-- ===== src/Cache/Coalescer/Working.antt =====
-- src/cache.rs, `WriteCoalescer`: on a disk that takes every write.
use hydraria.Prelude.{ℕ, ◌≡◌, refl, Bool, true, List, length, leb, ◌==◌, Bool-cases, inl, inr}
use hydraria.Cache.Entry.{Entry}
use hydraria.Cache.Entry.Accepted.{write_range-ok}
use hydraria.Cache.Coalescer.{
  Coalescer, Written, flush, write_through, append, keep, take_in, joins, write, coalesce_bytes,
}

module _ {Disk : Type 0} (pwrite_all : Disk → List ℕ → ℕ → Disk × Bool)
    (replace_bitmap : Disk → List ℕ → Disk × Bool)
    (writes : (disk : Disk) (bytes : List ℕ) (at : ℕ) → (pwrite_all disk bytes at).1 ≡ true)
    (replaces : (disk : Disk) (bitmap : List ℕ) → (replace_bitmap disk bitmap).1 ≡ true) where
  pub flush-ok :
      (c : Coalescer) (sink : Entry Disk) → (flush pwrite_all replace_bitmap c sink).ok ≡ true
  unfolding flush
  flush-ok c sink = elim (Bool-cases (length c.buf == 0)) [
    | inl empty ↦ rw empty refl
    | inr filled ↦
        rw filled (write_range-ok pwrite_all replace_bitmap sink c.start c.buf writes replaces)
  ]

  keep-ok : (c : Coalescer) (sink : Entry Disk) → (keep pwrite_all replace_bitmap c sink).ok ≡ true
  unfolding keep
  keep-ok c sink = elim (Bool-cases (leb coalesce_bytes (length c.buf))) [
    | inl full ↦ rw full (flush-ok c sink)
    | inr room ↦ rw room refl
  ]

  append-ok :
      (at : ℕ) (content : List ℕ) (w : Written Disk)
      → w.ok ≡ true
      → (append pwrite_all replace_bitmap at content w).ok ≡ true
  unfolding append
  append-ok at content w good = rw good (keep-ok (take_in at content w.coalescer) w.sink)

  write_through-ok :
      (at : ℕ) (content : List ℕ) (w : Written Disk)
      → w.ok ≡ true
      → (write_through pwrite_all replace_bitmap at content w).ok ≡ true
  unfolding write_through
  write_through-ok at content w good =
      rw good (write_range-ok pwrite_all replace_bitmap w.sink at content writes replaces)

  pub write-ok :
      (c : Coalescer) (sink : Entry Disk) (at : ℕ) (content : List ℕ) (coalesce : Bool)
      → (write pwrite_all replace_bitmap c sink at content coalesce).ok ≡ true
  unfolding write
  write-ok c sink at content coalesce = elim (Bool-cases (length content == 0)) [
    | inl nothing ↦ rw nothing refl
    | inr something ↦ simp something (elim (Bool-cases coalesce) [
      | inr through ↦
          rw through
            (write_through-ok at content (flush pwrite_all replace_bitmap c sink) (flush-ok c sink))
      | inl gather ↦ rw gather (elim (Bool-cases (joins c at)) [
        | inl fits ↦
            simp fits (append-ok at content (record { sink = sink; coalescer = c; ok = true }) refl)
        | inr apart ↦
            simp apart
              (append-ok at content (flush pwrite_all replace_bitmap c sink) (flush-ok c sink))
      ])
    ])
  ]
