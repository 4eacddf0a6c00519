-- ===== src/Cache/Entry/Written.antt =====
-- What `write_range` records, whether or not the file system fails.
use hydraria.Prelude.{
  ℕ, ◌+◌, ◌-◌, ◌*◌, ◌/◌, ◌%◌, ◌≤◌, ◌<◌, ◌≡◌, refl, ◌∙◌, Bool, ◌||◌, ◌&&◌, List, length, ◌==◌,
  Bool-cases, inl, inr, arith, wrapping_add, wrapping_sub,
}
use hydraria.Cache.Intervals.{within}
use hydraria.Cache.Blocks.{holds_at, size_of_block, IsGeometry}
use hydraria.Cache.Blocks.Marking.{mark_all-IsMarked, mark_all-holds}
use hydraria.Cache.Entry.{
  Entry, marks, notify, persist_bitmap, account, record_write, write_range, present, IsValid,
}

-- Two entries that record the same bytes of the same file.
record SameMarks {Disk : Type 0} (e e' : Entry Disk) : Type 0 where
  meta : e'.meta ≡ e.meta
  vectors : marks e' ≡ marks e

SameMarks-IsValid : {Disk : Type 0} (e e' : Entry Disk) → SameMarks e e' → IsValid e → IsValid e'
SameMarks-IsValid e e' s v = record {
  geometry = rw s.meta v.geometry;
  marked = rw (s.meta, s.vectors) v.marked;
}

SameMarks-present :
    {Disk : Type 0} (e e' : Entry Disk) (x : ℕ) → SameMarks e e' → present e' x ≡ present e x
unfolding present
SameMarks-present e e' x s = rw (s.meta, s.vectors) refl

-- The last byte of a write that stays within the file.
last_byte :
    (start n total bs : ℕ)
    → 0 < n
    → start + n ≤ total
    → IsGeometry total bs
    → wrapping_sub (wrapping_add start n) 1 ≡ start + n - 1
last_byte start n total bs p h g = omega (arith, g.fits)

byte_in_block : (x total bs : ℕ) → 0 < bs → x < total → x % bs < size_of_block total bs (x / bs)
byte_in_block x total bs p h = let q : x / bs * bs + x % bs ≡ x = omega arith in omega (arith, q)

module _ {Disk : Type 0} (pwrite_all : Disk → List ℕ → ℕ → Disk × Bool)
    (replace_bitmap : Disk → List ℕ → Disk × Bool) where
  account-SameMarks :
      (e : Entry Disk) (n : ℕ) → SameMarks e (account pwrite_all replace_bitmap e n).0
  unfolding account notify persist_bitmap
  account-SameMarks e n = record { meta = ground arith; vectors = ground arith }

  record_write-IsValid :
      (e : Entry Disk) (start end : ℕ)
      → start ≤ end
      → end < e.meta.total_size
      → IsValid e
      → IsValid (record_write pwrite_all replace_bitmap e start end).0
  unfolding record_write
  record_write-IsValid e start end p q v =
      let w = mark_all-IsMarked v.geometry start end p q (marks e) v.marked in
      SameMarks-IsValid _ _ (account-SameMarks _ _) (record {
        geometry = v.geometry;
        marked = record { bytes = w.bytes; roomy = w.roomy; slots = w.slots; minimal = w.minimal };
      })

  record_write-present :
      (e : Entry Disk) (start end x : ℕ)
      → start ≤ end
      → end < e.meta.total_size
      → IsValid e
      → x < e.meta.total_size
      → present (record_write pwrite_all replace_bitmap e start end).0 x
        ≡ within start (end + 1) x || present e x
  unfolding record_write
  record_write-present e start end x p q v h =
      let bs = e.meta.block_size in
      let here : x / bs * bs + x % bs ≡ x = omega arith in
      SameMarks-present _ _ x (account-SameMarks _ _)
      ∙ unfold present holds_at in
        mark_all-holds v.geometry start end p q (marks e) v.marked (x / bs) (x % bs)
          (byte_in_block x e.meta.total_size bs v.geometry.positive h)
        ∙ rw here refl

  -- Whatever the file system does, `write_range` within the file keeps the entry well formed.
  pub write_range-IsValid :
      (e : Entry Disk) (start : ℕ) (content : List ℕ)
      → start + length content ≤ e.meta.total_size
      → IsValid e
      → IsValid (write_range pwrite_all replace_bitmap e start content).0
  unfolding write_range
  write_range-IsValid e start content p v =
      elim (Bool-cases (length content == 0 || e.meta.total_size == 0)) [
        | inl skip ↦ rw skip v
        | inr go ↦
            let some_bytes : 0 < length content = ground arith in
            rw go (elim (Bool-cases (pwrite_all e.file content start).1) [
              | inl done ↦
                  rw
                    (
                      done,
                      last_byte start (length content) e.meta.total_size e.meta.block_size
                          some_bytes p v.geometry,
                    )
                    (record_write-IsValid _ start _ (omega arith) (omega arith)
                      (record { geometry = v.geometry; marked = v.marked }))
              | inr failed ↦ rw failed (record { geometry = v.geometry; marked = v.marked })
            ])
      ]

  -- After `write_range` within the file, the bytes known to be on disk are those known before
  -- and, if the positional write succeeded, the bytes written, whether or not the bitmap could be
  -- stored.
  pub write_range-present :
      (e : Entry Disk) (start : ℕ) (content : List ℕ) (x : ℕ)
      → start + length content ≤ e.meta.total_size
      → IsValid e
      → x < e.meta.total_size
      → present (write_range pwrite_all replace_bitmap e start content).0 x
        ≡ (pwrite_all e.file content start).1 && within start (start + length content) x
          || present e x
  unfolding write_range
  write_range-present e start content x p v h =
      elim (Bool-cases (length content == 0 || e.meta.total_size == 0)) [
        | inl skip ↦ rw skip (ground arith)
        | inr go ↦
            let some_bytes : 0 < length content = ground arith in
            rw go (elim (Bool-cases (pwrite_all e.file content start).1) [
              | inl done ↦
                  rw
                    (
                      done,
                      last_byte start (length content) e.meta.total_size e.meta.block_size
                          some_bytes p v.geometry,
                    )
                    (record_write-present _ start (start + length content - 1) x (omega arith)
                        (omega arith) (record { geometry = v.geometry; marked = v.marked }) h
                      ∙ (let last : start + length content - 1 + 1 ≡ start + length content =
                            omega arith in
                          rw last (unfold present in refl)))
              | inr failed ↦ rw failed (unfold present in refl)
            ])
      ]
