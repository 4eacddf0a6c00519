-- ===== src/Cache/Entry/Accepted.antt =====
-- A write that returned `Ok`.
use hydraria.Prelude.{
  ℕ, ◌+◌, ◌≤◌, ◌<◌, ◌≡◌, refl, ◌∙◌, Bool, true, false, ◌||◌, List, length, ◌==◌, Bool-cases, inl,
  inr, arith,
}
use hydraria.Cache.Intervals.{within}
use hydraria.Cache.Entry.{
  Entry, notify, persist_bitmap, account, record_write, write_range, present, IsValid,
}
use hydraria.Cache.Entry.Written.{write_range-present}

module _ {Disk : Type 0} (pwrite_all : Disk → List ℕ → ℕ → Disk × Bool)
    (replace_bitmap : Disk → List ℕ → Disk × Bool) where
  pub write_range-meta :
      (e : Entry Disk) (start : ℕ) (content : List ℕ)
      → (write_range pwrite_all replace_bitmap e start content).0.meta ≡ e.meta
  unfolding write_range record_write account notify persist_bitmap
  write_range-meta e start content = ground arith

  write_range-failed :
      (e : Entry Disk) (start : ℕ) (content : List ℕ)
      → (pwrite_all e.file content start).1 ≡ false
      → 0 < length content
      → 0 < e.meta.total_size
      → (write_range pwrite_all replace_bitmap e start content).1 ≡ false
  unfolding write_range
  write_range-failed e start content bad some_bytes some_size =
      let go : (length content == 0 || e.meta.total_size == 0) ≡ false = ground arith in
      rw (go, bad) refl

  -- It wrote what it was asked to.
  pub write_range-written :
      (e : Entry Disk) (start : ℕ) (content : List ℕ) (x : ℕ)
      → start + length content ≤ e.meta.total_size
      → IsValid e
      → x < e.meta.total_size
      → (write_range pwrite_all replace_bitmap e start content).1 ≡ true
      → present (write_range pwrite_all replace_bitmap e start content).0 x
        ≡ within start (start + length content) x || present e x
  write_range-written e start content x p v h ok =
      let known = write_range-present pwrite_all replace_bitmap e start content x p v h in
      elim (Bool-cases (pwrite_all e.file content start).1) [
        | inl good ↦ known ∙ rw good refl
        | inr bad ↦
            let none_there : length content ≡ 0 =
              ground (arith, write_range-failed e start content bad) in
            known ∙ rw bad (ground arith)
      ]

  account-ok :
      (e : Entry Disk) (n : ℕ)
      → ((disk : Disk) (bitmap : List ℕ) → (replace_bitmap disk bitmap).1 ≡ true)
      → (account pwrite_all replace_bitmap e n).1 ≡ true
  unfolding account notify persist_bitmap
  account-ok e n replaces = ground (arith, replaces e.file e.bitmap)

  -- Where the file system does what it is asked, the write returns `Ok`.
  pub write_range-ok :
      (e : Entry Disk) (start : ℕ) (content : List ℕ)
      → ((disk : Disk) (bytes : List ℕ) (at : ℕ) → (pwrite_all disk bytes at).1 ≡ true)
      → ((disk : Disk) (bitmap : List ℕ) → (replace_bitmap disk bitmap).1 ≡ true)
      → (write_range pwrite_all replace_bitmap e start content).1 ≡ true
  unfolding write_range record_write
  write_range-ok e start content writes replaces =
      elim (Bool-cases (length content == 0 || e.meta.total_size == 0)) [
        | inl skip ↦ rw skip refl
        | inr go ↦ rw (go, writes e.file content start) (account-ok _ _ replaces)
      ]
