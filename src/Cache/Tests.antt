-- ===== src/Cache/Tests.antt =====
-- Runs of the block cache: a file of ten bytes in blocks of four.
use hydraria.Prelude.{
  ap, refl, ℕ, zero, suc, ◌≡◌, Bool, true, false, ◌||◌, ◌&&◌, List, [], ◌∷◌, none, some, get_elem?,
  min, arith, ◌-◌,
}
use hydraria.Cache.Intervals.{Intervals, within, IsSlot}
use hydraria.Cache.Meta.{Meta}
use hydraria.Cache.Entry.{Entry, write_range, contiguous_from, present, IsValid}
use hydraria.Cache.Entry.Staged.{Lists, staged_ranges, staged_ranges-Lists}
use hydraria.Cache.Entry.Written.{write_range-IsValid, write_range-present}
use hydraria.Cache.Entry.Accepted.{write_range-ok, write_range-meta}
use hydraria.Cache.Coalescer.{Coalescer, Written, flush, write, append, keep, take_in}
use hydraria.Cache.Coalescer.Stages.{IsReady}
use hydraria.Cache.Entry.Contiguous.{IsLongest, contiguous_from-IsLongest}

abbrev overwrite : List ℕ → List ℕ → ℕ → List ℕ
overwrite [] content start = []
overwrite (b ∷ bs) content (suc start) = b ∷ overwrite bs content start
overwrite (b ∷ bs) [] zero = b ∷ bs
overwrite (b ∷ bs) (c ∷ cs) zero = c ∷ overwrite bs cs zero

abbrev pub write_disk : List ℕ → List ℕ → ℕ → List ℕ × Bool
write_disk disk content start = (overwrite disk content start, true)

abbrev pub keep_disk : List ℕ → List ℕ → List ℕ × Bool
keep_disk disk bitmap = (disk, true)

abbrev pub file_meta : Meta
file_meta = record {
  etag = none;
  last_modified = none;
  total_size = 10;
  content_type = none;
  block_size = 4;
  urls = [];
}

abbrev other_mirror : Meta
other_mirror = record file_meta { urls = "https://mirror.example/file" ∷ [] }

abbrev pub new_entry : Entry (List ℕ)
new_entry = record {
  meta = file_meta;
  file = 0 ∷ 0 ∷ 0 ∷ 0 ∷ 0 ∷ 0 ∷ 0 ∷ 0 ∷ 0 ∷ 0 ∷ [];
  bitmap = 0 ∷ [];
  partial = [] ∷ [] ∷ [] ∷ [];
  bytes_cached = 0;
  bytes_written = 0;
  progress = 0;
  ephemeral = false;
}

empty_slots : (b : ℕ) (slot : Intervals) → get_elem? new_entry.partial b ≡ some slot → [] ≡ slot
empty_slots zero slot e = cc
empty_slots (suc zero) slot e = cc
empty_slots (suc (suc zero)) slot e = cc
empty_slots (suc (suc (suc b))) slot e = cc

pub new_entry-IsValid : IsValid new_entry
new_entry-IsValid = record {
  geometry = record { positive = omega arith; small = omega arith; fits = omega arith };
  marked = record {
    bytes = (omega arith, tt);
    roomy = λ b h. omega arith;
    slots = λ b h. omega arith;
    minimal = λ b slot h e. rw (← empty_slots b slot e) tt;
  };
}

-- Three bytes from the third on end block 0 and begin block 1.
abbrev written : Entry (List ℕ)
written = (write_range write_disk keep_disk new_entry 3 (7 ∷ 8 ∷ 9 ∷ [])).0

write_range-IsValid_example : IsValid written
write_range-IsValid_example =
    write_range-IsValid write_disk keep_disk new_entry 3 (7 ∷ 8 ∷ 9 ∷ []) (omega arith)
      new_entry-IsValid

write_range-present_example :
    present written 5
    ≡ (write_disk new_entry.file (7 ∷ 8 ∷ 9 ∷ []) 3).1 && within 3 6 5 || present new_entry 5
write_range-present_example =
    write_range-present write_disk keep_disk new_entry 3 (7 ∷ 8 ∷ 9 ∷ []) 5 (omega arith)
      new_entry-IsValid (omega arith)

contiguous_from-IsLongest_example :
    IsLongest written 3 (min 6 (written.meta.total_size - 3)) (contiguous_from written 3 6)
contiguous_from-IsLongest_example =
    contiguous_from-IsLongest written 3 6 write_range-IsValid_example

abbrev two_runs : Intervals
two_runs = (0, 2) ∷ (5, 6) ∷ []

two_runs-IsSlot : IsSlot 8 two_runs
two_runs-IsSlot =
    (omega arith, omega arith, omega arith, (omega arith, omega arith, omega arith, tt))

-- The list of mirrors may change.

-- Two bytes wait in the buffer; three more join them, and the buffer is flushed.
abbrev waiting : Coalescer
waiting = record { start = 1; buf = 5 ∷ 6 ∷ [] }

abbrev before : Written (List ℕ)
before = record { sink = new_entry; coalescer = waiting; ok = true }

before-IsReady : IsReady 10 before
before-IsReady = record { valid = new_entry-IsValid; size = refl; inside = omega arith }

abbrev after : Written (List ℕ)
after = write write_disk keep_disk waiting new_entry 3 (7 ∷ 8 ∷ 9 ∷ []) true

gathered : after.ok ≡ true
unfolding write append keep take_in
gathered = refl

flushed : (flush write_disk keep_disk waiting new_entry).ok ≡ true
unfolding flush
flushed = write_range-ok write_disk keep_disk new_entry 1 (5 ∷ 6 ∷ []) (λ d c a. refl) (λ d b. refl)

written-size : written.meta.total_size ≡ 10
written-size =
    ap (λ (m : Meta). m.total_size)
      (write_range-meta write_disk keep_disk new_entry 3 (7 ∷ 8 ∷ 9 ∷ []))

staged_ranges-Lists_example : Lists written 0 9 (staged_ranges written 0 9)
staged_ranges-Lists_example =
    staged_ranges-Lists written 0 9
      (write_range-IsValid write_disk keep_disk new_entry 3 (7 ∷ 8 ∷ 9 ∷ []) (omega arith)
        new_entry-IsValid)
      (omega (arith, written-size))
