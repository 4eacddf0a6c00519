-- ===== src/Cache/Entry/Runs.antt =====
-- src/cache.rs, `contiguous_from`: the run of readable bytes inside one block.
use native.Mathlib.Nat.{le-div_iff_mul-le, div-lt_iff_lt-mul}
use hydraria.Prelude.{
  ℕ, ◌+◌, ◌*◌, ◌/◌, ◌%◌, ◌≤◌, ◌<◌, ◌≡◌, refl, Bool, true, false, [], ◌∷◌, get_elem?, Bool-cases,
  Option-cases, inl, inr, arith,
}
use hydraria.Cache.Bitmap.{has_block}
use hydraria.Cache.Intervals.{Intervals, covered, IsMinimalIn}
use hydraria.Cache.Intervals.Full.{covered_below}
use hydraria.Cache.Blocks.{holds_at, size_of_block}
use hydraria.Cache.Blocks.Geometry.{block_len_lem}
use hydraria.Cache.Entry.{Entry, marks, find_run, covered_to, present, IsValid}

-- `to` is the end of the run of bytes of `has` from `at` on, within `size`.
abbrev pub IsRun : (ℕ → Bool) → ℕ → ℕ → ℕ → Type 0
IsRun has size at to =
    (at ≤ to)
    × (to ≤ size)
    × ((r : ℕ) → at ≤ r → r < to → has r ≡ true)
    × (to < size → has to ≡ false)

find_run-IsRun :
    (size from : ℕ) (xs : Intervals) (at : ℕ)
    → at < size
    → IsMinimalIn from size xs
    → IsRun (covered xs) size at (find_run xs at)
unfolding find_run
find_run-IsRun size from [] at h m =
    (omega arith, omega arith, λ r p q. absurd (omega arith), λ p. refl)
find_run-IsRun size from ((lo, hi) ∷ rest) at h m =
    let ih = find_run-IsRun size (hi + 1) rest at h m.3 in
    (
      ground arith,
      ground arith,
      λ r p q. ground (arith, ih.2 r p),
      λ p.
          ground
            (arith, ih.3, covered_below size (hi + 1) rest hi, covered_below size (hi + 1) rest at),
    )

quotient_of : (bs b r : ℕ) → r < bs → (b * bs + r) / bs ≡ b
quotient_of bs b r h =
    let pos : 0 < bs = omega arith in
    omega (
      arith,
      (le-div_iff_mul-le {x = b} {y = b * bs + r} pos).1 (omega arith),
      (div-lt_iff_lt-mul {x = b * bs + r} {y = b + 1} pos).1 (omega arith),
    )

remainder_of : (bs b r : ℕ) → r < bs → (b * bs + r) % bs ≡ r
remainder_of bs b r h =
    let q : (b * bs + r) / bs * bs + (b * bs + r) % bs ≡ b * bs + r = omega arith in
    let k : (b * bs + r) / bs * bs ≡ b * bs = rw (quotient_of bs b r h) refl in omega (arith, q, k)

module _ {Disk : Type 0} (e : Entry Disk) (v : IsValid e) where
  pub present_at :
      (b r : ℕ)
      → r < e.meta.block_size
      → present e (b * e.meta.block_size + r) ≡ holds_at (marks e) b r
  unfolding present
  present_at b r h =
      rw (quotient_of e.meta.block_size b r h, remainder_of e.meta.block_size b r h) refl

  pub covered_to-IsRun :
      (b at : ℕ)
      → b * e.meta.block_size < e.meta.total_size
      → at < size_of_block e.meta.total_size e.meta.block_size b
      → IsRun
          (λ r. holds_at (marks e) b r)
          (size_of_block e.meta.total_size e.meta.block_size b)
          at
          (covered_to e b at)
  unfolding covered_to holds_at
  covered_to-IsRun b at inside h = elim (Bool-cases (has_block e.bitmap b)) [
    | inl full ↦
        rw (full, block_len_lem v.geometry b inside)
          (omega arith, omega arith, λ r p q. refl, λ p. absurd (omega arith))
    | inr part ↦ rw part (elim (Option-cases (get_elem? e.partial b)) [
      | inl e₀ ↦ rw e₀ (omega arith, omega arith, λ r p q. absurd (omega arith), λ p. refl)
      | inr (slot, e₀) ↦ rw e₀ (
          find_run-IsRun (size_of_block e.meta.total_size e.meta.block_size b) 0 slot at h
            (v.marked.minimal b slot inside e₀))
    ])
  ]
