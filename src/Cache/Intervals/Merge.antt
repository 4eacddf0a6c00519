-- ===== src/Cache/Intervals/Merge.antt =====
-- What `merge_interval` does to the set of bytes, and that it keeps the list minimal.
use hydraria.Prelude.{
  ℕ, ◌+◌, ◌≤◌, ◌<◌, min, max, ◌≡◌, refl, ◌||◌, [], ◌∷◌, inl, inr, arith, Bool-cases, leb,
}
use hydraria.Cache.Intervals.{
  Intervals, swallow, place, merge_interval, within, covered, IsMinimalIn, IsSlot,
}

module _ (bound : ℕ) where
  -- The window starts before the list and may reach into it.
  swallow-covered :
      (lo hi from : ℕ) (xs : Intervals) (x : ℕ)
      → lo < hi
      → lo ≤ from
      → IsMinimalIn from bound xs
      → covered (swallow lo hi xs) x ≡ within lo hi x || covered xs x
  unfolding swallow
  swallow-covered lo hi from [] x p q m = refl
  swallow-covered lo hi from ((s, e) ∷ rest) x p q m =
      ground (arith, swallow-covered (min lo s) (max hi e) (e + 1) rest x)

  place-covered :
      (lo hi from : ℕ) (xs : Intervals) (x : ℕ)
      → lo < hi
      → IsMinimalIn from bound xs
      → covered (place lo hi xs) x ≡ within lo hi x || covered xs x
  unfolding place
  place-covered lo hi from [] x p m = refl
  place-covered lo hi from ((s, e) ∷ rest) x p m = ground (
    arith,
    place-covered lo hi (e + 1) rest x,
    swallow-covered (min s lo) (max e hi) (e + 1) rest x,
  )

  swallow-IsMinimalIn :
      (from lo hi later : ℕ) (xs : Intervals)
      → from ≤ lo
      → lo < hi
      → hi ≤ bound
      → lo ≤ later
      → IsMinimalIn later bound xs
      → IsMinimalIn from bound (swallow lo hi xs)
  unfolding swallow
  swallow-IsMinimalIn from lo hi later [] p q b l m = (p, q, b, tt)
  swallow-IsMinimalIn from lo hi later ((s, e) ∷ rest) p q b l m =
      ground (arith, swallow-IsMinimalIn from (min lo s) (max hi e) (e + 1) rest)

  place-IsMinimalIn :
      (from lo hi : ℕ) (xs : Intervals)
      → from ≤ lo
      → lo < hi
      → hi ≤ bound
      → IsMinimalIn from bound xs
      → IsMinimalIn from bound (place lo hi xs)
  unfolding place
  place-IsMinimalIn from lo hi [] p q b m = (p, q, b, tt)
  place-IsMinimalIn from lo hi ((s, e) ∷ rest) p q b m = ground (
    arith,
    place-IsMinimalIn (e + 1) lo hi rest,
    swallow-IsMinimalIn from (min s lo) (max e hi) (e + 1) rest,
  )

-- On a minimal list, `merge_interval` adds exactly the bytes of the new interval.
pub merge_interval-covered :
    (block_len : ℕ) (xs : Intervals) (lo hi x : ℕ)
    → IsSlot block_len xs
    → covered (merge_interval xs lo hi) x ≡ within lo hi x || covered xs x
unfolding merge_interval
merge_interval-covered block_len xs lo hi x m = ground (arith, place-covered block_len lo hi 0 xs x)

-- `merge_interval` keeps the list sorted, disjoint, free of intervals that touch, and inside the
-- block, when the new interval ends inside it.
pub merge_interval-IsSlot :
    (block_len : ℕ) (xs : Intervals) (lo hi : ℕ)
    → hi ≤ block_len
    → IsSlot block_len xs
    → IsSlot block_len (merge_interval xs lo hi)
unfolding merge_interval
merge_interval-IsSlot block_len xs lo hi b m = elim (Bool-cases (leb hi lo)) [
  | inl empty ↦ rw empty m
  | inr filled ↦ rw filled (place-IsMinimalIn block_len 0 lo hi xs (omega arith) (ground arith) b m)
]
