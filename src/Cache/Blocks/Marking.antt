-- ===== src/Cache/Blocks/Marking.antt =====
-- src/cache.rs, `write_range`: the whole loop over the blocks that a write reaches.
use mathlib.Core.Path.{subst}
use native.Mathlib.Nat.{le-div_iff_mul-le, div-lt_iff_lt-mul}
use native.Mathlib.Decide.{ℕ_discrete}
use hydraria.Prelude.{
  ℕ, zero, suc, ◌+◌, ◌-◌, ◌*◌, ◌/◌, ◌≤◌, ◌<◌, ◌≡◌, refl, ◌∙◌, Bool, ◌||◌, ◌&&◌, ◌==◌, arith,
}
use hydraria.Cache.Intervals.{within}
use hydraria.Cache.Blocks.{
  Marks, mark_step, mark_range, holds_at, size_of_block, IsGeometry, IsMarked,
}
use hydraria.Cache.Blocks.Step.{mark_step-IsMarked, mark_step-holds_near, mark_step-holds_far}

mul_le_of_le_div : (d c a : ℕ) → c ≤ a / d → c * d ≤ a
mul_le_of_le_div d c a h = let p : c * d ≤ a / d * d = grind arith in omega (arith, p)

le_block_end : (d a b : ℕ) → 0 < d → a / d ≤ b → a ≤ b * d + d - 1
le_block_end d a b p h = let q : a / d * d ≤ b * d = grind arith in omega (arith, q)

div_mono : (d a b : ℕ) → 0 < d → a ≤ b → a / d ≤ b / d
div_mono d a b p h =
    (le-div_iff_mul-le p).1 (omega (arith, mul_le_of_le_div d (a / d) a (omega arith)))

-- Byte `r` of block `b` lies in `[start, end]`, and the block among the `n` from `first` on.
abbrev pub reached : ℕ → ℕ → ℕ → ℕ → ℕ → ℕ → ℕ → Bool
reached bs start end first n b r = within first (first + n) b && within start (end + 1) (b * bs + r)

reached_split :
    (bs start end first n b r : ℕ) (old : Bool)
    → reached bs start end (first + 1) n b r
        || (first == b && within start (end + 1) (b * bs + r) || old)
      ≡ reached bs start end first (suc n) b r || old
reached_split bs start end first n b r old = ground arith

reached_all :
    (bs start end b r : ℕ)
    → 0 < bs
    → start ≤ end
    → r < bs
    → reached bs start end (start / bs) (end / bs + 1 - start / bs) b r
      ≡ within start (end + 1) (b * bs + r)
reached_all bs start end b r p ordered h = ground (
  arith,
  div_mono bs start end p ordered,
  (le-div_iff_mul-le {x = b} {y = end} p).1,
  (div-lt_iff_lt-mul {x = start} {y = b + 1} p).1,
)

module _ {total bs : ℕ} (g : IsGeometry total bs) (start end : ℕ) (ordered : start ≤ end)
    (e_in : end < total) where
  mark_step-holds :
      (b b' r : ℕ) (m : Marks)
      → start ≤ b * bs + bs - 1
      → b * bs ≤ end
      → IsMarked total bs m
      → r < size_of_block total bs b'
      → holds_at (mark_step total bs start end b m) b' r
        ≡ b == b' && within start (end + 1) (b' * bs + r) || holds_at m b' r
  mark_step-holds b b' r m low high v h = elim (ℕ_discrete b b') [
    | yes p ↦
        subst
          (λ c.
            r < size_of_block total bs c
            → holds_at (mark_step total bs start end b m) c r
              ≡ b == c && within start (end + 1) (c * bs + r) || holds_at m c r)
          p
          (λ h'.
            mark_step-holds_near g start end b (omega arith) low high ordered e_in m v r h'
            ∙ ground arith)
          h
    | no p ↦
        mark_step-holds_far g start end b (omega arith) low high ordered e_in m v b' r p
        ∙ ground arith
  ]

  -- The whole loop, over blocks that the write reaches.
  mark_range-IsMarked :
      (n b : ℕ) (m : Marks)
      → start / bs ≤ b
      → b + n ≤ end / bs + 1
      → IsMarked total bs m
      → IsMarked total bs (mark_range total bs start end n b m)
  unfolding mark_range
  mark_range-IsMarked zero b m low high v = v
  mark_range-IsMarked (suc n) b m low high v =
      mark_range-IsMarked n (b + 1) (mark_step total bs start end b m) (omega arith) (omega arith) (
        mark_step-IsMarked g start end b (omega (arith, mul_le_of_le_div bs b end (omega arith)))
          (le_block_end bs start b g.positive low) (mul_le_of_le_div bs b end (omega arith)) ordered
          e_in m v)

  mark_range-holds :
      (n b b' r : ℕ) (m : Marks)
      → start / bs ≤ b
      → b + n ≤ end / bs + 1
      → IsMarked total bs m
      → r < size_of_block total bs b'
      → holds_at (mark_range total bs start end n b m) b' r
        ≡ reached bs start end b n b' r || holds_at m b' r
  unfolding mark_range
  mark_range-holds zero b b' r m low high v h = ground arith
  mark_range-holds (suc n) b b' r m low high v h =
      let top = mul_le_of_le_div bs b end (omega arith) in
      let bottom = le_block_end bs start b g.positive low in
      let now = mark_step-holds b b' r m bottom top v h in
      mark_range-holds n (b + 1) b' r (mark_step total bs start end b m) (omega arith) (omega arith)
        (mark_step-IsMarked g start end b (omega arith) bottom top ordered e_in m v) h
      ∙ rw now (reached_split bs start end b n b' r (holds_at m b' r))

  -- The rounds that `write_range` makes.
  module _ (m : Marks) (v : IsMarked total bs m) where
    abbrev rounds : ℕ
    rounds = end / bs + 1 - start / bs

    quotient_le : start / bs ≤ end / bs
    quotient_le = div_mono bs start end g.positive ordered

    pub mark_all-IsMarked : IsMarked total bs (mark_range total bs start end rounds (start / bs) m)
    mark_all-IsMarked =
        mark_range-IsMarked rounds (start / bs) m (omega arith) (omega (arith, quotient_le)) v

    pub mark_all-holds :
        (b r : ℕ)
        → r < size_of_block total bs b
        → holds_at (mark_range total bs start end rounds (start / bs) m) b r
          ≡ within start (end + 1) (b * bs + r) || holds_at m b r
    mark_all-holds b r h =
        mark_range-holds rounds (start / bs) b r m (omega arith) (omega (arith, quotient_le)) v h
        ∙ rw (reached_all bs start end b r g.positive ordered (omega arith)) refl
