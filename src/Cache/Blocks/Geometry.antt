-- ===== src/Cache/Blocks/Geometry.antt =====
-- Without overflow the positions of a block are the expected ones.
use hydraria.Prelude.{ℕ, ◌+◌, ◌-◌, ◌*◌, ◌%◌, ◌≤◌, ◌<◌, min, ◌≡◌, arith, u64_mod}
use hydraria.Cache.Blocks.{
  block_start, block_end, block_len, first_in, last_in, lo_in, hi_in, size_of_block, IsGeometry,
}

mul_mono_left : (b : ℕ) {m n : ℕ} → m ≤ n → b * m ≤ b * n
mul_mono_left b h = grind arith

module _ {total bs : ℕ} (g : IsGeometry total bs) (b : ℕ) (inside : b * bs < total) where
  pub block_start_lem : block_start bs b ≡ b * bs
  unfolding block_start
  block_start_lem = omega (arith, g.fits)

  block_lt : b + 1 < u64_mod
  block_lt = let p : b * 1 ≤ b * bs = mul_mono_left b g.positive in omega (arith, g.fits, p)

  wrapped_next : (b + 1) % u64_mod ≡ b + 1
  wrapped_next = omega (arith, block_lt)

  pub block_end_lem : block_end total bs b ≡ min (b * bs + bs) total - 1
  unfolding block_end
  block_end_lem = rw wrapped_next (omega (arith, g.fits, g.positive))

  pub block_len_lem : block_len total bs b ≡ size_of_block total bs b
  unfolding block_len
  block_len_lem = omega (arith, block_start_lem, block_end_lem, g.fits, g.positive)

  -- The part of `[start, end]` inside the block, relative to it.
  module _ (start end : ℕ) (low : start ≤ b * bs + bs - 1) (high : b * bs ≤ end)
      (ordered : start ≤ end) (e_in : end < total) where
    pub nonempty_in : first_in total bs start end b ≤ last_in total bs start end b
    unfolding first_in last_in
    nonempty_in = omega (arith, block_start_lem, block_end_lem, g.positive)

    pub lo_in_lem : lo_in total bs start end b ≡ start - b * bs
    unfolding lo_in first_in
    lo_in_lem = omega (arith, block_start_lem, g.fits, g.small, g.positive)

    pub hi_in_lem : hi_in total bs start end b ≡ min (end + 1 - b * bs) (size_of_block total bs b)
    unfolding hi_in last_in
    hi_in_lem = omega (arith, block_start_lem, block_end_lem, g.fits, g.small, g.positive)
