-- ===== src/Chacha/Sizes.antt =====
-- src/plugins/chacha20.rs, `plan_volume_sizes`: the volumes make up the file.
use hydraria.Prelude.{
  ℕ, zero, suc, ◌+◌, ◌-◌, ◌*◌, ◌/◌, ◌≤◌, ◌<◌, min, max, ◌≡◌, ◌||◌, List, [], ◌∷◌, ltb, leb, ◌==◌,
  Bool-cases, inl, inr, arith, All,
}
use hydraria.Chacha.{
  SplitMode, random, fixed, fixed_sizes, random_sizes, sizes_in, plan_volume_sizes,
}

abbrev pub sum : List ℕ → ℕ
sum [] = 0
sum (n ∷ ns) = n + sum ns

-- All of the file, in volumes that are not empty and not larger than is allowed.
pub record IsPlan (total max_size : ℕ) (sizes : List ℕ) : Type 0 where
  pub whole : sum sizes ≡ total
  pub sized : All (λ (n : ℕ). (0 < n) × (n ≤ max_size)) sizes

-- `gen_range(low..=high)` gives a number of the range.
abbrev pub IsPick : (ℕ → ℕ → ℕ → ℕ) → Type 0
IsPick pick =
    (round low high : ℕ) → low ≤ high → (low ≤ pick round low high) × (pick round low high ≤ high)

fixed_sizes-IsPlan :
    (fuel max_size remaining : ℕ)
    → remaining ≤ fuel
    → 0 < max_size
    → IsPlan remaining max_size (fixed_sizes fuel max_size remaining)
unfolding fixed_sizes
fixed_sizes-IsPlan zero max_size remaining h p = record { whole = omega arith; sized = tt }
fixed_sizes-IsPlan (suc fuel) max_size remaining h p = elim (Bool-cases (ltb max_size remaining)) [
  | inl more ↦
      let ih = fixed_sizes-IsPlan fuel max_size (remaining - max_size) (omega arith) p in
      let bigger : max_size < remaining = ground arith in
      rw more (record { whole = omega (arith, ih.whole); sized = ((p, omega arith), ih.sized) })
  | inr last ↦ rw last (elim (Bool-cases (ltb 0 remaining)) [
    | inl some_left ↦
        rw some_left (record { whole = omega arith; sized = ((ground arith, ground arith), tt) })
    | inr none_left ↦ rw none_left (record { whole = ground arith; sized = tt })
  ])
]

random_sizes-IsPlan :
    (pick : ℕ → ℕ → ℕ → ℕ) (fuel max_size remaining : ℕ)
    → IsPick pick
    → remaining ≤ fuel
    → 0 < max_size
    → IsPlan remaining max_size (random_sizes pick fuel max_size remaining)
unfolding random_sizes
random_sizes-IsPlan pick zero max_size remaining picks h p = record {
  whole = omega arith;
  sized = tt;
}
random_sizes-IsPlan pick (suc fuel) max_size remaining picks h p =
    elim (Bool-cases (remaining == 0)) [
      | inl over ↦ rw over (record { whole = ground arith; sized = tt })
      | inr going ↦ rw going (elim (Bool-cases (leb remaining max_size)) [
        | inl last ↦
            rw last (record { whole = omega arith; sized = ((ground arith, ground arith), tt) })
        | inr more ↦
            let lower : ℕ = max (max_size / 2) (min (1024 * 1024) max_size) in
            let high : ℕ = min max_size (remaining - 1) in
            let size : ℕ = pick fuel (min lower high) high in
            let big : max_size < remaining = ground arith in
            let low_pos : 0 < min lower high = omega arith in
            let (low, up) = picks fuel (min lower high) high (omega arith) in
            let ih =
              random_sizes-IsPlan pick fuel max_size (remaining - size) picks (omega arith) p in
            rw more (record {
              whole = omega (arith, ih.whole);
              sized = ((omega arith, omega arith), ih.sized);
            })
      ])
    ]

-- For a file with bytes, a limit above 0, and random picks that lie in their range, in either
-- mode the volumes make up the file, and each has a byte at least and no more than the limit.
pub plan_volume_sizes-IsPlan :
    (pick : ℕ → ℕ → ℕ → ℕ) (total max_size : ℕ) (mode : SplitMode)
    → IsPick pick
    → 0 < total
    → 0 < max_size
    → IsPlan total max_size (plan_volume_sizes pick total max_size mode)
unfolding plan_volume_sizes sizes_in
plan_volume_sizes-IsPlan pick total max_size fixed picks some_bytes p =
    elim (Bool-cases (max_size == 0 || leb total max_size)) [
      | inl one ↦ rw one (record { whole = omega arith; sized = ((some_bytes, ground arith), tt) })
      | inr several ↦ rw several (fixed_sizes-IsPlan total max_size total (omega arith) p)
    ]
plan_volume_sizes-IsPlan pick total max_size random picks some_bytes p =
    elim (Bool-cases (max_size == 0 || leb total max_size)) [
      | inl one ↦ rw one (record { whole = omega arith; sized = ((some_bytes, ground arith), tt) })
      | inr several ↦
          rw several (random_sizes-IsPlan pick total max_size total picks (omega arith) p)
    ]
