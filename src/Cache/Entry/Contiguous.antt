-- ===== src/Cache/Entry/Contiguous.antt =====
-- src/cache.rs, `contiguous_from`: the loop over the blocks.

use native.Mathlib.Decide.{dec_lt}
use hydraria.Prelude.{
  ℕ, zero, suc, ◌+◌, ◌-◌, ◌*◌, ◌/◌, ◌%◌, ◌≤◌, ◌<◌, min, ◌≡◌, ◌∙◌, Bool, true, false, ◌||◌, ltb, leb,
  ◌==◌, if◌then◌else◌, Bool-cases, inl, inr, arith, wrapping_add, wrapping_sub,
}
use hydraria.Cache.Blocks.{holds_at, size_of_block}
use hydraria.Cache.Blocks.Geometry.{block_start_lem, block_len_lem}
use hydraria.Cache.Entry.{
  Entry, marks, covered_to, extend_run, contiguous_loop, contiguous_from, present, IsValid,
}
use hydraria.Cache.Entry.Runs.{IsRun, present_at, covered_to-IsRun}

-- `n` is the number of readable bytes from `offset` on, up to the first hole or to `limit`.
pub record IsLongest {Disk : Type 0} (e : Entry Disk) (offset limit n : ℕ) : Type 0 where
  pub bounded : n ≤ limit
  pub readable : (k : ℕ) → k < n → present e (offset + k) ≡ true
  pub maximal : n < limit → present e (offset + n) ≡ false

module _ {Disk : Type 0} (e : Entry Disk) (v : IsValid e) (offset limit : ℕ)
    (within_file : offset + limit ≤ e.meta.total_size) where
  -- What one round adds.
  record Extends (avail : ℕ) (next : ℕ × Bool) : Type 0 where
    grows : avail ≤ next.0
    bounded : next.0 ≤ limit
    advances : next.1 ≡ true → avail < next.0
    readable : (k : ℕ) → avail ≤ k → k < next.0 → present e (offset + k) ≡ true
    stops : next.1 ≡ false → next.0 < limit → present e (offset + next.0) ≡ false

  module _ (avail : ℕ) (more : avail < limit) where
    abbrev bs : ℕ
    bs = e.meta.block_size

    abbrev block : ℕ
    block = (offset + avail) / bs

    abbrev at : ℕ
    at = (offset + avail) % bs

    abbrev to : ℕ
    to = covered_to e block at

    abbrev avail' : ℕ
    avail' = avail + min (to - at) (limit - avail)

    position : offset + avail ≡ block * bs + at
    position =
        let q : (offset + avail) / bs * bs + (offset + avail) % bs ≡ offset + avail = omega arith in
        omega (arith, q)

    at-lt : at < bs
    at-lt = omega (arith, v.geometry.positive)

    inside : block * bs < e.meta.total_size
    inside = omega (arith, position)

    extend_run_lem : extend_run e offset limit avail ≡ (
        if leb to at
        then (avail, false)
        else if ltb to (size_of_block e.meta.total_size bs block)
        then (avail', false)
        else (avail', true))
    unfolding extend_run
    extend_run_lem =
        let fits = v.geometry.fits in
        let cur : wrapping_add offset avail ≡ offset + avail = omega (arith, fits) in
        let rel : wrapping_sub (offset + avail) (block * bs) ≡ at = omega (arith, fits, position) in
        let sum : wrapping_add avail (min (to - at) (limit - avail)) ≡ avail' =
          omega (arith, fits) in
        rw (
          cur,
          block_start_lem v.geometry block inside,
          rel,
          block_len_lem v.geometry block inside,
          sum,
        )

    run : IsRun (λ r. holds_at (marks e) block r) (size_of_block e.meta.total_size bs block) at to
    run = covered_to-IsRun e v block at inside (omega (arith, position, at-lt))

    -- Byte `offset + k` is byte `at + (k - avail)` of the block.
    present_after :
        (k : ℕ)
        → avail ≤ k
        → at + (k - avail) < bs
        → present e (offset + k) ≡ holds_at (marks e) block (at + (k - avail))
    present_after k p q =
        let moved : offset + k ≡ block * bs + (at + (k - avail)) = omega (arith, position) in
        rw moved (present_at e v block (at + (k - avail)) q)

    present_run : (k : ℕ) → avail ≤ k → k < avail' → present e (offset + k) ≡ true
    present_run k p q =
        present_after k p (omega (arith, run.1))
        ∙ run.2 (at + (k - avail)) (omega arith) (omega arith)

    hole_after :
        to < size_of_block e.meta.total_size bs block
        → avail' < limit
        → present e (offset + avail') ≡ false
    hole_after p q =
        let there : at + (avail' - avail) ≡ to = omega (arith, run.0) in
        present_after avail' (omega arith) (omega (arith, there)) ∙ rw there (run.3 p)

    extend_run-Extends : Extends avail (extend_run e offset limit avail)
    extend_run-Extends = rw extend_run_lem (elim (Bool-cases (leb to at)) [
      | inl hole ↦ rw hole (record {
        grows = omega arith;
        bounded = omega arith;
        advances = λ p. cc;
        readable = λ k p q. absurd (omega arith);
        stops = λ p q.
            present_after avail (omega arith) (omega (arith, at-lt))
            ∙ (let same : at + (avail - avail) ≡ to = ground (arith, run.0) in
                rw same (run.3 (omega (arith, same, position, at-lt))));
      })
      | inr run_on ↦
          rw run_on (elim (Bool-cases (ltb to (size_of_block e.meta.total_size bs block))) [
            | inl short ↦ rw short (record {
              grows = omega arith;
              bounded = omega arith;
              advances = λ p. cc;
              readable = present_run;
              stops = λ p q. hole_after (ground arith) q;
            })
            | inr full ↦ rw full (record {
              grows = omega arith;
              bounded = omega arith;
              advances = λ p. ground arith;
              readable = present_run;
              stops = λ p q. cc;
            })
          ])
    ])

  contiguous_loop-IsLongest :
      (fuel avail : ℕ)
      → limit - avail < fuel
      → avail ≤ limit
      → ((k : ℕ) → k < avail → present e (offset + k) ≡ true)
      → IsLongest e offset limit (contiguous_loop fuel e offset limit avail)
  unfolding contiguous_loop
  contiguous_loop-IsLongest zero avail f a known = absurd (omega arith)
  contiguous_loop-IsLongest (suc fuel) avail f a known = elim (Bool-cases (ltb avail limit)) [
    | inr done ↦ rw done (record { bounded = a; readable = known; maximal = λ p. ground arith })
    | inl more ↦
        let x = extend_run-Extends avail (ground arith) in
        let known' : (k : ℕ)
            → k < (extend_run e offset limit avail).0
            → present e (offset + k) ≡ true =
          λ k p. elim (dec_lt k avail) [
            | yes old ↦ known k old
            | no new ↦ x.readable k (omega arith) p
          ] in
        rw more (elim (Bool-cases (extend_run e offset limit avail).1) [
          | inl on ↦ rw on (
              contiguous_loop-IsLongest fuel (extend_run e offset limit avail).0
                (omega (arith, x.advances on)) x.bounded known')
          | inr stop ↦
              rw stop (record { bounded = x.bounded; readable = known'; maximal = x.stops stop })
        ])
  ]

-- On a well-formed entry `contiguous_from` returns exactly the number of bytes readable from the
-- offset on before the first hole, capped at the limit and at the end of the file.
pub contiguous_from-IsLongest :
    {Disk : Type 0} (e : Entry Disk) (offset limit : ℕ)
    → IsValid e
    → IsLongest e offset (min limit (e.meta.total_size - offset)) (contiguous_from e offset limit)
unfolding contiguous_from
contiguous_from-IsLongest e offset limit v =
    elim (Bool-cases (limit == 0 || e.meta.total_size == 0 || leb e.meta.total_size offset)) [
      | inl none_there ↦ rw none_there (record {
        bounded = omega arith;
        readable = λ k p. absurd (omega arith);
        maximal = λ p. absurd (ground arith);
      })
      | inr some_there ↦ rw some_there (
          contiguous_loop-IsLongest e v offset (min limit (e.meta.total_size - offset))
            (ground arith) (min limit (e.meta.total_size - offset) + 1) 0 (omega arith)
            (omega arith) (λ k p. absurd (omega arith)))
    ]
