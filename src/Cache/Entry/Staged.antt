-- ===== src/Cache/Entry/Staged.antt =====
-- src/cache.rs, `staged_ranges`: the runs that are on disk, for a new scheduler.
use native.Mathlib.Decide.{dec_lt}
use native.Mathlib.Nat.{div-le_self, mod-eq_of_lt, div-mul-le_self, lt-div-mul-add, div-eq_of_lt-le}
use hydraria.Prelude.{
  ℕ, zero, suc, ◌+◌, ◌-◌, ◌*◌, ◌/◌, ◌≤◌, ◌<◌, min, max, ◌≡◌, ◌⊎◌, refl, sym, true, false, ◌&&◌,
  List, [], ◌∷◌, ltb, leb, if◌then◌else◌, wrapping_add, wrapping_sub, wrapping_mul, Bool-cases, inl,
  inr, arith,
}
use hydraria.Cache.Entry.{Entry, contiguous_from, present, IsValid}
use hydraria.Cache.Entry.Contiguous.{IsLongest, contiguous_from-IsLongest}
use hydraria.Schedule.Create.{staged_at, AllWords}

-- The loop, on fuel. Where nothing is at `cur`, it goes on at the next block.
unfoldable pub staged_loop : {Disk : Type 0} → ℕ → Entry Disk → ℕ → ℕ → List (ℕ × ℕ)
staged_loop zero e cur end = []
staged_loop (suc fuel) e cur end =
    let bs = max e.meta.block_size 1 in
    let n = contiguous_from e cur (wrapping_add (wrapping_sub end cur) 1) in
    let behind = staged_loop fuel e (wrapping_add cur n) end in
    let next_block = staged_loop fuel e (wrapping_mul (wrapping_add (cur / bs) 1) bs) end in
    if leb cur end
    then (if ltb 0 n then (cur, wrapping_sub (wrapping_add cur n) 1) ∷ behind else next_block)
    else []

-- A round moves on by a byte at least.
unfoldable pub staged_ranges : {Disk : Type 0} → Entry Disk → ℕ → ℕ → List (ℕ × ℕ)
staged_ranges e start end = if ltb end start then [] else staged_loop (end - start + 2) e start end

-- Byte `x` is not left out without a reason: a byte before it in its block is missing.
pub record IsBehindHole {Disk : Type 0} (e : Entry Disk) (x : ℕ) : Type 0 where
  pub hole : ℕ
  pub before : hole ≤ x
  pub same_block : hole / e.meta.block_size ≡ x / e.meta.block_size
  pub missing : present e hole ≡ false

-- What the list of the runs in `[start, end]` says of the entry.
pub record Lists {Disk : Type 0} (e : Entry Disk) (start end : ℕ) (ranges : List (ℕ × ℕ))
    : Type 0 where
  pub sound : (x : ℕ) → staged_at ranges x ≡ true → (start ≤ x) × (x ≤ end) × (present e x ≡ true)
  pub complete :
      (x : ℕ)
      → start ≤ x
      → x ≤ end
      → present e x ≡ true
      → (staged_at ranges x ≡ true) ⊎ IsBehindHole e x
  pub words : AllWords ranges

module _ {Disk : Type 0} (e : Entry Disk) (v : IsValid e) (end : ℕ)
    (inside : end < e.meta.total_size) where
  abbrev bs : ℕ
  bs = e.meta.block_size

  module _ (cur : ℕ) (more : cur ≤ end) where
    abbrev next : ℕ
    next = (cur / bs + 1) * bs

    product : next ≡ cur / bs * bs + bs
    product = grind arith

    next_high : cur < next
    next_high = omega (arith, lt-div-mul-add {a = cur} {b = bs} v.geometry.positive, product)

    next_lem : wrapping_mul (wrapping_add (cur / max bs 1) 1) (max bs 1) ≡ next
    next_lem =
        let positive = v.geometry.positive in
        let fits = v.geometry.fits in
        let one : max bs 1 ≡ bs = omega arith in
        let quotient : cur / bs ≤ cur = div-le_self cur bs in
        let low = div-mul-le_self cur bs in
        let sum : wrapping_add (cur / bs) 1 ≡ cur / bs + 1 = omega arith in
        rw (one, sum) (mod-eq_of_lt (omega (arith, product)))

    same_block_as : (x : ℕ) → cur ≤ x → x < next → cur / bs ≡ x / bs
    same_block_as x p q =
        let low = div-mul-le_self cur bs in sym (div-eq_of_lt-le {k = cur / bs} bs (omega arith) q)

    abbrev limit : ℕ
    limit = end - cur + 1

    limit_lem : wrapping_add (wrapping_sub end cur) 1 ≡ limit
    limit_lem = omega (arith, v.geometry.fits)

    abbrev n : ℕ
    n = contiguous_from e cur limit

    run_here : IsLongest e cur limit n
    run_here =
        let whole : min limit (e.meta.total_size - cur) ≡ limit = omega arith in
        rw whole at (contiguous_from-IsLongest e cur limit v)

    last_lem : 0 < n → wrapping_sub (cur + n) 1 ≡ cur + n - 1
    last_lem some_there = omega (arith, run_here.bounded, v.geometry.fits)

    run-Lists :
        (behind : List (ℕ × ℕ))
        → 0 < n
        → Lists e (cur + n) end behind
        → Lists e cur end ((cur, cur + n - 1) ∷ behind)
    run-Lists behind some_there ih = record {
      sound = λ x h. elim (Bool-cases (leb cur x && leb x (cur + n - 1))) [
        | inl here ↦
            let there : cur + (x - cur) ≡ x = ground arith in
            let bounded = run_here.bounded in
            (ground arith, ground arith, rw there at (run_here.readable (x - cur) (ground arith)))
        | inr away ↦ let rest = ih.sound x (rw away at h) in (omega (arith, rest), rest.1, rest.2)
      ];
      complete = λ x p q h. elim (Bool-cases (leb cur x && leb x (cur + n - 1))) [
        | inl here ↦ inl (rw here refl)
        | inr away ↦ elim (ih.complete x (ground arith) q h) [
          | inl later ↦ inl (rw away later)
          | inr hole ↦ inr hole
        ]
      ];
      words = (omega (arith, run_here.bounded, v.geometry.fits), ih.words);
    }

    hole-Lists : (behind : List (ℕ × ℕ)) → n ≡ 0 → Lists e next end behind → Lists e cur end behind
    hole-Lists behind none_there ih = record {
      sound = λ x h. let rest = ih.sound x h in (omega (arith, rest, next_high), rest.1, rest.2);
      complete = λ x p q h. elim (dec_lt x next) [
        | yes near ↦ inr (record {
          hole = cur;
          before = p;
          same_block = same_block_as x p near;
          missing =
              let there : cur + n ≡ cur = omega arith in
              rw there at (run_here.maximal (omega arith));
        })
        | no far ↦ ih.complete x (omega arith) q h
      ];
      words = ih.words;
    }

  staged_loop-Lists :
      (fuel cur : ℕ) → end + 1 - cur < fuel → Lists e cur end (staged_loop fuel e cur end)
  unfolding staged_loop
  staged_loop-Lists zero cur enough = absurd (omega arith)
  staged_loop-Lists (suc fuel) cur enough = elim (Bool-cases (leb cur end)) [
    | inr done ↦
        rw done
          (record { sound = λ x h. cc; complete = λ x p q h. absurd (ground arith); words = tt })
    | inl more ↦
        let h : cur ≤ end = ground arith in
        let bound = (run_here cur h).bounded in
        let fits = v.geometry.fits in
        let sum : wrapping_add cur (n cur h) ≡ cur + n cur h = omega arith in
        rw (more, limit_lem cur h, next_lem cur h)
          (elim (Bool-cases (ltb 0 (n cur h))) [
            | inl some_there ↦
                rw (some_there, sum, last_lem cur h (ground arith))
                  (run-Lists cur h (staged_loop fuel e (cur + n cur h) end) (ground arith)
                    (staged_loop-Lists fuel (cur + n cur h) (ground arith)))
            | inr none_there ↦ rw none_there (
                hole-Lists cur h (staged_loop fuel e (next cur h) end) (ground arith)
                  (staged_loop-Lists fuel (next cur h) (omega (arith, next_high cur h))))
          ])
  ]

-- On a well-formed entry and a range that ends within the file, the list names only bytes of the
-- range that are on disk. It names each of them but those that stand behind a missing byte of
-- their own block, and each range on it ends within 64 bits.
pub staged_ranges-Lists :
    {Disk : Type 0} (e : Entry Disk) (start end : ℕ)
    → IsValid e
    → end < e.meta.total_size
    → Lists e start end (staged_ranges e start end)
unfolding staged_ranges
staged_ranges-Lists e start end v inside = elim (Bool-cases (ltb end start)) [
  | inl empty ↦
      rw empty
        (record { sound = λ x h. cc; complete = λ x p q h. absurd (ground arith); words = tt })
  | inr full ↦ rw full (staged_loop-Lists e v end inside (end - start + 2) start (ground arith))
]
