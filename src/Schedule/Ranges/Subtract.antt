-- ===== src/Schedule/Ranges/Subtract.antt =====
-- `subtract` removes exactly its range.
use hydraria.Prelude.{
  ℕ, ◌+◌, ◌-◌, ◌≤◌, ◌<◌, ◌≡◌, refl, true, Bool, ◌&&◌, ◌||◌, not, [], ◌∷◌, ltb, arith, u64_mod,
  Bool-cases, inl, inr, wrapping_add, wrapping_sub,
}
use hydraria.Schedule.Ranges.{
  Ranges, keep_front, keep_back, subtract_each, subtract, between, listed, IsSortedIn,
}

pub IsSortedIn-weaken :
    (bound from from' : ℕ) (xs : Ranges)
    → from' ≤ from
    → IsSortedIn from bound xs
    → IsSortedIn from' bound xs
IsSortedIn-weaken bound from from' [] h m = tt
IsSortedIn-weaken bound from from' ((s, e) ∷ rest) h m = (omega arith, m.1, m.2, m.3)

-- One byte of a range that overlaps `[s, e]`.
overlap_byte :
    (s e cs ce x : ℕ) (old : Bool)
    → s ≤ ce
    → cs ≤ e
    → (ltb cs s && between cs (s - 1) x
        || (ltb e ce && between (e + 1) ce x || not (between s e x) && old))
      ≡ not (between s e x) && (between cs ce x || old)
overlap_byte s e cs ce x old p q = ground arith

disjoint_byte :
    (s e cs ce x : ℕ) (old : Bool)
    → ltb ce s || ltb e cs ≡ true
    → between cs ce x || not (between s e x) && old
      ≡ not (between s e x) && (between cs ce x || old)
disjoint_byte s e cs ce x old p = ground arith

module _ (bound : ℕ) (word : bound < u64_mod) where
  keep_back-listed :
      (ce e : ℕ) (out : Ranges) (x : ℕ)
      → ce ≤ bound
      → listed (keep_back ce e out) x ≡ ltb e ce && between (e + 1) ce x || listed out x
  unfolding keep_back
  keep_back-listed ce e out x h = elim (Bool-cases (ltb e ce)) [
    | inl t ↦ let w : wrapping_add e 1 ≡ e + 1 = ground arith in rw (t, w) refl
    | inr t ↦ rw t refl
  ]

  keep_front-listed :
      (cs s : ℕ) (out : Ranges) (x : ℕ)
      → s < u64_mod
      → listed (keep_front cs s out) x ≡ ltb cs s && between cs (s - 1) x || listed out x
  unfolding keep_front
  keep_front-listed cs s out x h = elim (Bool-cases (ltb cs s)) [
    | inl t ↦ let w : wrapping_sub s 1 ≡ s - 1 = ground arith in rw (t, w) refl
    | inr t ↦ rw t refl
  ]

  keep_back-IsSortedIn :
      (from ce e : ℕ) (out : Ranges)
      → from ≤ e + 1
      → from ≤ ce + 2
      → ce ≤ bound
      → IsSortedIn (ce + 2) bound out
      → IsSortedIn from bound (keep_back ce e out)
  unfolding keep_back
  keep_back-IsSortedIn from ce e out p q h m = elim (Bool-cases (ltb e ce)) [
    | inl t ↦ let w : wrapping_add e 1 ≡ e + 1 = ground arith in rw (t, w) (p, ground arith, h, m)
    | inr t ↦ rw t (IsSortedIn-weaken bound (ce + 2) from out q m)
  ]

  keep_front-IsSortedIn :
      (from cs s : ℕ) (out : Ranges)
      → s < u64_mod
      → s ≤ bound
      → from ≤ cs
      → IsSortedIn (s + 1) bound out
      → IsSortedIn from bound out
      → IsSortedIn from bound (keep_front cs s out)
  unfolding keep_front
  keep_front-IsSortedIn from cs s out h b p m n = elim (Bool-cases (ltb cs s)) [
    | inl t ↦
        let w : wrapping_sub s 1 ≡ s - 1 = ground arith in
        rw (t, w)
          (
            p,
            ground arith,
            omega arith,
            IsSortedIn-weaken bound (s + 1) (s - 1 + 2) out (ground arith) m,
          )
    | inr t ↦ rw t n
  ]

  subtract_each-IsSortedIn :
      (s e from : ℕ) (xs : Ranges)
      → s ≤ e
      → e < u64_mod
      → IsSortedIn from bound xs
      → IsSortedIn from bound (subtract_each s e xs)
  unfolding subtract_each
  subtract_each-IsSortedIn s e from [] p h m = tt
  subtract_each-IsSortedIn s e from ((cs, ce) ∷ rest) p h m =
      let ih = subtract_each-IsSortedIn s e (ce + 2) rest p h m.3 in
      elim (Bool-cases (ltb ce s || ltb e cs)) [
        | inl apart ↦ rw apart (m.0, m.1, m.2, ih)
        | inr overlap ↦
            let lo : s ≤ ce = ground arith in
            let hi : cs ≤ e = ground arith in
            rw overlap (
              keep_front-IsSortedIn from cs s _ (omega arith) (omega arith) m.0
                (keep_back-IsSortedIn (s + 1) ce e _ (omega arith) (omega arith) m.2 ih)
                (keep_back-IsSortedIn from ce e _ (omega arith) (omega arith) m.2 ih))
      ]

  subtract_each-listed :
      (s e from : ℕ) (xs : Ranges) (x : ℕ)
      → s ≤ e
      → e < u64_mod
      → IsSortedIn from bound xs
      → listed (subtract_each s e xs) x ≡ not (between s e x) && listed xs x
  unfolding subtract_each
  subtract_each-listed s e from [] x p h m = ground arith
  subtract_each-listed s e from ((cs, ce) ∷ rest) x p h m =
      let ih = subtract_each-listed s e (ce + 2) rest x p h m.3 in
      elim (Bool-cases (ltb ce s || ltb e cs)) [
        | inl apart ↦ rw (apart, ih) (disjoint_byte s e cs ce x (listed rest x) apart)
        | inr overlap ↦
            rw
              (
                overlap,
                keep_front-listed cs s (keep_back ce e (subtract_each s e rest)) x (omega arith),
                keep_back-listed ce e (subtract_each s e rest) x m.2,
                ih,
              )
              (overlap_byte s e cs ce x (listed rest x) (ground arith) (ground arith))
      ]

  -- On sorted ranges of 64-bit bytes, `subtract` takes out exactly the bytes of `[s, e]`.
  pub subtract-listed :
      (s e from : ℕ) (xs : Ranges) (x : ℕ)
      → e < u64_mod
      → IsSortedIn from bound xs
      → listed (subtract xs s e) x ≡ not (between s e x) && listed xs x
  unfolding subtract
  subtract-listed s e from xs x h m = elim (Bool-cases (ltb e s)) [
    | inl none_there ↦ rw none_there (ground arith)
    | inr some_there ↦ rw some_there (subtract_each-listed s e from xs x (ground arith) h m)
  ]

  -- `subtract` of a range of 64-bit bytes keeps the unclaimed ranges sorted, disjoint and at
  -- least one byte apart, within the same bounds.
  pub subtract-IsSortedIn :
      (s e from : ℕ) (xs : Ranges)
      → e < u64_mod
      → IsSortedIn from bound xs
      → IsSortedIn from bound (subtract xs s e)
  unfolding subtract
  subtract-IsSortedIn s e from xs h m = elim (Bool-cases (ltb e s)) [
    | inl none_there ↦ rw none_there m
    | inr some_there ↦ rw some_there (subtract_each-IsSortedIn s e from xs (ground arith) h m)
  ]
