-- ===== src/Schedule/Ranges/Insert.antt =====
-- `insert_unclaimed` adds exactly its range.
use hydraria.Prelude.{
  ℕ, ◌+◌, ◌≤◌, ◌<◌, max, ◌≡◌, refl, ◌∙◌, true, Bool, ◌||◌, [], ◌∷◌, ltb, leb, arith, u64_mod,
  Bool-cases, inl, inr, saturating_add,
}
use hydraria.Schedule.Ranges.{
  Ranges, sort_in, merge_onto, merge_runs, insert_unclaimed, between, listed, IsSortedIn,
}

-- Sorted by start only: ranges may overlap.
abbrev IsOrderedIn : ℕ → ℕ → Ranges → Type 0
IsOrderedIn from bound [] = Unit {0}
IsOrderedIn from bound ((s, e) ∷ rest) =
    (from ≤ s) × (s ≤ e) × (e ≤ bound) × IsOrderedIn s bound rest

ordered_of_sorted :
    (from from' bound : ℕ) (xs : Ranges)
    → from' ≤ from
    → IsSortedIn from bound xs
    → IsOrderedIn from' bound xs
ordered_of_sorted from from' bound [] p m = tt
ordered_of_sorted from from' bound ((s, e) ∷ rest) p m =
    (omega arith, m.1, m.2, ordered_of_sorted (e + 2) s bound rest (omega arith) m.3)

sort_in-IsOrderedIn :
    (from bound s e : ℕ) (xs : Ranges)
    → from ≤ s
    → s ≤ e
    → e ≤ bound
    → IsOrderedIn from bound xs
    → IsOrderedIn from bound (sort_in s e xs)
unfolding sort_in
sort_in-IsOrderedIn from bound s e [] p q b m = (p, q, b, tt)
sort_in-IsOrderedIn from bound s e ((cs, ce) ∷ rest) p q b m =
    ground (arith, sort_in-IsOrderedIn cs bound s e rest)

sort_in-listed :
    (s e : ℕ) (xs : Ranges) (x : ℕ) → listed (sort_in s e xs) x ≡ between s e x || listed xs x
unfolding sort_in
sort_in-listed s e [] x = refl
sort_in-listed s e ((cs, ce) ∷ rest) x = ground (arith, sort_in-listed s e rest x)

IsOrderedIn-weaken :
    (bound from from' : ℕ) (xs : Ranges)
    → from' ≤ from
    → IsOrderedIn from bound xs
    → IsOrderedIn from' bound xs
IsOrderedIn-weaken bound from from' [] h m = tt
IsOrderedIn-weaken bound from from' ((s, e) ∷ rest) h m = (omega arith, m.1, m.2, m.3)

merge_onto-IsSortedIn :
    (from bound ls le : ℕ) (xs : Ranges)
    → bound < u64_mod
    → from ≤ ls
    → ls ≤ le
    → le ≤ bound
    → IsOrderedIn ls bound xs
    → IsSortedIn from bound (merge_onto ls le xs)
unfolding merge_onto
merge_onto-IsSortedIn from bound ls le [] w p q b m = (p, q, b, tt)
merge_onto-IsSortedIn from bound ls le ((cs, ce) ∷ rest) w p q b m =
    elim (Bool-cases (leb cs (saturating_add le 1))) [
      | inl touch ↦ rw touch (
          merge_onto-IsSortedIn from bound ls (max le ce) rest w p (omega arith) (omega arith)
            (IsOrderedIn-weaken bound cs ls rest m.0 m.3))
      | inr gap ↦
          rw gap
            (p, q, b, merge_onto-IsSortedIn (le + 2) bound cs ce rest w (ground arith) m.1 m.2 m.3)
    ]

fused_byte :
    (ls le cs ce x : ℕ) (old : Bool)
    → ls ≤ cs
    → ls ≤ le
    → cs ≤ ce
    → leb cs (saturating_add le 1) ≡ true
    → between ls (max le ce) x || old ≡ between ls le x || (between cs ce x || old)
fused_byte ls le cs ce x old p q r t = ground arith

merge_onto-listed :
    (bound ls le : ℕ) (xs : Ranges) (x : ℕ)
    → ls ≤ le
    → IsOrderedIn ls bound xs
    → listed (merge_onto ls le xs) x ≡ between ls le x || listed xs x
unfolding merge_onto
merge_onto-listed bound ls le [] x q m = refl
merge_onto-listed bound ls le ((cs, ce) ∷ rest) x q m =
    elim (Bool-cases (leb cs (saturating_add le 1))) [
      | inl touch ↦
          rw
            (
              touch,
              merge_onto-listed bound ls (max le ce) rest x (omega arith)
                  (IsOrderedIn-weaken bound cs ls rest m.0 m.3),
            )
            (fused_byte ls le cs ce x (listed rest x) m.0 q m.1 touch)
      | inr gap ↦ rw (gap, merge_onto-listed bound cs ce rest x m.1 m.3) refl
    ]

module _ (bound : ℕ) (word : bound < u64_mod) where
  merge_runs-IsSortedIn :
      (from : ℕ) (xs : Ranges) → IsOrderedIn from bound xs → IsSortedIn from bound (merge_runs xs)
  unfolding merge_runs
  merge_runs-IsSortedIn from [] m = tt
  merge_runs-IsSortedIn from ((s, e) ∷ rest) m =
      merge_onto-IsSortedIn from bound s e rest word m.0 m.1 m.2 m.3

  merge_runs-listed :
      (from : ℕ) (xs : Ranges) (x : ℕ)
      → IsOrderedIn from bound xs
      → listed (merge_runs xs) x ≡ listed xs x
  unfolding merge_runs
  merge_runs-listed from [] x m = refl
  merge_runs-listed from ((s, e) ∷ rest) x m = merge_onto-listed bound s e rest x m.1 m.3

  -- `insert_unclaimed` of a range within the bounds keeps the unclaimed ranges sorted, disjoint
  -- and at least one byte apart.
  pub insert_unclaimed-IsSortedIn :
      (s e from : ℕ) (xs : Ranges)
      → from ≤ s
      → e ≤ bound
      → IsSortedIn from bound xs
      → IsSortedIn from bound (insert_unclaimed xs s e)
  unfolding insert_unclaimed
  insert_unclaimed-IsSortedIn s e from xs p q m = elim (Bool-cases (ltb e s)) [
    | inl none_there ↦ rw none_there m
    | inr some_there ↦ rw some_there (
        merge_runs-IsSortedIn from (sort_in s e xs) (
          sort_in-IsOrderedIn from bound s e xs p (ground arith) q
            (ordered_of_sorted from from bound xs (omega arith) m)))
  ]

  -- On sorted ranges up to a 64-bit bound, `insert_unclaimed` adds exactly the bytes of a range
  -- that ends within the bound.
  pub insert_unclaimed-listed :
      (s e from : ℕ) (xs : Ranges) (x : ℕ)
      → e ≤ bound
      → IsSortedIn from bound xs
      → listed (insert_unclaimed xs s e) x ≡ between s e x || listed xs x
  unfolding insert_unclaimed
  insert_unclaimed-listed s e from xs x q m = elim (Bool-cases (ltb e s)) [
    | inl none_there ↦ rw none_there (ground arith)
    | inr some_there ↦ rw some_there (
        merge_runs-listed 0 (sort_in s e xs) x (
          sort_in-IsOrderedIn 0 bound s e xs (omega arith) (ground arith) q
            (ordered_of_sorted from 0 bound xs (omega arith) m))
        ∙ sort_in-listed s e xs x)
  ]
