-- ===== src/Schedule/Select/Chosen.antt =====
-- What is chosen: `pick_gap` gives a range of the unclaimed list, `pick_victim` and `pick_race` a live claim that
-- passes their test.
use mathlib.Core.Path.{subst}
use hydraria.Prelude.{
  if_holds, ℕ, suc, ◌+◌, ◌≤◌, ◌≡◌, refl, Bool, true, not, ◌&&◌, List, [], ◌∷◌, Option, none, some,
  get_elem?, ltb, leb, ◌==◌, if◌then◌else◌, Bool-cases, inl, inr, arith, All,
}
use hydraria.Schedule.Ranges.{Ranges, between, listed, IsSortedIn}
use hydraria.Schedule.Float.{FloatOps}
use hydraria.Schedule.State.{Scheduler, Live, remaining, is_primary, min_claim}
use hydraria.Schedule.Select.{
  pick_gap, pick_from, better, numbered, best_from, best_of, longest, rated, add_rated, slowest,
  or_longest, pick_victim, pick_race, rate, slow_enough, is_hedged,
}

-- `gap` is a range of the list `all`, whose bytes do not pass `bound`.
pub record IsGap (all : Ranges) (bound : ℕ) (gap : ℕ × ℕ) : Type 0 where
  pub filled : gap.0 ≤ gap.1
  pub bounded : gap.1 ≤ bound
  pub inside : (x : ℕ) → between gap.0 gap.1 x ≡ true → listed all x ≡ true

-- What is chosen, if anything is, satisfies `P`.
data WhenSome {ℓ κ} {A : Type ℓ} (P : A → Type κ) : Option A → Type (ℓ ⊔ κ) where
  nothing : WhenSome P none
  found : {a : A} → P a → WhenSome P (some a)

the_found {ℓ κ} : {A : Type ℓ} {P : A → Type κ} {a : A} → WhenSome P (some a) → P a
the_found (found p) = p

module _ (s : Scheduler) (rs re : ℕ) (respect nearest : Bool) (all : Ranges) (bound : ℕ) where
  better-IsGap :
      (gap : ℕ × ℕ) (best : Option (ℕ × ℕ))
      → IsGap all bound gap
      → WhenSome (IsGap all bound) best
      → WhenSome (IsGap all bound) (better s rs re respect nearest gap best)
  unfolding better
  better-IsGap gap best g b =
      if_holds (WhenSome (IsGap all bound)) _ _ _ b
        (if_holds (WhenSome (IsGap all bound)) _ _ _ (found g) b)

  pick_from-IsGap :
      (from : ℕ) (xs : Ranges) (best : Option (ℕ × ℕ))
      → IsSortedIn from bound xs
      → ((x : ℕ) → listed xs x ≡ true → listed all x ≡ true)
      → WhenSome (IsGap all bound) best
      → WhenSome (IsGap all bound) (pick_from s rs re respect nearest xs best)
  unfolding pick_from
  pick_from-IsGap from [] best m sub b = b
  pick_from-IsGap from ((gs, ge) ∷ rest) best m sub b =
      let Good = WhenSome (IsGap all bound) in
      let g : IsGap all bound (gs, ge) = record {
        filled = m.1;
        bounded = m.2;
        inside = λ x h. sub x (ground arith);
      } in
      if_holds Good _ _ _ (if_holds Good _ _ _ nothing (found g)) (
        pick_from-IsGap (ge + 2) rest _ m.3 (λ x h. sub x (ground arith))
          (if_holds Good _ _ _ b (better-IsGap (gs, ge) best g b)))

-- The range that `pick_gap` picks is one of the unclaimed list.
pub pick_gap-IsGap :
    (s : Scheduler) (rs re : ℕ) (respect nearest : Bool) (bound : ℕ) {gap : ℕ × ℕ}
    → IsSortedIn 0 bound s.unclaimed
    → pick_gap s rs re respect nearest ≡ some gap
    → IsGap s.unclaimed bound gap
unfolding pick_gap
pick_gap-IsGap s rs re respect nearest bound {gap} m e = the_found (
    subst (WhenSome (IsGap s.unclaimed bound)) e (
      pick_from-IsGap s rs re respect nearest s.unclaimed bound 0 s.unclaimed none m (λ x h. h)
        nothing))

-- A live claim that passes a test, at its index.
pub record Passes (live : List Live) (test : Live → Bool) (c : ℕ × Live) : Type 0 where
  pub there : get_elem? live c.0 ≡ some c.1
  pub passed : test c.1 ≡ true

module _ {ℓ κ} {A : Type ℓ} (P : A → Type κ) (wins : A → A → Bool) where
  best_from_holds : (best : A) (xs : List A) → P best → All P xs → P (best_from wins best xs)
  unfolding best_from
  best_from_holds best [] p q = p
  best_from_holds best (x ∷ xs) p q =
      best_from_holds (if wins x best then x else best) xs (if_holds P _ _ _ q.0 p) q.1

  best_of_holds : (xs : List A) → All P xs → WhenSome P (best_of wins xs)
  unfolding best_of
  best_of_holds [] q = nothing
  best_of_holds (x ∷ xs) q = found (best_from_holds x xs q.0 q.1)

numbered_holds :
    (test : Live → Bool) (all : List Live) (i : ℕ) (xs : List Live)
    → ((k : ℕ) → get_elem? all (i + k) ≡ get_elem? xs k)
    → All (Passes all test) (numbered test i xs)
unfolding numbered
numbered_holds test all i [] same = tt
numbered_holds test all i (x ∷ xs) same =
    let rest =
      numbered_holds test all (i + 1) xs
        (λ k. let e : i + 1 + k ≡ i + suc k = omega arith in rw e (same (suc k))) in
    elim (Bool-cases (test x)) [
      | inl pass ↦
          let e : i + 0 ≡ i = omega arith in
          rw pass (record { there = (rw e at (same 0)); passed = pass }, rest)
      | inr fail ↦ rw fail rest
    ]

module _ (F : FloatOps) (now : ℕ) (live : List Live) (test : Live → Bool) where
  rated_holds :
      (cutoff : Option F.Float) (cs : List (ℕ × Live))
      → All (Passes live test) cs
      → All (λ r. Passes live test (r.0, r.1)) (rated F now cutoff cs)
  unfolding rated
  rated_holds cutoff [] p = tt
  rated_holds cutoff (c ∷ cs) p =
      add_rated_holds (rate F now c.1) (rated F now cutoff cs) (rated_holds cutoff cs p.1)
    where
      add_rated_holds :
          (r : Option F.Float) (out : List (ℕ × Live × F.Float))
          → All (λ r. Passes live test (r.0, r.1)) out
          → All (λ r. Passes live test (r.0, r.1)) (add_rated F now cutoff c r out)
      add_rated_holds none out q = q
      add_rated_holds (some r) out q =
          if_holds (All (λ r. Passes live test (r.0, r.1))) (slow_enough F now cutoff r)
            ((c.0, c.1, r) ∷ out) out (p.0, q) q

  or_longest_holds :
      (r : Option (ℕ × Live × F.Float)) (cs : List (ℕ × Live))
      → WhenSome (λ r. Passes live test (r.0, r.1)) r
      → All (Passes live test) cs
      → WhenSome (Passes live test) (or_longest F now r cs)
  unfolding or_longest longest
  or_longest_holds none cs p q = best_of_holds (Passes live test) _ cs q
  or_longest_holds (some r) cs p q = found (the_found p)

  chosen_holds :
      (cutoff : Option F.Float) (cs : List (ℕ × Live))
      → All (Passes live test) cs
      → WhenSome (Passes live test) (or_longest F now (slowest F now cutoff cs) cs)
  unfolding slowest
  chosen_holds cutoff cs p =
      or_longest_holds _ cs
        (best_of_holds (λ r. Passes live test (r.0, r.1)) _ (rated F now cutoff cs)
          (rated_holds cutoff cs p))
        p

-- A victim is a live claim of another worker, no hedge, that owes more than `need`.
abbrev pub can_rob : ℕ → ℕ → Live → Bool
can_rob worker need l = not (l.worker == worker) && is_primary l && ltb need (remaining l)

pub pick_victim-Passes :
    (F : FloatOps) (now : ℕ) (live : List Live) (worker need : ℕ) {c : ℕ × Live}
    → pick_victim F now live worker need ≡ some c
    → Passes live (can_rob worker need) c
unfolding pick_victim
pick_victim-Passes F now live worker need {c} e = the_found (
    subst (WhenSome (Passes live (can_rob worker need))) e (
      let all =
        numbered_holds (can_rob worker need) live 0 live
          (λ k. let e : 0 + k ≡ k = omega arith in rw e refl) in
      if_holds (WhenSome (Passes live (can_rob worker need))) _ _ _
        (unfold longest in best_of_holds (Passes live (can_rob worker need)) _ _ all)
        (chosen_holds F now live (can_rob worker need) _ _ all)))

-- A claim that may be raced is one of another worker, no hedge, not hedged yet, and worth a request.
abbrev pub can_race : List Live → ℕ → Live → Bool
can_race live worker l =
    not (l.worker == worker)
    && is_primary l
    && leb min_claim (remaining l)
    && not (is_hedged live l.start)

pub pick_race-Passes :
    (F : FloatOps) (now : ℕ) (live : List Live) (worker : ℕ) {c : ℕ × Live}
    → pick_race F now live worker ≡ some c
    → Passes live (can_race live worker) c
unfolding pick_race
pick_race-Passes F now live worker {c} e = the_found (
    subst (WhenSome (Passes live (can_race live worker))) e (
      let all =
        numbered_holds (can_race live worker) live 0 live
          (λ k. let e : 0 + k ≡ k = omega arith in rw e refl) in
      chosen_holds F now live (can_race live worker) none _ all))
