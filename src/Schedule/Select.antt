-- ===== src/Schedule/Select.antt =====
-- src/schedule.rs: which gap, which victim and which claim to race (`pick_gap`, `pick_victim`, and
-- the choice in `hedge`).
pub mod Chosen
use hydraria.Prelude.{
  ℕ, zero, suc, ◌+◌, ◌-◌, ◌*◌, ◌/◌, ◌≤◌, ◌<◌, min, max, ◌≡◌, Bool, true, false, ◌&&◌, ◌||◌, not,
  List, [], ◌∷◌, Option, none, some, ltb, leb, ◌==◌, if◌then◌else◌, wrapping_add, wrapping_sub,
  get_elem?, length,
}
use hydraria.Schedule.Ranges.{Ranges}
use hydraria.Schedule.Float.{FloatOps}
use hydraria.Schedule.State.{Scheduler, Live, remaining, is_primary, min_claim, mib, volume_of}

-- `live_in_volume`
unfoldable pub live_in_volume : List Live → ℕ → ℕ
live_in_volume [] volume = 0
live_in_volume (l ∷ ls) volume =
    let n = live_in_volume ls volume in if l.volume == volume then suc n else n

module _ (s : Scheduler) (rs re : ℕ) (respect_cap nearest_wins : Bool) where
  -- The volume of the segment is at its limit.
  is_capped : ℕ → Bool
  is_capped gap_start =
      respect_cap
      && leb s.max_per_volume (live_in_volume s.live (volume_of s.volumes (max gap_start rs)))

  score : ℕ × ℕ → ℕ
  score (gs, ge) = wrapping_add (wrapping_sub (min ge re) (max gs rs)) 1

  beats : ℕ × ℕ → Option (ℕ × ℕ) → Bool
  beats gap none = true
  beats gap (some best) = ltb (score best) (score gap)

  better : ℕ × ℕ → Option (ℕ × ℕ) → Option (ℕ × ℕ)
  better gap best = if is_capped gap.0 then best else if beats gap best then some gap else best

  -- The loop of `pick_gap` from `best` on. The range stands in place of its index.
  pick_from : Ranges → Option (ℕ × ℕ) → Option (ℕ × ℕ)
  pick_from [] best = best
  pick_from ((gs, ge) ∷ rest) best =
      let apart = ltb ge rs || ltb re gs in
      let later = pick_from rest (if apart then best else better (gs, ge) best) in
      if not apart && nearest_wins then (if is_capped gs then none else some (gs, ge)) else later

  unfoldable pub pick_gap : Option (ℕ × ℕ)
  unfolding is_capped score beats better pick_from
  pick_gap = pick_from s.unclaimed none

-- The elements of a list that pass a test, with their positions.
numbered {ℓ} : {A : Type ℓ} → (A → Bool) → ℕ → List A → List (ℕ × A)
numbered test i [] = []
numbered test i (x ∷ xs) =
    let rest = numbered test (i + 1) xs in if test x then (i, x) ∷ rest else rest

-- A fold that replaces the best element so far by a better one.
best_from {ℓ} : {A : Type ℓ} → (A → A → Bool) → A → List A → A
best_from wins best [] = best
best_from wins best (x ∷ xs) = best_from wins (if wins x best then x else best) xs

best_of {ℓ} : {A : Type ℓ} → (A → A → Bool) → List A → Option A
unfolding best_from
best_of wins [] = none
best_of wins (x ∷ xs) = some (best_from wins x xs)

-- `max_by_key(remaining)`: the last of the longest.
longest : List (ℕ × Live) → Option (ℕ × Live)
unfolding best_of
longest = best_of (λ a b. leb (remaining b.1) (remaining a.1))

-- `hedged.contains(&l.start)`
hedges_start : Option ℕ → ℕ → Bool
hedges_start none start = false
hedges_start (some primary) start = primary == start

unfoldable pub is_hedged : List Live → ℕ → Bool
unfolding hedges_start
is_hedged [] start = false
is_hedged (l ∷ ls) start = hedges_start l.hedge_of start || is_hedged ls start

module _ (F : FloatOps) (now : ℕ) where
  open F use {Float, of_u64, as_secs_f64, mul, div, fmax, less, total_le, milli, straggler_ratio}

  -- `Live::rate`
  unfoldable pub rate : Live → Option Float
  rate l =
      let elapsed = now - l.started in
      let done = l.cursor - l.start in
      if ltb elapsed 2_000_000_000 && ltb done (512 * 1024)
      then none
      else some (div (of_u64 done) (fmax (as_secs_f64 elapsed) milli))

  add_rate : Option Float → List Float → List Float
  add_rate none fs = fs
  add_rate (some f) fs = f ∷ fs

  rates_of : List Live → List Float
  unfolding add_rate
  rates_of [] = []
  rates_of (l ∷ ls) = add_rate (rate l) (rates_of ls)

  sort_rate : Float → List Float → List Float
  sort_rate f [] = f ∷ []
  sort_rate f (g ∷ gs) =
      let later = g ∷ sort_rate f gs in if total_le f g then f ∷ g ∷ gs else later

  sorted_rates : List Float → List Float
  unfolding sort_rate
  sorted_rates [] = []
  sorted_rates (f ∷ fs) = sort_rate f (sorted_rates fs)

  -- The claims that have a rate, below the cutoff where there is one.
  slow_enough : Option Float → Float → Bool
  slow_enough none r = true
  slow_enough (some cutoff) r = less r cutoff

  add_rated :
      Option Float → ℕ × Live → Option Float → List (ℕ × Live × Float) → List (ℕ × Live × Float)
  unfolding slow_enough
  add_rated cutoff c none out = out
  add_rated cutoff c (some r) out = if slow_enough cutoff r then (c.0, c.1, r) ∷ out else out

  rated : Option Float → List (ℕ × Live) → List (ℕ × Live × Float)
  unfolding add_rated
  rated cutoff [] = []
  rated cutoff (c ∷ rest) = add_rated cutoff c (rate c.1) (rated cutoff rest)

  -- `min_by(total_cmp)`: the first of the slowest.
  slowest : Option Float → List (ℕ × Live) → Option (ℕ × Live × Float)
  unfolding rated
  slowest cutoff cs = best_of (λ a b. not (total_le b.2 a.2)) (rated cutoff cs)

  or_longest : Option (ℕ × Live × Float) → List (ℕ × Live) → Option (ℕ × Live)
  unfolding longest
  or_longest none cs = longest cs
  or_longest (some (i, l, r)) cs = some (i, l)

  -- `rates[rates.len() / 2] * STRAGGLER_RATIO`
  cutoff_at : Option Float → Option Float
  cutoff_at none = none
  cutoff_at (some median) = some (mul median straggler_ratio)

  -- The claim to rob, with its index.
  unfoldable pub pick_victim : List Live → ℕ → ℕ → Option (ℕ × Live)
  unfolding numbered or_longest slowest rates_of sorted_rates cutoff_at
  pick_victim live worker need =
      let eligible =
        numbered (λ (l : Live). not (l.worker == worker) && is_primary l && ltb need (remaining l))
          0 live in
      let rates = sorted_rates (rates_of live) in
      if ltb (length rates) 3
      then longest eligible
      else or_longest (slowest (cutoff_at (get_elem? rates (length rates / 2))) eligible) eligible

  -- The claim that `hedge` races, with its index.
  unfoldable pub pick_race : List Live → ℕ → Option (ℕ × Live)
  unfolding numbered or_longest slowest is_hedged
  pick_race live worker =
      let candidates =
        numbered
          (λ (l : Live).
            not (l.worker == worker)
            && is_primary l
            && leb min_claim (remaining l)
            && not (is_hedged live l.start))
          0 live in
      or_longest (slowest none candidates) candidates
