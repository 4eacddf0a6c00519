-- ===== src/Schedule/Ranges.antt =====
-- src/schedule.rs, `subtract`, `insert_unclaimed` and `unclaimed_bytes`: the work that nobody owns,
-- as inclusive byte ranges.
pub mod Subtract
pub mod Insert
use hydraria.Prelude.{
  ℕ, ◌+◌, ◌-◌, ◌≤◌, ◌<◌, max, Bool, true, false, ◌&&◌, ◌||◌, List, [], ◌∷◌, ◌++◌, ltb, leb,
  if◌then◌else◌, saturating_add, wrapping_add, wrapping_sub,
}

abbrev pub Ranges : Type 0
Ranges = List (ℕ × ℕ)

-- What is left of `(cs, ce)` in front of `s` and behind `e`, where they meet.
keep_front : ℕ → ℕ → Ranges → Ranges
keep_front cs s out = if ltb cs s then (cs, wrapping_sub s 1) ∷ out else out

keep_back : ℕ → ℕ → Ranges → Ranges
keep_back ce e out = if ltb e ce then (wrapping_add e 1, ce) ∷ out else out

subtract_each : ℕ → ℕ → Ranges → Ranges
unfolding keep_front keep_back
subtract_each s e [] = []
subtract_each s e ((cs, ce) ∷ rest) =
    let out = subtract_each s e rest in
    if ltb ce s || ltb e cs then (cs, ce) ∷ out else keep_front cs s (keep_back ce e out)

unfoldable pub subtract : Ranges → ℕ → ℕ → Ranges
unfolding subtract_each
subtract unclaimed s e = if ltb e s then unclaimed else subtract_each s e unclaimed

-- `push` and `sort_unstable_by_key` on the start, of a list that the scheduler keeps sorted: the
-- new range goes behind the ranges that start before it.
sort_in : ℕ → ℕ → Ranges → Ranges
sort_in s e [] = (s, e) ∷ []
sort_in s e ((cs, ce) ∷ rest) =
    let later = (cs, ce) ∷ sort_in s e rest in if ltb cs s then later else (s, e) ∷ (cs, ce) ∷ rest

-- The merging loop, with the last range of `merged` apart.
merge_onto : ℕ → ℕ → Ranges → Ranges
merge_onto ls le [] = (ls, le) ∷ []
merge_onto ls le ((cs, ce) ∷ rest) =
    let fused = merge_onto ls (max le ce) rest in
    let apart = (ls, le) ∷ merge_onto cs ce rest in
    if leb cs (saturating_add le 1) then fused else apart

merge_runs : Ranges → Ranges
unfolding merge_onto
merge_runs [] = []
merge_runs ((s, e) ∷ rest) = merge_onto s e rest

unfoldable pub insert_unclaimed : Ranges → ℕ → ℕ → Ranges
unfolding sort_in merge_runs
insert_unclaimed unclaimed s e = if ltb e s then unclaimed else merge_runs (sort_in s e unclaimed)

unfoldable pub unclaimed_bytes : Ranges → ℕ
unclaimed_bytes [] = 0
unclaimed_bytes ((s, e) ∷ rest) =
    wrapping_add (wrapping_add (wrapping_sub e s) 1) (unclaimed_bytes rest)

-- The set of bytes.
abbrev pub between : ℕ → ℕ → ℕ → Bool
between s e x = leb s x && leb x e

abbrev pub listed : Ranges → ℕ → Bool
listed [] x = false
listed ((s, e) ∷ rest) x = between s e x || listed rest x

-- Sorted ranges of `[from, bound]`, each behind the end of the one before with a gap of at least
-- one byte between.
abbrev pub IsSortedIn : ℕ → ℕ → Ranges → Type 0
IsSortedIn from bound [] = Unit {0}
IsSortedIn from bound ((s, e) ∷ rest) =
    (from ≤ s) × (s ≤ e) × (e ≤ bound) × IsSortedIn (e + 2) bound rest
