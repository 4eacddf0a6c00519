-- ===== src/Streaming/Windows.antt =====
-- src/engine.rs, `stream_range`: the counters, the senders and the fetchers of a window agree.
use hydraria.Prelude.{
  ℕ, zero, suc, ◌+◌, ◌≤◌, ◌<◌, ◌≡◌, refl, Bool, true, false, ◌||◌, List, [], ◌∷◌, ◌++◌, none, some,
  length, length-append, ==_iff, arith,
}
use hydraria.Streaming.{Request, Window, spawn_fetch, first, count_down, count_down_all}
use hydraria.Streaming.Run.{is_in}

pub first-none :
    (test : ℕ → Bool) (at count j : ℕ)
    → first test at count ≡ none
    → at ≤ j
    → j < at + count
    → test j ≡ false
unfolding first
first-none test at zero j e p q = absurd (omega arith)
first-none test at (suc count) j e p q =
    ground (arith, first-none test (at + 1) count j, ==_iff j at)

pub first-some :
    (test : ℕ → Bool) (at count i : ℕ)
    → first test at count ≡ some i
    → (test i ≡ true) × (at ≤ i) × (i < at + count)
unfolding first
first-some test at zero i e = cc
first-some test at (suc count) i e = ground (arith, first-some test (at + 1) count i)

pub is_in-append : (i : ℕ) (xs ys : List ℕ) → is_in i (xs ++ ys) ≡ (is_in i xs || is_in i ys)
is_in-append i [] ys = refl
is_in-append i (x ∷ xs) ys = ground (arith, is_in-append i xs ys)

-- With `pending` releases under way.
pub record IsSound (r : Request) (closed : ℕ → Bool) (pending : ℕ) (w : Window) : Type 0 where
  pub counted : w.total_in_flight ≡ length w.fetchers + pending
  pub ready : (idx : ℕ) → w.spawned idx ≡ false → w.senders idx ≡ true
  pub alive : (idx : ℕ) → w.spawned idx ≡ true → closed idx ≡ false → is_in idx w.fetchers ≡ true
  pub placed : (idx : ℕ) → is_in idx w.fetchers ≡ true → idx < r.total_chunks

module _ {closed : ℕ → Bool} {pending : ℕ} (r : Request) where
  pub spawn_fetch-IsSound :
      (idx : ℕ) (w : Window)
      → idx < r.total_chunks
      → IsSound r closed pending w
      → IsSound r closed pending (spawn_fetch r idx w)
  unfolding spawn_fetch
  spawn_fetch-IsSound idx w below v = record {
    counted = omega (arith, v.counted, length-append w.fetchers (idx ∷ []));
    ready = λ j e. ground (arith, v.ready j, ==_iff j idx);
    alive =
        λ j e live. ground (arith, v.alive j, ==_iff j idx, is_in-append j w.fetchers (idx ∷ []));
    placed = λ j e. ground (arith, v.placed j, ==_iff j idx, is_in-append j w.fetchers (idx ∷ []));
  }

  pub count_down-IsSound :
      (vi : ℕ) (w : Window)
      → IsSound r closed (suc pending) w
      → IsSound r closed pending (count_down r vi w)
  unfolding count_down
  count_down-IsSound vi w v = record {
    counted = omega (arith, v.counted);
    ready = v.ready;
    alive = v.alive;
    placed = v.placed;
  }

pub count_down_all-IsSound :
    {closed : ℕ → Bool} (r : Request) (vis : List ℕ) (w : Window)
    → IsSound r closed (length vis) w
    → IsSound r closed 0 (count_down_all r vis w)
unfolding count_down_all
count_down_all-IsSound r [] w v = v
count_down_all-IsSound r (vi ∷ vis) w v =
    count_down_all-IsSound r vis (count_down r vi w) (count_down-IsSound r vi w v)
