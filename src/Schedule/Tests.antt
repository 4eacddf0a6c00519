-- ===== src/Schedule/Tests.antt =====
-- Runs of the scheduler on a file of 8 MiB in one volume.
use hydraria.Prelude.{
  ℕ, ◌*◌, ◌/◌, max, ◌≡◌, refl, List, [], ◌∷◌, Option, none, some, arith, ltb, leb, inr,
}
use hydraria.Schedule.Ranges.{Ranges, IsSortedIn}
use hydraria.Schedule.State.{
  VolumeMeta, volume_end, Live, Scheduler, Strategy, throughput, latency, IsLayout,
}
use hydraria.Schedule.Float.{FloatOps}
use hydraria.Schedule.Create.{new}
use hydraria.Schedule.Assign.{claim}
use hydraria.Schedule.Release.{with_front, split_off, finish, refocus_on_reader, reclaim_stalled}
use hydraria.Schedule.Owners.{owners, owners_in, IsSound, IsExclusive}
use hydraria.Schedule.Owners.Taking.{Keeps}
use hydraria.Schedule.Owners.Claiming.{claim-Keeps}
use hydraria.Schedule.Owners.Finishing.{finish-Keeps, finish-strands, raced, first}
use hydraria.Schedule.Owners.Stranding.{reclaim_stalled-strands}
use hydraria.Schedule.Owners.Sweeping.{refocus_on_reader-Keeps, reclaim_stalled-Keeps}

-- Whole numbers in place of floating-point ones.
abbrev pub whole : FloatOps
whole = record {
  Float = ℕ;
  of_u64 = λ n. n;
  as_secs_f64 = λ n. n / 1_000_000_000;
  mul = λ a b. a * b;
  div = λ a b. a / b;
  fmax = λ a b. max a b;
  less = λ a b. ltb a b;
  total_le = λ a b. leb a b;
  milli = 0;
  straggler_ratio = 0;
}

abbrev pub claim_of : ℕ → ℕ → ℕ → ℕ → Option ℕ → Live
claim_of worker start end cursor hedge_of = record {
  worker = worker;
  volume = 0;
  start = start;
  end = end;
  cursor = cursor;
  reserved = cursor;
  started = 0;
  last_cursor = cursor;
  last_progress = 0;
  hedge_of = hedge_of;
}

abbrev pub scheduler_of : Strategy → Ranges → List Live → Scheduler
scheduler_of strategy unclaimed live = record {
  unclaimed = unclaimed;
  live = live;
  strategy = strategy;
  volumes = none;
  max_threads = 4;
  max_per_volume = 4;
  split_cap = none;
  req_start = 0;
  req_end = 8_388_607;
  read_head = 0;
  buffered = 0;
  work_limit = none;
  auto_limit = none;
  auto_wall = 0;
  dup_budget = 0;
  overload_strikes = 0;
  overload_hint = none;
  wall_memory = none;
}

-- Worker 1 is at 1 MiB of the first half, and the second half waits.
abbrev first_half : Live
first_half = claim_of 1 0 4_194_303 1_048_576 none

abbrev half_claimed : Strategy → Scheduler
half_claimed strategy = scheduler_of strategy ((4_194_304, 8_388_607) ∷ []) (first_half ∷ [])

half_claimed-IsSound : (strategy : Strategy) → IsSound (half_claimed strategy)
unfolding volume_end
half_claimed-IsSound strategy = record {
  word = omega arith;
  sorted = (omega arith, omega arith, omega arith, tt);
  placed =
      (record { begun = omega arith; bounded = omega arith; one_volume = λ p x q r e. cc }, tt);
}

half_claimed-IsExclusive : (strategy : Strategy) → IsExclusive (half_claimed strategy)
unfolding owners_in
half_claimed-IsExclusive strategy x = ground arith

pub one_volume-IsLayout : IsLayout none
unfolding volume_end
one_volume-IsLayout = record { same_end = λ x y e p q. cc; none_behind = λ x y e p. refl }

claim-Keeps_example : Keeps (half_claimed throughput) (claim whole 5 (half_claimed throughput) 2).0
claim-Keeps_example =
    claim-Keeps whole 5 2 (half_claimed throughput) (half_claimed-IsSound throughput)
      one_volume-IsLayout

found : split_off (half_claimed throughput).live 1 ≡ some (first_half, [])
unfolding split_off with_front
found = refl

finish-Keeps_example :
    Keeps (half_claimed throughput) (finish (half_claimed throughput) 1 1_048_576)
finish-Keeps_example =
    finish-Keeps (half_claimed throughput) 1 first_half [] (half_claimed-IsSound throughput)
      (half_claimed-IsExclusive throughput) found refl (inr (omega arith))

abbrev seeking : Scheduler
seeking = half_claimed (latency 1_048_576 1_048_576)

refocus_on_reader-Keeps_example : Keeps seeking (refocus_on_reader seeking 1_048_576).0
refocus_on_reader-Keeps_example =
    refocus_on_reader-Keeps seeking 1_048_576 (half_claimed-IsSound (latency 1_048_576 1_048_576))
      (half_claimed-IsExclusive (latency 1_048_576 1_048_576)) (inr (omega arith), tt)

-- A minute later.
reclaim_stalled-Keeps_example :
    Keeps (half_claimed throughput) (reclaim_stalled 60_000_000_000 (half_claimed throughput)).0
reclaim_stalled-Keeps_example =
    reclaim_stalled-Keeps 60_000_000_000 (half_claimed throughput) (half_claimed-IsSound throughput)
      (half_claimed-IsExclusive throughput) (inr (omega arith), tt)

-- Worker 2 races the first two of eight MiB that worker 1 has not begun, and wins.
abbrev stalled : Live
stalled = claim_of 1 0 8_388_607 0 none

abbrev winner : Live
winner = claim_of 2 0 2_097_151 2_097_152 (some 0)

abbrev hedged : Scheduler
hedged = scheduler_of throughput [] (stalled ∷ winner ∷ [])

hedged-IsExclusive : IsExclusive hedged
unfolding owners_in
hedged-IsExclusive x = ground arith

winner_found : split_off hedged.live 2 ≡ some (winner, stalled ∷ [])
unfolding split_off with_front
winner_found = refl

raced-stalled : raced (stalled ∷ []) 0 ≡ some stalled
unfolding raced first
raced-stalled = refl

finish-strands_example :
    owners hedged 3_145_728 ≡ 1 × (owners (finish hedged 2 2_097_152) 3_145_728 ≡ 0)
finish-strands_example =
    finish-strands hedged 2 2_097_152 0 winner stalled (stalled ∷ []) 3_145_728 hedged-IsExclusive
      winner_found refl (omega arith) raced-stalled (omega arith) (omega arith) (omega arith)
      (omega arith)

abbrev two_gaps : Ranges
two_gaps = (0, 9) ∷ (20, 29) ∷ []

two_gaps-IsSortedIn : IsSortedIn 0 99 two_gaps
two_gaps-IsSortedIn =
    (omega arith, omega arith, omega arith, (omega arith, omega arith, omega arith, tt))

abbrev two_volumes : List VolumeMeta
two_volumes =
    record { urls = []; offset = 0; size = 700 }
    ∷ record { urls = []; offset = 700; size = 300 }
    ∷ []

-- A request of 8 MiB whose second MiB is on disk.
abbrev resumed : Scheduler
resumed = new 0 8_388_607 throughput none 4 2 none ((1_048_576, 2_097_151) ∷ [])

-- Worker 1 has buffered a megabyte behind the end to which its claim was cut, and stands still.
abbrev buffering : Live
buffering = record (claim_of 1 0 1_048_575 524_288 none) { reserved = 2_097_152 }

abbrev cut_claim : Scheduler
cut_claim = scheduler_of throughput ((2_097_152, 8_388_607) ∷ []) (buffering ∷ [])

cut_claim-IsSound : IsSound cut_claim
unfolding volume_end
cut_claim-IsSound = record {
  word = omega arith;
  sorted = (omega arith, omega arith, omega arith, tt);
  placed =
      (record { begun = omega arith; bounded = omega arith; one_volume = λ p x q r e. cc }, tt);
}

cut_claim-IsExclusive : IsExclusive cut_claim
unfolding owners_in
cut_claim-IsExclusive x = ground arith

reclaim_stalled-strands_example :
    (owners cut_claim 1_500_000 ≡ 1)
    × (owners (reclaim_stalled 60_000_000_000 cut_claim).0 1_500_000 ≡ 0)
reclaim_stalled-strands_example =
    reclaim_stalled-strands 60_000_000_000 cut_claim buffering 1_500_000 cut_claim-IsSound
      cut_claim-IsExclusive refl refl (omega arith) (omega arith) (omega arith) (omega arith)
      (omega arith)
