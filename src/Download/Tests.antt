-- ===== src/Download/Tests.antt =====
-- A job on a file of ten bytes.
use hydraria.Cache.Blocks.{block_start}
use hydraria.Cache.Bitmap.{has_block}
use hydraria.Cache.Entry.Staged.{staged_ranges, staged_loop}
use hydraria.Schedule.Create.{new, subtract_all}
use hydraria.Prelude.{ℕ, ◌<◌, ◌≡◌, refl, ◌∙◌, u64_max, true, List, [], ◌∷◌, none, arith, inr}
use hydraria.Cache.Entry.{Entry, write_range, present, contiguous_from, covered_to, find_run}
use hydraria.Cache.Tests.{write_disk, keep_disk, new_entry, new_entry-IsValid}
use hydraria.Schedule.State.{
  Scheduler, Live, reserve, advance_to, volume_of, volume_end, throughput,
}
use hydraria.Schedule.Assign.{claim, take_unclaimed, register}
use hydraria.Schedule.Release.{split_off, finish}
use hydraria.Schedule.Select.{pick_gap, live_in_volume}
use hydraria.Schedule.Sizing.{
  floor, horizon, claim_len, even_share, min_frag, in_tail, remaining_work, owed_by,
  endgame_threshold,
}
use hydraria.Schedule.Ranges.{unclaimed_bytes, subtract}
use hydraria.Cache.Entry.Written.{write_range-present}
use hydraria.Schedule.Tests.{whole, claim_of, scheduler_of, one_volume-IsLayout}
use hydraria.Download.Run.{
  System, put_claim, Turns, stays, goes_on, claims, reserves, writes, advances, finishes, IsDue,
  stops, IsFair, AllFair,
}
use hydraria.Download.Run.Answered.{Turns-IsAnswered}
use hydraria.Download.Run.Invariant.{IsAnswered}
use hydraria.Download.Run.Built.{built-IsAnswered}
use hydraria.Download.Run.Drained.{Turns-is_complete}
use hydraria.Download.{Engine, build_scheduler, is_drained, is_complete}

abbrev engine : Engine
engine = record { volumes = none; max_per_volume = 2; max_split = 0; claim_wall = none }

-- Nothing is on disk, and nothing claimed.
abbrev fresh : Scheduler
fresh = record (scheduler_of throughput ((0, 9) ∷ []) []) {
  max_threads = 1;
  max_per_volume = 2;
  req_end = 9;
  auto_wall = u64_max;
}

fresh-build_scheduler : build_scheduler 0 new_entry engine 10 1 throughput ≡ fresh
unfolding build_scheduler new subtract_all staged_ranges staged_loop contiguous_from covered_to
    has_block find_run block_start subtract
fresh-build_scheduler = refl

-- Worker 0 has the whole file.
abbrev whole_file : Live
whole_file = claim_of 0 0 9 0 none

claim-fresh : (claim whole 0 fresh 0).0 ≡ record fresh { unclaimed = []; live = whole_file ∷ [] }
unfolding claim take_unclaimed pick_gap floor horizon live_in_volume register volume_of volume_end
    claim_len even_share unclaimed_bytes min_frag in_tail remaining_work owed_by endgame_threshold
    subtract
claim-fresh = refl

abbrev ten_bytes : List ℕ
ten_bytes = 1 ∷ 2 ∷ 3 ∷ 4 ∷ 5 ∷ 6 ∷ 7 ∷ 8 ∷ 9 ∷ 10 ∷ []

abbrev after : Entry (List ℕ)
after = (write_range write_disk keep_disk new_entry 0 ten_bytes).0

after-present : (x : ℕ) → x < 10 → present after x ≡ true
after-present x h =
    write_range-present write_disk keep_disk new_entry 0 ten_bytes x (omega arith) new_entry-IsValid
      h
    ∙ ground arith

abbrev claimed : Scheduler
claimed = (claim whole 0 fresh 0).0

abbrev reserved : Scheduler
reserved = put_claim claimed 0 (reserve whole_file 10)

abbrev advanced : Scheduler
advanced = put_claim reserved 0 (advance_to (reserve whole_file 10) 10)

abbrev finished : System (List ℕ)
finished = record { scheduler = finish advanced 0 10; entry = after }

abbrev ToEnd : System (List ℕ) → Type 0
ToEnd y = Turns write_disk keep_disk whole engine 1 y finished

run : ToEnd (record { scheduler = fresh; entry = new_entry })
unfolding reserve advance_to
run =
    goes_on
      (goes_on
        (goes_on
          (goes_on (goes_on stays (claims 0 0)) (reserves 0 10 whole_file (rw claim-fresh refl)))
          (writes 0 ten_bytes))
        (advances 0 10 (reserve whole_file 10) (rw claim-fresh refl)))
      (finishes 0 10)

finishes-IsDue : IsDue (record { scheduler = advanced; entry = after }) 0 10
unfolding reserve advance_to split_off
finishes-IsDue =
    stops (advance_to (reserve whole_file 10) 10) [] (rw claim-fresh refl) refl refl
      (inr (omega arith))

abbrev IsFairRun : (y : System (List ℕ)) → ToEnd y → Type 0
IsFairRun y steps = AllFair write_disk keep_disk whole engine 1 steps

run-IsFairRun : IsFairRun (record { scheduler = fresh; entry = new_entry }) run
unfolding AllFair IsFair run reserve
run-IsFairRun = (
  ((((tt, tt), omega arith), omega arith), (omega arith, λ x p q. after-present x q)),
  finishes-IsDue,
)

fresh-IsAnswered : IsAnswered engine 10 (record { scheduler = fresh; entry = new_entry })
fresh-IsAnswered =
    rw fresh-build_scheduler at
      (built-IsAnswered 0 1 throughput new_entry engine new_entry-IsValid (omega arith))

Turns-IsAnswered_example : IsAnswered engine 10 finished
Turns-IsAnswered_example =
    Turns-IsAnswered engine one_volume-IsLayout 10 (omega arith) write_disk keep_disk whole 1
      fresh-IsAnswered run run-IsFairRun

abbrev built : System (List ℕ)
built = record { scheduler = build_scheduler 0 new_entry engine 10 1 throughput; entry = new_entry }

-- The run, and that it is fair.
run_from_built : (steps : ToEnd built) × IsFairRun built steps
run_from_built = rw fresh-build_scheduler (run, run-IsFairRun)

finished-live : finished.scheduler.live ≡ []
unfolding finish split_off reserve advance_to
finished-live = rw claim-fresh refl

finished-is_drained : is_drained finished.scheduler ≡ true
unfolding is_drained finish split_off reserve advance_to
finished-is_drained = rw claim-fresh refl

Turns-is_complete_example : is_complete finished.entry finished.entry.meta.total_size ≡ true
Turns-is_complete_example =
    Turns-is_complete write_disk keep_disk whole engine 1 0 throughput new_entry new_entry-IsValid
      (omega arith) one_volume-IsLayout run_from_built.0 run_from_built.1 finished-is_drained
      (rw finished-live tt)
