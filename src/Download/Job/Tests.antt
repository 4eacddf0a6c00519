-- ===== src/Download/Job/Tests.antt =====
-- A job of two workers on a file of ten bytes.
use hydraria.Prelude.{
  ℕ, zero, suc, ◌+◌, ◌≤◌, ◌≡◌, refl, wrapping_add, true, false, List, [], ◌∷◌, none, some, length,
  arith,
}
use hydraria.Cache.Blocks.{block_start}
use hydraria.Cache.Bitmap.{has_block}
use hydraria.Cache.Entry.{contiguous_from, covered_to, find_run}
use hydraria.Cache.Tests.{new_entry, new_entry-IsValid}
use hydraria.Schedule.State.{throughput}
use hydraria.Download.{Engine, build_scheduler, is_complete}
use hydraria.Download.Pool
use hydraria.Download.Pool.Invariant.{new-IsStaffed}
use hydraria.Download.Pool.Tests.{staffed, staffed-IsStaffed}
use hydraria.Download.Job.{
  idle, running, failed, Job, new_job, start_cache, pause_cache, stream, reader_moves,
  insert_reader, read_frontier, store_mark, refocused, retune, ensure_workers,
  republish_write_through,
}
use hydraria.Fetch.Stream.Attempts.{ProxyError, upstream}
use hydraria.Download.Job.Calls.{Calls, starts, streams, moves, fresh, and_then}
use hydraria.Download.Job.Published.{IsPublished, reader_at}
use hydraria.Download.Job.Sections
use hydraria.Download.Job.Sections.{
  Shared, at_rest, looks, marks, resets, counts_one, fails, Sections, rests, goes_on, IsForward,
  AllForward,
}
use hydraria.Download.Job.Sections.Marked.{IsNear, Sections-IsNear}
use hydraria.Download.Job.Sections.Spent.{Sections-IsHonest}
use hydraria.Download.Job.Outcome.Failures.{IsHonest}
use hydraria.Download.Job.Control.Width.{
  IsWorking, start_cache-IsWorking, IsStopped, pause_cache-IsStopped,
}

abbrev engine : Engine
engine = record { volumes = none; max_per_volume = 2; max_split = 0; claim_wall = none }

abbrev job : Job (List ℕ)
job = record {
  total_size = 10;
  threads = 2;
  engine = engine;
  entry = new_entry;
  scheduler = build_scheduler 0 new_entry engine 10 2 throughput;
  workers = Pool.new 2;
  state = idle;
  cache_requested = false;
  readers = [];
  write_through_below = 0;
  next_reader = 1;
  failures = 0;
  failure_budget = 8;
}

incomplete : is_complete new_entry 10 ≡ false
unfolding is_complete contiguous_from covered_to has_block find_run block_start
incomplete = refl

new_job-some : new_job 0 new_entry engine 2 ≡ some job
unfolding new_job
new_job-some = rw incomplete refl

-- Two readers come, and one moves on.
abbrev watched : Job (List ℕ)
watched = reader_moves (stream (stream job 3).0 0).0 1 6 2

watched_calls : Calls job watched
watched_calls = and_then (and_then (and_then fresh (streams 3)) (streams 0)) (moves 1 6 2)

-- Reader 1 moves on while the mark for its last place is still to be stored.
abbrev looked : Shared (List ℕ)
looked = record (at_rest watched) { frontiers = read_frontier watched ∷ [] }

abbrev moved : Shared (List ℕ)
moved = record looked { job = record watched { readers = insert_reader 1 8 watched.readers } }

abbrev marked : Shared (List ℕ)
marked = record moved { job = store_mark moved.job (read_frontier watched) }

overlap : Sections (at_rest watched) marked
overlap =
    goes_on (goes_on (goes_on rests looks) (Sections.moves 1 8))
      (marks 0 (read_frontier watched) refl)

reader_there : reader_at watched.readers 1 ≡ some 6
unfolding stream reader_moves refocused retune ensure_workers republish_write_through store_mark
    insert_reader
reader_there = refl

overlap-AllForward : AllForward overlap
unfolding AllForward IsForward overlap
overlap-AllForward = (((tt, tt), (6, reader_there, omega arith)), tt)

Sections-IsNear_example :
    IsPublished watched × IsNear marked.job.readers marked.job.write_through_below
Sections-IsNear_example =
    Sections-IsNear 0 new_entry engine 2 new_job-some watched_calls overlap overlap-AllForward

abbrev Reaches : Shared (List ℕ) → Type 0
Reaches z = Sections (at_rest (start_cache job)) z

-- `n` failures are counted, one behind the other.
abbrev counting : ℕ → Shared (List ℕ)
counting zero = at_rest (start_cache job)
counting (suc n) =
    let y = counting n in
    record y {
      job = record y.job { failures = wrapping_add y.job.failures 1 };
      counts = wrapping_add y.job.failures 1 ∷ y.counts;
      counted = y.counted + 1;
    }

counting-Reaches : (n : ℕ) → Reaches (counting n)
counting-Reaches zero = rests
counting-Reaches (suc n) = goes_on (counting-Reaches n) counts_one

-- The job starts again before the task that has counted the eighth failure fails it.
abbrev restarted : Shared (List ℕ)
restarted = record (counting 8) { job = record (counting 8).job { failures = 0 } }

abbrev broken : Shared (List ℕ)
broken = record restarted { job = record restarted.job { state = failed upstream } }

restarted_then_broken : Reaches broken
unfolding start_cache retune ensure_workers
restarted_then_broken =
    goes_on (goes_on (counting-Reaches 8) resets)
      (fails 0 8 upstream (rw incomplete refl) (rw incomplete refl))

Sections-IsHonest_example :
    IsHonest (start_cache job)
    × ((error : ProxyError)
        → broken.job.state ≡ failed error
        → broken.job.failure_budget ≤ broken.counted)
Sections-IsHonest_example =
    Sections-IsHonest 0 new_entry engine 2 new_job-some (and_then fresh starts)
      restarted_then_broken

slots : length job.workers.handles ≡ 2
unfolding Pool.new
slots = refl

start_cache-IsWorking_example : IsWorking (start_cache job) 1
start_cache-IsWorking_example =
    start_cache-IsWorking job (new-IsStaffed 2) slots incomplete 1 (omega arith)

abbrev filling : Job (List ℕ)
filling = record job { workers = staffed; state = running; cache_requested = true }

pause_cache-IsStopped_example : IsStopped (pause_cache 5 filling)
pause_cache-IsStopped_example =
    pause_cache-IsStopped 5 filling staffed-IsStaffed new_entry-IsValid (omega arith) refl refl
