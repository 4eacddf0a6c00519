-- ===== src/Download/Job/Sections.antt =====
-- src/download.rs, `CacheJob`: what its methods do between two of each other's steps. The readers,
-- the write-through mark, the request, the state and the count of failures are read and stored one
-- at a time, under a lock of their own or as an atomic; here each of these is a step, and the steps
-- of methods that overlap come in any order.
pub mod Marked
pub mod Spent
use hydraria.Prelude.{
  ℕ, ◌+◌, ◌≤◌, ◌≡◌, Bool, true, List, [], ◌∷◌, some, get_elem?, leb, wrapping_add,
}
use hydraria.Cache.Entry.{Entry}
use hydraria.Schedule.State.{Scheduler}
use hydraria.Fetch.Stream.Attempts.{ProxyError}
use hydraria.Download.Pool.{Pool}
use hydraria.Download.Job.{
  JobState, running, done, failed, Job, insert_reader, remove_reader, unless_done, read_frontier,
  store_mark, store_requested, store_state, store_failures,
}
use hydraria.Download.Job.Outcome.{done_unless_failed}
use hydraria.Download.Job.Published.{reader_at, reads_at}

-- The job, the frontiers and the counts that its tasks have read and may still use, and how many
-- failures have been counted.
pub record Shared (Disk : Type 0) : Type 0 where
  pub job : Job Disk
  pub frontiers : List ℕ
  pub counts : List ℕ
  pub counted : ℕ

-- No method is under way.
abbrev pub at_rest : {Disk : Type 0} → Job Disk → Shared Disk
at_rest j = record { job = j; frontiers = []; counts = []; counted = j.failures }

-- The readers: one comes, moves or leaves, and `republish_write_through` reads the frontier and then
-- stores it. The control: the stores of `start_cache`, `pause_cache`, `stop` and of a worker at its
-- end. The failures: one is counted, and the task that has counted as many as the budget allows
-- fails the job. The rest of the job changes as it may.
pub data Section {Disk : Type 0} (y : Shared Disk) : Shared Disk → Type 0 where
  arrives :
      (from : ℕ)
      → Section y (record y {
        job = record y.job {
          next_reader = wrapping_add y.job.next_reader 1;
          readers = insert_reader y.job.next_reader from y.job.readers;
        };
      })
  moves :
      (id cursor : ℕ)
      → Section y
          (record y { job = record y.job { readers = insert_reader id cursor y.job.readers } })
  leaves :
      (id : ℕ)
      → Section y (record y { job = record y.job { readers = remove_reader id y.job.readers } })
  looks : Section y (record y { frontiers = read_frontier y.job ∷ y.frontiers })
  marks :
      (pos mark : ℕ)
      → get_elem? y.frontiers pos ≡ some mark
      → Section y (record y { job = store_mark y.job mark })
  requests : (requested : Bool) → Section y (record y { job = store_requested y.job requested })
  runs : Section y (record y { job = store_state y.job running })
  pauses : Section y (record y { job = store_state y.job (unless_done y.job.state) })
  completes : Section y (record y { job = store_state y.job done })
  ends : Section y (record y { job = store_state y.job (done_unless_failed y.job.state) })
  resets : Section y (record y { job = store_failures y.job 0 })
  counts_one : Section y (record y {
    job = store_failures y.job (wrapping_add y.job.failures 1);
    counts = wrapping_add y.job.failures 1 ∷ y.counts;
    counted = y.counted + 1;
  })
  fails :
      (pos failures : ℕ) (error : ProxyError)
      → get_elem? y.counts pos ≡ some failures
      → leb y.job.failure_budget failures ≡ true
      → Section y (record y { job = store_state y.job (failed error) })
  works :
      (s : Scheduler) (e : Entry Disk) (p : Pool)
      → Section y (record y { job = record y.job { scheduler = s; entry = e; workers = p } })

pub data Sections {Disk : Type 0} (y : Shared Disk) : Shared Disk → Type 0 where
  rests : Sections y y
  goes_on : {z w : Shared Disk} → Sections y z → Section z w → Sections y w

-- A reader goes forward, and comes no earlier in the file than one that is there.
unfoldable pub IsForward : {Disk : Type 0} {y z : Shared Disk} → Section y z → Type 0
IsForward {Disk} {y} (arrives from) =
    (head : ℕ) × (reads_at y.job.readers head ≡ true) × (head ≤ from)
IsForward {Disk} {y} (moves id cursor) =
    (head : ℕ) × (reader_at y.job.readers id ≡ some head) × (head ≤ cursor)
IsForward (leaves id) = Unit
IsForward looks = Unit
IsForward (marks pos mark there) = Unit
IsForward (requests requested) = Unit
IsForward runs = Unit
IsForward pauses = Unit
IsForward completes = Unit
IsForward ends = Unit
IsForward resets = Unit
IsForward counts_one = Unit
IsForward (fails pos failures error there spent) = Unit
IsForward (works s e p) = Unit

unfoldable pub AllForward : {Disk : Type 0} {y z : Shared Disk} → Sections y z → Type 0
unfolding IsForward
AllForward rests = Unit
AllForward (goes_on run step) = AllForward run × IsForward step
