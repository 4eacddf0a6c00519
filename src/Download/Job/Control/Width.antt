-- ===== src/Download/Job/Control/Width.antt =====
-- src/download.rs: `start_cache` sets every worker going, and `pause_cache` stops every one.
use hydraria.Prelude.{
  ℕ, ◌<◌, ◌≡◌, ◌≢◌, ◌⊎◌, refl, true, false, some, length, get_elem?, arith, inl, inr,
}
use mathlib.Core.Path.{subst}
use hydraria.Cache.Entry.{IsValid}
use hydraria.Schedule.State.{throughput}
use hydraria.Download.{build_scheduler, is_complete}
use hydraria.Download.Pool.{Slot, Task}
use hydraria.Download.Pool.Invariant.{IsStaffed}
use hydraria.Download.Pool.Staffed.{ensure_workers-IsStaffed}
use hydraria.Download.Pool.Filled.{ensure_workers-fills}
use hydraria.Download.Pool.Emptied.{abort_workers-none, abort_workers-aborted}
use hydraria.Download.Run.Invariant.{IsAnswered}
use hydraria.Download.Run.Built.{built-IsAnswered}
use hydraria.Download.Job.{
  JobState, idle, running, paused, done, failed, Job, start_cache, pause_cache, ensure_workers,
  retune, unless_done, rebuild_scheduler, is_nil,
}

-- A task of the job's for `worker` runs.
pub record IsWorking {Disk : Type 0} (j : Job Disk) (worker : ℕ) : Type 0 where
  pub slot : Slot
  pub in_slot : get_elem? j.workers.handles worker ≡ some (some slot)
  pub runs :
      j.workers.tasks slot.handle
      ≡ some (record { worker = worker; generation = slot.generation; aborted = false })

module _ {Disk : Type 0} (j : Job Disk) (v : IsStaffed j.workers) where
  -- When the pool is staffed, with a slot for each worker, and the file is not complete, then
  -- after `start_cache` each worker has a task that runs and has its slot.
  pub start_cache-IsWorking :
      length j.workers.handles ≡ j.threads
      → is_complete j.entry j.total_size ≡ false
      → (worker : ℕ) → worker < j.threads
      → IsWorking (start_cache j) worker
  unfolding start_cache ensure_workers retune
  start_cache-IsWorking width holes worker inside = rw holes (
      let staffed = ensure_workers-IsStaffed true j.threads j.workers (omega arith) v in
      let (slot, at) = ensure_workers-fills j.threads j.workers worker (omega arith) inside in
      record { slot = slot; in_slot = at; runs = staffed.held worker slot at })

-- Nothing runs for the job, and what is not on disk can be claimed.
pub record IsStopped {Disk : Type 0} (j : Job Disk) : Type 0 where
  pub state : (j.state ≡ paused) ⊎ (j.state ≡ done)
  pub calm : j.cache_requested ≡ false
  pub no_slot : (worker : ℕ) (slot : Slot) → get_elem? j.workers.handles worker ≢ some (some slot)
  pub no_task : (h : ℕ) (t : Task) → j.workers.tasks h ≡ some t → t.aborted ≡ true
  pub answered :
      IsAnswered j.engine j.total_size (record { scheduler = j.scheduler; entry = j.entry })

unless_done-cases : (state : JobState) → (unless_done state ≡ paused) ⊎ (unless_done state ≡ done)
unfolding unless_done
unless_done-cases done = inr refl
unless_done-cases idle = inl refl
unless_done-cases running = inl refl
unless_done-cases paused = inl refl
unless_done-cases (failed e) = inl refl

-- For a job with a staffed pool, a well-formed entry of its size and no reader, `pause_cache`
-- leaves the job paused or done and not requested, no slot taken and every task aborted, and each
-- byte of the file on disk or with one owner.
pub pause_cache-IsStopped :
    {Disk : Type 0} (now : ℕ) (j : Job Disk)
    → IsStaffed j.workers
    → IsValid j.entry
    → 0 < j.total_size
    → j.entry.meta.total_size ≡ j.total_size
    → is_nil j.readers ≡ true
    → IsStopped (pause_cache now j)
unfolding pause_cache rebuild_scheduler
pause_cache-IsStopped now j v valid some_bytes size alone = rw alone (record {
  state = unless_done-cases j.state;
  calm = refl;
  no_slot = λ worker slot at. abort_workers-none j.workers worker at;
  no_task = λ h t e. abort_workers-aborted j.workers h v e;
  answered =
      subst
        (λ (n : ℕ). IsAnswered j.engine n (record {
          scheduler = build_scheduler now j.entry j.engine n j.threads throughput;
          entry = j.entry;
        }))
        size
        (built-IsAnswered now j.threads throughput j.entry j.engine valid (omega (arith, size)));
})
