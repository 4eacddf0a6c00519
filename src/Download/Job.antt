-- ===== src/Download/Job.antt =====
-- src/download.rs, `CacheJob`: the readers and the workers of one file. Each method is a function of
-- the job; the time is an argument where a method reads the clock. The throughput samples are left
-- out.
pub mod Outcome
pub mod Calls
pub mod Published
pub mod Control
pub mod Sections
pub mod Tests
use hydraria.Prelude.{
  ℕ, ◌+◌, ◌*◌, ◌≤◌, min, max, Bool, true, false, not, ◌||◌, ◌&&◌, List, [], ◌∷◌, Option, none, some,
  leb, ◌==◌, if◌then◌else◌, saturating_add, saturating_mul, wrapping_add, u64_mod,
}
use hydraria.Cache.Entry.{Entry}
use hydraria.Fetch.Stream.Attempts.{
  ProxyError, upstream, bad_status, throttled, content_changed, io_error, no_mirror, is_overload,
}
use hydraria.Schedule.State.{Scheduler, Claim, Strategy, throughput, latency, mib}
use hydraria.Schedule.Adapt.{
  note_claim_outcome, note_overload, set_read_head, set_reader_buffer, set_strategy, set_work_limit,
}
use hydraria.Schedule.Release.{finish, refocus_on_reader, reclaim_stalled}
use hydraria.Download.{Engine, build_scheduler, is_complete}
use hydraria.Download.Pool
use hydraria.Download.Pool.{Pool}

-- `DEFAULT_CRITICAL_WINDOW`, `DEFAULT_HEAD_CLAIM`
abbrev pub critical_window : ℕ
critical_window = 32 * mib

abbrev pub latency_default : Strategy
latency_default = latency (32 * mib) (2 * mib)

abbrev pub playback_horizon : ℕ
playback_horizon = 256 * mib

abbrev pub write_through_ahead : ℕ
write_through_ahead = 32 * mib

pub data JobState : Type 0 where
  idle running paused done : JobState
  failed : ProxyError → JobState

pub record Job (Disk : Type 0) : Type 0 where
  pub total_size : ℕ
  pub threads : ℕ
  pub engine : Engine
  pub entry : Entry Disk
  pub scheduler : Scheduler
  pub workers : Pool
  pub state : JobState
  pub cache_requested : Bool
  pub readers : List (ℕ × ℕ)
  pub write_through_below : ℕ
  pub next_reader : ℕ
  pub failures : ℕ
  pub failure_budget : ℕ

abbrev pub is_nil : List (ℕ × ℕ) → Bool
is_nil [] = true
is_nil (r ∷ rs) = false

-- The map of the readers.
pub insert_reader : ℕ → ℕ → List (ℕ × ℕ) → List (ℕ × ℕ)
insert_reader id head [] = (id, head) ∷ []
insert_reader id head ((i, h) ∷ rs) =
    let later = insert_reader id head rs in if i == id then (id, head) ∷ rs else (i, h) ∷ later

pub remove_reader : ℕ → List (ℕ × ℕ) → List (ℕ × ℕ)
remove_reader id [] = []
remove_reader id ((i, h) ∷ rs) =
    let later = remove_reader id rs in if i == id then rs else (i, h) ∷ later

-- `values().min()`
minimum : ℕ → Option ℕ → Option ℕ
minimum h none = some h
minimum h (some low) = some (min h low)

pub lowest : List (ℕ × ℕ) → Option ℕ
unfolding minimum
lowest [] = none
lowest ((i, h) ∷ rs) = minimum h (lowest rs)

frontier : Option ℕ → ℕ
frontier none = 0
frontier (some head) = saturating_add head write_through_ahead

retuned : Scheduler → Bool → Option ℕ → Scheduler
retuned s active none = set_work_limit (set_strategy s throughput) none
retuned s active (some head) =
    set_work_limit (set_strategy (set_read_head s head) latency_default)
      (if active then none else some playback_horizon)

pub unless_done : JobState → JobState
unless_done done = done
unless_done idle = paused
unless_done running = paused
unless_done paused = paused
unless_done (failed e) = paused

module _ {Disk : Type 0} where
  pub new_job : ℕ → Entry Disk → Engine → ℕ → Option (Job Disk)
  new_job now entry engine max_threads =
      let total_size = entry.meta.total_size in
      let threads = max max_threads 1 in
      if total_size == 0
      then none
      else some (record {
        total_size = total_size;
        threads = threads;
        engine = engine;
        entry = entry;
        scheduler = build_scheduler now entry engine total_size threads throughput;
        workers = Pool.new threads;
        state = if is_complete entry total_size then done else idle;
        cache_requested = false;
        readers = [];
        write_through_below = 0;
        next_reader = 1;
        failures = 0;
        failure_budget = max (saturating_mul threads 2) 8;
      })

  pub retune : Job Disk → Job Disk
  unfolding retuned
  retune j = record j { scheduler = retuned j.scheduler j.cache_requested (lowest j.readers) }

  pub ensure_workers : Job Disk → Job Disk
  ensure_workers j = record j {
    workers = Pool.ensure_workers (j.cache_requested || not (is_nil j.readers)) j.threads j.workers;
  }

  -- What it reads under the lock of the readers, and what it stores behind it.
  pub read_frontier : Job Disk → ℕ
  unfolding frontier
  read_frontier j = frontier (lowest j.readers)

  pub store_mark : Job Disk → ℕ → Job Disk
  store_mark j mark = record j { write_through_below = mark }

  pub republish_write_through : Job Disk → Job Disk
  unfolding read_frontier store_mark
  republish_write_through j = store_mark j (read_frontier j)

  -- The stores to the fields that no common lock holds together.
  abbrev pub store_requested : Job Disk → Bool → Job Disk
  store_requested j requested = record j { cache_requested = requested }

  abbrev pub store_state : Job Disk → JobState → Job Disk
  store_state j state = record j { state = state }

  abbrev pub store_failures : Job Disk → ℕ → Job Disk
  store_failures j failures = record j { failures = failures }

  pub start_cache : Job Disk → Job Disk
  start_cache j =
      if is_complete j.entry j.total_size
      then store_requested (store_state j done) false
      else ensure_workers (retune (store_failures (store_state (store_requested j true) running) 0))

  rebuild_scheduler : ℕ → Job Disk → Job Disk
  rebuild_scheduler now j = record j {
    scheduler =
        build_scheduler now j.entry j.engine j.total_size j.threads
          (if is_nil j.readers then throughput else latency_default);
  }

  pub pause_cache : ℕ → Job Disk → Job Disk
  unfolding unless_done rebuild_scheduler
  pause_cache now j =
      let quiet = store_state (store_requested j false) (unless_done j.state) in
      let j' =
        rebuild_scheduler now (record quiet { workers = Pool.abort_workers quiet.workers }) in
      if is_nil j.readers then j' else ensure_workers (retune j')

  pub stop : Job Disk → Job Disk
  stop j = record j { cache_requested = false; workers = Pool.abort_workers j.workers }

  pub sweep_stalled : ℕ → Job Disk → Job Disk
  sweep_stalled now j =
      let (s, dead) = reclaim_stalled now j.scheduler in
      if not j.cache_requested && is_nil j.readers
      then j
      else record j { scheduler = s; workers = Pool.respawn j.workers dead }

  refocused : Job Disk → Job Disk
  refocused j =
      let (s, stale) = refocus_on_reader j.scheduler critical_window in
      record j { scheduler = s; workers = Pool.respawn j.workers stale }

  -- `stream`, up to the task that reads, and the new reader's id.
  pub stream : Job Disk → ℕ → Job Disk × ℕ
  unfolding refocused
  stream j start =
      let id = j.next_reader in
      let j' = record j {
        next_reader = wrapping_add id 1;
        readers = insert_reader id start j.readers;
      } in
      (ensure_workers (refocused (retune (republish_write_through j'))), id)

  -- In `run_reader`: where nothing is there to read; behind each chunk, with the bytes that follow
  -- it on disk; and at the end.
  pub reader_waits : Job Disk → Job Disk
  reader_waits j = ensure_workers (retune j)

  pub reader_moves : Job Disk → ℕ → ℕ → ℕ → Job Disk
  reader_moves j id cursor ahead =
      let j' = republish_write_through (record j { readers = insert_reader id cursor j.readers }) in
      record j' { scheduler = set_reader_buffer (set_read_head j'.scheduler cursor) ahead }

  pub reader_leaves : Job Disk → ℕ → Job Disk
  reader_leaves j id =
      let j' = republish_write_through (record j { readers = remove_reader id j.readers }) in
      if is_nil j'.readers
      then (if j'.cache_requested
          then ensure_workers (retune j')
          else record j' { workers = Pool.drain_workers j'.workers })
      else retune j'
