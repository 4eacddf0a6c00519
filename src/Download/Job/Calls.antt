-- ===== src/Download/Job/Calls.antt =====
-- src/download.rs: calls on a job that follow one another, each ending before the next begins, in
-- any order and with any arguments. Sections has those that overlap.
use hydraria.Prelude.{ℕ, ◌+◌, ◌<◌, Bool, Option, u64_mod}
use hydraria.Cache.Entry.{Entry}
use hydraria.Fetch.Stream.Attempts.{ProxyError}
use hydraria.Schedule.State.{Scheduler, Claim}
use hydraria.Download.Job.{
  Job, start_cache, pause_cache, stop, sweep_stalled, stream, reader_waits, reader_moves,
  reader_leaves,
}
use hydraria.Download.Job.Outcome.{claim_ends, worker_ends}

-- Fewer failures are counted than a 64-bit number holds. In between, the workers claim work and store what they fetch: the scheduler and the entry change.
pub data Call {Disk : Type 0} (j : Job Disk) : Job Disk → Type 0 where
  starts : Call j (start_cache j)
  pauses : (now : ℕ) → Call j (pause_cache now j)
  stops : Call j (stop j)
  sweeps : (now : ℕ) → Call j (sweep_stalled now j)
  streams : (from : ℕ) → Call j (stream j from).0
  waits : Call j (reader_waits j)
  moves : (id cursor ahead : ℕ) → Call j (reader_moves j id cursor ahead)
  leaves : (id : ℕ) → Call j (reader_leaves j id)
  settles :
      (now worker : ℕ) (claim : Claim) (cursor : ℕ) (retry_after : Option ℕ)
      (result : Option ProxyError)
      → j.failures + 1 < u64_mod
      → Call j (claim_ends now j worker claim cursor retry_after result).0
  retires :
      (worker generation : ℕ) (superseded : Bool)
      → Call j (worker_ends j worker generation superseded)
  works : (s : Scheduler) (e : Entry Disk) → Call j (record j { scheduler = s; entry = e })

pub data Calls {Disk : Type 0} (j : Job Disk) : Job Disk → Type 0 where
  fresh : Calls j j
  and_then : {k l : Job Disk} → Calls j k → Call k l → Calls j l
