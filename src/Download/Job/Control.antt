-- ===== src/Download/Job/Control.antt =====
-- src/download.rs, `CacheJob`: what `start_cache` and `pause_cache` come to, and the reported state.
pub mod Width
use hydraria.Prelude.{
  ℕ, zero, suc, ◌+◌, ◌≤◌, ◌<◌, ◌≡◌, refl, Bool, true, false, not, ◌||◌, ◌&&◌, List, [], Option,
  none, some, length, get_elem?, ◌==◌, arith, Bool-cases, inl, inr,
}
use hydraria.Cache.Entry.{Entry}
use hydraria.Fetch.Stream.Attempts.{ProxyError}
use hydraria.Download.{Engine, is_complete}
use hydraria.Download.Job.{
  JobState, idle, running, paused, done, failed, Job, new_job, start_cache, pause_cache, stop,
  sweep_stalled, stream, reader_waits, reader_moves, reader_leaves, retune, ensure_workers,
  refocused, rebuild_scheduler, unless_done, republish_write_through, store_mark, is_nil,
  remove_reader,
}
use hydraria.Download.Job.Calls.{
  Call, starts, pauses, stops, sweeps, streams, waits, moves, leaves, settles, retires, works,
  Calls, fresh, and_then,
}
use hydraria.Download.Job.Outcome.Failures.{IsHonest, claim_ends-IsHonest, worker_ends-IsHonest}

pub unless_done-failed :
    (state : JobState) (error : ProxyError) → unless_done state ≡ failed error → ⊥
unfolding unless_done
unless_done-failed (failed e) error h = cc
unless_done-failed idle error h = cc
unless_done-failed running error h = cc
unless_done-failed paused error h = cc
unless_done-failed done error h = cc

module _ {Disk : Type 0} where
  -- The state, the request, the failures and their budget stay.
  same-IsHonest :
      {j k : Job Disk}
      → k.state ≡ j.state
      → k.cache_requested ≡ j.cache_requested
      → k.failures ≡ j.failures
      → k.failure_budget ≡ j.failure_budget
      → IsHonest j
      → IsHonest k
  same-IsHonest s r f b v = record {
    spent = λ e h. rw (f, b) (v.spent e (rw s at h));
    requested = λ h. rw s (v.requested (rw r at h));
  }

  start_cache-IsHonest : (j : Job Disk) → IsHonest (start_cache j)
  unfolding start_cache ensure_workers retune
  start_cache-IsHonest j = elim (Bool-cases (is_complete j.entry j.total_size)) [
    | inl whole ↦ rw whole (record { spent = λ e h. cc; requested = λ h. cc })
    | inr holes ↦ rw holes (record { spent = λ e h. cc; requested = λ h. refl })
  ]

  pause_cache-IsHonest : (now : ℕ) (j : Job Disk) → IsHonest (pause_cache now j)
  unfolding pause_cache rebuild_scheduler ensure_workers retune
  pause_cache-IsHonest now j = elim (Bool-cases (is_nil j.readers)) [
    | inl alone ↦
        rw alone
          (record { spent = λ e h. absurd (unless_done-failed j.state e h); requested = λ h. cc })
    | inr watched ↦
        rw watched
          (record { spent = λ e h. absurd (unless_done-failed j.state e h); requested = λ h. cc })
  ]

  Call-IsHonest : {j k : Job Disk} → IsHonest j → Call j k → IsHonest k
  unfolding stop sweep_stalled stream reader_waits reader_moves reader_leaves retune ensure_workers
      refocused republish_write_through store_mark
  Call-IsHonest {j} v starts = start_cache-IsHonest j
  Call-IsHonest {j} v (pauses now) = pause_cache-IsHonest now j
  Call-IsHonest v stops = record { spent = v.spent; requested = λ h. cc }
  Call-IsHonest v (sweeps now) =
      same-IsHonest (ground arith) (ground arith) (ground arith) (ground arith) v
  Call-IsHonest v (streams from) = same-IsHonest refl refl refl refl v
  Call-IsHonest v waits = same-IsHonest refl refl refl refl v
  Call-IsHonest v (moves id cursor ahead) = same-IsHonest refl refl refl refl v
  Call-IsHonest v (leaves id) =
      same-IsHonest (ground arith) (ground arith) (ground arith) (ground arith) v
  Call-IsHonest {j} v (settles now worker claim cursor retry_after result word) =
      claim_ends-IsHonest now j worker claim cursor retry_after result v word
  Call-IsHonest {j} v (retires worker generation superseded) =
      worker_ends-IsHonest j worker generation superseded v
  Call-IsHonest v (works s e) = same-IsHonest refl refl refl refl v

  new_job-IsHonest :
      (now : ℕ) (entry : Entry Disk) (engine : Engine) (max_threads : ℕ) {j : Job Disk}
      → new_job now entry engine max_threads ≡ some j
      → IsHonest j
  unfolding new_job
  new_job-IsHonest now entry engine max_threads {j} e =
      elim (Bool-cases (entry.meta.total_size == 0)) [
        | inl nothing ↦ let e' = rw nothing at e in cc
        | inr something ↦ elim (Bool-cases (is_complete entry entry.meta.total_size)) [
          | inl whole ↦
              let e' = rw (something, whole) at e in
              let state : j.state ≡ done = ground arith in
              let calm : j.cache_requested ≡ false = ground arith in
              record { spent = λ error h. cc; requested = λ h. cc }
          | inr holes ↦
              let e' = rw (something, holes) at e in
              let state : j.state ≡ idle = ground arith in
              let calm : j.cache_requested ≡ false = ground arith in
              record { spent = λ error h. cc; requested = λ h. cc }
        ]
      ]

  -- Calls that do not overlap, on a new job.
  pub Calls-IsHonest :
      (now : ℕ) (entry : Entry Disk) (engine : Engine) (max_threads : ℕ) {j k : Job Disk}
      → new_job now entry engine max_threads ≡ some j
      → Calls j k
      → IsHonest k
  Calls-IsHonest now entry engine max_threads e fresh =
      new_job-IsHonest now entry engine max_threads e
  Calls-IsHonest now entry engine max_threads e (and_then calls call) =
      Call-IsHonest (Calls-IsHonest now entry engine max_threads e calls) call
