-- ===== src/Download/Job/Outcome.antt =====
-- src/download.rs, `run_worker`: what follows the end of a claim, and the end of the loop.
pub mod Kept
pub mod Failures
use hydraria.Prelude.{
  ℕ, ◌+◌, ◌*◌, ◌≤◌, min, max, Bool, true, false, not, ◌||◌, ◌&&◌, List, [], ◌∷◌, Option, none, some,
  leb, ◌==◌, if◌then◌else◌, saturating_add, saturating_mul, wrapping_add, u64_mod,
}
use hydraria.Cache.Entry.{Entry}
use hydraria.Fetch.Stream.Attempts.{
  ProxyError, upstream, bad_status, throttled, content_changed, io_error, no_mirror, internal,
  is_overload,
}
use hydraria.Schedule.State.{Scheduler, Claim, Strategy, throughput, latency, mib}
use hydraria.Schedule.Adapt.{
  note_claim_outcome, note_overload, set_read_head, set_reader_buffer, set_strategy, set_work_limit,
}
use hydraria.Schedule.Release.{finish, refocus_on_reader, reclaim_stalled}
use hydraria.Download.{Engine, build_scheduler, is_complete}
use hydraria.Download.Pool
use hydraria.Download.Pool.{Pool}
use hydraria.Download.Job.{
  JobState, idle, running, paused, done, failed, Job, ensure_workers, store_requested, store_state,
  store_failures,
}

-- `is_overload` and `is_content_changed`
pub asks_to_wait : ProxyError → Bool
asks_to_wait upstream = false
asks_to_wait (bad_status status) = is_overload status
asks_to_wait (throttled status) = true
asks_to_wait content_changed = false
asks_to_wait io_error = false
asks_to_wait no_mirror = false
asks_to_wait internal = false

pub is_content_changed : ProxyError → Bool
is_content_changed content_changed = true
is_content_changed upstream = false
is_content_changed (bad_status status) = false
is_content_changed (throttled status) = false
is_content_changed io_error = false
is_content_changed no_mirror = false
is_content_changed internal = false

-- Behind `Ok`, or `Failed`.
pub done_unless_failed : JobState → JobState
done_unless_failed (failed e) = failed e
done_unless_failed idle = done
done_unless_failed running = done
done_unless_failed paused = done
done_unless_failed done = done

module _ {Disk : Type 0} where
  -- A failure that counts: the job, and whether the worker goes on.
  count_failure : Job Disk → ProxyError → Job Disk × Bool
  count_failure j error =
      let failures = wrapping_add j.failures 1 in
      let j' = store_failures j failures in
      let broken = store_requested (store_state j' (failed error)) false in
      if leb j.failure_budget failures
      then (record broken { workers = Pool.abort_workers broken.workers }, false)
      else (j', true)

  -- The learner is asked, but for a change of the content.
  learn_failure : ℕ → Job Disk → Claim → ℕ → ProxyError → Scheduler × Bool
  learn_failure now j claim cursor error =
      if is_content_changed error
      then (j.scheduler, true)
      else note_claim_outcome now j.scheduler false claim cursor

  react : ℕ → Job Disk → Claim → ℕ → Option ℕ → Option ProxyError → Job Disk × Bool
  unfolding count_failure learn_failure
  react now j claim cursor retry_after none =
      (record j { scheduler = (note_claim_outcome now j.scheduler true claim cursor).0 }, true)
  react now j claim cursor retry_after (some error) =
      let (s, counts) = learn_failure now j claim cursor error in
      if asks_to_wait error
      then (record j { scheduler = note_overload j.scheduler retry_after }, true)
      else if counts
      then count_failure (record j { scheduler = s }) error
      else (record j { scheduler = s }, true)

  -- In `run_worker`, behind `fetch_claim`, with the cursor and the result of the claim.
  pub claim_ends : ℕ → Job Disk → ℕ → Claim → ℕ → Option ℕ → Option ProxyError → Job Disk × Bool
  unfolding react
  claim_ends now j worker claim cursor retry_after result =
      react now (record j { scheduler = finish j.scheduler worker cursor }) claim cursor retry_after
        result

  -- The end of `run_worker`, behind the loop.
  pub worker_ends : Job Disk → ℕ → ℕ → Bool → Job Disk
  unfolding done_unless_failed
  worker_ends j worker generation superseded =
      let j' = record j { workers = Pool.retire j.workers worker generation } in
      if is_complete j'.entry j'.total_size
      then store_state (store_requested j' false) (done_unless_failed j'.state)
      else if superseded
      then ensure_workers j'
      else j'
