-- ===== src/Download/Job/Sections/Spent.antt =====
-- src/download.rs, `run_worker` and `start_cache`: the state that a job reports when methods overlap.
use hydraria.Prelude.{ℕ, ◌+◌, ◌≤◌, ◌≡◌, List, [], ◌∷◌, some, wrapping_add, All, arith}
use hydraria.Cache.Entry.{Entry}
use hydraria.Fetch.Stream.Attempts.{ProxyError}
use hydraria.Schedule.Owners.Counting.{All-get}
use hydraria.Download.{Engine}
use hydraria.Download.Job.{failed, Job, new_job, store_mark}
use hydraria.Download.Job.Calls.{Calls}
use hydraria.Download.Job.Control.{Calls-IsHonest, unless_done-failed}
use hydraria.Download.Job.Outcome.Failures.{IsHonest, done_unless_failed-spent}
use hydraria.Download.Job.Sections.{
  Shared, at_rest, Section, arrives, moves, leaves, looks, marks, requests, runs, pauses, completes,
  ends, resets, counts_one, fails, works, Sections, rests, goes_on,
}

-- What a task has counted, and what the job has, was counted; a job that reports a failure has had
-- its budget of them.
record Accounts {Disk : Type 0} (y : Shared Disk) : Type 0 where
  total : y.job.failures ≤ y.counted
  held : All (λ n. n ≤ y.counted) y.counts
  spent : (error : ProxyError) → y.job.state ≡ failed error → y.job.failure_budget ≤ y.counted

All-later : (n : ℕ) (ns : List ℕ) → All (λ k. k ≤ n) ns → All (λ k. k ≤ n + 1) ns
All-later n [] v = tt
All-later n (k ∷ ns) v = (omega (arith, v.0), All-later n ns v.1)

module _ {Disk : Type 0} where
  Section-Accounts : {y z : Shared Disk} → Accounts y → Section y z → Accounts z
  unfolding store_mark
  Section-Accounts v (arrives from) = record { total = v.total; held = v.held; spent = v.spent }
  Section-Accounts v (moves id cursor) = record { total = v.total; held = v.held; spent = v.spent }
  Section-Accounts v (leaves id) = record { total = v.total; held = v.held; spent = v.spent }
  Section-Accounts v looks = record { total = v.total; held = v.held; spent = v.spent }
  Section-Accounts v (marks pos mark there) = record {
    total = v.total;
    held = v.held;
    spent = v.spent;
  }
  Section-Accounts v (requests requested) = record {
    total = v.total;
    held = v.held;
    spent = v.spent;
  }
  Section-Accounts v runs = record { total = v.total; held = v.held; spent = λ e h. cc }
  Section-Accounts {y} v pauses = record {
    total = v.total;
    held = v.held;
    spent = λ e h. absurd (unless_done-failed y.job.state e h);
  }
  Section-Accounts v completes = record { total = v.total; held = v.held; spent = λ e h. cc }
  Section-Accounts {y} v ends = record {
    total = v.total;
    held = v.held;
    spent = λ e h. v.spent e (done_unless_failed-spent y.job.state e h);
  }
  Section-Accounts v resets = record { total = omega arith; held = v.held; spent = v.spent }
  Section-Accounts {y} v counts_one =
      let next : wrapping_add y.job.failures 1 ≤ y.counted + 1 = omega (arith, v.total) in
      record {
        total = next;
        held = (next, All-later y.counted y.counts v.held);
        spent = λ e h. omega (arith, v.spent e h);
      }
  Section-Accounts {y} v (fails pos failures error there enough) = record {
    total = v.total;
    held = v.held;
    spent =
        λ e h. let seen = All-get (λ n. n ≤ y.counted) y.counts pos v.held there in ground arith;
  }
  Section-Accounts v (works s e p) = record { total = v.total; held = v.held; spent = v.spent }

  Sections-Accounts : {y z : Shared Disk} → Accounts y → Sections y z → Accounts z
  Sections-Accounts v rests = v
  Sections-Accounts v (goes_on run step) = Section-Accounts (Sections-Accounts v run) step

  -- Let the calls on a new job, with fewer than 2^64 - 1 counted failures, follow one another,
  -- each ending before the next begins: then a job that has failed has counted as many failures
  -- as its budget allows, and only a job in the running state is requested. From there let calls
  -- overlap, where each store to the request, to the state and to the count of failures is a step
  -- of its own, in any order. A job that reports a failure then has had as many failures counted,
  -- in all, as its budget allows.
  pub Sections-IsHonest :
      (now : ℕ) (entry : Entry Disk) (engine : Engine) (max_threads : ℕ) {j k : Job Disk}
      {z : Shared Disk}
      → new_job now entry engine max_threads ≡ some j
      → Calls j k
      → Sections (at_rest k) z
      → IsHonest k
        × ((error : ProxyError) → z.job.state ≡ failed error → z.job.failure_budget ≤ z.counted)
  Sections-IsHonest now entry engine max_threads e calls run =
      let honest = Calls-IsHonest now entry engine max_threads e calls in
      let start : Accounts (at_rest _) = record {
        total = omega arith;
        held = tt;
        spent = honest.spent;
      } in
      (honest, (Sections-Accounts start run).spent)
