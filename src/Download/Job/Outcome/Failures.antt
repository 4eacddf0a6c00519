-- ===== src/Download/Job/Outcome/Failures.antt =====
-- src/download.rs, `run_worker`: failures that count, and the state that a job reports.
use hydraria.Prelude.{
  ℕ, ◌+◌, ◌≤◌, ◌<◌, ◌≡◌, Bool, true, Option, none, some, leb, arith, wrapping_add, u64_mod,
  Bool-cases, inl, inr,
}
use hydraria.Fetch.Stream.Attempts.{ProxyError}
use hydraria.Schedule.State.{Scheduler, Claim}
use hydraria.Download.{is_complete}
use hydraria.Download.Job.{JobState, idle, running, paused, done, failed, Job, ensure_workers}
use hydraria.Download.Job.Outcome.{
  claim_ends, react, count_failure, learn_failure, asks_to_wait, worker_ends, done_unless_failed,
}

-- A job fails with its budget spent, and only a running one fills the whole file.
pub record IsHonest {Disk : Type 0} (j : Job Disk) : Type 0 where
  pub spent : (error : ProxyError) → j.state ≡ failed error → j.failure_budget ≤ j.failures
  pub requested : j.cache_requested ≡ true → j.state ≡ running

pub done_unless_failed-spent :
    (state : JobState) (error : ProxyError)
    → done_unless_failed state ≡ failed error
    → state ≡ failed error
unfolding done_unless_failed
done_unless_failed-spent (failed e) error h = h
done_unless_failed-spent idle error h = cc
done_unless_failed-spent running error h = cc
done_unless_failed-spent paused error h = cc
done_unless_failed-spent done error h = cc

module _ {Disk : Type 0} where
  count_failure-IsHonest :
      (j : Job Disk) (error : ProxyError)
      → IsHonest j
      → j.failures + 1 < u64_mod
      → IsHonest (count_failure j error).0
  unfolding count_failure
  count_failure-IsHonest j error v word =
      let next : wrapping_add j.failures 1 ≡ j.failures + 1 = omega arith in
      elim (Bool-cases (leb j.failure_budget (j.failures + 1))) [
        | inl over ↦ rw (next, over) (record { spent = λ e h. ground arith; requested = λ h. cc })
        | inr under ↦
            rw (next, under)
              (record { spent = λ e h. omega (arith, v.spent e h); requested = v.requested })
      ]

  -- The scheduler changes.
  planned-IsHonest :
      (j : Job Disk) (s : Scheduler) → IsHonest j → IsHonest (record j { scheduler = s })
  planned-IsHonest j s v = record { spent = v.spent; requested = v.requested }

  react-IsHonest :
      (now : ℕ) (j : Job Disk) (claim : Claim) (cursor : ℕ) (retry_after : Option ℕ)
      (result : Option ProxyError)
      → IsHonest j
      → j.failures + 1 < u64_mod
      → IsHonest (react now j claim cursor retry_after result).0
  unfolding react
  react-IsHonest now j claim cursor retry_after none v word = planned-IsHonest j _ v
  react-IsHonest now j claim cursor retry_after (some error) v word =
      let learned = learn_failure now j claim cursor error in
      elim (Bool-cases (asks_to_wait error)) [
        | inl waits ↦ rw waits (planned-IsHonest j _ v)
        | inr broken ↦ rw broken (elim (Bool-cases learned.1) [
          | inl counts ↦ rw counts (
              count_failure-IsHonest (record j { scheduler = learned.0 }) error
                (planned-IsHonest j learned.0 v) word)
          | inr absorbed ↦ rw absorbed (planned-IsHonest j learned.0 v)
        ])
      ]

  pub claim_ends-IsHonest :
      (now : ℕ) (j : Job Disk) (worker : ℕ) (claim : Claim) (cursor : ℕ) (retry_after : Option ℕ)
      (result : Option ProxyError)
      → IsHonest j
      → j.failures + 1 < u64_mod
      → IsHonest (claim_ends now j worker claim cursor retry_after result).0
  unfolding claim_ends
  claim_ends-IsHonest now j worker claim cursor retry_after result v word =
      react-IsHonest now _ claim cursor retry_after result (planned-IsHonest j _ v) word

  pub worker_ends-IsHonest :
      (j : Job Disk) (worker generation : ℕ) (superseded : Bool)
      → IsHonest j
      → IsHonest (worker_ends j worker generation superseded)
  unfolding worker_ends ensure_workers
  worker_ends-IsHonest j worker generation superseded v =
      elim (Bool-cases (is_complete j.entry j.total_size)) [
        | inl whole ↦ rw whole (record {
          spent = λ e h. v.spent e (done_unless_failed-spent j.state e h);
          requested = λ h. cc;
        })
        | inr holes ↦ rw holes (elim (Bool-cases superseded) [
          | inl newer ↦ rw newer (record { spent = v.spent; requested = v.requested })
          | inr same ↦ rw same (record { spent = v.spent; requested = v.requested })
        ])
      ]
