-- ===== src/Download/Job/Outcome/Kept.antt =====
-- src/download.rs, `run_worker`: a worker leaves the readers alone.
use hydraria.Prelude.{ℕ, ◌≡◌, refl, Bool, Option, none, some, arith}
use hydraria.Fetch.Stream.Attempts.{ProxyError}
use hydraria.Schedule.State.{Claim}
use hydraria.Download.Job.{Job, ensure_workers}
use hydraria.Download.Job.Outcome.{claim_ends, react, count_failure, worker_ends}

pub record KeepsReaders {Disk : Type 0} (j k : Job Disk) : Type 0 where
  pub readers : k.readers ≡ j.readers
  pub below : k.write_through_below ≡ j.write_through_below

module _ {Disk : Type 0} (j : Job Disk) where
  pub claim_ends-KeepsReaders :
      (now worker : ℕ) (claim : Claim) (cursor : ℕ) (retry_after : Option ℕ)
      (result : Option ProxyError)
      → KeepsReaders j (claim_ends now j worker claim cursor retry_after result).0
  unfolding claim_ends react count_failure
  claim_ends-KeepsReaders now worker claim cursor retry_after none = record {
    readers = refl;
    below = refl;
  }
  claim_ends-KeepsReaders now worker claim cursor retry_after (some error) = record {
    readers = ground arith;
    below = ground arith;
  }

  pub worker_ends-KeepsReaders :
      (worker generation : ℕ) (superseded : Bool)
      → KeepsReaders j (worker_ends j worker generation superseded)
  unfolding worker_ends ensure_workers
  worker_ends-KeepsReaders worker generation superseded = record {
    readers = ground arith;
    below = ground arith;
  }
