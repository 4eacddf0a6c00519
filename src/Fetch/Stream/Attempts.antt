-- ===== src/Fetch/Stream/Attempts.antt =====
-- src/engine.rs, `fetch_claim`: the loop over the attempts. What each attempt meets, the claim's end
-- when it begins, the health of the mirrors and the response, is a value.
pub mod Resuming
use Prim.Native.String.{String}
use hydraria.Prelude.{
  ℕ, zero, suc, ◌+◌, ◌≤◌, ◌<◌, Bool, true, false, not, ◌||◌, List, Option, none, some, ltb, ◌==◌,
  if◌then◌else◌, unwrap_or,
}
use hydraria.Schedule.State.{VolumeMeta}
use hydraria.Cache.Entry.{Entry}
use hydraria.Fetch.Pipeline.{ByteTransform}
use hydraria.Fetch.Target.{
  Health, FetchTarget, Resolved, no_upstream, empty, found, resolve_target, fetch_attempts,
}
use hydraria.Fetch.Stream.{Round, Fetch, Flow, going, stopped, broken, io, respond}

-- The cases of `ProxyError` that `fetch_claim` returns.
pub data ProxyError : Type 0 where
  upstream : ProxyError
  bad_status : ℕ → ProxyError
  throttled : ℕ → ProxyError
  content_changed : ProxyError
  io_error : ProxyError
  no_mirror : ProxyError
  internal : ProxyError

-- `is_overload`, for a bad status
pub is_overload : ℕ → Bool
is_overload status = status == 429 || status == 503

-- The response: `etag_still_matches`, and the rounds of its body.
pub record Response : Type 0 where
  pub status : ℕ
  pub same_etag : Bool
  pub rounds : List Round

-- What an attempt meets: `build_headers` succeeds or does not; no response is a network error.
pub record Attempt : Type 0 where
  pub claim_end : ℕ
  pub health : List Health
  pub headers : Bool
  pub response : Option Response

-- The claim's watermarks, and the entry.
pub record Progress (Disk : Type 0) : Type 0 where
  pub cursor : ℕ
  pub reserved : ℕ
  pub sink : Entry Disk

-- `return Ok(())` and `return Err(e)`, or the next attempt with its `last_err`.
pub data Step (Disk : Type 0) : Type 0 where
  returned : Progress Disk → Option ProxyError → Step Disk
  again : Progress Disk → ProxyError → Step Disk

module _ {Disk : Type 0} (pwrite_all : Disk → List ℕ → ℕ → Disk × Bool)
    (replace_bitmap : Disk → List ℕ → Disk × Bool) (pipeline : Option (List ByteTransform))
    (transform_on_write : Bool) where
  abbrev progress_of : Fetch Disk → Progress Disk
  progress_of f = record { cursor = f.published; reserved = f.reserved; sink = f.sink }

  -- Behind the last flush.
  pub close : Fetch Disk × Flow → Step Disk
  close (f, io) = returned (progress_of f) (some io_error)
  close (f, broken) = again (progress_of f) upstream
  close (f, stopped) = returned (progress_of f) none
  close (f, going) = returned (progress_of f) none

  pub answer : Progress Disk → FetchTarget → Option Response → Step Disk
  unfolding close is_overload
  answer p t none = again p upstream
  answer p t (some r) =
      if not (r.status == 206)
      then (if is_overload r.status
          then returned p (some (throttled r.status))
          else again p (bad_status r.status))
      else if not r.same_etag
      then returned p (some content_changed)
      else close (
          respond pwrite_all replace_bitmap pipeline transform_on_write t.merged_start p.reserved
            p.sink r.rounds)

  pub ask : Progress Disk → Bool → Option Response → Resolved → Step Disk
  unfolding answer
  ask p headers response no_upstream = returned p (some no_mirror)
  ask p headers response empty = returned p none
  ask p headers response (found t) =
      if headers then answer p t response else returned p (some internal)

  module _ (urls : List String) (volumes : Option (List VolumeMeta)) (worker claim_start : ℕ) where
    pub attempt_once : ℕ → Attempt → Progress Disk → Step Disk
    unfolding ask
    attempt_once attempt a p =
        if ltb a.claim_end p.cursor
        then returned p none
        else ask p a.headers a.response
            (resolve_target a.health urls volumes worker attempt claim_start p.cursor a.claim_end)

    carry_over :
        (Progress Disk → Option ProxyError → Progress Disk × Option ProxyError)
        → Step Disk
        → Progress Disk × Option ProxyError
    carry_over next (returned p e) = (p, e)
    carry_over next (again p e) = next p (some e)

    -- The attempts from one on, with those that remain.
    pub run_attempts :
        (ℕ → Attempt)
        → ℕ
        → ℕ
        → Progress Disk
        → Option ProxyError
        → Progress Disk × Option ProxyError
    unfolding carry_over
    run_attempts met attempt zero p last_err = (p, some (unwrap_or last_err no_mirror))
    run_attempts met attempt (suc remaining) p last_err =
        carry_over (λ p e. run_attempts met (suc attempt) remaining p e)
          (attempt_once attempt (met attempt) p)

    pub fetch_claim : (ℕ → Attempt) → Progress Disk → Progress Disk × Option ProxyError
    fetch_claim met p = run_attempts met 0 (fetch_attempts volumes urls claim_start) p none
