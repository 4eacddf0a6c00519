-- ===== src/Fetch/Stream/Attempts/Resuming.antt =====
-- src/engine.rs, `fetch_claim`: whatever the attempts meet, the claim's cursor stands behind bytes
-- that are on disk.
use Prim.Native.String.{String}
use hydraria.Prelude.{
  ℕ, zero, suc, ◌≤◌, ◌<◌, ◌≡◌, ◌⊎◌, refl, Bool, true, false, ◌||◌, List, Option, none, some, ltb,
  ◌==◌, u64_mod, Bool-cases, inl, inr, arith,
}
use hydraria.Schedule.State.{VolumeMeta}
use hydraria.Cache.Intervals.{within}
use hydraria.Cache.Entry.{Entry, IsValid, present}
use hydraria.Fetch.Pipeline.{ByteTransform}
use hydraria.Fetch.Target.{FetchTarget, Resolved, no_upstream, empty, found, fetch_attempts}
use hydraria.Fetch.Target.Starts.{Starts, resolve_target-Starts}
use hydraria.Fetch.Stream.{Fetch, Flow, going, stopped, broken, io}
use hydraria.Fetch.Stream.Items.{AllInside}
use hydraria.Fetch.Stream.Durable.{IsLanded, respond-IsLanded}
use hydraria.Fetch.Stream.Attempts.{
  ProxyError, io_error, is_overload, Response, Attempt, Progress, Step, returned, again, close,
  answer, ask, attempt_once, carry_over, run_attempts, fetch_claim,
}

-- What was received from `origin` on is on disk, nothing else has changed, and nothing is committed
-- behind the cursor.
pub record IsKept {Disk : Type 0} (total origin : ℕ) (before : Entry Disk) (p : Progress Disk)
    : Type 0 where
  pub valid : IsValid p.sink
  pub size : p.sink.meta.total_size ≡ total
  pub forward : origin ≤ p.cursor
  pub inside : p.cursor ≤ total
  pub committed : p.reserved ≤ p.cursor
  pub known : (x : ℕ) → x < total → present p.sink x ≡ within origin p.cursor x || present before x

-- The ends of the claim stay in the file.
unfoldable pub EndsInside : ℕ → Option Response → Type 0
EndsInside total none = Unit
EndsInside total (some r) = AllInside total r.rounds

module _ {Disk : Type 0} (pwrite_all : Disk → List ℕ → ℕ → Disk × Bool)
    (replace_bitmap : Disk → List ℕ → Disk × Bool) (pipeline : Option (List ByteTransform))
    (transform_on_write : Bool) (total : ℕ) (word : total < u64_mod) (origin : ℕ)
    (before : Entry Disk) where
  IsStep : Step Disk → Type 0
  IsStep (returned p e) = (e ≡ some io_error) ⊎ IsKept total origin before p
  IsStep (again p e) = IsKept total origin before p

  IsEnd : Progress Disk × Option ProxyError → Type 0
  IsEnd r = (r.1 ≡ some io_error) ⊎ IsKept total origin before r.0

  landed-IsKept :
      (p : Progress Disk) (f : Fetch Disk)
      → IsKept total origin before p
      → IsLanded total p.cursor p.sink f
      → IsKept total origin before
          (record { cursor = f.published; reserved = f.reserved; sink = f.sink })
  landed-IsKept p f v w = record {
    valid = w.valid;
    size = w.size;
    forward = omega (arith, v.forward, w.forward, w.published);
    inside = omega (arith, w.inside, w.published);
    committed = w.committed;
    known = λ x h.
        let e = w.published in
        let q = v.forward in let r = w.forward in ground (arith, v.known x h, w.known x h);
  }

  close-IsStep :
      (p : Progress Disk) (r : Fetch Disk × Flow)
      → IsKept total origin before p
      → (r.1 ≡ io) ⊎ IsLanded total p.cursor p.sink r.0
      → IsStep (close pwrite_all replace_bitmap pipeline transform_on_write r)
  unfolding close IsStep
  close-IsStep p (f, io) v w = inl refl
  close-IsStep p (f, broken) v (inl wrong) = cc
  close-IsStep p (f, stopped) v (inl wrong) = cc
  close-IsStep p (f, going) v (inl wrong) = cc
  close-IsStep p (f, broken) v (inr w) = landed-IsKept p f v w
  close-IsStep p (f, stopped) v (inr w) = inr (landed-IsKept p f v w)
  close-IsStep p (f, going) v (inr w) = inr (landed-IsKept p f v w)

  answer-IsStep :
      (p : Progress Disk) (t : FetchTarget) (response : Option Response)
      → t.merged_start ≡ p.cursor
      → EndsInside total response
      → IsKept total origin before p
      → IsStep (answer pwrite_all replace_bitmap pipeline transform_on_write p t response)
  unfolding answer IsStep EndsInside
  answer-IsStep p t none starts inside v = v
  answer-IsStep p t (some r) starts inside v = elim (Bool-cases (r.status == 206)) [
    | inr other ↦ rw other (elim (Bool-cases (is_overload r.status)) [
      | inl busy ↦ rw busy (inr v)
      | inr bad ↦ rw bad v
    ])
    | inl part ↦ rw part (elim (Bool-cases r.same_etag) [
      | inr changed ↦ rw changed (inr v)
      | inl same ↦
          rw (same, starts)
            (close-IsStep p _ v (
              respond-IsLanded pwrite_all replace_bitmap pipeline transform_on_write total word
                p.cursor p.sink p.reserved r.rounds v.valid v.size v.inside v.committed inside))
    ])
  ]

  ask-IsStep :
      (p : Progress Disk) (headers : Bool) (response : Option Response) (target : Resolved)
      → Starts target p.cursor
      → EndsInside total response
      → IsKept total origin before p
      → IsStep (ask pwrite_all replace_bitmap pipeline transform_on_write p headers response target)
  unfolding ask IsStep
  ask-IsStep p headers response no_upstream starts inside v = inr v
  ask-IsStep p headers response empty starts inside v = inr v
  ask-IsStep p true response (found t) starts inside v = answer-IsStep p t response starts inside v
  ask-IsStep p false response (found t) starts inside v = inr v

  module _ (urls : List String) (volumes : Option (List VolumeMeta)) (worker claim_start : ℕ)
      (ahead : claim_start ≤ origin) (met : ℕ → Attempt)
      (inside : (attempt : ℕ) → EndsInside total (met attempt).response) where
    attempt_once-IsStep :
        (attempt : ℕ) (p : Progress Disk)
        → IsKept total origin before p
        → IsStep (
            attempt_once pwrite_all replace_bitmap pipeline transform_on_write urls volumes worker
              claim_start attempt
              (met attempt)
              p)
    unfolding attempt_once IsStep
    attempt_once-IsStep attempt p v = elim (Bool-cases (ltb (met attempt).claim_end p.cursor)) [
      | inl complete ↦ rw complete (inr v)
      | inr rest ↦ rw rest (
          ask-IsStep p (met attempt).headers (met attempt).response _
            (resolve_target-Starts (met attempt).health urls volumes worker attempt claim_start
              p.cursor (met attempt).claim_end (omega (arith, v.forward)))
            (inside attempt) v)
    ]

    carry_over-IsEnd :
        (next : Progress Disk → Option ProxyError → Progress Disk × Option ProxyError)
        → ((p : Progress Disk) (e : Option ProxyError)
            → IsKept total origin before p
            → IsEnd (next p e))
        → (s : Step Disk) → IsStep s
        → IsEnd (
            carry_over pwrite_all replace_bitmap pipeline transform_on_write urls volumes worker
              claim_start next s)
    unfolding carry_over IsStep IsEnd
    carry_over-IsEnd next on (returned p e) v = v
    carry_over-IsEnd next on (again p e) v = on p (some e) v

    run_attempts-IsEnd :
        (attempt remaining : ℕ) (p : Progress Disk) (e : Option ProxyError)
        → IsKept total origin before p
        → IsEnd (
            run_attempts pwrite_all replace_bitmap pipeline transform_on_write urls volumes worker
              claim_start met attempt remaining p e)
    unfolding run_attempts IsEnd
    run_attempts-IsEnd attempt zero p e v = inr v
    run_attempts-IsEnd attempt (suc remaining) p e v =
        carry_over-IsEnd
          (λ q e.
            run_attempts pwrite_all replace_bitmap pipeline transform_on_write urls volumes worker
              claim_start met (suc attempt) remaining q e)
          (λ q e w. run_attempts-IsEnd (suc attempt) remaining q e w)
          (attempt_once pwrite_all replace_bitmap pipeline transform_on_write urls volumes worker
            claim_start attempt (met attempt) p)
          (attempt_once-IsStep attempt p v)

    -- Let `fetch_claim` begin with a well-formed entry, nothing reserved behind the cursor, and
    -- every end of the claim inside the file. Whatever the attempts meet, it ends with an I/O
    -- error, or the entry is well formed, nothing is reserved behind the cursor, and the bytes
    -- known to be on disk are those that were and those between the old cursor and the new one.
    pub fetch_claim-IsKept :
        (reserved : ℕ)
        → IsValid before
        → before.meta.total_size ≡ total
        → origin ≤ total
        → reserved ≤ origin
        → ((fetch_claim pwrite_all replace_bitmap pipeline transform_on_write urls volumes worker
              claim_start met
              (record { cursor = origin; reserved = reserved; sink = before })).1
            ≡ some io_error)
          ⊎ IsKept total origin before
              (fetch_claim pwrite_all replace_bitmap pipeline transform_on_write urls volumes worker
                claim_start met
                (record { cursor = origin; reserved = reserved; sink = before })).0
    unfolding fetch_claim IsEnd
    fetch_claim-IsKept reserved valid size p settled =
        run_attempts-IsEnd 0 (fetch_attempts volumes urls claim_start) _ none (record {
          valid = valid;
          size = size;
          forward = omega arith;
          inside = p;
          committed = settled;
          known = λ x h. ground arith;
        })
