-- ===== src/Schedule/Adapt/Tuning.antt =====
-- src/schedule.rs: the setters and what is learned change how work is cut, and not what is left.
use hydraria.Prelude.{
  ℕ, ◌-◌, ◌≡◌, arith, Bool, true, false, Option, none, some, ltb, leb, Bool-cases, inl, inr,
}
use hydraria.Schedule.State.{Scheduler, Claim, Strategy, min_fragment}
use hydraria.Schedule.Adapt.{
  Wall, wall_get, seed, with_claim_wall, shrink, note_claim_outcome, note_overload, set_read_head,
  set_reader_buffer, set_strategy, set_work_limit,
}

pub data Tunes (s : Scheduler) : Scheduler → Type 0 where
  head : (offset : ℕ) → Tunes s (set_read_head s offset)
  buffer : (bytes : ℕ) → Tunes s (set_reader_buffer s bytes)
  strategy : (kind : Strategy) → Tunes s (set_strategy s kind)
  limit : (bound : Option ℕ) → Tunes s (set_work_limit s bound)
  outcome :
      (now : ℕ) (ok : Bool) (claim : Claim) (cursor : ℕ)
      → Tunes s (note_claim_outcome now s ok claim cursor).0
  overload : (retry_after : Option ℕ) → Tunes s (note_overload s retry_after)

-- The same work is left, and it is in the same hands.
pub record IsSameWork (s t : Scheduler) : Type 0 where
  pub unclaimed : t.unclaimed ≡ s.unclaimed
  pub live : t.live ≡ s.live
  pub volumes : t.volumes ≡ s.volumes
  pub req_end : t.req_end ≡ s.req_end

shrink-IsSameWork : (s : Scheduler) (o : Option ℕ) (issued : ℕ) → IsSameWork s (shrink s o issued).0
unfolding shrink
shrink-IsSameWork s none issued = ground arith
shrink-IsSameWork s (some size) issued = elim (Bool-cases (ltb size issued)) [
  | inl early ↦ rw early (ground arith)
  | inr late ↦ rw late (ground arith)
]

note_claim_outcome-IsSameWork :
    (now : ℕ) (s : Scheduler) (ok : Bool) (claim : Claim) (cursor : ℕ)
    → IsSameWork s (note_claim_outcome now s ok claim cursor).0
unfolding note_claim_outcome
note_claim_outcome-IsSameWork now s true claim cursor = ground arith
note_claim_outcome-IsSameWork now s false claim cursor =
    let kept = shrink-IsSameWork s s.auto_limit claim.issued in
    elim (Bool-cases (leb min_fragment (cursor - claim.start))) [
      | inl enough ↦ rw enough (ground arith)
      | inr short ↦ rw short (record {
        unclaimed = kept.unclaimed;
        live = kept.live;
        volumes = kept.volumes;
        req_end = kept.req_end;
      })
    ]

pub Tunes-IsSameWork : {s t : Scheduler} → Tunes s t → IsSameWork s t
unfolding set_read_head set_reader_buffer set_strategy set_work_limit note_overload
Tunes-IsSameWork (head offset) = ground arith
Tunes-IsSameWork (buffer bytes) = ground arith
Tunes-IsSameWork (strategy kind) = ground arith
Tunes-IsSameWork (limit bound) = ground arith
Tunes-IsSameWork {s} (outcome now ok claim cursor) =
    note_claim_outcome-IsSameWork now s ok claim cursor
Tunes-IsSameWork (overload retry_after) = ground arith

seed-IsSameWork : (s : Scheduler) (remembered : Option ℕ) → IsSameWork s (seed s remembered)
unfolding seed
seed-IsSameWork s none = ground arith
seed-IsSameWork s (some bytes) = ground arith

pub with_claim_wall-IsSameWork :
    (now : ℕ) (s : Scheduler) (wall : Wall) → IsSameWork s (with_claim_wall now s wall)
unfolding with_claim_wall
with_claim_wall-IsSameWork now s wall =
    let kept = seed-IsSameWork s (wall_get now wall).1 in
    record {
      unclaimed = kept.unclaimed;
      live = kept.live;
      volumes = kept.volumes;
      req_end = kept.req_end;
    }
