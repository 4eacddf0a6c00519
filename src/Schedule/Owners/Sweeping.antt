-- ===== src/Schedule/Owners/Sweeping.antt =====
-- src/schedule.rs: `refocus_on_reader` and `reclaim_stalled`.
use hydraria.Prelude.{
  ℕ, ◌+◌, ◌-◌, ◌≤◌, ◌<◌, max, ◌≡◌, refl, true, ◌&&◌, ◌||◌, List, Option, none, some, ltb, leb,
  if_holds, arith, Bool-cases, inl, inr, u64_mod, saturating_add, All,
}
use hydraria.Schedule.Ranges.{Ranges, between, listed, IsSortedIn}
use hydraria.Schedule.Ranges.Insert.{insert_unclaimed-listed, insert_unclaimed-IsSortedIn}
use hydraria.Schedule.State.{Scheduler, Live, VolumeMeta, is_primary, Strategy, throughput, latency}
use hydraria.Schedule.Release.{
  hand_back, shorten, refocus_visit, refocus_under, refocus_on_reader, reclaim_visit,
  reclaim_stalled,
}
use hydraria.Schedule.Sizing.{claim_len}
use hydraria.Schedule.Owners.{owes, one_if, IsPlaced, IsSound, IsExclusive, IsSettled}
use hydraria.Schedule.Owners.Taking.{Keeps, Keeps-refl}
use hydraria.Schedule.Owners.Finishing.{given_back}
use hydraria.Schedule.Owners.Rounds.{AlwaysFair, IsFair, swept-Keeps}

-- The bytes that a cut claim gives back.
cut_owned :
    (bound : ℕ) (unclaimed : Ranges) (l : Live)
    → bound + 1 < u64_mod
    → IsSettled l
    → (keep x : ℕ) → l.cursor ≤ keep
    → keep < l.end
    → l.end ≤ bound
    → is_primary l ≡ true
    → one_if (listed unclaimed x) + one_if (owes l x) ≤ 1
    → one_if (between (max (saturating_add keep 1) l.reserved) l.end x || listed unclaimed x)
        + one_if (owes (record l { end = keep }) x)
      ≡ one_if (listed unclaimed x) + one_if (owes l x)
cut_owned bound unclaimed l w settled keep x q short b primary e = ground arith

module _ (volumes : Option (List VolumeMeta)) (bound : ℕ) (unclaimed : Ranges) (l : Live)
    (w : bound + 1 < u64_mod) (v : IsSortedIn 0 bound unclaimed) (p : IsPlaced volumes bound l)
    (settled : IsSettled l) where
  -- A claim that stays as it is, but for its marks.
  marked-IsFair :
      (at when : ℕ)
      → IsFair bound
          (IsPlaced volumes bound)
          unclaimed
          l
          (some (record l { last_cursor = at; last_progress = when }), unclaimed)
  marked-IsFair at when = record {
    owned = λ x e. refl;
    sorted = v;
    placed = record { begun = p.begun; bounded = p.bounded; one_volume = p.one_volume };
  }

  stays-IsFair : IsFair bound (IsPlaced volumes bound) unclaimed l (some l, unclaimed)
  stays-IsFair = record { owned = λ x e. refl; sorted = v; placed = p }

  -- A claim that goes, with bytes left.
  hand_back-IsFair :
      l.cursor ≤ l.end
      → IsFair bound (IsPlaced volumes bound) unclaimed l (none, hand_back l unclaimed)
  unfolding hand_back
  hand_back-IsFair some_left = elim (Bool-cases (is_primary l)) [
    | inl primary ↦ rw primary (record {
      owned = λ x e.
          rw (given_back bound unclaimed l x (omega arith) p.bounded v primary settled some_left e)
            (omega arith);
      sorted =
          insert_unclaimed-IsSortedIn bound (omega arith) l.cursor l.end 0 unclaimed (omega arith)
            p.bounded v;
      placed = tt;
    })
    | inr hedge ↦ rw hedge (record { owned = λ x e. ground arith; sorted = v; placed = tt })
  ]

  -- A claim that is cut at `keep`.
  shorten-IsFair :
      (keep : ℕ)
      → l.cursor ≤ keep
      → IsFair bound (IsPlaced volumes bound) unclaimed l (shorten unclaimed l keep)
  unfolding shorten
  shorten-IsFair keep q = elim (Bool-cases (is_primary l && ltb keep l.end)) [
    | inl cut ↦
        let short : keep < l.end = ground arith in
        let primary : is_primary l ≡ true = ground arith in
        rw cut (record {
          owned = λ x e.
              rw
                (insert_unclaimed-listed bound (omega arith)
                  (max (saturating_add keep 1) l.reserved) l.end 0 unclaimed x p.bounded v)
                (cut_owned bound unclaimed l w settled keep x q short p.bounded primary e);
          sorted =
              insert_unclaimed-IsSortedIn bound (omega arith)
                (max (saturating_add keep 1) l.reserved) l.end 0 unclaimed (omega arith) p.bounded
                v;
          placed = record {
            begun = p.begun;
            bounded = omega (arith, p.bounded);
            one_volume = λ q x r t e. omega (arith, p.one_volume q x r (omega arith) e);
          };
        })
    | inr whole ↦ rw whole stays-IsFair
  ]

module _ (head hi grace : ℕ) where
  refocus_visit-IsFair : AlwaysFair (refocus_visit head hi grace)
  unfolding refocus_visit
  refocus_visit-IsFair s l w v p settled = elim (Bool-cases (ltb l.end l.cursor)) [
    | inl over ↦ rw over (stays-IsFair s.volumes s.req_end s.unclaimed l w v p settled)
    | inr going ↦ rw going (
        if_holds (IsFair s.req_end (IsPlaced s.volumes s.req_end) s.unclaimed l)
          ((leb hi l.cursor || ltb l.end head)
            || (leb head l.end && ltb (saturating_add l.cursor grace) head))
          (none, hand_back l s.unclaimed)
          (shorten s.unclaimed l (saturating_add l.cursor (claim_len s - 1)))
          (hand_back-IsFair s.volumes s.req_end s.unclaimed l w v p settled (ground arith))
          (shorten-IsFair s.volumes s.req_end s.unclaimed l w v p settled
            (saturating_add l.cursor (claim_len s - 1)) (ground (arith, p.bounded))))
  ]

reclaim_visit-IsFair : (now : ℕ) → AlwaysFair (reclaim_visit now)
unfolding reclaim_visit
reclaim_visit-IsFair now s l w v p settled =
    elim (Bool-cases (ltb l.last_cursor l.cursor || ltb l.end l.cursor)) [
      | inl moving ↦
          rw moving (marked-IsFair s.volumes s.req_end s.unclaimed l w v p settled l.cursor now)
      | inr still ↦ rw still (
          if_holds (IsFair s.req_end (IsPlaced s.volumes s.req_end) s.unclaimed l)
            (ltb (now - l.last_progress) 30_000_000_000) (some l, s.unclaimed)
            (none, hand_back l s.unclaimed)
            (stays-IsFair s.volumes s.req_end s.unclaimed l w v p settled)
            (hand_back-IsFair s.volumes s.req_end s.unclaimed l w v p settled (ground arith)))
    ]

module _ (s : Scheduler) (v : IsSound s) (only : IsExclusive s)
    (settled : All IsSettled s.live) where
  refocus_under-Keeps :
      (strategy : Strategy) (window : ℕ) → Keeps s (refocus_under strategy s window).0
  unfolding refocus_under
  refocus_under-Keeps throughput window = Keeps-refl v
  refocus_under-Keeps (latency critical_window head_claim) window =
      swept-Keeps s v only settled _ (refocus_visit-IsFair _ _ _)

-- Where no byte has two owners and every worker is between two writes, `refocus_on_reader` leaves
-- each byte of a sound state with as many owners as it had, in a sound state.
pub refocus_on_reader-Keeps :
    (s : Scheduler) (window : ℕ)
    → IsSound s
    → IsExclusive s
    → All IsSettled s.live
    → Keeps s (refocus_on_reader s window).0
unfolding refocus_on_reader
refocus_on_reader-Keeps s window v only settled =
    refocus_under-Keeps s v only settled s.strategy window

-- Where no byte has two owners and every worker is between two writes, `reclaim_stalled` leaves
-- each byte of a sound state with as many owners as it had, in a sound state.
pub reclaim_stalled-Keeps :
    (now : ℕ) (s : Scheduler)
    → IsSound s
    → IsExclusive s
    → All IsSettled s.live
    → Keeps s (reclaim_stalled now s).0
unfolding reclaim_stalled
reclaim_stalled-Keeps now s v only settled =
    swept-Keeps s v only settled (reclaim_visit now) (reclaim_visit-IsFair now)
