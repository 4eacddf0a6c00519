-- ===== src/Schedule/Assign.antt =====
-- src/schedule.rs, `claim`: take, steal, hedge. An operation gives the new state and its result.
use hydraria.Prelude.{
  ℕ, ◌-◌, ◌/◌, min, max, Bool, true, false, ◌||◌, List, [], ◌∷◌, ◌++◌, Option, none, some, ltb, leb,
  if◌then◌else◌, saturating_add, saturating_mul, wrapping_add, wrapping_sub, set, unwrap_or,
}
use hydraria.Schedule.Ranges.{subtract}
use hydraria.Schedule.Float.{FloatOps}
use hydraria.Schedule.State.{
  Scheduler, Live, Claim, Strategy, throughput, latency, remaining, min_claim, volume_of,
  volume_end,
}
use hydraria.Schedule.Sizing.{in_tail, min_frag, claim_len, horizon, floor, critical_span}
use hydraria.Schedule.Select.{pick_gap, pick_victim, pick_race}

abbrev pub Outcome : Type 0
Outcome = Scheduler × Option Claim

-- `register` at time `now`
unfoldable pub register : ℕ → Scheduler → ℕ → ℕ → ℕ → ℕ → Option ℕ → Outcome
register now s worker start end volume hedge_of = (
  record s {
    live =
        s.live
        ++ record {
          worker = worker;
          volume = volume;
          start = start;
          end = end;
          cursor = start;
          reserved = start;
          started = now;
          last_cursor = start;
          last_progress = now;
          hedge_of = hedge_of;
        }
          ∷ [];
  },
  some (record {
    start = start;
    volume = volume;
    issued = saturating_add (end - start) 1;
    end = end;
  }),
)

-- The claim cut from a gap: its first and last byte.
unfoldable pub cut_start : ℕ → ℕ × ℕ → ℕ
cut_start rs gap = max gap.0 rs

unfoldable pub cut_end : Scheduler → ℕ → ℕ → ℕ × ℕ → ℕ
unfolding cut_start
cut_end s rs re gap =
    let seg_start = cut_start rs gap in
    let seg_end = min gap.1 re in
    let hard_end = min seg_end (unwrap_or (volume_end s.volumes seg_start) seg_end) in
    min hard_end (saturating_add seg_start (claim_len s - 1))

unfoldable pub take_gap : ℕ → Scheduler → ℕ → ℕ → ℕ → Option (ℕ × ℕ) → Outcome
unfolding cut_end
take_gap now s worker rs re none = (s, none)
take_gap now s worker rs re (some gap) =
    let start = cut_start rs gap in
    let end = cut_end s rs re gap in
    register now (record s { unclaimed = subtract s.unclaimed start end }) worker start end
      (volume_of s.volumes start) none

unfoldable pub take_unclaimed : ℕ → Scheduler → ℕ → ℕ → ℕ → Bool → Bool → Outcome
unfolding take_gap
take_unclaimed now s worker rs re respect_cap in_critical =
    take_gap now s worker rs re (pick_gap s rs re respect_cap in_critical)

-- The tail `[new_start, v_end]` goes to the thief.
unfoldable pub take_tail : ℕ → Scheduler → ℕ → ℕ → ℕ → Outcome
take_tail now s worker new_start v_end =
    let new_end = min (unwrap_or (volume_end s.volumes new_start) v_end) v_end in
    if ltb v_end new_start
    then (s, none)
    else if ltb new_end new_start
    then (s, none)
    else register now s worker new_start new_end (volume_of s.volumes new_start) none

-- Where the victim is cut.
unfoldable pub split_point : Live → ℕ
split_point victim = wrapping_sub victim.end (remaining victim / 2)

unfoldable pub rob : ℕ → Scheduler → ℕ → Option (ℕ × Live) → Outcome
unfolding take_tail split_point
rob now s worker none = (s, none)
rob now s worker (some (pos, victim)) =
    let split_at = split_point victim in
    if leb victim.end split_at
    then (s, none)
    else take_tail now (record s { live = set s.live pos (record victim { end = split_at }) })
        worker (max (saturating_add split_at 1) victim.reserved) victim.end

-- The regions in order, each with whether it is the critical window.
unfoldable pub regions_under : Strategy → Scheduler → List (ℕ × ℕ × Bool)
regions_under throughput s = (floor s, horizon s, false) ∷ []
regions_under (latency window head) s =
    let hi = min (saturating_add s.read_head (critical_span s - 1)) (horizon s) in
    if leb s.read_head hi
    then (s.read_head, hi, true) ∷ (floor s, horizon s, false) ∷ []
    else (floor s, horizon s, true) ∷ []

-- A claim if there is one, or else the next way to get one from the state that is left.
unfoldable pub or_else : Outcome → (Scheduler → Outcome) → Outcome
or_else (s, some c) next = (s, some c)
or_else (s, none) next = next s

-- Tier 1, over the regions: first within the cap on each volume, then beyond it.
unfoldable pub take_any : ℕ → List (ℕ × ℕ × Bool) → Scheduler → ℕ → Outcome
unfolding or_else
take_any now [] s worker = (s, none)
take_any now ((rs, re, critical) ∷ rest) s worker =
    or_else (take_unclaimed now s worker rs re true critical) λ s.
      or_else (take_unclaimed now s worker rs re false critical) λ s. take_any now rest s worker

module _ (F : FloatOps) (now : ℕ) where
  unfoldable pub steal : Scheduler → ℕ → Outcome
  unfolding rob
  steal s worker =
      rob now s worker (pick_victim F now s.live worker (saturating_mul (min_frag s) 2))

  unfoldable pub race : Scheduler → ℕ → Option (ℕ × Live) → Outcome
  race s worker none = (s, none)
  race s worker (some (pos, target)) =
      let lo = target.cursor in
      let hi = min target.end (saturating_add lo (s.dup_budget - 1)) in
      let size = wrapping_add (wrapping_sub hi lo) 1 in
      if ltb hi lo || ltb size min_claim
      then (s, none)
      else register now (record s { dup_budget = wrapping_sub s.dup_budget size }) worker lo hi
          (volume_of s.volumes lo) (some target.start)

  unfoldable pub hedge : Scheduler → ℕ → Outcome
  unfolding race
  hedge s worker =
      if ltb s.dup_budget min_claim
      then (s, none)
      else race s worker (pick_race F now s.live worker)

  unfoldable pub hedge_under : Strategy → Scheduler → ℕ → Outcome
  hedge_under (latency window head) s worker = (s, none)
  hedge_under throughput s worker = if in_tail s then hedge s worker else (s, none)

  unfoldable pub claim : Scheduler → ℕ → Outcome
  unfolding regions_under or_else take_any hedge_under
  claim s worker =
      or_else (take_any now (regions_under s.strategy s) s worker)
        λ s. or_else (steal s worker) λ s. hedge_under s.strategy s worker
