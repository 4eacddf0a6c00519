-- ===== src/Schedule/Adapt.antt =====
-- src/schedule.rs: what the scheduler learns from failures. `ClaimWall`, `note_claim_outcome`,
-- `note_overload`, `overload_backoff`, and the setters. Durations are numbers of nanoseconds.
pub mod Sizes
pub mod Pause
pub mod Tuning
pub mod Tests
use hydraria.Prelude.{
  ℕ, ◌+◌, ◌-◌, ◌*◌, ◌/◌, ◌%◌, ◌^◌, ◌≤◌, min, max, ◌≡◌, Bool, true, false, Option, none, some, ltb,
  leb, ◌==◌, if◌then◌else◌, saturating_add, saturating_mul, wrapping_mul, u64_max,
}
use hydraria.Schedule.State.{Scheduler, Claim, Strategy, min_claim, min_fragment, mib}
use hydraria.Schedule.Sizing.{claim_len}

abbrev pub recovery_claim : ℕ
recovery_claim = 8 * mib

abbrev pub claim_wall_ttl : ℕ
claim_wall_ttl = 600_000_000_000

-- The cell of a `ClaimWall`: a length, and when it was recorded.
abbrev pub Wall : Type 0
Wall = Option (ℕ × ℕ)

-- `ClaimWall::get` at `now`: the cell afterwards, and the result.
pub wall_get : ℕ → Wall → Wall × Option ℕ
wall_get now none = (none, none)
wall_get now (some (bytes, at)) =
    if ltb (now - at) claim_wall_ttl then (some (bytes, at), some bytes) else (none, none)

-- `ClaimWall::record`
pub wall_record : ℕ → Wall → ℕ → Wall
wall_record now none bytes = some (bytes, now)
wall_record now (some (prev, at)) bytes =
    if ltb (now - at) claim_wall_ttl then some (min prev bytes, now) else some (bytes, now)

seed : Scheduler → Option ℕ → Scheduler
seed s none = s
seed s (some remembered) = record s {
  auto_wall = remembered;
  auto_limit = some (min recovery_claim remembered);
}

pub with_claim_wall : ℕ → Scheduler → Wall → Scheduler
unfolding seed
with_claim_wall now s wall =
    let (wall', remembered) = wall_get now wall in
    record (seed s remembered) { wall_memory = some wall' }

-- A claim that completed.
clear_hint : ℕ → Option ℕ → Option ℕ
clear_hint strikes hint = if strikes == 0 then none else hint

grow : Option ℕ → ℕ → Option ℕ
grow none wall = none
grow (some limit) wall = some (min (saturating_mul limit 2) wall)

succeeded : Scheduler → Scheduler
unfolding clear_hint grow
succeeded s = record s {
  overload_strikes = s.overload_strikes - 1;
  overload_hint = clear_hint (s.overload_strikes - 1) s.overload_hint;
  auto_limit = grow s.auto_limit s.auto_wall;
}

-- A claim that failed with little delivered: the new sizes, and whether the failure counts.
shrink : Scheduler → Option ℕ → ℕ → Scheduler × Bool
shrink s none issued =
    let wall = max (issued / 2) min_claim in
    (record s { auto_wall = wall; auto_limit = some (min recovery_claim wall) }, false)
shrink s (some limit) issued =
    let cut = max (limit / 2) min_claim in
    if ltb limit issued
    then (s, false)
    else (record s { auto_wall = min s.auto_wall cut; auto_limit = some cut }, true)

remember : ℕ → Option Wall → ℕ → Option Wall
remember now none bytes = none
remember now (some wall) bytes = some (wall_record now wall bytes)

pub note_claim_outcome : ℕ → Scheduler → Bool → Claim → ℕ → Scheduler × Bool
unfolding succeeded shrink remember
note_claim_outcome now s ok claim cursor =
    if ok
    then (succeeded s, false)
    else if leb min_fragment (cursor - claim.start)
    then (s, true)
    else let (s', counts) = shrink s s.auto_limit claim.issued in
      (record s' { wall_memory = remember now s.wall_memory s'.auto_wall }, counts)

-- `note_overload`
longer_hint : Option ℕ → Option ℕ → Option ℕ
longer_hint current none = current
longer_hint none (some hint) = some hint
longer_hint (some cur) (some hint) = some (max cur hint)

pub note_overload : Scheduler → Option ℕ → Scheduler
unfolding longer_hint
note_overload s retry_after = record s {
  overload_strikes = min (s.overload_strikes + 1) 6;
  overload_hint = longer_hint s.overload_hint retry_after;
}

-- `overload_backoff`: the wait without the jitter, and with it.
at_least : ℕ → Option ℕ → ℕ
at_least scaled none = scaled
at_least scaled (some hint) = max scaled hint

pub scaled_pause : Scheduler → ℕ
unfolding at_least
scaled_pause s =
    at_least (min (250_000_000 * 2 ^ (s.overload_strikes - 1)) 8_000_000_000) s.overload_hint

jitter : ℕ → ℕ → ℕ
jitter span worker = if span == 0 then 0 else wrapping_mul worker 2_654_435_761 % span

pub overload_backoff : Scheduler → ℕ → Option ℕ
unfolding jitter
overload_backoff s worker =
    if s.overload_strikes == 0
    then none
    else some (scaled_pause s + 1_000_000 * jitter (scaled_pause s / 1_000_000) worker)

-- The setters. `clamp` for a request that is not behind its own end.
pub set_read_head : Scheduler → ℕ → Scheduler
set_read_head s offset = record s {
  read_head = min (max offset s.req_start) (saturating_add s.req_end 1);
  buffered = 0;
}

pub set_reader_buffer : Scheduler → ℕ → Scheduler
set_reader_buffer s bytes = record s { buffered = bytes }

pub set_strategy : Scheduler → Strategy → Scheduler
set_strategy s strategy = record s { strategy = strategy }

filter_limit : Option ℕ → Option ℕ
filter_limit none = none
filter_limit (some value) = if ltb 0 value then some value else none

pub set_work_limit : Scheduler → Option ℕ → Scheduler
unfolding filter_limit
set_work_limit s limit = record s { work_limit = filter_limit limit }

-- What a wall remembers is a claim's length.
abbrev pub IsWall : Wall → Type 0
IsWall none = Unit {0}
IsWall (some (bytes, at)) = min_claim ≤ bytes × (bytes ≤ u64_max)

abbrev pub IsMemory : Option Wall → Type 0
IsMemory none = Unit {0}
IsMemory (some wall) = IsWall wall

-- The limit lies between the shortest claim and the wall, and without a limit there is no wall.
abbrev pub IsLimit : Option ℕ → ℕ → Type 0
IsLimit none wall = wall ≡ u64_max
IsLimit (some limit) wall = min_claim ≤ limit × (limit ≤ wall) × (wall ≤ u64_max)

pub record IsTuned (s : Scheduler) : Type 0 where
  pub limited : IsLimit s.auto_limit s.auto_wall
  pub memory : IsMemory s.wall_memory
  pub strikes : s.overload_strikes ≤ 6
