-- ===== src/Download.antt =====
-- src/download.rs: the job that fills the cache of a task. `build_scheduler`, and `is_drained` of
-- src/schedule.rs, by which the scheduler is asked whether work is left.
pub mod Run
pub mod Pool
pub mod Job
pub mod Tests
use hydraria.Prelude.{
  ℕ, ◌-◌, max, Bool, true, false, ◌&&◌, List, [], ◌∷◌, Option, none, some, ltb, leb, ◌==◌,
  if◌then◌else◌, wrapping_sub,
}
use hydraria.Cache.Entry.{Entry, contiguous_from}
use hydraria.Cache.Entry.Staged.{staged_ranges}
use hydraria.Schedule.Ranges.{Ranges}
use hydraria.Schedule.State.{Scheduler, Live, Strategy, VolumeMeta, remaining}
use hydraria.Schedule.Create.{new}
use hydraria.Schedule.Adapt.{Wall, with_claim_wall}

-- What `build_scheduler` reads of the engine. The configuration's numbers are `usize` and `u64`.
pub record Engine : Type 0 where
  pub volumes : Option (List VolumeMeta)
  pub max_per_volume : ℕ
  pub max_split : ℕ
  pub claim_wall : Option Wall

filter_split : ℕ → Option ℕ
filter_split max_split = if ltb 0 max_split then some max_split else none

with_wall : ℕ → Scheduler → Option Wall → Scheduler
with_wall now s none = s
with_wall now s (some wall) = with_claim_wall now s wall

-- At time `now`. `threads` is the number of worker slots.
unfoldable pub build_scheduler :
    {Disk : Type 0} → ℕ → Entry Disk → Engine → ℕ → ℕ → Strategy → Scheduler
unfolding filter_split with_wall
build_scheduler now entry engine total_size threads strategy =
    with_wall now
      (new 0 (wrapping_sub total_size 1) strategy engine.volumes threads
        (max engine.max_per_volume 1) (filter_split engine.max_split)
        (staged_ranges entry 0 (wrapping_sub total_size 1)))
      engine.claim_wall

all_delivered : List Live → Bool
all_delivered [] = true
all_delivered (l ∷ ls) = remaining l == 0 && all_delivered ls

is_empty : Ranges → Bool
is_empty [] = true
is_empty (r ∷ rs) = false

pub is_drained : Scheduler → Bool
unfolding all_delivered is_empty
is_drained s = is_empty s.unclaimed && all_delivered s.live

-- `entry.contiguous_from(0, total_size) >= total_size`
pub is_complete : {Disk : Type 0} → Entry Disk → ℕ → Bool
is_complete entry total_size = leb total_size (contiguous_from entry 0 total_size)
