-- ===== src/Download/Run.antt =====
-- src/download.rs: the steps that the tasks of a job take on the scheduler and the entry, in any
-- order. Each takes the scheduler's or the entry's lock once. `run_worker` claims, reserves, writes,
-- advances, finishes and learns; `run_reader` and `retune` tune; `stream` and `sweep_stalled` take
-- claims back; `pause_cache` builds the scheduler again.
pub mod Invariant
pub mod Built
pub mod Kept
pub mod Answered
pub mod Drained
use hydraria.Prelude.{
  ℕ, ◌+◌, ◌≤◌, ◌<◌, ◌≡◌, Bool, true, false, List, Option, none, some, length, get_elem?, set, All,
}
use hydraria.Cache.Entry.{Entry, write_range, present}
use hydraria.Schedule.Float.{FloatOps}
use hydraria.Schedule.State.{Scheduler, Live, Strategy, reserve, advance_to}
use hydraria.Schedule.Assign.{claim}
use hydraria.Schedule.Adapt.Tuning.{Tunes}
use hydraria.Schedule.Release.{split_off, finish, refocus_on_reader, reclaim_stalled}
use hydraria.Schedule.Owners.{IsSettled}
use hydraria.Schedule.Owners.Finishing.{raced}
use hydraria.Download.{Engine, build_scheduler}

pub record System (Disk : Type 0) : Type 0 where
  pub scheduler : Scheduler
  pub entry : Entry Disk

-- The claim at `pos` is exchanged for another.
abbrev pub put_claim : Scheduler → ℕ → Live → Scheduler
put_claim s pos l = record s { live = set s.live pos l }

-- When a worker may report that it stopped at `reached`: it has no claim any more; or it stands
-- there on its claim, as a primary whose claim is settled, as a hedge that gives up before its end,
-- or as a hedge that wins, with its range on disk, and then it covers what is left of the primary
-- that it raced. The code tests none of this.
pub data IsDue {Disk : Type 0} (y : System Disk) (worker reached : ℕ) : Type 0 where
  gone : split_off y.scheduler.live worker ≡ none → IsDue y worker reached
  stops :
      (l : Live) (others : List Live)
      → split_off y.scheduler.live worker ≡ some (l, others)
      → reached ≡ l.cursor
      → l.hedge_of ≡ none
      → IsSettled l
      → IsDue y worker reached
  gives_up :
      (l : Live) (others : List Live) (primary : ℕ)
      → split_off y.scheduler.live worker ≡ some (l, others)
      → reached ≡ l.cursor
      → l.hedge_of ≡ some primary
      → l.cursor ≤ l.end
      → IsDue y worker reached
  wins :
      (l : Live) (others : List Live) (primary : ℕ)
      → split_off y.scheduler.live worker ≡ some (l, others)
      → reached ≡ l.cursor
      → l.hedge_of ≡ some primary
      → l.end < l.cursor
      → ((x : ℕ) → l.start ≤ x → x ≤ l.end → present y.entry x ≡ true)
      → ((k : Live) → raced others primary ≡ some k → (l.start ≤ k.cursor) × (k.end ≤ l.end))
      → IsDue y worker reached

module _ {Disk : Type 0} (pwrite_all : Disk → List ℕ → ℕ → Disk × Bool)
    (replace_bitmap : Disk → List ℕ → Disk × Bool) (F : FloatOps) (engine : Engine)
    (threads : ℕ) where
  -- A finish names the worker and where it stopped, so one that comes late takes whatever claim the
  -- worker has by then.
  pub data Turn (y : System Disk) : System Disk → Type 0 where
    claims : (now worker : ℕ) → Turn y (record y { scheduler = (claim F now y.scheduler worker).0 })
    reserves :
        (pos next : ℕ) (l : Live)
        → get_elem? y.scheduler.live pos ≡ some l
        → Turn y (record y { scheduler = put_claim y.scheduler pos (reserve l next) })
    writes :
        (at : ℕ) (content : List ℕ)
        → Turn y (record y { entry = (write_range pwrite_all replace_bitmap y.entry at content).0 })
    advances :
        (pos next : ℕ) (l : Live)
        → get_elem? y.scheduler.live pos ≡ some l
        → Turn y (record y { scheduler = put_claim y.scheduler pos (advance_to l next) })
    finishes :
        (worker reached : ℕ) → Turn y (record y { scheduler = finish y.scheduler worker reached })
    tunes : (t : Scheduler) → Tunes y.scheduler t → Turn y (record y { scheduler = t })
    refocuses :
        (window : ℕ) → Turn y (record y { scheduler = (refocus_on_reader y.scheduler window).0 })
    reclaims : (now : ℕ) → Turn y (record y { scheduler = (reclaim_stalled now y.scheduler).0 })
    rebuilds :
        (now : ℕ) (strategy : Strategy)
        → Turn y (record y {
          scheduler = build_scheduler now y.entry engine y.entry.meta.total_size threads strategy;
        })

  pub data Turns (y : System Disk) : System Disk → Type 0 where
    stays : Turns y y
    goes_on : {z w : System Disk} → Turns y z → Turn z w → Turns y w

  -- A worker reserves within its claim, writes within the file, advances over what is on disk, and
  -- finishes as `IsDue` says; and claims are taken back while every claim is settled: its worker
  -- has delivered what it reserved, or has reserved nothing behind the end.
  unfoldable pub IsFair : {y z : System Disk} → Turn y z → Type 0
  IsFair (claims now worker) = Unit
  IsFair (reserves pos next l there) = next ≤ l.end + 1
  IsFair {y} (writes at content) = at + length content ≤ y.entry.meta.total_size
  IsFair {y} (advances pos next l there) =
      (l.cursor ≤ next) × ((x : ℕ) → l.cursor ≤ x → x < next → present y.entry x ≡ true)
  IsFair {y} (finishes worker reached) = IsDue y worker reached
  IsFair (tunes t how) = Unit
  IsFair {y} (refocuses window) = All IsSettled y.scheduler.live
  IsFair {y} (reclaims now) = All IsSettled y.scheduler.live
  IsFair (rebuilds now strategy) = Unit

  unfoldable pub AllFair : {y z : System Disk} → Turns y z → Type 0
  unfolding IsFair
  AllFair stays = Unit
  AllFair (goes_on run step) = AllFair run × IsFair step
