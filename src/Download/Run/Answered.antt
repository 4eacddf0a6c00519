-- ===== src/Download/Run/Answered.antt =====
-- No byte of the file is lost by fair steps, whatever their order.
use hydraria.Prelude.{ℕ, ◌<◌, Bool, List, arith}
use hydraria.Schedule.Float.{FloatOps}
use hydraria.Schedule.State.{IsLayout}
use hydraria.Schedule.Adapt.Tuning.{Tunes-IsSameWork}
use hydraria.Schedule.Owners.Claiming.{claim-Keeps}
use hydraria.Schedule.Owners.Sweeping.{refocus_on_reader-Keeps, reclaim_stalled-Keeps}
use hydraria.Download.{Engine}
use hydraria.Download.Run.{
  System, Turn, claims, reserves, writes, advances, finishes, tunes, refocuses, reclaims, rebuilds,
  IsFair, AllFair, Turns, stays, goes_on,
}
use hydraria.Download.Run.Invariant.{IsAnswered, SameWork-Keeps, Keeps-IsAnswered, resized}
use hydraria.Download.Run.Built.{built-IsAnswered}
use hydraria.Download.Run.Kept.{
  reserves-IsAnswered, advances-IsAnswered, writes-IsAnswered, finishes-IsAnswered,
}

module _ {Disk : Type 0} (engine : Engine) (layout : IsLayout engine.volumes) (total : ℕ)
    (some_bytes : 0 < total) where
  -- Every fair step keeps it.
  module _ (pwrite_all : Disk → List ℕ → ℕ → Disk × Bool)
      (replace_bitmap : Disk → List ℕ → Disk × Bool) (F : FloatOps) (threads : ℕ) where
    Turn-IsAnswered :
        {y z : System Disk}
        → IsAnswered engine total y
        → (step : Turn pwrite_all replace_bitmap F engine threads y z)
        → IsFair pwrite_all replace_bitmap F engine threads step
        → IsAnswered engine total z
    unfolding IsFair
    Turn-IsAnswered {y} a (claims now worker) fair =
        Keeps-IsAnswered a (claim-Keeps F now worker y.scheduler a.sound (rw a.volumes layout))
    Turn-IsAnswered a (reserves pos to l there) fair =
        reserves-IsAnswered engine layout total some_bytes pos to l a there fair
    Turn-IsAnswered a (writes at content) fair =
        writes-IsAnswered engine layout total some_bytes pwrite_all replace_bitmap at content a fair
    Turn-IsAnswered a (advances pos to l there) fair =
        advances-IsAnswered engine layout total some_bytes pos to l a there fair.0 fair.1
    Turn-IsAnswered a (finishes worker reached) fair =
        finishes-IsAnswered engine layout total some_bytes worker reached a fair
    Turn-IsAnswered a (tunes t how) fair =
        Keeps-IsAnswered a (SameWork-Keeps a.sound (Tunes-IsSameWork how))
    Turn-IsAnswered {y} a (refocuses window) fair =
        Keeps-IsAnswered a (refocus_on_reader-Keeps y.scheduler window a.sound a.exclusive fair)
    Turn-IsAnswered {y} a (reclaims now) fair =
        Keeps-IsAnswered a (reclaim_stalled-Keeps now y.scheduler a.sound a.exclusive fair)
    Turn-IsAnswered {y} a (rebuilds now strategy) fair =
        resized a.size
          (built-IsAnswered now threads strategy y.entry engine a.valid (omega (arith, a.size)))

    -- For a layout of volumes and a file with bytes, let each byte of the file be on disk or have
    -- one owner, no byte have two, and the scheduler and the entry be well formed. All of this
    -- holds after steps of the tasks of a job, in any order, as long as each step is fair: a
    -- worker reserves within its claim, writes within the file and advances over what is on disk;
    -- when it finishes, it has no claim, or it stands where it reports on its claim, as a primary
    -- whose claim is settled, as a hedge before its end, or as a hedge at its end, with its range
    -- on disk, that covers what is left of the primary that it raced; `refocus_on_reader` and
    -- `reclaim_stalled` run while every claim is settled. A claim is settled when its worker has
    -- delivered what it reserved, or has reserved nothing behind the end of it.
    pub Turns-IsAnswered :
        {y z : System Disk}
        → IsAnswered engine total y
        → (run : Turns pwrite_all replace_bitmap F engine threads y z)
        → AllFair pwrite_all replace_bitmap F engine threads run
        → IsAnswered engine total z
    unfolding AllFair
    Turns-IsAnswered a stays fair = a
    Turns-IsAnswered a (goes_on run step) fair =
        Turn-IsAnswered (Turns-IsAnswered a run fair.0) step fair.1
