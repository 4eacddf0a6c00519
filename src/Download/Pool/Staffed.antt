-- ===== src/Download/Pool/Staffed.antt =====
-- src/download.rs: whatever a pool goes through but `respawn`, a worker has one task that runs.
use hydraria.Prelude.{
  ℕ, ◌≤◌, ◌≡◌, refl, Bool, true, false, Option, none, some, length, get_elem?, arith, Bool-cases,
  inl, inr,
}
use hydraria.Download.Pool.{
  Slot, Task, Pool, new, slot_of, slot_at, owns, retire, ended, ensure_workers, Move, ensures,
  drains, aborts, retires, ends, Moves, rests, moves_on,
}
use hydraria.Download.Pool.Invariant.{IsStaffed, new-IsStaffed, drain_workers-IsStaffed}
use hydraria.Download.Pool.Spawned.{staff_from-IsStaffed}
use hydraria.Download.Pool.Ended.{ended-IsStaffed, emptied-IsStaffed, abort_workers-IsStaffed}

-- A task that was aborted finds a younger one in its slot, or none.
owns-aborted :
    (p : Pool) (h : ℕ) (t : Task) (place : Option (Option Slot))
    → IsStaffed p
    → p.tasks h ≡ some t
    → t.aborted ≡ true
    → get_elem? p.handles t.worker ≡ place
    → owns (slot_of place) t.generation ≡ false
unfolding owns
owns-aborted p h t none v at over e = refl
owns-aborted p h t (some none) v at over e = refl
owns-aborted p h t (some (some slot)) v at over e =
    let older = (v.late h t at over).1 slot e in ground arith

owns-running :
    (p : Pool) (h : ℕ) (t : Task)
    → IsStaffed p
    → p.tasks h ≡ some t
    → t.aborted ≡ false
    → owns (slot_at p t.worker) t.generation ≡ true
unfolding owns
owns-running p h t v at runs = rw (v.running h t at runs) (ground arith)

ended-retire-IsStaffed :
    (p : Pool) (h : ℕ) (t : Task)
    → IsStaffed p
    → p.tasks h ≡ some t
    → IsStaffed (ended (retire p t.worker t.generation) h)
unfolding retire
ended-retire-IsStaffed p h t v at = elim (Bool-cases t.aborted) [
  | inl over ↦
      let late = owns-aborted p h t (get_elem? p.handles t.worker) v at over refl in
      rw late (ended-IsStaffed p h t v at over)
  | inr runs ↦
      let mine = owns-running p h t v at runs in rw mine (emptied-IsStaffed p h t v at runs)
]

pub ensure_workers-IsStaffed :
    (wanted : Bool) (threads : ℕ) (p : Pool)
    → threads ≤ length p.handles
    → IsStaffed p
    → IsStaffed (ensure_workers wanted threads p)
unfolding ensure_workers
ensure_workers-IsStaffed true threads p h v = staff_from-IsStaffed threads 0 p (omega arith) v
ensure_workers-IsStaffed false threads p h v = v

Move-IsStaffed : {p q : Pool} → IsStaffed p → Move p q → IsStaffed q
Move-IsStaffed {p} v (ensures wanted) =
    ensure_workers-IsStaffed wanted (length p.handles) p (omega arith) v
Move-IsStaffed {p} v (drains word) = drain_workers-IsStaffed p v word
Move-IsStaffed {p} v (aborts word) = abort_workers-IsStaffed p v word
Move-IsStaffed {p} v (retires h t at) = ended-retire-IsStaffed p h t v at
Move-IsStaffed {p} v (ends h t at over) = ended-IsStaffed p h t v at over

-- Whatever a new pool goes through but `respawn`, while its generation does not reach the last
-- 64-bit number, every task that runs has the slot of its worker, so that a worker has one at
-- most, the task of every slot runs, and a task that was aborted is older than the task in its
-- slot.
pub Moves-IsStaffed : (threads : ℕ) {p : Pool} → Moves (new threads) p → IsStaffed p
Moves-IsStaffed threads rests = new-IsStaffed threads
Moves-IsStaffed threads (moves_on moves move) = Move-IsStaffed (Moves-IsStaffed threads moves) move
