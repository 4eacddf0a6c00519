-- ===== src/Download/Pool/Emptied.antt =====
-- src/download.rs, `abort_workers`: every task is aborted, and every slot is empty.
use hydraria.Prelude.{ℕ, ◌≡◌, true, some, get_elem?, Bool-cases, inl, inr}
use hydraria.Download.Pool.{Slot, Task, Pool, abort_workers}
use hydraria.Download.Pool.Invariant.{slot_for, IsStaffed}
use hydraria.Download.Pool.Ended.{cleared-none, abort_all-IsSame, abort_all-marks}

pub abort_workers-none :
    (p : Pool) (worker : ℕ) {slot : Slot}
    → get_elem? (abort_workers p).handles worker ≡ some (some slot)
    → ⊥
unfolding abort_workers
abort_workers-none p worker at = cleared-none p.handles worker at

pub abort_workers-aborted :
    (p : Pool) (h : ℕ) {u : Task}
    → IsStaffed p
    → (abort_workers p).tasks h ≡ some u
    → u.aborted ≡ true
unfolding abort_workers
abort_workers-aborted p h v e =
    let (t, at, same) = abort_all-IsSame p.handles p.tasks h e in
    elim (Bool-cases t.aborted) [
      | inl over ↦ same.marked over
      | inr runs ↦
          abort_all-marks p.handles p.tasks t.worker (slot_for t.generation h)
            (v.running h t at runs) e
    ]
