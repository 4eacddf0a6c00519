-- ===== src/Download/Pool/Invariant.antt =====
-- src/download.rs: a slot holds one task, and a task that runs has its slot.

use hydraria.Prelude.{
  ℕ, zero, suc, ◌+◌, ◌≤◌, ◌<◌, ◌≡◌, true, false, none, some, length, replicate, get_elem?, arith,
  wrapping_add, u64_mod,
}
use hydraria.Download.Pool.{Slot, Task, Pool, new, drain_workers}

abbrev pub slot_for : ℕ → ℕ → Slot
slot_for generation handle = record { generation = generation; handle = handle }

-- A task that runs has the slot of its worker, and the task of a slot runs. A task that was aborted
-- is of an older generation than the pool, and than the task in its worker's slot.
pub record IsStaffed (p : Pool) : Type 0 where
  pub known :
      (h : ℕ) (t : Task)
      → p.tasks h ≡ some t
      → (h < p.next_handle) × (t.generation ≤ p.generation) × (t.worker < length p.handles)
  pub running :
      (h : ℕ) (t : Task)
      → p.tasks h ≡ some t
      → t.aborted ≡ false
      → get_elem? p.handles t.worker ≡ some (some (slot_for t.generation h))
  pub late :
      (h : ℕ) (t : Task)
      → p.tasks h ≡ some t
      → t.aborted ≡ true
      → (t.generation < p.generation)
        × ((slot : Slot)
            → get_elem? p.handles t.worker ≡ some (some slot)
            → t.generation < slot.generation)
  pub held :
      (worker : ℕ) (slot : Slot)
      → get_elem? p.handles worker ≡ some (some slot)
      → p.tasks slot.handle
        ≡ some (record { worker = worker; generation = slot.generation; aborted = false })

get_elem?-replicate :
    (n i : ℕ) {slot : Slot} → get_elem? (replicate n none) i ≡ some (some slot) → ⊥
get_elem?-replicate zero i e = cc
get_elem?-replicate (suc n) zero e = cc
get_elem?-replicate (suc n) (suc i) e = get_elem?-replicate n i e

pub new-IsStaffed : (threads : ℕ) → IsStaffed (new threads)
unfolding new
new-IsStaffed threads = record {
  known = λ h t e. cc;
  running = λ h t e r. cc;
  late = λ h t e r. cc;
  held = λ worker slot e. absurd (get_elem?-replicate threads worker e);
}

pub drain_workers-IsStaffed :
    (p : Pool) → IsStaffed p → p.generation + 1 < u64_mod → IsStaffed (drain_workers p)
unfolding drain_workers
drain_workers-IsStaffed p v word =
    let bumped : wrapping_add p.generation 1 ≡ p.generation + 1 = omega arith in
    rw bumped (record {
      known = λ h t e. omega (arith, v.known h t e);
      running = v.running;
      late = λ h t e r. (omega (arith, (v.late h t e r).0), (v.late h t e r).1);
      held = v.held;
    })
