-- ===== src/Download/Pool/Filled.antt =====
-- src/download.rs, `ensure_workers`: no slot is left empty, and no slot changes hands.
use hydraria.Prelude.{
  ℕ, zero, suc, ◌+◌, ◌≤◌, ◌<◌, ◌≡◌, ◌∙◌, refl, true, Option, none, some, length, get_elem?,
  get_elem?-set_self, get_elem?-set_ne, arith,
}
use native.Mathlib.Decide.{ℕ_discrete}
use hydraria.Download.Pool.{
  Slot, Pool, slot_of, slot_at, spawn_into, staff, staff_from, ensure_workers,
}
use hydraria.Download.Pool.Invariant.{slot_for}
use hydraria.Download.Pool.Spawned.{length-staff}

staff-keeps :
    (p : Pool) (worker w : ℕ) (o : Option Slot) {slot : Slot}
    → slot_at p worker ≡ o
    → get_elem? p.handles w ≡ some (some slot)
    → get_elem? (staff p worker o).handles w ≡ some (some slot)
unfolding staff spawn_into
staff-keeps p worker w (some s) e at = at
staff-keeps p worker w none e at =
    get_elem?-set_ne p.handles {i = worker} {j = w} _
      (λ q. let at' = rw (← q) at at in let e' = rw at' at e in cc)
    ∙ at

slot_of-some :
    (o : Option (Option Slot)) {slot : Slot} → slot_of o ≡ some slot → o ≡ some (some slot)
slot_of-some none e = cc
slot_of-some (some none) e = cc
slot_of-some (some (some s)) e = cc

staff-fills :
    (p : Pool) (worker w : ℕ) (o : Option Slot)
    → worker ≡ w
    → slot_at p worker ≡ o
    → worker < length p.handles
    → (slot : Slot) × (get_elem? (staff p worker o).handles w ≡ some (some slot))
unfolding staff spawn_into
staff-fills p worker w none q e inside =
    (slot_for p.generation p.next_handle, rw (← q) (get_elem?-set_self p.handles worker _ inside))
staff-fills p worker w (some slot) q e inside =
    (slot, rw (← q) (slot_of-some (get_elem? p.handles worker) e))

pub staff_from-keeps :
    (more worker : ℕ) (p : Pool) (w : ℕ) {slot : Slot}
    → get_elem? p.handles w ≡ some (some slot)
    → get_elem? (staff_from more worker p).handles w ≡ some (some slot)
unfolding staff_from
staff_from-keeps zero worker p w at = at
staff_from-keeps (suc more) worker p w at =
    staff_from-keeps more (worker + 1) (staff p worker (slot_at p worker)) w
      (staff-keeps p worker w (slot_at p worker) refl at)

pub staff_from-fills :
    (more worker : ℕ) (p : Pool) (w : ℕ)
    → worker + more ≤ length p.handles
    → worker ≤ w
    → w < worker + more
    → (slot : Slot) × (get_elem? (staff_from more worker p).handles w ≡ some (some slot))
unfolding staff_from
staff_from-fills zero worker p w h low high = absurd (omega arith)
staff_from-fills (suc more) worker p w h low high = elim (ℕ_discrete worker w) [
  | yes here ↦
      let (slot, at) = staff-fills p worker w (slot_at p worker) here refl (omega arith) in
      (slot, staff_from-keeps more (worker + 1) (staff p worker (slot_at p worker)) w at)
  | no there ↦
      staff_from-fills more (worker + 1) (staff p worker (slot_at p worker)) w
        (omega (arith, length-staff p worker (slot_at p worker))) (omega arith) (omega arith)
]

pub ensure_workers-fills :
    (threads : ℕ) (p : Pool) (w : ℕ)
    → threads ≤ length p.handles
    → w < threads
    → (slot : Slot) × (get_elem? (ensure_workers true threads p).handles w ≡ some (some slot))
unfolding ensure_workers
ensure_workers-fills threads p w h inside =
    staff_from-fills threads 0 p w (omega arith) (omega arith) (omega arith)
