-- ===== src/Download/Pool/Spawned.antt =====
-- src/download.rs, `ensure_workers`: new tasks for the empty slots.
use native.Mathlib.Decide.{ℕ_discrete}
use hydraria.Prelude.{
  ℕ, zero, suc, ◌+◌, ◌≤◌, ◌<◌, ◌≡◌, ◌≢◌, ◌⊎◌, refl, sym, ◌∙◌, true, false, List, [], ◌∷◌, Option,
  none, some, length, get_elem?, ◌==◌, length-set, get_elem?-set_self, get_elem?-set_ne, arith,
  Bool-cases, inl, inr,
}
use hydraria.Download.Pool.{Slot, Task, Pool, put, spawn_into, slot_of, slot_at, staff, staff_from}
use hydraria.Download.Pool.Invariant.{slot_for, IsStaffed}

-- A new task for a worker whose slot is empty.
module _ (p : Pool) (v : IsStaffed p) (worker : ℕ) (inside : worker < length p.handles)
    (empty : get_elem? p.handles worker ≡ some none) where
  abbrev slot : Slot
  slot = slot_for p.generation p.next_handle

  abbrev task : Task
  task = record { worker = worker; generation = p.generation; aborted = false }

  -- Another task is one of before.
  old_task :
      {h : ℕ} {t : Task}
      → put p.tasks p.next_handle (some task) h ≡ some t
      → ((h ≡ p.next_handle) × (task ≡ t)) ⊎ ((h ≢ p.next_handle) × (p.tasks h ≡ some t))
  old_task {h} {t} e = elim (Bool-cases (h == p.next_handle)) [
    | inl here ↦ inl (ground arith, (let e' = rw here at e in cc))
    | inr there ↦ inr (ground arith, rw there at e)
  ]

  spawn_into-IsStaffed : IsStaffed (spawn_into p worker)
  unfolding spawn_into
  spawn_into-IsStaffed = record {
    known = λ h t e. elim (old_task e) [
      | inl (here, same) ↦ rw (← same) (omega (arith, length-set p.handles worker (some slot)))
      | inr (there, e') ↦
          let k = v.known h t e' in omega (arith, k, length-set p.handles worker (some slot))
    ];
    running = λ h t e r. elim (old_task e) [
      | inl (here, same) ↦
          rw (← same, here) (get_elem?-set_self p.handles worker (some slot) inside)
      | inr (there, e') ↦
          get_elem?-set_ne p.handles {i = worker} {j = t.worker} (some slot)
            (λ q. let a = v.running h t e' r in let b = rw q at empty in cc)
          ∙ v.running h t e' r
    ];
    late = λ h t e r. elim (old_task e) [
      | inl (here, same) ↦ let r' = rw (← same) at r in cc
      | inr (there, e') ↦
          let l = v.late h t e' r in
          (
            l.0,
            λ s at. elim (ℕ_discrete worker t.worker) [
              | yes q ↦
                  let at' =
                    (sym (get_elem?-set_self p.handles worker (some slot) inside))
                    ∙ rw (← q) at at in
                  let g : p.generation ≡ s.generation = cc in omega (arith, l.0)
              | no q ↦
                  l.1 s (
                    sym (get_elem?-set_ne p.handles {i = worker} {j = t.worker} (some slot) q) ∙ at)
            ],
          )
    ];
    held = λ w s at. elim (ℕ_discrete worker w) [
      | yes q ↦
          let at' = sym (get_elem?-set_self p.handles worker (some slot) inside) ∙ rw (← q) at at in
          let same : slot ≡ s = cc in
          rw (← same, ← q)
            (let here : (p.next_handle == p.next_handle) ≡ true = ground arith in rw here refl)
      | no q ↦
          let at' = sym (get_elem?-set_ne p.handles {i = worker} {j = w} (some slot) q) ∙ at in
          let e = v.held w s at' in
          let old : (s.handle == p.next_handle) ≡ false =
            (let k = v.known s.handle _ e in ground arith) in
          rw old e
    ];
  }

-- A place of the list that holds no slot is empty.
pub empty_place :
    (slots : List (Option Slot)) (i : ℕ)
    → i < length slots
    → slot_of (get_elem? slots i) ≡ none
    → get_elem? slots i ≡ some none
empty_place [] i h e = elim h [ ]
empty_place (none ∷ slots) zero h e = refl
empty_place (some s ∷ slots) zero h e = cc
empty_place (s ∷ slots) (suc i) h e = empty_place slots i (omega arith) e

pub length-staff :
    (p : Pool) (worker : ℕ) (o : Option Slot) → length (staff p worker o).handles ≡ length p.handles
unfolding staff spawn_into
length-staff p worker none = length-set p.handles worker _
length-staff p worker (some s) = refl

staff-IsStaffed :
    (p : Pool) (worker : ℕ) (o : Option Slot)
    → IsStaffed p
    → worker < length p.handles
    → slot_at p worker ≡ o
    → IsStaffed (staff p worker o)
unfolding staff
staff-IsStaffed p worker none v inside e =
    spawn_into-IsStaffed p v worker inside (empty_place p.handles worker inside e)
staff-IsStaffed p worker (some s) v inside e = v

pub staff_from-IsStaffed :
    (more worker : ℕ) (p : Pool)
    → worker + more ≤ length p.handles
    → IsStaffed p
    → IsStaffed (staff_from more worker p)
unfolding staff_from
staff_from-IsStaffed zero worker p h v = v
staff_from-IsStaffed (suc more) worker p h v =
    staff_from-IsStaffed more (worker + 1) (staff p worker (slot_at p worker))
      (omega (arith, length-staff p worker (slot_at p worker)))
      (staff-IsStaffed p worker (slot_at p worker) v (omega arith) refl)
