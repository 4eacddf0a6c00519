-- ===== src/Download/Pool/Doubled.antt =====
-- src/download.rs, `respawn`: the generation stays, so the task that was aborted can clear the slot
-- of the one that took its place.
use hydraria.Prelude.{
  ℕ, zero, suc, List, ◌+◌, ◌<◌, ◌≡◌, refl, true, false, [], ◌∷◌, none, some, length, get_elem?, set,
  ◌==◌, length-set, get_elem?-set_self, arith,
}
use hydraria.Download.Pool.{
  Slot, Task, Pool, spawn_into, slot_at, staff, respawn, owns, retire, ended,
}
use hydraria.Download.Pool.Invariant.{slot_for, IsStaffed}

get_elem?-lt {ℓ} :
    {A : Type ℓ} (xs : List A) (i : ℕ) {a : A} → get_elem? xs i ≡ some a → i < length xs
get_elem?-lt [] i e = cc
get_elem?-lt (x ∷ xs) zero e = omega arith
get_elem?-lt (x ∷ xs) (suc i) e = omega (arith, get_elem?-lt xs i e)

-- The task of the slot is aborted, and runs on to its end.
abbrev pub overtaken : Pool → ℕ → Slot → Pool
overtaken p worker slot =
    ended (retire (respawn p (worker ∷ [])) worker slot.generation) slot.handle

abbrev pub task_for : Pool → ℕ → Task
task_for p worker = record { worker = worker; generation = p.generation; aborted = false }

module _ (p : Pool) (worker : ℕ) (slot : Slot) (v : IsStaffed p)
    (at : get_elem? p.handles worker ≡ some (some slot))
    (now : slot.generation ≡ p.generation) where
  inside : worker < length p.handles
  inside = get_elem?-lt p.handles worker at

  respawned-owns : owns (slot_at (respawn p (worker ∷ [])) worker) slot.generation ≡ true
  unfolding respawn spawn_into owns
  respawned-owns =
      rw (get_elem?-set_self p.handles worker (some (slot_for p.generation p.next_handle)) inside)
        (ground arith)

  -- The slot is empty.
  overtaken-slot_at : slot_at (overtaken p worker slot) worker ≡ none
  unfolding retire respawn spawn_into
  overtaken-slot_at =
      let owned = respawned-owns in
      rw owned (
        let there : worker
            < length (set p.handles worker (some (slot_for p.generation p.next_handle))) =
          omega (
            arith,
            inside,
            length-set p.handles worker (some (slot_for p.generation p.next_handle)),
          ) in
        rw
          (get_elem?-set_self (set p.handles worker (some (slot_for p.generation p.next_handle)))
            worker none there)
          refl)

  -- The new task runs.
  overtaken-tasks : (overtaken p worker slot).tasks p.next_handle ≡ some (task_for p worker)
  unfolding retire respawn spawn_into
  overtaken-tasks =
      let owned = respawned-owns in
      let known = v.known slot.handle _ (v.held worker slot at) in
      let other : (p.next_handle == slot.handle) ≡ false = ground arith in
      let same : (p.next_handle == p.next_handle) ≡ true = ground arith in
      rw owned (rw (other, same) refl)

  overtaken-next :
      ((overtaken p worker slot).next_handle ≡ p.next_handle + 1)
      × ((overtaken p worker slot).generation ≡ p.generation)
  unfolding retire respawn spawn_into
  overtaken-next = let owned = respawned-owns in rw owned (refl, refl)

  -- In a staffed pool, let `respawn` restart a worker whose slot is of the present generation,
  -- and let the aborted task run on through `retire` to its end. After the next round of
  -- `ensure_workers` for the worker, the task that `respawn` started and another one both run for
  -- it.
  pub respawn-doubles :
      ((staff (overtaken p worker slot) worker (slot_at (overtaken p worker slot) worker)).tasks
          p.next_handle
        ≡ some (task_for p worker))
      × ((staff (overtaken p worker slot) worker (slot_at (overtaken p worker slot) worker)).tasks
            (p.next_handle + 1)
          ≡ some (task_for p worker))
  unfolding staff spawn_into
  respawn-doubles =
      let q : Pool = overtaken p worker slot in
      let (later, same) = overtaken-next in
      let old : (p.next_handle == q.next_handle) ≡ false = ground arith in
      let fresh : (p.next_handle + 1 == q.next_handle) ≡ true = ground arith in
      rw overtaken-slot_at (rw old overtaken-tasks, rw (fresh, same) refl)
