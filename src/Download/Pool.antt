-- ===== src/Download/Pool.antt =====
-- src/download.rs: `Workers`, the slots of a job, and the tasks that are spawned for them. The async
-- runtime is a map from handles to the tasks that have not ended: `spawn` takes a new handle, and
-- `abort` marks a task, which may run on to its end all the same, as long as it does not wait.
pub mod Invariant
pub mod Spawned
pub mod Filled
pub mod Ended
pub mod Emptied
pub mod Staffed
pub mod Doubled
pub mod Tests
use hydraria.Prelude.{
  ℕ, zero, suc, ◌+◌, ◌<◌, ◌≡◌, Bool, true, false, List, [], ◌∷◌, Option, none, some, length,
  replicate, get_elem?, set, ◌==◌, if◌then◌else◌, wrapping_add, u64_mod,
}

pub record Slot : Type 0 where
  pub generation : ℕ
  pub handle : ℕ

pub record Task : Type 0 where
  pub worker : ℕ
  pub generation : ℕ
  pub aborted : Bool

-- `Workers`, and the runtime.
pub record Pool : Type 0 where
  pub generation : ℕ
  pub handles : List (Option Slot)
  pub tasks : ℕ → Option Task
  pub next_handle : ℕ

-- `Workers::new`, with no task yet
unfoldable pub new : ℕ → Pool
new threads = record {
  generation = 1;
  handles = replicate threads none;
  tasks = λ h. none;
  next_handle = 0;
}

abbrev pub put : (ℕ → Option Task) → ℕ → Option Task → ℕ → Option Task
put tasks h t k = if k == h then t else tasks k

mark_aborted : Option Task → Option Task
mark_aborted none = none
mark_aborted (some t) = some (record t { aborted = true })

-- `slot.handle.abort()`, where there is a slot
abort_slot : Option Slot → (ℕ → Option Task) → ℕ → Option Task
unfolding mark_aborted
abort_slot none tasks = tasks
abort_slot (some slot) tasks = put tasks slot.handle (mark_aborted (tasks slot.handle))

-- A task for the worker, of the present generation, in its slot.
spawn_into : Pool → ℕ → Pool
spawn_into p worker = record p {
  handles =
      set p.handles worker (some (record { generation = p.generation; handle = p.next_handle }));
  tasks =
      put p.tasks p.next_handle
        (some (record { worker = worker; generation = p.generation; aborted = false }));
  next_handle = p.next_handle + 1;
}

abbrev pub slot_of : Option (Option Slot) → Option Slot
slot_of none = none
slot_of (some slot) = slot

-- `workers.handles[worker]`, for a worker below the number of slots
abbrev pub slot_at : Pool → ℕ → Option Slot
slot_at p worker = slot_of (get_elem? p.handles worker)

-- A round of the loop of `ensure_workers`.
pub staff : Pool → ℕ → Option Slot → Pool
unfolding spawn_into
staff p worker none = spawn_into p worker
staff p worker (some slot) = p

pub staff_from : ℕ → ℕ → Pool → Pool
unfolding staff
staff_from zero worker p = p
staff_from (suc more) worker p = staff_from more (worker + 1) (staff p worker (slot_at p worker))

-- `ensure_workers`: whether anybody wants work done is `wanted`.
pub ensure_workers : Bool → ℕ → Pool → Pool
unfolding staff_from
ensure_workers wanted threads p = if wanted then staff_from threads 0 p else p

pub respawn : Pool → List ℕ → Pool
unfolding abort_slot spawn_into
respawn p [] = p
respawn p (worker ∷ stale) =
    respawn (spawn_into (record p { tasks = abort_slot (slot_at p worker) p.tasks }) worker) stale

pub drain_workers : Pool → Pool
drain_workers p = record p { generation = wrapping_add p.generation 1 }

pub abort_all : List (Option Slot) → (ℕ → Option Task) → ℕ → Option Task
unfolding abort_slot
abort_all [] tasks = tasks
abort_all (slot ∷ slots) tasks = abort_all slots (abort_slot slot tasks)

pub cleared : List (Option Slot) → List (Option Slot)
cleared [] = []
cleared (slot ∷ slots) = none ∷ cleared slots

pub abort_workers : Pool → Pool
unfolding abort_all cleared
abort_workers p = record p {
  generation = wrapping_add p.generation 1;
  handles = cleared p.handles;
  tasks = abort_all p.handles p.tasks;
}

owns : Option Slot → ℕ → Bool
owns none generation = false
owns (some slot) generation = slot.generation == generation

pub retire : Pool → ℕ → ℕ → Pool
unfolding owns
retire p worker generation =
    if owns (slot_at p worker) generation
    then record p { handles = set p.handles worker none }
    else p

-- A task that ends is gone.
abbrev pub ended : Pool → ℕ → Pool
ended p h = record p { tasks = put p.tasks h none }

-- The steps of a job on its pool, but for `respawn`. A task retires and ends; one that was aborted
-- may end where it waits. The generation has not been bumped to the last 64-bit number.
pub data Move (p : Pool) : Pool → Type 0 where
  ensures : (wanted : Bool) → Move p (ensure_workers wanted (length p.handles) p)
  drains : p.generation + 1 < u64_mod → Move p (drain_workers p)
  aborts : p.generation + 1 < u64_mod → Move p (abort_workers p)
  retires :
      (h : ℕ) (t : Task) → p.tasks h ≡ some t → Move p (ended (retire p t.worker t.generation) h)
  ends : (h : ℕ) (t : Task) → p.tasks h ≡ some t → t.aborted ≡ true → Move p (ended p h)

pub data Moves (p : Pool) : Pool → Type 0 where
  rests : Moves p p
  moves_on : {q r : Pool} → Moves p q → Move q r → Moves p r
