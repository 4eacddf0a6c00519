-- ===== src/Download/Pool/Tests.antt =====
-- A pool of two workers.
use hydraria.Prelude.{◌+◌, ◌≡◌, refl, true, some, arith}
use hydraria.Download.Pool.{
  Task, Pool, new, ensure_workers, abort_workers, retire, ended, staff, slot_at, ensures, aborts,
  retires, Moves, rests, moves_on,
}
use hydraria.Download.Pool.Invariant.{slot_for, IsStaffed, new-IsStaffed}
use hydraria.Download.Pool.Staffed.{ensure_workers-IsStaffed, Moves-IsStaffed}
use hydraria.Download.Pool.Doubled.{overtaken, task_for, respawn-doubles}

abbrev pub staffed : Pool
staffed = ensure_workers true 2 (new 2)

abbrev aborted : Pool
aborted = abort_workers staffed

-- The first task of worker 1 was aborted, and retires when the worker has another.
abbrev restaffed : Pool
restaffed = ensure_workers true 2 aborted

abbrev old_task : Task
old_task = record { worker = 1; generation = 1; aborted = true }

old_task-found : restaffed.tasks 1 ≡ some old_task
unfolding ensure_workers abort_workers new
old_task-found = refl

moves : Moves (new 2) (ended (retire restaffed 1 1) 1)
unfolding ensure_workers abort_workers new
moves =
    moves_on
      (moves_on (moves_on (moves_on rests (ensures true)) (aborts (omega arith))) (ensures true))
      (retires 1 old_task refl)

Moves-IsStaffed_example : IsStaffed (ended (retire restaffed 1 1) 1)
Moves-IsStaffed_example = Moves-IsStaffed 2 moves

pub staffed-IsStaffed : IsStaffed staffed
unfolding new
staffed-IsStaffed = ensure_workers-IsStaffed true 2 (new 2) (omega arith) (new-IsStaffed 2)

respawn-doubles_example :
    ((staff
          (overtaken staffed 0 (slot_for 1 0))
          0
          (slot_at (overtaken staffed 0 (slot_for 1 0)) 0)).tasks
        2
      ≡ some (task_for staffed 0))
    × ((staff
            (overtaken staffed 0 (slot_for 1 0))
            0
            (slot_at (overtaken staffed 0 (slot_for 1 0)) 0)).tasks
          (2 + 1)
        ≡ some (task_for staffed 0))
unfolding ensure_workers new
respawn-doubles_example = respawn-doubles staffed 0 (slot_for 1 0) staffed-IsStaffed refl refl
