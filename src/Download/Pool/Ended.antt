-- ===== src/Download/Pool/Ended.antt =====
-- src/download.rs, `retire` and `abort_workers`: tasks that end, and slots that are emptied.
use native.Mathlib.Decide.{ℕ_discrete}
use hydraria.Prelude.{
  ℕ, zero, suc, ◌+◌, ◌<◌, ◌≡◌, ◌≢◌, refl, sym, ◌∙◌, true, false, List, [], ◌∷◌, Option, none, some,
  length, get_elem?, set, ◌==◌, length-set, get_elem?-set_self, get_elem?-set_ne, arith,
  Option-cases, Bool-cases, inl, inr, wrapping_add, u64_mod,
}
use hydraria.Download.Pool.{
  Slot, Task, Pool, put, mark_aborted, abort_slot, abort_all, cleared, abort_workers, ended,
}
use hydraria.Download.Pool.Invariant.{slot_for, IsStaffed}

-- A task that ends, out of the map.
ended_task :
    (tasks : ℕ → Option Task) (h k : ℕ) {t : Task}
    → put tasks h none k ≡ some t
    → (k ≢ h) × (tasks k ≡ some t)
ended_task tasks h k e = elim (Bool-cases (k == h)) [
  | inl here ↦ let e' = rw here at e in cc
  | inr there ↦ (ground arith, rw there at e)
]

-- An aborted task that ends leaves the slots alone.
pub ended-IsStaffed :
    (p : Pool) (h : ℕ) (t : Task)
    → IsStaffed p
    → p.tasks h ≡ some t
    → t.aborted ≡ true
    → IsStaffed (ended p h)
ended-IsStaffed p h t v at over = record {
  known = λ k u e. v.known k u (ended_task p.tasks h k e).1;
  running = λ k u e r. v.running k u (ended_task p.tasks h k e).1 r;
  late = λ k u e r. v.late k u (ended_task p.tasks h k e).1 r;
  held = λ w s e.
      let kept = v.held w s e in
      let other : (s.handle == h) ≡ false = elim (Bool-cases (s.handle == h)) [
        | inr there ↦ there
        | inl here ↦ let same : s.handle ≡ h = ground arith in let mine = rw same at kept in cc
      ] in
      rw other kept;
}

-- A task that runs empties its slot as it ends.
pub emptied-IsStaffed :
    (p : Pool) (h : ℕ) (t : Task)
    → IsStaffed p
    → p.tasks h ≡ some t
    → t.aborted ≡ false
    → IsStaffed (ended (record p { handles = set p.handles t.worker none }) h)
emptied-IsStaffed p h t v at runs =
    let mine = v.running h t at runs in
    let inside = (v.known h t at).2 in
    let emptied = get_elem?-set_self p.handles t.worker none inside in
    record {
      known = λ k u e.
          omega
            (arith, v.known k u (ended_task p.tasks h k e).1, length-set p.handles t.worker none);
      running = λ k u e r.
          let (other, e') = ended_task p.tasks h k e in
          let theirs = v.running k u e' r in
          get_elem?-set_ne p.handles {i = t.worker} {j = u.worker} none
            (λ q. other (let theirs' = rw (← q) at theirs in cc))
          ∙ theirs;
      late = λ k u e r.
          let (other, e') = ended_task p.tasks h k e in
          let l = v.late k u e' r in
          (
            l.0,
            λ s there. elim (ℕ_discrete t.worker u.worker) [
              | yes q ↦ let there' = rw (← q) at there in cc
              | no q ↦
                  l.1 s
                    (sym (get_elem?-set_ne p.handles {i = t.worker} {j = u.worker} none q) ∙ there)
            ],
          );
      held = λ w s there. elim (ℕ_discrete t.worker w) [
        | yes q ↦ let there' = rw (← q) at there in cc
        | no q ↦
            let kept =
              v.held w s (sym (get_elem?-set_ne p.handles {i = t.worker} {j = w} none q) ∙ there) in
            let other : (s.handle == h) ≡ false = elim (Bool-cases (s.handle == h)) [
              | inr apart ↦ apart
              | inl here ↦
                  let same : s.handle ≡ h = ground arith in
                  let both = rw same at kept in let w_is : t.worker ≡ w = cc in absurd (q w_is)
            ] in
            rw other kept
      ];
    }

pub cleared-none :
    (slots : List (Option Slot)) (i : ℕ) {slot : Slot}
    → get_elem? (cleared slots) i ≡ some (some slot)
    → ⊥
unfolding cleared
cleared-none [] i e = cc
cleared-none (slot ∷ slots) zero e = cc
cleared-none (slot ∷ slots) (suc i) e = cleared-none slots i e

length-cleared : (slots : List (Option Slot)) → length (cleared slots) ≡ length slots
unfolding cleared
length-cleared [] = refl
length-cleared (slot ∷ slots) = omega (arith, length-cleared slots)

-- What aborting makes of a task: the same, perhaps marked.
pub record IsSame (t u : Task) : Type 0 where
  pub worker : u.worker ≡ t.worker
  pub generation : u.generation ≡ t.generation
  pub marked : t.aborted ≡ true → u.aborted ≡ true

abort_slot-IsSame :
    (slot : Option Slot) (tasks : ℕ → Option Task) (h : ℕ) {u : Task}
    → abort_slot slot tasks h ≡ some u
    → (t : Task) × (tasks h ≡ some t) × IsSame t u
unfolding abort_slot mark_aborted
abort_slot-IsSame none tasks h {u} e =
    (u, e, record { worker = refl; generation = refl; marked = λ r. r })
abort_slot-IsSame (some slot) tasks h {u} e = elim (Bool-cases (h == slot.handle)) [
  | inr other ↦ (u, rw other at e, record { worker = refl; generation = refl; marked = λ r. r })
  | inl mine ↦
      let here : h ≡ slot.handle = ground arith in
      elim (Option-cases (tasks slot.handle)) [
        | inl gone ↦ let e' = rw (mine, gone) at e in cc
        | inr (t, at) ↦
            let e' = rw (mine, at) at e in
            let u_is : record t { aborted = true } ≡ u = cc in
            (
              t,
              rw here at,
              rw (← u_is) (record { worker = refl; generation = refl; marked = λ r. refl }),
            )
      ]
]

abort_slot-marks :
    (slot : Slot) (tasks : ℕ → Option Task) {u : Task}
    → abort_slot (some slot) tasks slot.handle ≡ some u
    → u.aborted ≡ true
unfolding abort_slot mark_aborted
abort_slot-marks slot tasks {u} e =
    let mine : (slot.handle == slot.handle) ≡ true = ground arith in
    elim (Option-cases (tasks slot.handle)) [
      | inl gone ↦ let e' = rw (mine, gone) at e in cc
      | inr (t, at) ↦
          let e' = rw (mine, at) at e in
          let u_is : record t { aborted = true } ≡ u = cc in rw (← u_is) refl
    ]

pub abort_all-IsSame :
    (slots : List (Option Slot)) (tasks : ℕ → Option Task) (h : ℕ) {u : Task}
    → abort_all slots tasks h ≡ some u
    → (t : Task) × (tasks h ≡ some t) × IsSame t u
unfolding abort_all
abort_all-IsSame [] tasks h {u} e =
    (u, e, record { worker = refl; generation = refl; marked = λ r. r })
abort_all-IsSame (slot ∷ slots) tasks h {u} e =
    let (m, at, later) = abort_all-IsSame slots (abort_slot slot tasks) h e in
    let (t, at', sooner) = abort_slot-IsSame slot tasks h at in
    (
      t,
      at',
      record {
        worker = later.worker ∙ sooner.worker;
        generation = later.generation ∙ sooner.generation;
        marked = λ r. later.marked (sooner.marked r);
      },
    )

pub abort_all-marks :
    (slots : List (Option Slot)) (tasks : ℕ → Option Task) (i : ℕ) (slot : Slot) {u : Task}
    → get_elem? slots i ≡ some (some slot)
    → abort_all slots tasks slot.handle ≡ some u
    → u.aborted ≡ true
unfolding abort_all
abort_all-marks [] tasks i slot at e = cc
abort_all-marks (s ∷ slots) tasks zero slot at e =
    let same : s ≡ some slot = cc in
    let (t, at', later) =
      abort_all-IsSame slots (abort_slot (some slot) tasks) slot.handle (rw same at e) in
    later.marked (abort_slot-marks slot tasks at')
abort_all-marks (s ∷ slots) tasks (suc i) slot at e =
    abort_all-marks slots (abort_slot s tasks) i slot at e

pub abort_workers-IsStaffed :
    (p : Pool) → IsStaffed p → p.generation + 1 < u64_mod → IsStaffed (abort_workers p)
unfolding abort_workers
abort_workers-IsStaffed p v word =
    let bumped : wrapping_add p.generation 1 ≡ p.generation + 1 = omega arith in
    rw bumped (record {
      known = λ h u e.
          let (t, at, same) = abort_all-IsSame p.handles p.tasks h e in
          let k = v.known h t at in
          omega (arith, k, same.worker, same.generation, length-cleared p.handles);
      running = λ h u e r.
          let (t, at, same) = abort_all-IsSame p.handles p.tasks h e in
          elim (Bool-cases t.aborted) [
            | inl over ↦ let over' = same.marked over in cc
            | inr runs ↦
                let marked =
                  abort_all-marks p.handles p.tasks t.worker (slot_for t.generation h)
                    (v.running h t at runs) e in
                cc
          ];
      late = λ h u e r.
          let (t, at, same) = abort_all-IsSame p.handles p.tasks h e in
          let k = v.known h t at in
          (
            omega (arith, k, same.generation),
            λ slot there. absurd (cleared-none p.handles u.worker there),
          );
      held = λ w slot there. absurd (cleared-none p.handles w there);
    })
