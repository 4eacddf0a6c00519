-- ===== src/Download/Job/Sections/Marked.antt =====
-- src/download.rs, `republish_write_through`: the mark when methods overlap.
use hydraria.Prelude.{
  ℕ, ◌≤◌, ◌≡◌, ◌⊎◌, refl, true, List, [], ◌∷◌, some, ◌==◌, saturating_add, All, arith, Bool-cases,
  Option-cases, inl, inr,
}
use hydraria.Cache.Entry.{Entry}
use hydraria.Schedule.Owners.Counting.{All-get}
use hydraria.Download.{Engine}
use hydraria.Download.Job.{
  Job, new_job, insert_reader, remove_reader, lowest, frontier, read_frontier, store_mark,
  write_through_ahead,
}
use hydraria.Download.Job.Calls.{Calls}
use hydraria.Download.Job.Published.{reader_at, reads_at, lowest-le, IsPublished, Calls-IsPublished}
use hydraria.Download.Job.Sections.{
  Shared, at_rest, Section, arrives, moves, leaves, looks, marks, requests, runs, pauses, completes,
  ends, resets, counts_one, fails, works, Sections, rests, goes_on, IsForward, AllForward,
}

-- No reader is more than 32 MiB behind it.
abbrev pub IsNear : List (ℕ × ℕ) → ℕ → Type 0
IsNear readers mark =
    (head : ℕ) → reads_at readers head ≡ true → mark ≤ saturating_add head write_through_ahead

reads_at-reader_at :
    (rs : List (ℕ × ℕ)) (id : ℕ) {head : ℕ} → reader_at rs id ≡ some head → reads_at rs head ≡ true
reads_at-reader_at [] id e = cc
reads_at-reader_at ((i, h) ∷ rs) id {head} e = elim (Bool-cases (i == id)) [
  | inl here ↦ let same : h ≡ head = (let e' = rw here at e in cc) in ground arith
  | inr there ↦ let ih = reads_at-reader_at rs id (rw there at e) in ground arith
]

reads_at-insert_reader :
    (rs : List (ℕ × ℕ)) (id cursor head : ℕ)
    → reads_at (insert_reader id cursor rs) head ≡ true
    → (cursor ≡ head) ⊎ (reads_at rs head ≡ true)
unfolding insert_reader
reads_at-insert_reader [] id cursor head e = inl (ground arith)
reads_at-insert_reader ((i, h) ∷ rs) id cursor head e = elim (Bool-cases (h == head)) [
  | inl old ↦ inr (rw old refl)
  | inr away ↦ elim (Bool-cases (i == id)) [
    | inl here ↦ elim (Bool-cases (cursor == head)) [
      | inl new ↦ inl (ground arith)
      | inr other ↦ let e' = rw (here, other) at e in inr (rw (away, e') refl)
    ]
    | inr there ↦
        let e' = rw away at (rw there at e) in
        elim (reads_at-insert_reader rs id cursor head e') [
          | inl at ↦ inl at
          | inr kept ↦ inr (rw (away, kept) refl)
        ]
  ]
]

reads_at-remove_reader :
    (rs : List (ℕ × ℕ)) (id head : ℕ)
    → reads_at (remove_reader id rs) head ≡ true
    → reads_at rs head ≡ true
unfolding remove_reader
reads_at-remove_reader [] id head e = e
reads_at-remove_reader ((i, h) ∷ rs) id head e = elim (Bool-cases (h == head)) [
  | inl old ↦ rw old refl
  | inr away ↦ elim (Bool-cases (i == id)) [
    | inl here ↦ let e' = rw here at e in rw (away, e') refl
    | inr there ↦
        let e' = rw away at (rw there at e) in rw (away, reads_at-remove_reader rs id head e') refl
  ]
]

-- What a reader that goes on to `cursor` does to a mark that was near all of them.
insert_reader-IsNear :
    (rs : List (ℕ × ℕ)) (id cursor head mark : ℕ)
    → reads_at rs head ≡ true
    → head ≤ cursor
    → IsNear rs mark
    → IsNear (insert_reader id cursor rs) mark
insert_reader-IsNear rs id cursor head mark at forward v x e =
    elim (reads_at-insert_reader rs id cursor x e) [
      | inl new ↦ (let near = v head at in omega arith)
      | inr old ↦ v x old
    ]

remove_reader-IsNear :
    (rs : List (ℕ × ℕ)) (id mark : ℕ) → IsNear rs mark → IsNear (remove_reader id rs) mark
remove_reader-IsNear rs id mark v x e = v x (reads_at-remove_reader rs id x e)

frontier-IsNear : (rs : List (ℕ × ℕ)) → IsNear rs (frontier (lowest rs))
unfolding frontier
frontier-IsNear rs x e = elim (Option-cases (lowest rs)) [
  | inl nobody ↦ rw nobody (omega arith)
  | inr (low, is) ↦ let least = lowest-le rs is e in rw is (omega arith)
]

-- The mark, and each frontier that a task may still store.
AllNear : {Disk : Type 0} → Shared Disk → Type 0
AllNear y = IsNear y.job.readers y.job.write_through_below × All (IsNear y.job.readers) y.frontiers

All-map : {P Q : ℕ → Type 0} → ((n : ℕ) → P n → Q n) → (ns : List ℕ) → All P ns → All Q ns
All-map f [] v = tt
All-map f (n ∷ ns) v = (f n v.0, All-map f ns v.1)

module _ {Disk : Type 0} where
  Section-AllNear :
      {y z : Shared Disk} → AllNear y → (step : Section y z) → IsForward step → AllNear z
  unfolding AllNear IsForward store_mark read_frontier
  Section-AllNear {y} v (arrives from) (head, at, forward) =
      let near : (n : ℕ) → IsNear y.job.readers n → IsNear _ n =
        λ n. insert_reader-IsNear y.job.readers y.job.next_reader from head n at forward in
      (near _ v.0, All-map near y.frontiers v.1)
  Section-AllNear {y} v (moves id cursor) (head, at, forward) =
      let near : (n : ℕ) → IsNear y.job.readers n → IsNear _ n = λ n.
        insert_reader-IsNear y.job.readers id cursor head n (reads_at-reader_at y.job.readers id at)
          forward in
      (near _ v.0, All-map near y.frontiers v.1)
  Section-AllNear {y} v (leaves id) forward =
      let near = remove_reader-IsNear y.job.readers id in (near _ v.0, All-map near y.frontiers v.1)
  Section-AllNear {y} v looks forward = (v.0, (frontier-IsNear y.job.readers, v.1))
  Section-AllNear {y} v (marks pos mark there) forward =
      (All-get (IsNear y.job.readers) y.frontiers pos v.1 there, v.1)
  Section-AllNear v (requests requested) forward = v
  Section-AllNear v runs forward = v
  Section-AllNear v pauses forward = v
  Section-AllNear v completes forward = v
  Section-AllNear v ends forward = v
  Section-AllNear v resets forward = v
  Section-AllNear v counts_one forward = v
  Section-AllNear v (fails pos failures error there spent) forward = v
  Section-AllNear v (works s e p) forward = v

  Sections-AllNear :
      {y z : Shared Disk} → AllNear y → (run : Sections y z) → AllForward run → AllNear z
  unfolding AllForward
  Sections-AllNear v rests forward = v
  Sections-AllNear v (goes_on run step) forward =
      Section-AllNear (Sections-AllNear v run forward.0) step forward.1

  -- Let the calls on a new job follow one another, each ending before the next begins: then the
  -- write-through mark is 32 MiB ahead of some reader, of no reader is it farther ahead, and
  -- without readers it is 0. From there let calls overlap, where each change of the readers, each
  -- reading of the frontier and each storing of it is a step of its own, in any order, and a
  -- frontier that was read is stored at any later time. As long as no reader goes back, and none
  -- comes at a place before all readers that are there, the mark is at most 32 MiB ahead of each
  -- reader.
  pub Sections-IsNear :
      (now : ℕ) (entry : Entry Disk) (engine : Engine) (max_threads : ℕ) {j k : Job Disk}
      {z : Shared Disk}
      → new_job now entry engine max_threads ≡ some j
      → Calls j k
      → (run : Sections (at_rest k) z) → AllForward run
      → IsPublished k × IsNear z.job.readers z.job.write_through_below
  unfolding AllNear
  Sections-IsNear now entry engine max_threads e calls run forward =
      let published = Calls-IsPublished now entry engine max_threads e calls in
      (published, (Sections-AllNear (published.covers, tt) run forward).0)
