-- ===== src/Download/Job/Published.antt =====
-- src/download.rs, `republish_write_through`: what is written at once.
use hydraria.Prelude.{
  ℕ, ◌≤◌, min, ◌≡◌, refl, ◌∙◌, Bool, true, false, ◌||◌, List, [], ◌∷◌, Option, none, some, ◌==◌,
  if◌then◌else◌, saturating_add, wrapping_add, arith, Option-cases, Bool-cases, inl, inr,
}
use hydraria.Download.Job.{
  Job, minimum, lowest, frontier, read_frontier, store_mark, republish_write_through,
  write_through_ahead, is_nil, new_job, start_cache, pause_cache, stop, sweep_stalled, stream,
  reader_waits, reader_moves, reader_leaves, retune, ensure_workers, refocused, rebuild_scheduler,
  insert_reader, remove_reader,
}
use hydraria.Download.{Engine}
use hydraria.Download.Job.Outcome.Kept.{
  KeepsReaders, claim_ends-KeepsReaders, worker_ends-KeepsReaders,
}
use hydraria.Download.Job.Calls.{
  Call, starts, pauses, stops, sweeps, streams, waits, moves, leaves, settles, retires, works,
  Calls, fresh, and_then,
}
use hydraria.Cache.Entry.{Entry}

-- `readers.get(&id)`
abbrev pub reader_at : List (ℕ × ℕ) → ℕ → Option ℕ
reader_at [] id = none
reader_at ((i, h) ∷ rs) id = if i == id then some h else reader_at rs id

-- Some reader is at `head`.
abbrev pub reads_at : List (ℕ × ℕ) → ℕ → Bool
reads_at [] head = false
reads_at ((i, h) ∷ rs) head = h == head || reads_at rs head

-- The mark is 32 MiB ahead of some reader, and of no reader is it farther ahead. Without readers it
-- is 0.
pub record IsPublished {Disk : Type 0} (j : Job Disk) : Type 0 where
  pub idle : is_nil j.readers ≡ true → j.write_through_below ≡ 0
  pub covers :
      (head : ℕ)
      → reads_at j.readers head ≡ true
      → j.write_through_below ≤ saturating_add head write_through_ahead
  pub attained :
      is_nil j.readers ≡ false
      → (head : ℕ) × (reads_at j.readers head ≡ true)
        × (j.write_through_below ≡ saturating_add head write_through_ahead)

minimum-le : (h : ℕ) (o : Option ℕ) {low : ℕ} → minimum h o ≡ some low → low ≤ h
unfolding minimum
minimum-le h none e = ground arith
minimum-le h (some k) e = ground arith

minimum-some : (h : ℕ) (o : Option ℕ) → minimum h o ≡ none → ⊥
unfolding minimum
minimum-some h none e = cc
minimum-some h (some k) e = cc

lowest-none : (rs : List (ℕ × ℕ)) → lowest rs ≡ none → rs ≡ []
unfolding lowest
lowest-none [] e = refl
lowest-none ((i, h) ∷ rs) e = absurd (minimum-some h (lowest rs) e)

pub lowest-le :
    (rs : List (ℕ × ℕ)) {low head : ℕ} → lowest rs ≡ some low → reads_at rs head ≡ true → low ≤ head
unfolding lowest minimum
lowest-le [] e at = cc
lowest-le ((i, h) ∷ rs) {low} {head} e at = elim (Bool-cases (h == head)) [
  | inl here ↦ (let least = minimum-le h (lowest rs) e in ground arith)
  | inr there ↦ elim (Option-cases (lowest rs)) [
    | inl nobody ↦ let at' = rw (lowest-none rs nobody) at (rw there at at) in cc
    | inr (k, l) ↦ let e' = rw l at e in let ih = lowest-le rs l (rw there at at) in ground arith
  ]
]

lowest-reads_at : (rs : List (ℕ × ℕ)) {low : ℕ} → lowest rs ≡ some low → reads_at rs low ≡ true
unfolding lowest minimum
lowest-reads_at [] e = cc
lowest-reads_at ((i, h) ∷ rs) {low} e = elim (Option-cases (lowest rs)) [
  | inl nobody ↦ let e' = rw nobody at e in ground arith
  | inr (k, l) ↦
      let e' = rw l at e in
      let ih = lowest-reads_at rs l in
      let low_is : min h k ≡ low = cc in
      elim (Bool-cases (h == low)) [
        | inl here ↦ rw here refl
        | inr there ↦ let same : k ≡ low = ground arith in rw there (rw same at ih)
      ]
]

nil-lowest : (rs : List (ℕ × ℕ)) → is_nil rs ≡ true → lowest rs ≡ none
unfolding lowest
nil-lowest [] e = refl
nil-lowest (r ∷ rs) e = cc

module _ {Disk : Type 0} where
  republish-IsPublished : (j : Job Disk) → IsPublished (republish_write_through j)
  unfolding republish_write_through read_frontier store_mark frontier
  republish-IsPublished j = elim (Option-cases (lowest j.readers)) [
    | inl nobody ↦
        let empty = lowest-none j.readers nobody in
        simp nobody (record {
          idle = λ e. refl;
          covers = λ head at. omega arith;
          attained = λ e. let e' = rw empty at e in cc;
        })
    | inr (low, e) ↦ simp e (record {
      idle = λ none_there. let e' = nil-lowest j.readers none_there in cc;
      covers = λ head at. let below = lowest-le j.readers e at in omega arith;
      attained = λ some_there. (low, lowest-reads_at j.readers e, refl);
    })
  ]

  same-IsPublished :
      {j k : Job Disk}
      → k.readers ≡ j.readers
      → k.write_through_below ≡ j.write_through_below
      → IsPublished j
      → IsPublished k
  same-IsPublished {j} {k} r w v = record {
    idle = λ e. w ∙ v.idle (rw r at e);
    covers = λ head at. rw w (v.covers head (rw r at at));
    attained = λ e. let (head, at, is) = v.attained (rw r at e) in (head, rw r at, w ∙ is);
  }

  leaves-IsPublished : (j : Job Disk) (id : ℕ) → IsPublished (reader_leaves j id)
  unfolding reader_leaves retune ensure_workers republish_write_through store_mark
  leaves-IsPublished j id =
      let gone : Job Disk = record j { readers = remove_reader id j.readers } in
      same-IsPublished {j = republish_write_through gone} (ground arith) (ground arith)
        (republish-IsPublished gone)

  kept-IsPublished : {j k : Job Disk} → KeepsReaders j k → IsPublished j → IsPublished k
  kept-IsPublished same = same-IsPublished same.readers same.below

  Call-IsPublished : {j k : Job Disk} → IsPublished j → Call j k → IsPublished k
  unfolding start_cache pause_cache stop sweep_stalled stream reader_waits reader_moves retune
      ensure_workers refocused rebuild_scheduler
  Call-IsPublished v starts = same-IsPublished (ground arith) (ground arith) v
  Call-IsPublished v (pauses now) = same-IsPublished (ground arith) (ground arith) v
  Call-IsPublished v stops = same-IsPublished refl refl v
  Call-IsPublished v (sweeps now) = same-IsPublished (ground arith) (ground arith) v
  Call-IsPublished {j} v (streams from) = same-IsPublished refl refl (
      republish-IsPublished (record j {
        next_reader = wrapping_add j.next_reader 1;
        readers = insert_reader j.next_reader from j.readers;
      }))
  Call-IsPublished v waits = same-IsPublished refl refl v
  Call-IsPublished {j} v (moves id cursor ahead) =
      same-IsPublished refl refl
        (republish-IsPublished (record j { readers = insert_reader id cursor j.readers }))
  Call-IsPublished {j} v (leaves id) = leaves-IsPublished j id
  Call-IsPublished {j} v (settles now worker claim cursor retry_after result word) =
      kept-IsPublished (claim_ends-KeepsReaders j now worker claim cursor retry_after result) v
  Call-IsPublished {j} v (retires worker generation superseded) =
      kept-IsPublished (worker_ends-KeepsReaders j worker generation superseded) v
  Call-IsPublished v (works s e) = same-IsPublished refl refl v

  new_job-IsPublished :
      (now : ℕ) (entry : Entry Disk) (engine : Engine) (max_threads : ℕ) {j : Job Disk}
      → new_job now entry engine max_threads ≡ some j
      → IsPublished j
  unfolding new_job
  new_job-IsPublished now entry engine max_threads {j} e =
      elim (Bool-cases (entry.meta.total_size == 0)) [
        | inl nothing ↦ let e' = rw nothing at e in cc
        | inr something ↦
            let e' = rw something at e in
            let readers : j.readers ≡ [] = ground arith in
            let below : j.write_through_below ≡ 0 = ground arith in
            record {
              idle = λ h. below;
              covers = λ head at. let at' = rw readers at at in cc;
              attained = λ h. let h' = rw readers at h in cc;
            }
      ]

  -- Calls that do not overlap, on a new job.
  pub Calls-IsPublished :
      (now : ℕ) (entry : Entry Disk) (engine : Engine) (max_threads : ℕ) {j k : Job Disk}
      → new_job now entry engine max_threads ≡ some j
      → Calls j k
      → IsPublished k
  Calls-IsPublished now entry engine max_threads e fresh =
      new_job-IsPublished now entry engine max_threads e
  Calls-IsPublished now entry engine max_threads e (and_then calls call) =
      Call-IsPublished (Calls-IsPublished now entry engine max_threads e calls) call
