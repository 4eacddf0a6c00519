-- ===== src/Download/Run/Built.antt =====
-- src/download.rs, `build_scheduler`: nothing is lost when a job is built from what is on disk.
use hydraria.Prelude.{
  ℕ, ◌+◌, ◌-◌, ◌<◌, max, ◌≡◌, refl, ◌∙◌, not, ◌&&◌, Option, none, some, arith, Bool-cases, inl, inr,
  u64_mod, wrapping_sub,
}
use hydraria.Cache.Entry.{Entry, IsValid}
use hydraria.Cache.Entry.Staged.{staged_ranges, Lists, staged_ranges-Lists}
use hydraria.Schedule.Ranges.{between}
use hydraria.Schedule.State.{Scheduler, Strategy}
use hydraria.Schedule.Create.{new, staged_at}
use hydraria.Schedule.Create.Initial.{new-IsSound, owners-new, volumes-new}
use hydraria.Schedule.Adapt.{Wall}
use hydraria.Schedule.Adapt.Tuning.{IsSameWork, with_claim_wall-IsSameWork}
use hydraria.Schedule.Owners.{one_if, owners, IsSound}
use hydraria.Download.{Engine, build_scheduler, filter_split, with_wall}
use hydraria.Download.Run.Invariant.{IsAnswered, SameWork-Keeps, Keeps-IsAnswered}

-- A scheduler that is built from what is on disk.
module _ {Disk : Type 0} (now threads : ℕ) (strategy : Strategy) (e : Entry Disk) (engine : Engine)
    (v : IsValid e) (some_bytes : 0 < e.meta.total_size) where
  abbrev end : ℕ
  end = e.meta.total_size - 1

  last_byte : wrapping_sub e.meta.total_size 1 ≡ end
  last_byte = omega (arith, v.geometry.fits)

  word : end + 1 < u64_mod
  word = omega (arith, v.geometry.fits, v.geometry.positive)

  abbrev plain : Scheduler
  plain =
      new 0 end strategy engine.volumes threads (max engine.max_per_volume 1)
        (filter_split engine.max_split) (staged_ranges e 0 end)

  with_wall-IsSameWork : (s : Scheduler) (wall : Option Wall) → IsSameWork s (with_wall now s wall)
  unfolding with_wall
  with_wall-IsSameWork s none = ground arith
  with_wall-IsSameWork s (some wall) = with_claim_wall-IsSameWork now s wall

  staged : Lists e 0 end (staged_ranges e 0 end)
  staged = staged_ranges-Lists e 0 end v (omega arith)

  plain-IsSound : IsSound plain
  plain-IsSound =
      new-IsSound 0 end strategy engine.volumes threads (max engine.max_per_volume 1)
        (filter_split engine.max_split) (staged_ranges e 0 end) word staged.words

  owners-plain :
      (x : ℕ)
      → owners plain x ≡ one_if (between 0 end x && not (staged_at (staged_ranges e 0 end) x))
  owners-plain x =
      owners-new 0 end strategy engine.volumes threads (max engine.max_per_volume 1)
        (filter_split engine.max_split) (staged_ranges e 0 end) x word staged.words

  plain-IsAnswered : IsAnswered engine e.meta.total_size (record { scheduler = plain; entry = e })
  plain-IsAnswered = record {
    valid = v;
    size = refl;
    sound = plain-IsSound;
    volumes =
        volumes-new 0 end strategy engine.volumes threads (max engine.max_per_volume 1)
          (filter_split engine.max_split) (staged_ranges e 0 end);
    exclusive = λ x. rw (owners-plain x) (ground arith);
    answered = λ x h. elim (Bool-cases (staged_at (staged_ranges e 0 end) x)) [
      | inl on_disk ↦ inl (staged.sound x on_disk).2
      | inr missing ↦ inr (owners-plain x ∙ rw missing (ground arith))
    ];
  }

  pub built-IsAnswered : IsAnswered engine e.meta.total_size (record {
    scheduler = build_scheduler now e engine e.meta.total_size threads strategy;
    entry = e;
  })
  unfolding build_scheduler
  built-IsAnswered = rw last_byte (
      Keeps-IsAnswered plain-IsAnswered
        (SameWork-Keeps plain-IsSound (with_wall-IsSameWork plain engine.claim_wall)))
