-- ===== src/Download/Run/Invariant.antt =====
-- What no step breaks: each byte of the file is on disk, or somebody answers for it.
use hydraria.Prelude.{ℕ, ◌<◌, ◌≡◌, ◌⊎◌, refl, ◌∙◌, true, arith, inl, inr}
use hydraria.Cache.Entry.{present, IsValid}
use hydraria.Schedule.State.{Scheduler}
use hydraria.Schedule.Adapt.Tuning.{IsSameWork}
use hydraria.Schedule.Owners.{owners, IsSound, IsExclusive}
use hydraria.Schedule.Owners.Taking.{Keeps}
use hydraria.Download.{Engine}
use hydraria.Download.Run.{System}

-- Each byte of a file of `total` bytes is on disk or has an owner, and none has two.
pub record IsAnswered {Disk : Type 0} (engine : Engine) (total : ℕ) (y : System Disk) : Type 0 where
  pub valid : IsValid y.entry
  pub size : y.entry.meta.total_size ≡ total
  pub sound : IsSound y.scheduler
  pub volumes : y.scheduler.volumes ≡ engine.volumes
  pub exclusive : IsExclusive y.scheduler
  pub answered : (x : ℕ) → x < total → (present y.entry x ≡ true) ⊎ (owners y.scheduler x ≡ 1)

pub SameWork-Keeps : {s t : Scheduler} → IsSound s → IsSameWork s t → Keeps s t
SameWork-Keeps v same = record {
  owned = λ x. rw (same.unclaimed, same.live) refl;
  sound = record {
    word = rw same.req_end v.word;
    sorted = rw (same.req_end, same.unclaimed) v.sorted;
    placed = rw (same.req_end, same.live, same.volumes) v.placed;
  };
  volumes = same.volumes;
}

-- The scheduler changes, and each byte keeps its owners.
pub Keeps-IsAnswered :
    {Disk : Type 0} {engine : Engine} {total : ℕ} {y : System Disk} {t : Scheduler}
    → IsAnswered engine total y
    → Keeps y.scheduler t
    → IsAnswered engine total (record y { scheduler = t })
Keeps-IsAnswered a k = record {
  valid = a.valid;
  size = a.size;
  sound = k.sound;
  volumes = k.volumes ∙ a.volumes;
  exclusive = λ x. omega (arith, k.owned x, a.exclusive x);
  answered =
      λ x h. elim (a.answered x h) [ inl there ↦ inl there | inr owned ↦ inr (k.owned x ∙ owned) ];
}

pub resized :
    {Disk : Type 0} {engine : Engine} {n m : ℕ} {y : System Disk}
    → n ≡ m
    → IsAnswered engine n y
    → IsAnswered engine m y
resized e a = rw e at a
