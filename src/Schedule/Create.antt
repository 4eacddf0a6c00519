-- ===== src/Schedule/Create.antt =====
-- src/schedule.rs, `Scheduler::new`.
pub mod Initial
use hydraria.Prelude.{
  ℕ, ◌+◌, ◌-◌, ◌*◌, ◌/◌, ◌<◌, min, max, Bool, true, false, ◌&&◌, ◌||◌, not, List, [], ◌∷◌, Option,
  none, some, ltb, leb, if◌then◌else◌, saturating_add, u64_max, u64_mod,
}
use hydraria.Schedule.Ranges.{Ranges, subtract}
use hydraria.Schedule.State.{Scheduler, Strategy, VolumeMeta, mib}

-- `split_cap.filter(|c| *c > 0)`
filter_positive : Option ℕ → Option ℕ
filter_positive none = none
filter_positive (some c) = if ltb 0 c then some c else none

-- The loop over `already_staged`.
unfoldable pub subtract_all : Ranges → List (ℕ × ℕ) → Ranges
subtract_all unclaimed [] = unclaimed
subtract_all unclaimed ((s, e) ∷ staged) = subtract_all (subtract unclaimed s e) staged

unfoldable pub new :
    ℕ → ℕ → Strategy → Option (List VolumeMeta) → ℕ → ℕ → Option ℕ → List (ℕ × ℕ) → Scheduler
unfolding filter_positive
new req_start req_end strategy volumes max_threads max_per_volume split_cap already_staged =
    record {
      unclaimed =
          subtract_all (if leb req_start req_end then (req_start, req_end) ∷ [] else [])
            already_staged;
      live = [];
      strategy = strategy;
      volumes = volumes;
      max_threads = max max_threads 1;
      max_per_volume = max max_per_volume 1;
      split_cap = filter_positive split_cap;
      req_start = req_start;
      req_end = req_end;
      read_head = req_start;
      buffered = 0;
      work_limit = none;
      auto_limit = none;
      auto_wall = u64_max;
      dup_budget = min (saturating_add (req_end - req_start) 1 / 200) (32 * mib);
      overload_strikes = 0;
      overload_hint = none;
      wall_memory = none;
    }

-- Byte `x` lies in one of the ranges.
abbrev pub staged_at : List (ℕ × ℕ) → ℕ → Bool
staged_at [] x = false
staged_at ((s, e) ∷ staged) x = leb s x && leb x e || staged_at staged x

-- Every range ends within 64 bits.
abbrev pub AllWords : List (ℕ × ℕ) → Type 0
AllWords [] = Unit {0}
AllWords ((s, e) ∷ staged) = (e < u64_mod) × AllWords staged
