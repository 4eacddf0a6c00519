-- ===== src/Schedule/State.antt =====
-- src/schedule.rs: the scheduler's state, and the claims that it has handed out. The atomics of a
-- claim are shared between the worker's `Claim` and the scheduler's `Live`; here the one copy
-- stands in the `Live`, which `live` holds as long as the worker may act on it. Instants and
-- durations are numbers of nanoseconds.
pub mod Layout
use Prim.Native.String.{String}
use hydraria.Prelude.{
  ℕ, ◌+◌, ◌*◌, ◌≤◌, max, ◌≡◌, Bool, true, false, ◌&&◌, not, List, [], ◌∷◌, Option, none, some, ltb,
  leb, ◌==◌, if◌then◌else◌, wrapping_add, wrapping_sub, unwrap_or, is_none,
}
use hydraria.Schedule.Ranges.{Ranges}

abbrev pub mib : ℕ
mib = 1024 * 1024

abbrev pub min_claim : ℕ
min_claim = mib

abbrev pub min_fragment : ℕ
min_fragment = 8 * mib

abbrev pub endgame_floor : ℕ
endgame_floor = 64 * mib

pub data Strategy : Type 0 where
  throughput : Strategy
  latency : (critical_window head_claim : ℕ) → Strategy

pub record VolumeMeta : Type 0 where
  pub urls : List String
  pub offset : ℕ
  pub size : ℕ

-- `Live`, with the end, the cursor and the reserved watermark of the claim.
pub record Live : Type 0 where
  pub worker : ℕ
  pub volume : ℕ
  pub start : ℕ
  pub end : ℕ
  pub cursor : ℕ
  pub reserved : ℕ
  pub started : ℕ
  pub last_cursor : ℕ
  pub last_progress : ℕ
  pub hedge_of : Option ℕ

-- The worker's handle: what it was asked to fetch, and for which volume.
pub record Claim : Type 0 where
  pub start : ℕ
  pub volume : ℕ
  pub issued : ℕ
  pub end : ℕ

pub record Scheduler : Type 0 where
  pub unclaimed : Ranges
  pub live : List Live
  pub strategy : Strategy
  pub volumes : Option (List VolumeMeta)
  pub max_threads : ℕ
  pub max_per_volume : ℕ
  pub split_cap : Option ℕ
  pub req_start : ℕ
  pub req_end : ℕ
  pub read_head : ℕ
  pub buffered : ℕ
  pub work_limit : Option ℕ
  pub auto_limit : Option ℕ
  pub auto_wall : ℕ
  pub dup_budget : ℕ
  pub overload_strikes : ℕ
  pub overload_hint : Option ℕ
  -- the shared `ClaimWall`, by what it remembers: a length, and when it was recorded
  pub wall_memory : Option (Option (ℕ × ℕ))

-- `Live::remaining` (and `Claim::remaining`)
unfoldable pub remaining : Live → ℕ
remaining l = if ltb l.end l.cursor then 0 else wrapping_add (wrapping_sub l.end l.cursor) 1

-- `Claim::reserve` and `Claim::advance_to`
unfoldable pub reserve : Live → ℕ → Live
reserve l next = record l { reserved = max l.reserved next }

unfoldable pub advance_to : Live → ℕ → Live
advance_to l next = record l { reserved = max l.reserved next; cursor = next }

abbrev pub is_primary : Live → Bool
is_primary l = is_none l.hedge_of

-- The volume that holds `offset`: its index and its last byte.
holds : VolumeMeta → ℕ → Bool
holds v offset =
    not (v.size == 0) && leb v.offset offset && ltb offset (wrapping_add v.offset v.size)

volume_from : ℕ → List VolumeMeta → ℕ → Option ℕ
volume_from i [] offset = none
volume_from i (v ∷ vs) offset = if holds v offset then some i else volume_from (i + 1) vs offset

end_from : List VolumeMeta → ℕ → Option ℕ
end_from [] offset = none
end_from (v ∷ vs) offset =
    if holds v offset
    then some (wrapping_sub (wrapping_add v.offset v.size) 1)
    else end_from vs offset

unfoldable pub volume_of : Option (List VolumeMeta) → ℕ → ℕ
unfolding volume_from holds
volume_of none offset = 0
volume_of (some vols) offset = unwrap_or (volume_from 0 vols offset) 0

unfoldable pub volume_end : Option (List VolumeMeta) → ℕ → Option ℕ
unfolding end_from holds
volume_end none offset = none
volume_end (some vols) offset = end_from vols offset

-- What the code relies on: a byte of a volume has the same end as the others of it behind, and
-- behind a byte in no volume there is none.
pub record IsLayout (volumes : Option (List VolumeMeta)) : Type 0 where
  pub same_end :
      (x y : ℕ) {last : ℕ}
      → volume_end volumes x ≡ some last
      → x ≤ y
      → y ≤ last
      → volume_end volumes y ≡ some last
  pub none_behind : (x y : ℕ) → volume_end volumes x ≡ none → x ≤ y → volume_end volumes y ≡ none
