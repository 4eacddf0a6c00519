-- ===== src/Fetch/Target.antt =====
-- src/engine.rs: `volume_at`, `fetch_attempts`, `mirror_weight`, `pick_mirror_weighted` and
-- `resolve_target`.
pub mod Inside
pub mod Starts
use Prim.Native.String.{String}
use text.Mathlib.Text.{◌==◌ as str_eq}
use hydraria.Prelude.{
  ℕ, zero, suc, ◌+◌, ◌-◌, ◌*◌, ◌/◌, ◌%◌, ◌≤◌, ◌<◌, min, max, ◌≡◌, refl, Bool, true, false, ◌&&◌,
  ◌||◌, not, List, [], ◌∷◌, map, Option, none, some, length, get_elem?, ltb, leb, ◌==◌,
  if◌then◌else◌, wrapping_add, wrapping_sub, wrapping_mul,
}
use hydraria.Schedule.State.{VolumeMeta}

-- What `UrlHealthAcc` says of a mirror.
pub record Health : Type 0 where
  pub url : String
  pub current_speed_bps : ℕ
  pub failed_requests : ℕ
  pub successful_requests : ℕ

pub mirror_weight : ℕ → ℕ → ℕ → ℕ
mirror_weight current_speed_bps failed succeeded =
    let speed_kib = max (current_speed_bps / 1024) 1 in
    let raw = wrapping_add speed_kib (min succeeded 10) in
    let denom = wrapping_add 1 (wrapping_mul 4 failed) in
    if current_speed_bps == 0 && failed == 0 && succeeded == 0 then 100 else max (raw / denom) 1

weight_of : List Health → String → ℕ
weight_of [] url = 100
weight_of (h ∷ hs) url =
    let later = weight_of hs url in
    if str_eq h.url url
    then mirror_weight h.current_speed_bps h.failed_requests h.successful_requests
    else later

-- The sum of a `Vec<u64>`.
sum : List ℕ → ℕ
sum [] = 0
sum (w ∷ ws) = wrapping_add w (sum ws)

-- The walk over the weights from index `i`; `last` is the answer behind them.
walk : List ℕ → ℕ → ℕ → ℕ → ℕ
walk [] pick i last = last
walk (w ∷ ws) pick i last =
    let later = walk ws (pick - w) (i + 1) last in if ltb pick w then i else later

pub pick_mirror_weighted : List Health → List String → ℕ → ℕ
unfolding weight_of sum walk
pick_mirror_weighted health mirrors idx =
    let weights = map (weight_of health) mirrors in
    if sum weights == 0
    then idx % length mirrors
    else walk weights (idx % sum weights) 0 (length mirrors - 1)

unfoldable pub volume_at : List VolumeMeta → ℕ → Option VolumeMeta
volume_at [] merged_offset = none
volume_at (v ∷ vs) merged_offset =
    let later = volume_at vs merged_offset in
    if leb v.offset merged_offset && ltb merged_offset (wrapping_add v.offset v.size)
    then some v
    else later

pub record FetchTarget : Type 0 where
  pub url : String
  pub local_start : ℕ
  pub local_end : ℕ
  pub merged_start : ℕ

-- `Err(NoUpstream)`, `Ok(None)` and `Ok(Some(target))`
pub data Resolved : Type 0 where
  no_upstream : Resolved
  empty : Resolved
  found : FetchTarget → Resolved

-- With the URL at an index.
with_url : Option String → ℕ → ℕ → ℕ → Resolved
with_url none local_start local_end merged_start = no_upstream
with_url (some url) local_start local_end merged_start = found (record {
  url = url;
  local_start = local_start;
  local_end = local_end;
  merged_start = merged_start;
})

pub mirror_index : List Health → List String → ℕ → ℕ → ℕ
mirror_index health urls idx attempt =
    if attempt == 0 && ltb 1 (length urls)
    then pick_mirror_weighted health urls idx
    else wrapping_add idx attempt % length urls

in_volume : List Health → ℕ → ℕ → Option VolumeMeta → ℕ → ℕ → Resolved
unfolding with_url
in_volume health idx attempt none span_start span_end = no_upstream
in_volume health idx attempt (some v) span_start span_end =
    let clipped_start = max span_start v.offset in
    let clipped_end = min span_end (wrapping_sub (wrapping_add v.offset v.size) 1) in
    if ltb clipped_end clipped_start
    then empty
    else if length v.urls == 0
    then no_upstream
    else with_url (get_elem? v.urls (mirror_index health v.urls idx attempt))
        (clipped_start - v.offset) (clipped_end - v.offset) clipped_start

-- `pick_url_for`, for a task that has not been probed
from_config : List String → ℕ → ℕ → ℕ → Resolved
from_config urls idx span_start span_end =
    if length urls == 0
    then no_upstream
    else with_url (get_elem? urls (idx % length urls)) span_start span_end span_start

pub resolve_target :
    List Health → List String → Option (List VolumeMeta) → ℕ → ℕ → ℕ → ℕ → ℕ → Resolved
unfolding in_volume from_config
resolve_target health urls none idx attempt locator span_start span_end =
    from_config urls (wrapping_add idx attempt) span_start span_end
resolve_target health urls (some vols) idx attempt locator span_start span_end =
    in_volume health idx attempt (volume_at vols locator) span_start span_end

attempts_for : Option VolumeMeta → List String → ℕ
attempts_for none urls = length urls
attempts_for (some v) urls = length v.urls

volume_in : Option (List VolumeMeta) → ℕ → Option VolumeMeta
volume_in none locator = none
volume_in (some vols) locator = volume_at vols locator

pub fetch_attempts : Option (List VolumeMeta) → List String → ℕ → ℕ
unfolding attempts_for volume_in
fetch_attempts volumes urls locator =
    max (max (attempts_for (volume_in volumes locator) urls) 1 * 2) 4
