-- ===== src/Settings.antt =====
-- src/models.rs: the configuration of a task and its updates, and the ring of throughput samples.
-- A string is the list of its bytes, as in Hostmap.
pub mod Usable
pub mod Entry
pub mod Samples
pub mod Tests
use hydraria.Prelude.{
  ℕ, zero, suc, ◌+◌, ◌-◌, ◌*◌, ◌/◌, ◌≤◌, ◌<◌, min, max, Bool, true, false, not, ◌&&◌, ◌||◌, List,
  [], ◌∷◌, ◌++◌, Option, none, some, map, length, ltb, leb, ◌==◌, if◌then◌else◌, u64_mod, u64_max,
  wrapping_add,
}
use hydraria.Hostmap.{Str, Std, HostMapping, bytes_eq, validate as validate_rules}

abbrev pub max_threads_bound : ℕ
max_threads_bound = 128

abbrev pub min_split : ℕ
min_split = 64 * 1024

pub data Algorithm : Type 0 where
  token_bucket sliding_window : Algorithm

pub data ContentDispositionMode : Type 0 where
  automatic inline attachment : ContentDispositionMode

-- The type of the plugin configurations, which only their plugins read, is a parameter.
pub record TaskConfig (Plugin : Type 0) : Type 0 where
  pub volumes : List (List Str)
  pub max_threads : ℕ
  pub max_per_volume : ℕ
  pub max_split : ℕ
  pub cache : Bool
  pub headers : List (Str × Str)
  pub name : Option Str
  pub output_filename : Option Str
  pub auto_filename : Bool
  pub rate_limit_bps : ℕ
  pub rate_limit_algorithm : Algorithm
  pub persist : Bool
  pub plugins : List Plugin
  pub content_disposition : ContentDispositionMode
  pub host_mappings : List HostMapping

pub record TaskUpdate (Plugin : Type 0) : Type 0 where
  pub volumes : Option (List (List Str))
  pub max_threads : Option ℕ
  pub max_per_volume : Option ℕ
  pub max_split : Option ℕ
  pub cache : Option Bool
  pub headers : Option (List (Str × Str))
  pub name : Option (Option Str)
  pub output_filename : Option (Option Str)
  pub auto_filename : Option Bool
  pub rate_limit_bps : Option ℕ
  pub rate_limit_algorithm : Option Algorithm
  pub persist : Option Bool
  pub plugins : Option (List Plugin)
  pub content_disposition : Option ContentDispositionMode
  pub host_mappings : Option (List HostMapping)

pub record UrlHealthAcc : Type 0 where
  pub url : Str
  pub last_status : Option ℕ
  pub last_error : Option Str
  pub last_latency_ms : ℕ
  pub bytes_contributed : ℕ
  pub successful_requests : ℕ
  pub failed_requests : ℕ
  pub last_used_at : ℕ
  pub window_bytes : ℕ
  pub current_speed_bps : ℕ
  pub in_flight_requests : ℕ
  pub observed_etag : Option Str
  pub etag_mismatches : ℕ

-- `UrlHealthAcc::new`
pub new_health : Str → UrlHealthAcc
new_health url = record {
  url = url;
  last_status = none;
  last_error = none;
  last_latency_ms = 0;
  bytes_contributed = 0;
  successful_requests = 0;
  failed_requests = 0;
  last_used_at = 0;
  window_bytes = 0;
  current_speed_bps = 0;
  in_flight_requests = 0;
  observed_etag = none;
  etag_mismatches = 0;
}

-- `filter(|u| !u.trim().is_empty())`
filled_urls : Std → List Str → List Str
filled_urls std [] = []
filled_urls std (u ∷ us) =
    let rest = filled_urls std us in if length (std.trim u) == 0 then rest else u ∷ rest

pub filled_volumes : Std → List (List Str) → List (List Str)
unfolding filled_urls
filled_volumes std [] = []
filled_volumes std (v ∷ vs) =
    let rest = filled_volumes std vs in
    let urls = filled_urls std v in if length urls == 0 then rest else urls ∷ rest

listed : List Str → Str → Bool
listed [] u = false
listed (s ∷ ss) u = let rest = listed ss u in bytes_eq s u || rest

-- The URLs that are not in `seen`, in the order in which they come.
unique_from : List Str → List Str → List Str
unfolding listed
unique_from seen [] = []
unique_from seen (u ∷ us) =
    let known = unique_from seen us in
    let fresh = unique_from (u ∷ seen) us in if listed seen u then known else u ∷ fresh

flatten : List (List Str) → List Str
flatten [] = []
flatten (v ∷ vs) = v ++ flatten vs

pub flat_unique_urls : List (List Str) → List Str
unfolding unique_from flatten
flat_unique_urls volumes = unique_from [] (flatten volumes)

pub derive_threads : ℕ → ℕ → ℕ
derive_threads max_per_volume volumes =
    min (max (min (max max_per_volume 1 * max volumes 1) u64_max) 1) max_threads_bound

-- `retain(|m| !m.from.trim().is_empty() || !m.to.trim().is_empty())`
pub filled_mappings : Std → List HostMapping → List HostMapping
filled_mappings std [] = []
filled_mappings std (m ∷ ms) =
    let rest = filled_mappings std ms in
    if not (length (std.trim m.from) == 0) || not (length (std.trim m.to) == 0)
    then m ∷ rest
    else rest

-- `normalize`
pub normalize : {Plugin : Type 0} → Std → TaskConfig Plugin → TaskConfig Plugin
normalize std c =
    let volumes = filled_volumes std c.volumes in
    record c {
      volumes = volumes;
      max_threads = derive_threads c.max_per_volume (length volumes);
      host_mappings = filled_mappings std c.host_mappings;
    }

-- Why an edit or a configuration is refused.
pub data Refusal : Type 0 where
  no_url per_volume_zero split_too_small bad_mapping : Refusal

pub validate : {Plugin : Type 0} → Std → TaskConfig Plugin → Option Refusal
validate std c =
    if c.max_per_volume == 0
    then some per_volume_zero
    else if not (c.max_split == 0) && ltb c.max_split min_split
    then some split_too_small
    else if validate_rules std c.host_mappings
    then none
    else some bad_mapping
