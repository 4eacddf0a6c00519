-- ===== src/Settings/Entry.antt =====
-- src/models.rs: `TaskEntry` and `apply_update`; src/ratelimit.rs: `set_rate` and `set_algorithm`.
pub mod Accepting
pub mod Refusing
use hydraria.Prelude.{
  ℕ, zero, suc, Bool, true, false, not, ◌&&◌, ◌||◌, List, [], ◌∷◌, Option, none, some, length, ltb,
  ◌==◌, if◌then◌else◌,
}
use hydraria.Ratelimit.{SwState, empty_window}
use hydraria.Schedule.Adapt.{Wall}
use hydraria.Hostmap.{Str, Std, HostMapping, bytes_eq, validate as validate_rules}
use hydraria.Settings.{
  Algorithm, token_bucket, sliding_window, ContentDispositionMode, TaskConfig, TaskUpdate,
  UrlHealthAcc, new_health, flat_unique_urls, filled_mappings, derive_threads, normalize, min_split,
  Refusal, no_url, per_volume_zero, split_too_small, bad_mapping,
}

-- The sliding window of a limiter; its token bucket is left out.
pub record Limiter : Type 0 where
  pub rate_bps : ℕ
  pub algorithm : Algorithm
  pub sw : SwState

pub set_rate : Limiter → ℕ → Limiter
set_rate limiter rate_bps = record {
  rate_bps = rate_bps;
  algorithm = limiter.algorithm;
  sw = empty_window;
}

same_algorithm : Algorithm → Algorithm → Bool
same_algorithm token_bucket token_bucket = true
same_algorithm sliding_window sliding_window = true
same_algorithm token_bucket sliding_window = false
same_algorithm sliding_window token_bucket = false

pub set_algorithm : Limiter → Algorithm → Limiter
unfolding same_algorithm
set_algorithm limiter algorithm =
    let next = record limiter { algorithm = algorithm } in
    if same_algorithm limiter.algorithm algorithm then next else record next { sw = empty_window }

-- What an update reaches. A probe's result is a parameter.
pub record TaskEntry (Plugin Probe : Type 0) : Type 0 where
  pub config : TaskConfig Plugin
  pub updated_at : ℕ
  pub url_health : List UrlHealthAcc
  pub limiter : Limiter
  pub probe_cache : Option Probe
  pub head_unsupported : List Str
  pub claim_wall : Wall

-- `prev.remove(&u)`: what it finds, the last of that name, and what stays.
find_health : List UrlHealthAcc → Str → UrlHealthAcc → UrlHealthAcc
find_health [] u fallback = fallback
find_health (h ∷ hs) u fallback = find_health hs u (if bytes_eq h.url u then h else fallback)

without_health : List UrlHealthAcc → Str → List UrlHealthAcc
without_health [] u = []
without_health (h ∷ hs) u =
    let rest = without_health hs u in if bytes_eq h.url u then rest else h ∷ rest

pub carry_health : List UrlHealthAcc → List Str → List UrlHealthAcc
unfolding find_health without_health
carry_health prev [] = []
carry_health prev (u ∷ us) =
    find_health prev u (new_health u) ∷ carry_health (without_health prev u) us

or_same : {A : Type 0} → Option A → A → A
or_same none a = a
or_same (some b) a = b

-- `n.map(|s| s.trim().to_string()).filter(|s| !s.is_empty())`
trimmed : Std → Option Str → Option Str
trimmed std none = none
trimmed std (some s) = if length (std.trim s) == 0 then none else some (std.trim s)

or_trimmed : Std → Option (Option Str) → Option Str → Option Str
unfolding trimmed
or_trimmed std none old = old
or_trimmed std (some s) old = trimmed std s

-- The task, and why the edit is refused if it is.
abbrev pub Edited : Type 0 → Type 0 → Type 0
Edited Plugin Probe = TaskEntry Plugin Probe × Option Refusal

module _ {Plugin Probe : Type 0} (std : Std) where
  -- `?` or an early `return Err`
  pub on_ok :
      Edited Plugin Probe → (TaskEntry Plugin Probe → Edited Plugin Probe) → Edited Plugin Probe
  on_ok (t, none) next = next t
  on_ok (t, some e) next = (t, some e)

  -- The new list of volumes is in place.
  with_volumes : TaskEntry Plugin Probe → TaskConfig Plugin → Edited Plugin Probe
  with_volumes t c = if length c.volumes == 0 then (record t { config = c }, some no_url) else (
    record t {
      config = c;
      url_health = carry_health t.url_health (flat_unique_urls c.volumes);
      probe_cache = none;
      head_unsupported = [];
      claim_wall = none;
    },
    none,
  )

  pub set_volumes : Option (List (List Str)) → TaskEntry Plugin Probe → Edited Plugin Probe
  unfolding with_volumes
  set_volumes none t = (t, none)
  set_volumes (some volumes) t =
      with_volumes t (normalize std (record t.config { volumes = volumes }))

  pub set_per_volume : Option ℕ → TaskEntry Plugin Probe → Edited Plugin Probe
  set_per_volume none t = (t, none)
  set_per_volume (some p) t =
      if p == 0
      then (t, some per_volume_zero)
      else (record t { config = record t.config { max_per_volume = p } }, none)

  pub rederive : TaskEntry Plugin Probe → TaskEntry Plugin Probe
  rederive t = record t {
    config = record t.config {
      max_threads = derive_threads t.config.max_per_volume (length t.config.volumes);
    };
  }

  pub set_split : Option ℕ → TaskEntry Plugin Probe → Edited Plugin Probe
  set_split none t = (t, none)
  set_split (some s) t =
      if not (s == 0) && ltb s min_split
      then (t, some split_too_small)
      else (record t { config = record t.config { max_split = s } }, none)

  set_headers : Option (List (Str × Str)) → TaskEntry Plugin Probe → TaskEntry Plugin Probe
  set_headers none t = t
  set_headers (some h) t = record t { config = record t.config { headers = h }; probe_cache = none }

  set_limit : Option ℕ → Option Algorithm → TaskEntry Plugin Probe → TaskEntry Plugin Probe
  set_limit none none t = t
  set_limit (some r) none t = record t {
    config = record t.config { rate_limit_bps = r };
    limiter = set_rate t.limiter r;
  }
  set_limit none (some a) t = record t {
    config = record t.config { rate_limit_algorithm = a };
    limiter = set_algorithm t.limiter a;
  }
  set_limit (some r) (some a) t = record t {
    config = record t.config { rate_limit_bps = r; rate_limit_algorithm = a };
    limiter = set_algorithm (set_rate t.limiter r) a;
  }

  -- The settings that are never refused.
  pub set_others : TaskUpdate Plugin → TaskEntry Plugin Probe → TaskEntry Plugin Probe
  unfolding set_headers set_limit or_same or_trimmed
  set_others upd t =
      let t =
        set_headers upd.headers
          (record t { config = record t.config { cache = or_same upd.cache t.config.cache } }) in
      let t = record t {
        config = record t.config {
          name = or_trimmed std upd.name t.config.name;
          output_filename = or_trimmed std upd.output_filename t.config.output_filename;
          auto_filename = or_same upd.auto_filename t.config.auto_filename;
        };
      } in
      let t = set_limit upd.rate_limit_bps upd.rate_limit_algorithm t in
      record t {
        config = record t.config {
          persist = or_same upd.persist t.config.persist;
          plugins = or_same upd.plugins t.config.plugins;
          content_disposition = or_same upd.content_disposition t.config.content_disposition;
        };
      }

  pub set_mappings : Option (List HostMapping) → TaskEntry Plugin Probe → Edited Plugin Probe
  set_mappings none t = (t, none)
  set_mappings (some maps) t =
      let maps = filled_mappings std maps in
      if validate_rules std maps
      then (
        record t { config = record t.config { host_mappings = maps }; probe_cache = none },
        none,
      )
      else (t, some bad_mapping)

  -- Only an accepted edit is dated.
  touch : ℕ → TaskEntry Plugin Probe → Edited Plugin Probe
  touch now t = (record t { updated_at = now }, none)

  -- The rest of `apply_update` from the settings on, from the split on, and from the threads on.
  from_others : ℕ → TaskUpdate Plugin → TaskEntry Plugin Probe → Edited Plugin Probe
  from_others now upd t = on_ok (set_mappings upd.host_mappings (set_others upd t)) (touch now)

  from_split : ℕ → TaskUpdate Plugin → TaskEntry Plugin Probe → Edited Plugin Probe
  from_split now upd t = on_ok (set_split upd.max_split (rederive t)) (from_others now upd)

  from_threads : ℕ → TaskUpdate Plugin → TaskEntry Plugin Probe → Edited Plugin Probe
  from_threads now upd t = on_ok (set_per_volume upd.max_per_volume t) (from_split now upd)

  pub apply_update : ℕ → TaskUpdate Plugin → TaskEntry Plugin Probe → Edited Plugin Probe
  unfolding touch from_others from_split from_threads
  apply_update now upd t = on_ok (set_volumes upd.volumes t) (from_threads now upd)
