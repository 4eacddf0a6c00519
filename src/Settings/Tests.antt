-- ===== src/Settings/Tests.antt =====
-- Runs of a task on one URL, and of a sampler of three samples.
use hydraria.Prelude.{ℕ, ◌≡◌, refl, ◌∙◌, true, false, [], ◌∷◌, none, some, arith}
use hydraria.Ratelimit.{empty_window}
use hydraria.Hostmap.{Std}
use hydraria.Hostmap.Tests.{no_rules}
use hydraria.Settings.{
  TaskUpdate, token_bucket, sliding_window, automatic, filled_volumes, filled_urls, filled_mappings,
  derive_threads,
}
use hydraria.Settings.Entry.{TaskEntry, apply_update}
use hydraria.Settings.Entry.Refusing.{refusal_of, apply_update-refusal}
use hydraria.Settings.Entry.Accepting.{IsUpdated, apply_update-IsUpdated}
use hydraria.Settings.Usable.{IsUsable, core}
use hydraria.Settings.Samples.{push_all, new_sampler, last_of, push_all-last_of}

abbrev std : Std
std = record { trim = λ s. s; parse_ip = λ s. none; parse_addr = λ s. none }

abbrev task : TaskEntry ℕ ℕ
task = record {
  config = record {
    volumes = ((97 ∷ []) ∷ []) ∷ [];
    max_threads = 4;
    max_per_volume = 4;
    max_split = 0;
    cache = false;
    headers = [];
    name = none;
    output_filename = none;
    auto_filename = true;
    rate_limit_bps = 0;
    rate_limit_algorithm = token_bucket;
    persist = true;
    plugins = [];
    content_disposition = automatic;
    host_mappings = [];
  };
  updated_at = 1;
  url_health = [];
  limiter = record { rate_bps = 0; algorithm = token_bucket; sw = empty_window };
  probe_cache = some 3;
  head_unsupported = [];
  claim_wall = none;
}

abbrev no_change : TaskUpdate ℕ
no_change = record {
  volumes = none;
  max_threads = none;
  max_per_volume = none;
  max_split = none;
  cache = none;
  headers = none;
  name = none;
  output_filename = none;
  auto_filename = none;
  rate_limit_bps = none;
  rate_limit_algorithm = none;
  persist = none;
  plugins = none;
  content_disposition = none;
  host_mappings = none;
}

abbrev faster : TaskUpdate ℕ
faster = record no_change {
  volumes = some (((97 ∷ []) ∷ []) ∷ ((98 ∷ []) ∷ []) ∷ []);
  max_per_volume = some 2;
  max_split = some 65536;
  rate_limit_bps = some 9;
  rate_limit_algorithm = some sliding_window;
}

abbrev blank : TaskUpdate ℕ
blank = record no_change { volumes = some (([] ∷ []) ∷ []) }

task-IsUsable : IsUsable std (core task.config)
unfolding filled_mappings derive_threads
task-IsUsable = record {
  nearly = record {
    volumes = refl;
    per_volume = refl;
    split = refl;
    mappings = no_rules std;
    filled = refl;
  };
  threads = refl;
}

nothing_wrong : refusal_of std faster ≡ none
unfolding refusal_of filled_volumes filled_urls
nothing_wrong = refl

accepted : (apply_update std 7 faster task).1 ≡ none
accepted = apply_update-refusal std 7 faster task ∙ nothing_wrong

apply_update-IsUpdated_example : IsUpdated std 7 (apply_update std 7 faster task).0
apply_update-IsUpdated_example = apply_update-IsUpdated std 7 faster task task-IsUsable accepted

apply_update-refusal_example : (apply_update std 7 blank task).1 ≡ refusal_of std blank
apply_update-refusal_example = apply_update-refusal std 7 blank task

blank_volumes : filled_volumes std (([] ∷ []) ∷ []) ≡ []
unfolding filled_volumes filled_urls
blank_volumes = refl

push_all-last_of_example :
    push_all (some (new_sampler 3)) (5 ∷ 6 ∷ 7 ∷ 8 ∷ [])
    ≡ some (record { samples = last_of 3 (5 ∷ 6 ∷ 7 ∷ 8 ∷ []); capacity = 3 })
push_all-last_of_example = push_all-last_of 3 (omega arith) (5 ∷ 6 ∷ 7 ∷ 8 ∷ [])
