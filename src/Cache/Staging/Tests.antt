-- ===== src/Cache/Staging/Tests.antt =====
-- Runs of the scratch entries.
use hydraria.Prelude.{refl, ◌≡◌, true, false, not, [], none, ◌==◌, if◌then◌else◌, arith}
use hydraria.Cache.Meta.{Meta, cache_meta_compatible}
use hydraria.Cache.Tests.{file_meta}
use hydraria.Cache.Staging.{
  Store, find_scratch, put_scratch, build_scratch, share, acquire_staging, drop_one, release_ref,
  remove_dir, release_staging,
}
use hydraria.Cache.Staging.Counts.{Shares, IsGone, has_directory, release_staging-tears}
use hydraria.Cache.Staging.Visits.{
  Place, unused, Visits, none_yet, and_then, opens, leaves, removes, IsCounted, Visits-IsCounted,
}

abbrev no_scratch : Store
no_scratch = record { staging = []; directories = [] }

abbrev longer_meta : Meta
longer_meta = record file_meta { total_size = 12 }

other_file : cache_meta_compatible file_meta longer_meta ≡ false
unfolding cache_meta_compatible
other_file = refl

same_file : cache_meta_compatible file_meta file_meta ≡ true
unfolding cache_meta_compatible
same_file = refl

-- A stream comes and goes; another comes before the directory of the first is removed.
abbrev first_there : Place
first_there = record (unused no_scratch file_meta) {
  store = (acquire_staging no_scratch 7 file_meta true).0;
  streams = 1;
}

abbrev first_gone : Place
first_gone = record first_there {
  store = (release_ref first_there.store 7).0;
  streams = 0;
  removals = if (release_ref first_there.store 7).1 then 1 else 0;
}

abbrev second_there : Place
second_there = record first_gone {
  store = (acquire_staging first_gone.store 7 longer_meta true).0;
  streams = 1;
  meta = longer_meta;
  raced = not (first_gone.removals == 0);
}

abbrev removed_under_it : Place
removed_under_it = record second_there {
  store = remove_dir second_there.store 7 true;
  removals = 0;
  left_behind = false;
}

last_one : (release_ref first_there.store 7).1 ≡ true
unfolding release_ref drop_one find_scratch acquire_staging share build_scratch put_scratch
last_one = refl

visits : Visits 7 (unused no_scratch file_meta) removed_under_it
visits =
    and_then
      (and_then (and_then (and_then none_yet (opens file_meta refl)) (leaves 0 refl))
        (opens longer_meta refl))
      (removes 0 true (rw last_one refl))

no_entry : find_scratch no_scratch.staging 7 ≡ none
unfolding find_scratch
no_entry = refl

nothing_there : has_directory no_scratch.directories 7 ≡ false
unfolding has_directory
nothing_there = refl

Visits-IsCounted_example : IsCounted 7 removed_under_it
Visits-IsCounted_example = Visits-IsCounted 7 file_meta no_scratch no_entry nothing_there visits

one_there : IsCounted 7 first_there
one_there =
    Visits-IsCounted 7 file_meta no_scratch no_entry nothing_there
      (and_then none_yet (opens file_meta refl))

one_share : Shares (acquire_staging no_scratch 7 file_meta true).0 7 file_meta 1
one_share = record {
  entry = one_there.entry;
  directory = one_there.open_directory refl (omega arith);
}

release_staging-tears_example :
    Shares
      (acquire_staging (acquire_staging no_scratch 7 file_meta true).0 7 longer_meta true).0
      7
      longer_meta
      1
    × IsGone
        (release_staging
          (acquire_staging (acquire_staging no_scratch 7 file_meta true).0 7 longer_meta true).0
          7
          true)
        7
    × (find_scratch
          (release_staging
            (acquire_staging (acquire_staging no_scratch 7 file_meta true).0 7 longer_meta true).0
            7
            false).staging
          7
        ≡ none)
release_staging-tears_example =
    release_staging-tears (acquire_staging no_scratch 7 file_meta true).0 7 file_meta longer_meta 1
      false one_share other_file
