-- ===== src/Cache/Staging.antt =====
-- src/cache.rs, `CacheStore`: the scratch entries that streams share, and their reference counts. A
-- key is a number. The making of an entry, which may fail, is an argument.
pub mod Counts
pub mod Visits
pub mod Tests
use hydraria.Prelude.{
  ℕ, suc, ◌+◌, ◌-◌, Bool, true, false, List, [], ◌∷◌, Option, none, some, ◌==◌, if◌then◌else◌,
}
use hydraria.Cache.Meta.{Meta, cache_meta_compatible}

-- The entry of a key in the map, with its count.
pub record Scratch : Type 0 where
  pub key : ℕ
  pub meta : Meta
  pub refs : ℕ

-- The map, and the keys whose directories exist.
pub record Store : Type 0 where
  pub staging : List Scratch
  pub directories : List ℕ

unfoldable pub find_scratch : List Scratch → ℕ → Option Scratch
find_scratch [] key = none
find_scratch (s ∷ ss) key = let rest = find_scratch ss key in if s.key == key then some s else rest

pub remove_scratch : List Scratch → ℕ → List Scratch
remove_scratch [] key = []
remove_scratch (s ∷ ss) key =
    let rest = remove_scratch ss key in if s.key == key then rest else s ∷ rest

pub put_scratch : List Scratch → Scratch → List Scratch
unfolding remove_scratch
put_scratch ss s = s ∷ remove_scratch ss s.key

pub remove_directory : List ℕ → ℕ → List ℕ
remove_directory [] key = []
remove_directory (d ∷ ds) key =
    let rest = remove_directory ds key in if d == key then rest else d ∷ rest

-- `build_entry`, and its entry in the map; `false` is an error.
pub build_scratch : Store → ℕ → Meta → Bool → Store × Bool
unfolding put_scratch
build_scratch s key desired built =
    if built
    then (
      record {
        staging = put_scratch s.staging (record { key = key; meta = desired; refs = 1 });
        directories = key ∷ s.directories;
      },
      true,
    )
    else (s, false)

share : Store → ℕ → Meta → Bool → Option Scratch → Store × Bool
unfolding build_scratch remove_scratch put_scratch
share s key desired built none = build_scratch s key desired built
share s key desired built (some e) =
    if cache_meta_compatible e.meta desired
    then (record s { staging = put_scratch s.staging (record e { refs = e.refs + 1 }) }, true)
    else build_scratch (record s { staging = remove_scratch s.staging key }) key desired built

-- `acquire_staging` of a task that is not cached
pub acquire_staging : Store → ℕ → Meta → Bool → Store × Bool
unfolding share find_scratch
acquire_staging s key desired built = share s key desired built (find_scratch s.staging key)

drop_one : Store → ℕ → Option Scratch → Store × Bool
unfolding remove_scratch put_scratch
drop_one s key none = (s, false)
drop_one s key (some e) =
    if e.refs - 1 == 0
    then (record s { staging = remove_scratch s.staging key }, true)
    else (record s { staging = put_scratch s.staging (record e { refs = e.refs - 1 }) }, false)

-- The drop of a handle, under the lock of the map, and whether the directory has to go.
pub release_ref : Store → ℕ → Store × Bool
unfolding drop_one find_scratch
release_ref s key = drop_one s key (find_scratch s.staging key)

-- Behind the lock: `remove_dir_all`, with whether it succeeds. A failure is logged, and the
-- directory stays.
pub remove_dir : Store → ℕ → Bool → Store
unfolding remove_directory
remove_dir s key removed =
    if removed then record s { directories = remove_directory s.directories key } else s

-- Both, with nothing in between.
pub release_staging : Store → ℕ → Bool → Store
unfolding release_ref remove_dir
release_staging s key removed =
    let (s', last) = release_ref s key in if last then remove_dir s' key removed else s'
