-- ===== src/Cache/Staging/Counts.antt =====
-- src/cache.rs, `acquire_staging` and `release_staging`: the entry and the directory of a key, and a
-- handle on an entry that another has replaced.
use hydraria.Prelude.{
  ℕ, ◌≡◌, refl, Bool, true, false, ◌||◌, List, [], ◌∷◌, none, some, ◌==◌, Bool-cases, inl, inr,
  arith,
}
use hydraria.Cache.Meta.{Meta, cache_meta_compatible}
use hydraria.Cache.Staging.{
  Scratch, Store, find_scratch, remove_scratch, put_scratch, remove_directory, build_scratch, share,
  acquire_staging, drop_one, release_ref, remove_dir, release_staging,
}

-- Whether the directory of a key exists.
unfoldable pub has_directory : List ℕ → ℕ → Bool
has_directory [] key = false
has_directory (d ∷ ds) key = let rest = has_directory ds key in d == key || rest

pub same_key : (key : ℕ) → key == key ≡ true
same_key key = ground arith

pub find-remove : (ss : List Scratch) (key : ℕ) → find_scratch (remove_scratch ss key) key ≡ none
unfolding find_scratch remove_scratch
find-remove [] key = refl
find-remove (s ∷ ss) key = elim (Bool-cases (s.key == key)) [
  | inl here ↦ rw here (find-remove ss key)
  | inr away ↦ rw away (rw away (find-remove ss key))
]

pub find-put : (ss : List Scratch) (s : Scratch) → find_scratch (put_scratch ss s) s.key ≡ some s
unfolding find_scratch put_scratch
find-put ss s = rw (same_key s.key) refl

pub has-remove : (ds : List ℕ) (key : ℕ) → has_directory (remove_directory ds key) key ≡ false
unfolding has_directory remove_directory
has-remove [] key = refl
has-remove (d ∷ ds) key = elim (Bool-cases (d == key)) [
  | inl here ↦ rw here (has-remove ds key)
  | inr away ↦ rw away (rw away (has-remove ds key))
]

-- The streams on a key share one entry for what they ask, which counts them.
pub record Shares (s : Store) (key : ℕ) (meta : Meta) (streams : ℕ) : Type 0 where
  pub entry : find_scratch s.staging key ≡ some (record { key = key; meta = meta; refs = streams })
  pub directory : has_directory s.directories key ≡ true

-- The last stream has gone.
pub record IsGone (s : Store) (key : ℕ) : Type 0 where
  pub entry : find_scratch s.staging key ≡ none
  pub directory : has_directory s.directories key ≡ false

first-Shares :
    (s : Store) (key : ℕ) (meta : Meta) → Shares (build_scratch s key meta true).0 key meta 1
unfolding build_scratch has_directory
first-Shares s key meta = record {
  entry = find-put s.staging (record { key = key; meta = meta; refs = 1 });
  directory = rw (same_key key) refl;
}

drop-entry :
    (s : Store) (key : ℕ) (meta : Meta) (removed : Bool)
    → Shares s key meta 1
    → find_scratch (release_staging s key removed).staging key ≡ none
unfolding release_staging release_ref drop_one remove_dir
drop-entry s key meta true v = rw v.entry (find-remove s.staging key)
drop-entry s key meta false v = rw v.entry (find-remove s.staging key)

drop-IsGone :
    (s : Store) (key : ℕ) (meta : Meta)
    → Shares s key meta 1
    → IsGone (release_staging s key true) key
unfolding release_staging release_ref drop_one remove_dir
drop-IsGone s key meta v =
    rw v.entry
      (record { entry = find-remove s.staging key; directory = has-remove s.directories key })

-- When a stream asks for something else under a key that others share, and one of the others then
-- goes, the entry of the new stream is removed, and its directory too when the removal succeeds.
pub release_staging-tears :
    (s : Store) (key : ℕ) (meta desired : Meta) (streams : ℕ) (removed : Bool)
    → Shares s key meta streams
    → cache_meta_compatible meta desired ≡ false
    → Shares (acquire_staging s key desired true).0 key desired 1
      × IsGone (release_staging (acquire_staging s key desired true).0 key true) key
      × (find_scratch
            (release_staging (acquire_staging s key desired true).0 key removed).staging
            key
          ≡ none)
unfolding acquire_staging share
release_staging-tears s key meta desired streams removed v other =
    let forgotten : Store = record s { staging = remove_scratch s.staging key } in
    let first = first-Shares forgotten key desired in
    rw (v.entry, other)
      (first, drop-IsGone _ key desired first, drop-entry _ key desired removed first)
