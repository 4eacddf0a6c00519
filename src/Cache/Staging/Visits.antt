-- ===== src/Cache/Staging/Visits.antt =====
-- src/cache.rs, `acquire_staging` and `release_staging`: what the counts stand for, while the streams
-- on a key come and go and the removals of its directory run beside them.
use hydraria.Prelude.{
  ℕ, suc, ◌+◌, ◌-◌, ◌≡◌, refl, Bool, true, false, not, Option, none, some, ◌==◌, if◌then◌else◌, ◌<◌,
  zero, arith,
}
use hydraria.Cache.Meta.{Meta, cache_meta_compatible}
use hydraria.Cache.Staging.Counts.{has_directory, same_key, find-remove, find-put, has-remove}
use hydraria.Cache.Staging.{
  Scratch, Store, find_scratch, build_scratch, share, acquire_staging, drop_one, release_ref,
  remove_dir,
}

-- The streams that hold a handle on a key and what its entry is for; the directories that are still
-- to be removed; whether the present entry was made while one was; and whether files may have been
-- left behind: the last removal failed, or the making of an entry has failed since.
pub record Place : Type 0 where
  pub store : Store
  pub streams : ℕ
  pub meta : Meta
  pub removals : ℕ
  pub raced : Bool
  pub left_behind : Bool

abbrev pub unused : Store → Meta → Place
unused s meta = record {
  store = s;
  streams = 0;
  meta = meta;
  removals = 0;
  raced = false;
  left_behind = false;
}

-- A stream is the first on the key, finds its entry not to be made, or shares the entry that is
-- there; a handle is dropped; and a directory is removed, or not, behind the lock, at any later time.
pub data Visit (key : ℕ) (y : Place) : Place → Type 0 where
  opens :
      (desired : Meta)
      → y.streams ≡ 0
      → Visit key y (record y {
        store = (acquire_staging y.store key desired true).0;
        streams = 1;
        meta = desired;
        raced = not (y.removals == 0);
      })
  refuses :
      (desired : Meta)
      → y.streams ≡ 0
      → Visit key y
          (record y { store = (acquire_staging y.store key desired false).0; left_behind = true })
  comes :
      (desired : Meta) (built : Bool) (others : ℕ)
      → y.streams ≡ suc others
      → cache_meta_compatible y.meta desired ≡ true
      → Visit key y (record y {
        store = (acquire_staging y.store key desired built).0;
        streams = y.streams + 1;
      })
  leaves :
      (others : ℕ)
      → y.streams ≡ suc others
      → Visit key y (record y {
        store = (release_ref y.store key).0;
        streams = others;
        removals = if (release_ref y.store key).1 then y.removals + 1 else y.removals;
      })
  removes :
      (later : ℕ) (removed : Bool)
      → y.removals ≡ suc later
      → Visit key y (record y {
        store = remove_dir y.store key removed;
        removals = later;
        left_behind = not removed;
      })

pub data Visits (key : ℕ) (y : Place) : Place → Type 0 where
  none_yet : Visits key y y
  and_then : {z w : Place} → Visits key y z → Visit key z w → Visits key y w

-- The entry that so many streams share.
abbrev pub shared_by : ℕ → Meta → ℕ → Option Scratch
shared_by key meta zero = none
shared_by key meta (suc others) = some (record { key = key; meta = meta; refs = suc others })

-- The entry counts the streams. It has its directory, unless it was made while a removal was due.
-- Behind the last stream and the last removal there is no directory, unless files were left behind.
pub record IsCounted (key : ℕ) (y : Place) : Type 0 where
  pub entry : find_scratch y.store.staging key ≡ shared_by key y.meta y.streams
  pub undisturbed : y.raced ≡ false → 0 < y.streams → y.removals ≡ 0
  pub open_directory :
      y.raced ≡ false → 0 < y.streams → has_directory y.store.directories key ≡ true
  pub no_directory :
      y.streams ≡ 0
      → y.removals ≡ 0
      → y.left_behind ≡ false
      → has_directory y.store.directories key ≡ false

entry_of :
    (key : ℕ) (y : Place) (streams : ℕ)
    → IsCounted key y
    → y.streams ≡ streams
    → find_scratch y.store.staging key ≡ shared_by key y.meta streams
entry_of key y streams v is = rw is at v.entry

Visit-IsCounted : {key : ℕ} {y z : Place} → IsCounted key y → Visit key y z → IsCounted key z
unfolding acquire_staging share build_scratch has_directory release_ref drop_one remove_dir
Visit-IsCounted {key} {y} v (opens desired nobody) = rw (entry_of key y 0 v nobody) (record {
  entry = find-put y.store.staging (record { key = key; meta = desired; refs = 1 });
  undisturbed = λ calm some_there. ground arith;
  open_directory = λ calm some_there. rw (same_key key) refl;
  no_directory = λ h. absurd (omega arith);
})
Visit-IsCounted {key} {y} v (refuses desired nobody) = rw (entry_of key y 0 v nobody) (record {
  entry = v.entry;
  undisturbed = v.undisturbed;
  open_directory = v.open_directory;
  no_directory = λ h due kept. cc;
})
Visit-IsCounted {key} {y} v (comes desired built others there same) =
    let one_more : y.streams + 1 ≡ suc (suc others) = omega arith in
    let counted : suc others + 1 ≡ suc (suc others) = omega arith in
    rw (entry_of key y (suc others) v there, same, one_more, counted)
      (record {
        entry =
            find-put y.store.staging (record { key = key; meta = y.meta; refs = suc (suc others) });
        undisturbed = λ calm some_there. v.undisturbed calm (omega arith);
        open_directory = λ calm some_there. v.open_directory calm (omega arith);
        no_directory = λ h. absurd (omega arith);
      })
Visit-IsCounted {key} {y} v (leaves zero there) = rw (entry_of key y 1 v there) (record {
  entry = find-remove y.store.staging key;
  undisturbed = λ calm some_there. absurd (omega arith);
  open_directory = λ calm some_there. absurd (omega arith);
  no_directory = λ h due. absurd (omega arith);
})
Visit-IsCounted {key} {y} v (leaves (suc others) there) =
    let more : suc (suc others) - 1 == 0 ≡ false = ground arith in
    let fewer : suc (suc others) - 1 ≡ suc others = omega arith in
    rw (entry_of key y (suc (suc others)) v there, more, fewer)
      (record {
        entry = find-put y.store.staging (record { key = key; meta = y.meta; refs = suc others });
        undisturbed = λ calm some_there. v.undisturbed calm (omega arith);
        open_directory = λ calm some_there. v.open_directory calm (omega arith);
        no_directory = λ h. absurd (omega arith);
      })
Visit-IsCounted {key} {y} v (removes later true due) = record {
  entry = v.entry;
  undisturbed = λ calm some_there. absurd (omega (arith, v.undisturbed calm some_there));
  open_directory = λ calm some_there. absurd (omega (arith, v.undisturbed calm some_there));
  no_directory = λ nobody last ok. has-remove y.store.directories key;
}
Visit-IsCounted {key} {y} v (removes later false due) = record {
  entry = v.entry;
  undisturbed = λ calm some_there. absurd (omega (arith, v.undisturbed calm some_there));
  open_directory = v.open_directory;
  no_directory = λ nobody last ok. cc;
}

-- Let streams come on a key that has no entry and no directory, each as the first one or for what
-- the entry is compatible with, and go, in any order, where the removal of the directory is a
-- step of its own behind the lock, which may come later and may fail. Then the entry counts the
-- streams that are there, and without streams there is no entry. While there are streams, the
-- directory exists, unless the entry was made while a removal was due. With no stream left and no
-- removal due, there is no directory, unless the last removal failed, or the making of an entry
-- has failed since.
pub Visits-IsCounted :
    (key : ℕ) (meta : Meta) (s : Store) {z : Place}
    → find_scratch s.staging key ≡ none
    → has_directory s.directories key ≡ false
    → Visits key (unused s meta) z
    → IsCounted key z
Visits-IsCounted key meta s new clean none_yet = record {
  entry = new;
  undisturbed = λ calm some_there. refl;
  open_directory = λ calm some_there. absurd (omega arith);
  no_directory = λ nobody last ok. clean;
}
Visits-IsCounted key meta s new clean (and_then visits visit) =
    Visit-IsCounted (Visits-IsCounted key meta s new clean visits) visit
