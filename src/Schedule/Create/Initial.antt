-- ===== src/Schedule/Create/Initial.antt =====
-- A new scheduler is sound, and owes what is not staged.
use hydraria.Prelude.{
  ℕ, ◌+◌, ◌<◌, ◌≡◌, refl, ◌∙◌, ◌&&◌, not, List, [], ◌∷◌, Option, leb, if◌then◌else◌, u64_mod, arith,
  Bool-cases, inl, inr,
}
use hydraria.Schedule.Ranges.{Ranges, subtract, listed, between, IsSortedIn}
use hydraria.Schedule.Ranges.Subtract.{subtract-listed, subtract-IsSortedIn}
use hydraria.Schedule.State.{Strategy, VolumeMeta}
use hydraria.Schedule.Owners.{owners, owners_in, one_if, IsSound}
use hydraria.Schedule.Create.{new, subtract_all, staged_at, AllWords}

module _ (bound : ℕ) (w : bound < u64_mod) where
  subtract_all-IsSortedIn :
      (unclaimed : Ranges) (staged : List (ℕ × ℕ))
      → AllWords staged
      → IsSortedIn 0 bound unclaimed
      → IsSortedIn 0 bound (subtract_all unclaimed staged)
  unfolding subtract_all
  subtract_all-IsSortedIn unclaimed [] words m = m
  subtract_all-IsSortedIn unclaimed ((s, e) ∷ staged) words m =
      subtract_all-IsSortedIn (subtract unclaimed s e) staged words.1
        (subtract-IsSortedIn bound w s e 0 unclaimed words.0 m)

  subtract_all-listed :
      (unclaimed : Ranges) (staged : List (ℕ × ℕ)) (x : ℕ)
      → AllWords staged
      → IsSortedIn 0 bound unclaimed
      → listed (subtract_all unclaimed staged) x ≡ not (staged_at staged x) && listed unclaimed x
  unfolding subtract_all
  subtract_all-listed unclaimed [] x words m = refl
  subtract_all-listed unclaimed ((s, e) ∷ staged) x words m =
      subtract_all-listed (subtract unclaimed s e) staged x words.1
        (subtract-IsSortedIn bound w s e 0 unclaimed words.0 m)
      ∙ ground (arith, subtract-listed bound w s e 0 unclaimed x words.0 m)

whole-IsSortedIn :
    (req_start req_end : ℕ)
    → IsSortedIn 0 req_end (if leb req_start req_end then (req_start, req_end) ∷ [] else [])
whole-IsSortedIn req_start req_end = elim (Bool-cases (leb req_start req_end)) [
  | inl some_there ↦ rw some_there (omega arith, ground arith, omega arith, tt)
  | inr none_there ↦ rw none_there tt
]

-- For a request whose end is below the last two 64-bit numbers, and staged ranges of 64-bit
-- bytes, a new scheduler is sound.
pub new-IsSound :
    (req_start req_end : ℕ) (strategy : Strategy) (volumes : Option (List VolumeMeta))
    (max_threads max_per_volume : ℕ) (split_cap : Option ℕ) (already_staged : List (ℕ × ℕ))
    → req_end + 1 < u64_mod
    → AllWords already_staged
    → IsSound
        (new req_start req_end strategy volumes max_threads max_per_volume split_cap already_staged)
unfolding new
new-IsSound req_start req_end strategy volumes max_threads max_per_volume split_cap already_staged w
      words =
    record {
      word = w;
      sorted =
          subtract_all-IsSortedIn req_end (omega arith) _ already_staged words
            (whole-IsSortedIn req_start req_end);
      placed = tt;
    }

-- For a request whose end is below the last two 64-bit numbers, and staged ranges of 64-bit
-- bytes, in a new scheduler each byte of the request that is not staged has one owner, and no
-- other byte has any.
pub owners-new :
    (req_start req_end : ℕ) (strategy : Strategy) (volumes : Option (List VolumeMeta))
    (max_threads max_per_volume : ℕ) (split_cap : Option ℕ) (already_staged : List (ℕ × ℕ)) (x : ℕ)
    → req_end + 1 < u64_mod
    → AllWords already_staged
    → owners
        (new req_start req_end strategy volumes max_threads max_per_volume split_cap already_staged)
        x
      ≡ one_if (between req_start req_end x && not (staged_at already_staged x))
unfolding new owners_in
owners-new req_start req_end strategy volumes max_threads max_per_volume split_cap already_staged x
      w words =
    rw
      (subtract_all-listed req_end (omega arith) _ already_staged x words
        (whole-IsSortedIn req_start req_end))
      (ground arith)

pub volumes-new :
    (req_start req_end : ℕ) (strategy : Strategy) (volumes : Option (List VolumeMeta))
    (max_threads max_per_volume : ℕ) (split_cap : Option ℕ) (already_staged : List (ℕ × ℕ))
    → (new req_start req_end strategy volumes max_threads max_per_volume split_cap
        already_staged).volumes
      ≡ volumes
unfolding new
volumes-new req_start req_end strategy volumes max_threads max_per_volume split_cap already_staged =
    refl
