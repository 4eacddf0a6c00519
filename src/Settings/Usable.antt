-- ===== src/Settings/Usable.antt =====
-- src/models.rs: the configurations that an edit may leave.
use hydraria.Prelude.{
  ℕ, ◌≡◌, refl, true, false, not, ◌&&◌, ◌||◌, List, [], ◌∷◌, none, length, ltb, ◌==◌, Bool-cases,
  inl, inr,
}
use hydraria.Hostmap.{Str, Std, HostMapping, validate as validate_rules}
use hydraria.Settings.{TaskConfig, filled_mappings, derive_threads, validate, min_split}

-- The checked part of a configuration.
abbrev pub Core : Type 0
Core = List (List Str) × ℕ × ℕ × ℕ × List HostMapping

abbrev pub core : {Plugin : Type 0} → TaskConfig Plugin → Core
core c = (c.volumes, c.max_threads, c.max_per_volume, c.max_split, c.host_mappings)

-- It has a volume, the bounds hold, and its mappings are well formed and none is blank.
pub record IsNearly (std : Std) (c : Core) : Type 0 where
  pub volumes : length c.0 == 0 ≡ false
  pub per_volume : c.2 == 0 ≡ false
  pub split : not (c.3 == 0) && ltb c.3 min_split ≡ false
  pub mappings : validate_rules std c.4 ≡ true
  pub filled : filled_mappings std c.4 ≡ c.4

-- The number of threads is derived, too.
pub record IsUsable (std : Std) (c : Core) : Type 0 where
  pub nearly : IsNearly std c
  pub threads : c.1 ≡ derive_threads c.2 (length c.0)

filled_mappings-kept :
    (std : Std) (m : HostMapping) (ms : List HostMapping)
    → not (length (std.trim m.from) == 0) || not (length (std.trim m.to) == 0) ≡ true
    → filled_mappings std (m ∷ ms) ≡ m ∷ filled_mappings std ms
unfolding filled_mappings
filled_mappings-kept std m ms kept = rw kept refl

filled_mappings-blank :
    (std : Std) (m : HostMapping) (ms : List HostMapping)
    → not (length (std.trim m.from) == 0) || not (length (std.trim m.to) == 0) ≡ false
    → filled_mappings std (m ∷ ms) ≡ filled_mappings std ms
unfolding filled_mappings
filled_mappings-blank std m ms blank = rw blank refl

filled_mappings-none : (std : Std) → filled_mappings std [] ≡ []
unfolding filled_mappings
filled_mappings-none std = refl

pub filled_mappings-twice :
    (std : Std) (ms : List HostMapping)
    → filled_mappings std (filled_mappings std ms) ≡ filled_mappings std ms
filled_mappings-twice std [] = rw (filled_mappings-none std, filled_mappings-none std) refl
filled_mappings-twice std (m ∷ ms) =
    elim (Bool-cases (not (length (std.trim m.from) == 0) || not (length (std.trim m.to) == 0))) [
      | inl kept ↦
          rw
            (
              filled_mappings-kept std m ms kept,
              filled_mappings-kept std m (filled_mappings std ms) kept,
              filled_mappings-twice std ms,
            )
            refl
      | inr blank ↦ rw (filled_mappings-blank std m ms blank) (filled_mappings-twice std ms)
    ]

pub validate-accepts :
    {Plugin : Type 0} (std : Std) (c : TaskConfig Plugin)
    → IsNearly std (core c)
    → validate std c ≡ none
unfolding validate
validate-accepts std c v = rw (v.per_volume, v.split, v.mappings) refl
