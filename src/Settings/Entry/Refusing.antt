-- ===== src/Settings/Entry/Refusing.antt =====
-- src/models.rs, `apply_update`: when an edit is refused, and what it leaves.
use hydraria.Prelude.{
  ℕ, ◌≡◌, refl, ◌∙◌, not, ◌&&◌, List, [], Option, none, some, length, ltb, ◌==◌, if◌then◌else◌,
  Bool-cases, inl, inr,
}
use hydraria.Hostmap.{Str, Std, HostMapping, validate as validate_rules}
use hydraria.Settings.{
  TaskUpdate, filled_volumes, filled_mappings, normalize, min_split, Refusal, no_url,
  per_volume_zero, split_too_small, bad_mapping,
}
use hydraria.Settings.Entry.{
  TaskEntry, Edited, on_ok, with_volumes, set_volumes, set_per_volume, rederive, set_split,
  set_others, set_mappings, touch, from_others, from_split, from_threads, apply_update,
}

-- The first reason that stands.
abbrev first : Option Refusal → Option Refusal → Option Refusal
first (some e) later = some e
first none later = later

abbrev no_volumes : Std → Option (List (List Str)) → Option Refusal
no_volumes std none = none
no_volumes std (some volumes) =
    if length (filled_volumes std volumes) == 0 then some no_url else none

abbrev no_threads : Option ℕ → Option Refusal
no_threads none = none
no_threads (some p) = if p == 0 then some per_volume_zero else none

abbrev short_split : Option ℕ → Option Refusal
short_split none = none
short_split (some s) = if not (s == 0) && ltb s min_split then some split_too_small else none

abbrev wrong_mappings : Std → Option (List HostMapping) → Option Refusal
wrong_mappings std none = none
wrong_mappings std (some maps) =
    if validate_rules std (filled_mappings std maps) then none else some bad_mapping

-- What is wrong with an update, whatever the task.
unfoldable pub refusal_of : {Plugin : Type 0} → Std → TaskUpdate Plugin → Option Refusal
refusal_of std upd = first (no_volumes std upd.volumes) (
    first (no_threads upd.max_per_volume)
      (first (short_split upd.max_split) (wrong_mappings std upd.host_mappings)))

module _ {Plugin Probe : Type 0} (std : Std) where
  on_ok-first :
      (o : Edited Plugin Probe) (next : TaskEntry Plugin Probe → Edited Plugin Probe)
      (e e' : Option Refusal)
      → o.1 ≡ e
      → ((t : TaskEntry Plugin Probe) → (next t).1 ≡ e')
      → (on_ok std o next).1 ≡ first e e'
  unfolding on_ok
  on_ok-first (t, none) next e e' p q = rw (← p) (q t)
  on_ok-first (t, some r) next e e' p q = rw (← p) refl

  set_volumes-refusal :
      (volumes : Option (List (List Str))) (t : TaskEntry Plugin Probe)
      → (set_volumes std volumes t).1 ≡ no_volumes std volumes
  unfolding set_volumes with_volumes normalize
  set_volumes-refusal none t = refl
  set_volumes-refusal (some volumes) t =
      elim (Bool-cases (length (filled_volumes std volumes) == 0)) [
        | inl bare ↦ rw bare refl
        | inr filled ↦ rw filled refl
      ]

  set_per_volume-refusal :
      (p : Option ℕ) (t : TaskEntry Plugin Probe) → (set_per_volume std p t).1 ≡ no_threads p
  unfolding set_per_volume
  set_per_volume-refusal none t = refl
  set_per_volume-refusal (some p) t = elim (Bool-cases (p == 0)) [
    | inl bad ↦ rw bad refl
    | inr good ↦ rw good refl
  ]

  set_split-refusal :
      (s : Option ℕ) (t : TaskEntry Plugin Probe) → (set_split std s t).1 ≡ short_split s
  unfolding set_split
  set_split-refusal none t = refl
  set_split-refusal (some s) t = elim (Bool-cases (not (s == 0) && ltb s min_split)) [
    | inl bad ↦ rw bad refl
    | inr good ↦ rw good refl
  ]

  set_mappings-refusal :
      (maps : Option (List HostMapping)) (t : TaskEntry Plugin Probe)
      → (set_mappings std maps t).1 ≡ wrong_mappings std maps
  unfolding set_mappings
  set_mappings-refusal none t = refl
  set_mappings-refusal (some maps) t =
      elim (Bool-cases (validate_rules std (filled_mappings std maps))) [
        | inl good ↦ rw good refl
        | inr bad ↦ rw bad refl
      ]

  -- Whether `apply_update` refuses an edit, and for which reason, depends on the edit alone: the
  -- first that holds of no URL in its volumes, no thread per volume, a split that is too small,
  -- and mappings that are not well formed.
  pub apply_update-refusal :
      (now : ℕ) (upd : TaskUpdate Plugin) (t : TaskEntry Plugin Probe)
      → (apply_update std now upd t).1 ≡ refusal_of std upd
  unfolding apply_update from_threads from_split from_others touch refusal_of
  apply_update-refusal now upd t =
      on_ok-first (set_volumes std upd.volumes t) (from_threads std now upd) _ _
        (set_volumes-refusal upd.volumes t)
        (λ t.
          on_ok-first (set_per_volume std upd.max_per_volume t) (from_split std now upd) _ _
            (set_per_volume-refusal upd.max_per_volume t)
            (λ t.
              on_ok-first (set_split std upd.max_split (rederive std t)) (from_others std now upd) _
                _ (set_split-refusal upd.max_split (rederive std t))
                (λ t.
                  on_ok-first (set_mappings std upd.host_mappings (set_others std upd t))
                    (touch std now) _ none
                    (set_mappings-refusal upd.host_mappings (set_others std upd t)) (λ t. refl)
                  ∙ last (wrong_mappings std upd.host_mappings))))
    where
      last : (e : Option Refusal) → first e none ≡ e
      last none = refl
      last (some r) = refl

  -- An edit to volumes without any URL is refused, and leaves the task without volumes.
  pub apply_update-empties :
      (now : ℕ) (upd : TaskUpdate Plugin) (volumes : List (List Str)) (t : TaskEntry Plugin Probe)
      → upd.volumes ≡ some volumes
      → filled_volumes std volumes ≡ []
      → ((apply_update std now upd t).1 ≡ some no_url)
        × ((apply_update std now upd t).0.config.volumes ≡ [])
  unfolding apply_update on_ok set_volumes with_volumes normalize
  apply_update-empties now upd volumes t e blank = rw (e, blank) (refl, refl)
