-- ===== src/Settings/Entry/Accepting.antt =====
-- src/models.rs, `apply_update`: an accepted edit leaves a configuration that `validate` accepts too.
use hydraria.Prelude.{
  ℕ, ◌≡◌, refl, ◌∙◌, not, ◌&&◌, List, Option, none, some, length, ltb, ◌==◌, Bool-cases, inl, inr,
}
use hydraria.Hostmap.{Str, Std, HostMapping, validate as validate_rules}
use hydraria.Settings.{
  Algorithm, TaskUpdate, filled_volumes, filled_mappings, normalize, validate, min_split,
}
use hydraria.Settings.Entry.{
  TaskEntry, Edited, on_ok, with_volumes, set_volumes, set_per_volume, rederive, set_split,
  set_headers, set_limit, set_others, set_mappings, touch, from_others, from_split, from_threads,
  apply_update,
}
use hydraria.Settings.Usable.{core, IsNearly, IsUsable, filled_mappings-twice, validate-accepts}

module _ {Plugin Probe : Type 0} (std : Std) where
  on_ok-keeps :
      (P Q : TaskEntry Plugin Probe → Type 0) (o : Edited Plugin Probe)
      (next : TaskEntry Plugin Probe → Edited Plugin Probe)
      → (o.1 ≡ none → P o.0)
      → ((t : TaskEntry Plugin Probe) → P t → (next t).1 ≡ none → Q (next t).0)
      → (on_ok std o next).1 ≡ none
      → Q (on_ok std o next).0
  unfolding on_ok
  on_ok-keeps P Q (t, none) next p q e = q t (p refl) e
  on_ok-keeps P Q (t, some r) next p q e = cc

  set_volumes-IsNearly :
      (volumes : Option (List (List Str))) (t : TaskEntry Plugin Probe)
      → IsNearly std (core t.config)
      → (set_volumes std volumes t).1 ≡ none
      → IsNearly std (core (set_volumes std volumes t).0.config)
  unfolding set_volumes with_volumes normalize
  set_volumes-IsNearly none t v e = v
  set_volumes-IsNearly (some volumes) t v e =
      elim (Bool-cases (length (filled_volumes std volumes) == 0)) [
        | inl bare ↦ let e' = rw bare at e in cc
        | inr some_left ↦ simp some_left (record {
          volumes = some_left;
          per_volume = v.per_volume;
          split = v.split;
          mappings = rw v.filled v.mappings;
          filled = filled_mappings-twice std t.config.host_mappings;
        })
      ]

  set_per_volume-IsNearly :
      (p : Option ℕ) (t : TaskEntry Plugin Probe)
      → IsNearly std (core t.config)
      → (set_per_volume std p t).1 ≡ none
      → IsNearly std (core (set_per_volume std p t).0.config)
  unfolding set_per_volume
  set_per_volume-IsNearly none t v e = v
  set_per_volume-IsNearly (some p) t v e = elim (Bool-cases (p == 0)) [
    | inl bad ↦ let e' = rw bad at e in cc
    | inr good ↦ rw good (record {
      volumes = v.volumes;
      per_volume = good;
      split = v.split;
      mappings = v.mappings;
      filled = v.filled;
    })
  ]

  rederive-IsUsable :
      (t : TaskEntry Plugin Probe)
      → IsNearly std (core t.config)
      → IsUsable std (core (rederive std t).config)
  unfolding rederive
  rederive-IsUsable t v = record {
    nearly = record {
      volumes = v.volumes;
      per_volume = v.per_volume;
      split = v.split;
      mappings = v.mappings;
      filled = v.filled;
    };
    threads = refl;
  }

  set_split-IsUsable :
      (s : Option ℕ) (t : TaskEntry Plugin Probe)
      → IsUsable std (core t.config)
      → (set_split std s t).1 ≡ none
      → IsUsable std (core (set_split std s t).0.config)
  unfolding set_split
  set_split-IsUsable none t v e = v
  set_split-IsUsable (some s) t v e = elim (Bool-cases (not (s == 0) && ltb s min_split)) [
    | inl bad ↦ let e' = rw bad at e in cc
    | inr good ↦ rw good (record {
      nearly = record {
        volumes = v.nearly.volumes;
        per_volume = v.nearly.per_volume;
        split = good;
        mappings = v.nearly.mappings;
        filled = v.nearly.filled;
      };
      threads = v.threads;
    })
  ]

  set_headers-core :
      (h : Option (List (Str × Str))) (t : TaskEntry Plugin Probe)
      → core (set_headers std h t).config ≡ core t.config
  unfolding set_headers
  set_headers-core none t = refl
  set_headers-core (some h) t = refl

  set_limit-core :
      (r : Option ℕ) (a : Option Algorithm) (t : TaskEntry Plugin Probe)
      → core (set_limit std r a t).config ≡ core t.config
  unfolding set_limit
  set_limit-core none none t = refl
  set_limit-core (some r) none t = refl
  set_limit-core none (some a) t = refl
  set_limit-core (some r) (some a) t = refl

  -- The other settings leave the checked part alone.
  set_others-core :
      (upd : TaskUpdate Plugin) (t : TaskEntry Plugin Probe)
      → core (set_others std upd t).config ≡ core t.config
  unfolding set_others
  set_others-core upd t =
      set_limit-core upd.rate_limit_bps upd.rate_limit_algorithm _ ∙ set_headers-core upd.headers _

  set_mappings-IsUsable :
      (maps : Option (List HostMapping)) (t : TaskEntry Plugin Probe)
      → IsUsable std (core t.config)
      → (set_mappings std maps t).1 ≡ none
      → IsUsable std (core (set_mappings std maps t).0.config)
  unfolding set_mappings
  set_mappings-IsUsable none t v e = v
  set_mappings-IsUsable (some maps) t v e =
      elim (Bool-cases (validate_rules std (filled_mappings std maps))) [
        | inr bad ↦ let e' = rw bad at e in cc
        | inl good ↦ simp good (record {
          nearly = record {
            volumes = v.nearly.volumes;
            per_volume = v.nearly.per_volume;
            split = v.nearly.split;
            mappings = good;
            filled = filled_mappings-twice std maps;
          };
          threads = v.threads;
        })
      ]

  -- The task as an edit leaves it.
  abbrev pub IsUpdated : ℕ → TaskEntry Plugin Probe → Type 0
  IsUpdated now t =
      IsUsable std (core t.config) × (validate std t.config ≡ none) × (t.updated_at ≡ now)

  IsNear : TaskEntry Plugin Probe → Type 0
  IsNear t = IsNearly std (core t.config)

  IsFit : TaskEntry Plugin Probe → Type 0
  IsFit t = IsUsable std (core t.config)

  from_others-IsUpdated :
      (now : ℕ) (upd : TaskUpdate Plugin) (t : TaskEntry Plugin Probe)
      → IsFit t
      → (from_others std now upd t).1 ≡ none
      → IsUpdated now (from_others std now upd t).0
  unfolding from_others touch IsFit
  from_others-IsUpdated now upd t v =
      on_ok-keeps IsFit (IsUpdated now) (set_mappings std upd.host_mappings (set_others std upd t))
        (touch std now)
        (set_mappings-IsUsable upd.host_mappings (set_others std upd t)
          (rw (set_others-core upd t) v))
        (λ t v e. (v, validate-accepts std t.config v.nearly, refl))

  from_split-IsUpdated :
      (now : ℕ) (upd : TaskUpdate Plugin) (t : TaskEntry Plugin Probe)
      → IsNear t
      → (from_split std now upd t).1 ≡ none
      → IsUpdated now (from_split std now upd t).0
  unfolding from_split IsFit IsNear
  from_split-IsUpdated now upd t v =
      on_ok-keeps IsFit (IsUpdated now) (set_split std upd.max_split (rederive std t))
        (from_others std now upd)
        (set_split-IsUsable upd.max_split (rederive std t) (rederive-IsUsable t v))
        (λ t v e. from_others-IsUpdated now upd t v e)

  from_threads-IsUpdated :
      (now : ℕ) (upd : TaskUpdate Plugin) (t : TaskEntry Plugin Probe)
      → IsNear t
      → (from_threads std now upd t).1 ≡ none
      → IsUpdated now (from_threads std now upd t).0
  unfolding from_threads IsNear
  from_threads-IsUpdated now upd t v =
      on_ok-keeps IsNear (IsUpdated now) (set_per_volume std upd.max_per_volume t)
        (from_split std now upd) (set_per_volume-IsNearly upd.max_per_volume t v)
        (λ t v e. from_split-IsUpdated now upd t v e)

  -- When the configuration of a task is usable and `apply_update` accepts an edit, the new
  -- configuration is usable: it has a volume, its mappings are not blank, the number of threads
  -- is the derived one, and `validate` accepts it; and the edit is dated.
  pub apply_update-IsUpdated :
      (now : ℕ) (upd : TaskUpdate Plugin) (t : TaskEntry Plugin Probe)
      → IsUsable std (core t.config)
      → (apply_update std now upd t).1 ≡ none
      → IsUpdated now (apply_update std now upd t).0
  unfolding apply_update IsNear
  apply_update-IsUpdated now upd t v =
      on_ok-keeps IsNear (IsUpdated now) (set_volumes std upd.volumes t) (from_threads std now upd)
        (set_volumes-IsNearly upd.volumes t v.nearly)
        (λ t v e. from_threads-IsUpdated now upd t v e)
