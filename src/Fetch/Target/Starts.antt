-- ===== src/Fetch/Target/Starts.antt =====
-- src/engine.rs, `resolve_target`: a target begins at the byte that is asked for.
use Prim.Native.String.{String}
use hydraria.Prelude.{
  ℕ, ◌≤◌, min, max, ◌≡◌, refl, List, length, Option, none, some, ltb, ◌==◌, wrapping_add,
  wrapping_sub, Bool-cases, inl, inr, arith,
}
use hydraria.Schedule.State.{VolumeMeta}
use hydraria.Fetch.Target.{
  Health, Resolved, no_upstream, empty, found, resolve_target, in_volume, with_url, from_config,
  volume_at,
}
use hydraria.Fetch.Target.Inside.{volume_at-holds}

-- A target begins at the byte that is asked for.
abbrev pub Starts : Resolved → ℕ → Type 0
Starts no_upstream span_start = Unit
Starts empty span_start = Unit
Starts (found t) span_start = t.merged_start ≡ span_start

with_url-Starts : (url : Option String) (a b s : ℕ) → Starts (with_url url a b s) s
unfolding with_url
with_url-Starts none a b s = tt
with_url-Starts (some url) a b s = refl

in_volume-Starts :
    (health : List Health) (idx attempt : ℕ) (vols : List VolumeMeta)
    (locator span_start span_end : ℕ) (v : Option VolumeMeta)
    → volume_at vols locator ≡ v
    → locator ≤ span_start
    → Starts (in_volume health idx attempt v span_start span_end) span_start
unfolding in_volume
in_volume-Starts health idx attempt vols locator span_start span_end none at before = tt
in_volume-Starts health idx attempt vols locator span_start span_end (some v) at before =
    let inside = volume_at-holds vols locator at in
    let first : max span_start v.offset ≡ span_start = omega (arith, inside.0) in
    rw first
      (elim (Bool-cases
        (ltb (min span_end (wrapping_sub (wrapping_add v.offset v.size) 1)) span_start)) [
          | inl nothing ↦ rw nothing tt
          | inr some_bytes ↦ rw some_bytes (elim (Bool-cases (length v.urls == 0)) [
            | inl bare ↦ rw bare tt
            | inr mirrors ↦ rw mirrors (with_url-Starts _ _ _ _)
          ])
        ])

pub resolve_target-Starts :
    (health : List Health) (urls : List String) (volumes : Option (List VolumeMeta))
    (idx attempt locator span_start span_end : ℕ)
    → locator ≤ span_start
    → Starts (resolve_target health urls volumes idx attempt locator span_start span_end) span_start
unfolding resolve_target from_config
resolve_target-Starts health urls none idx attempt locator span_start span_end before =
    elim (Bool-cases (length urls == 0)) [
      | inl bare ↦ rw bare tt
      | inr mirrors ↦ rw mirrors (with_url-Starts _ _ _ _)
    ]
resolve_target-Starts health urls (some vols) idx attempt locator span_start span_end before =
    in_volume-Starts health idx attempt vols locator span_start span_end _ refl before
