-- ===== src/Fetch/Target/Inside.antt =====
-- src/engine.rs, `resolve_target`: the request lies in one volume and goes to one of its mirrors.
use Prim.Native.String.{String}
use hydraria.Prelude.{
  ℕ, zero, suc, ◌+◌, ◌-◌, ◌%◌, ◌≤◌, ◌<◌, min, max, ◌≡◌, refl, false, ◌&&◌, List, [], ◌∷◌, map, some,
  length, get_elem?, ltb, leb, ◌==◌, arith, Bool-cases, if_holds, inl, inr, u64_mod, wrapping_add,
  wrapping_sub,
}
use hydraria.Schedule.State.{VolumeMeta}
use hydraria.Fetch.Target.{
  Health, weight_of, sum, walk, pick_mirror_weighted, volume_at, FetchTarget, found, with_url,
  mirror_index, in_volume, resolve_target,
}

walk-lt :
    (ws : List ℕ) (pick i last bound : ℕ)
    → i + length ws ≤ bound
    → last < bound
    → walk ws pick i last < bound
unfolding walk
walk-lt [] pick i last bound p q = q
walk-lt (w ∷ ws) pick i last bound p q =
    if_holds (λ n. n < bound) (ltb pick w) i (walk ws (pick - w) (i + 1) last) (omega arith)
      (walk-lt ws (pick - w) (i + 1) last bound (omega arith) q)

length-map {ℓ κ} :
    {A : Type ℓ} {B : Type κ} (f : A → B) (xs : List A) → length (map f xs) ≡ length xs
length-map f [] = refl
length-map f (x ∷ xs) = omega (arith, length-map f xs)

mod-lt : (a n : ℕ) → 0 < n → a % n < n
mod-lt a n h = omega arith

-- Where there are mirrors, the index of the mirror that is picked, by weight or by rotation, is
-- the index of one.
pub mirror_index-lt :
    (health : List Health) (urls : List String) (idx attempt : ℕ)
    → 0 < length urls
    → mirror_index health urls idx attempt < length urls
unfolding mirror_index pick_mirror_weighted
mirror_index-lt health urls idx attempt h =
    if_holds (λ n. n < length urls) (attempt == 0 && ltb 1 (length urls)) _ _
      (if_holds (λ n. n < length urls) (sum (map (weight_of health) urls) == 0) _ _
        (mod-lt idx (length urls) h)
        (walk-lt (map (weight_of health) urls) _ 0 (length urls - 1) (length urls)
          (omega (arith, length-map (weight_of health) urls)) (omega arith)))
      (mod-lt (wrapping_add idx attempt) (length urls) h)

get_some {ℓ} :
    {A : Type ℓ} (xs : List A) (i : ℕ) → i < length xs → (a : A) × (get_elem? xs i ≡ some a)
get_some [] i h = absurd (omega arith)
get_some (x ∷ xs) zero h = (x, refl)
get_some (x ∷ xs) (suc i) h = get_some xs i (omega arith)

-- A request for the part of a span that lies in a volume, from one of the volume's mirrors.
pub record IsRequest (v : VolumeMeta) (span_start span_end : ℕ) (t : FetchTarget) : Type 0 where
  pub starts : t.merged_start ≡ max span_start v.offset
  pub start_in_volume : t.local_start + v.offset ≡ t.merged_start
  pub end_in_volume : t.local_end + v.offset ≡ min span_end (v.offset + v.size - 1)
  pub some_bytes : t.local_start ≤ t.local_end
  pub fits : t.local_end < v.size
  pub mirror : (i : ℕ) × (get_elem? v.urls i ≡ some t.url)

in_volume-IsRequest :
    (health : List Health) (idx attempt : ℕ) (v : VolumeMeta) (span_start span_end : ℕ)
    → 0 < length v.urls
    → v.offset + v.size < u64_mod
    → span_start ≤ span_end
    → v.offset ≤ span_end
    → span_start < v.offset + v.size
    → 0 < v.size
    → (t : FetchTarget) × (in_volume health idx attempt (some v) span_start span_end ≡ found t)
      × IsRequest v span_start span_end t
unfolding in_volume with_url
in_volume-IsRequest health idx attempt v span_start span_end mirrors w ordered p q filled =
    let (url, e) =
      get_some v.urls (mirror_index health v.urls idx attempt)
        (mirror_index-lt health v.urls idx attempt mirrors) in
    let last : wrapping_sub (wrapping_add v.offset v.size) 1 ≡ v.offset + v.size - 1 =
      omega arith in
    let overlaps : ltb (min span_end (v.offset + v.size - 1)) (max span_start v.offset) ≡ false =
      ground arith in
    let has_mirror : length v.urls == 0 ≡ false = ground arith in
    (
      record {
        url = url;
        local_start = max span_start v.offset - v.offset;
        local_end = min span_end (v.offset + v.size - 1) - v.offset;
        merged_start = max span_start v.offset;
      },
      rw (last, overlaps, has_mirror, e) refl,
      record {
        starts = refl;
        start_in_volume = omega arith;
        end_in_volume = omega arith;
        some_bytes = omega arith;
        fits = omega arith;
        mirror = (mirror_index health v.urls idx attempt, e);
      },
    )

pub volume_at-holds :
    (vs : List VolumeMeta) (locator : ℕ) {v : VolumeMeta}
    → volume_at vs locator ≡ some v
    → (v.offset ≤ locator) × (locator < wrapping_add v.offset v.size)
unfolding volume_at
volume_at-holds [] locator e = cc
volume_at-holds (k ∷ vs) locator {v} e =
    elim (Bool-cases (leb k.offset locator && ltb locator (wrapping_add k.offset k.size))) [
      | inl here ↦
          let same : k ≡ v = let e' = rw here at e in cc in rw (← same) (ground arith, ground arith)
      | inr later ↦ volume_at-holds vs locator (rw later at e)
    ]

-- For a span that begins in the volume of the locator and not before the locator,
-- `resolve_target` asks one of the mirrors of that volume for the part of the span that lies in
-- it, in the coordinates of the volume, and that part begins where the span does.
pub resolve_target-IsRequest :
    (health : List Health) (urls : List String) (vols : List VolumeMeta)
    (idx attempt locator span_start span_end : ℕ) (v : VolumeMeta)
    → volume_at vols locator ≡ some v
    → 0 < length v.urls
    → v.offset + v.size < u64_mod
    → locator ≤ span_start
    → span_start ≤ span_end
    → span_start < v.offset + v.size
    → (t : FetchTarget) × (resolve_target health urls
          (some vols)
          idx
          attempt
          locator
          span_start
          span_end
        ≡ found t)
      × IsRequest v span_start span_end t
      × (t.merged_start ≡ span_start)
unfolding resolve_target
resolve_target-IsRequest health urls vols idx attempt locator span_start span_end v at mirrors w
      before ordered q =
    let (low, high) = volume_at-holds vols locator at in
    let (t, e, r) =
      in_volume-IsRequest health idx attempt v span_start span_end mirrors w ordered (omega arith) q
        (omega arith) in
    (t, rw at e, r, omega (arith, r.starts))
