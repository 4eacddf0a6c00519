-- ===== src/Plan/Tiling.antt =====
-- The chunks of a plan tile the request.
use hydraria.Prelude.{
  ℕ, zero, suc, ◌+◌, ◌-◌, ◌≤◌, ◌<◌, min, max, ◌≡◌, refl, true, false, ◌||◌, ◌&&◌, List, [], ◌∷◌,
  ◌++◌, Option, none, some, ltb, leb, ◌==◌, wrapping_add, wrapping_sub, u64_mod, arith, Bool-cases,
  inl, inr,
}
use hydraria.Schedule.State.{VolumeMeta}
use hydraria.Schedule.State.Layout.{IsConsecutive}
use hydraria.Plan.{
  Chunks, cut, cut_volume, cut_volumes, plan_chunks, cut_head, plan_chunks_with_head, Tiles,
  AllWithin, HeadWithin, sizes, head_of,
}

Tiles-append :
    (from mid to : ℕ) (xs ys : Chunks)
    → Tiles from mid xs
    → Tiles mid to ys
    → Tiles from to (xs ++ ys)
Tiles-append from mid to [] ys p q = rw p q
Tiles-append from mid to (x ∷ xs) ys p q = (p.0, p.1, Tiles-append (x.1 + 1) mid to xs ys p.2 q)

AllWithin-append :
    (split : ℕ) (xs ys : Chunks)
    → AllWithin split xs
    → AllWithin split ys
    → AllWithin split (xs ++ ys)
AllWithin-append split [] ys p q = q
AllWithin-append split (x ∷ xs) ys p q = (p.0, AllWithin-append split xs ys p.1 q)

module _ (split : ℕ) (positive : 0 < split) where
  cut-Tiles :
      (fuel cur end : ℕ)
      → cur ≤ end + 1
      → end + split < u64_mod
      → end < cur + fuel
      → Tiles cur (end + 1) (cut fuel split cur end)
  unfolding cut
  cut-Tiles zero cur end h w f = omega arith
  cut-Tiles (suc fuel) cur end h w f = elim (Bool-cases (leb cur end)) [
    | inl here ↦
        let stop = min (cur + split - 1) end in
        let s₀ : wrapping_sub (wrapping_add cur split) 1 ≡ cur + split - 1 = ground arith in
        let s₁ : wrapping_add stop 1 ≡ stop + 1 = omega arith in
        let lower : cur ≤ stop = ground arith in
        rw (here, s₀, s₁) (refl, lower, cut-Tiles fuel (stop + 1) end (omega arith) w (omega arith))
    | inr over ↦ rw over (ground arith)
  ]

  cut-AllWithin :
      (fuel cur end : ℕ)
      → cur ≤ end + 1
      → end + split < u64_mod
      → AllWithin split (cut fuel split cur end)
  unfolding cut
  cut-AllWithin zero cur end h w = tt
  cut-AllWithin (suc fuel) cur end h w = elim (Bool-cases (leb cur end)) [
    | inl here ↦
        let stop = min (cur + split - 1) end in
        let s₀ : wrapping_sub (wrapping_add cur split) 1 ≡ cur + split - 1 = ground arith in
        let s₁ : wrapping_add stop 1 ≡ stop + 1 = omega arith in
        rw (here, s₀, s₁) (omega arith, cut-AllWithin fuel (stop + 1) end (omega arith) w)
    | inr over ↦ rw over tt
  ]

  module _ (start end : ℕ) (ordered : start ≤ end) (w : end + split < u64_mod) where
    -- The first byte of the request from `from` on, or the byte behind the request.
    abbrev at : ℕ → ℕ
    at from = min (max from start) (end + 1)

    module _ (from : ℕ) (v : VolumeMeta) (here : v.offset ≡ from)
        (fits : from + v.size < u64_mod) where
      cut_volume_lem :
          0 < v.size → wrapping_sub (wrapping_add v.offset v.size) 1 ≡ from + v.size - 1
      cut_volume_lem filled = omega arith

      cut_volume-Tiles : Tiles (at from) (at (from + v.size)) (cut_volume split start end v)
      unfolding cut_volume
      cut_volume-Tiles = elim (Bool-cases (v.size == 0)) [
        | inl empty ↦ rw empty (ground arith)
        | inr filled ↦
            let last = cut_volume_lem (ground arith) in
            let low : at from ≡ at v.offset = rw here refl in
            rw (filled, last, here)
              (elim (Bool-cases (ltb (from + v.size - 1) start || ltb end from)) [
                | inl apart ↦ rw apart (ground arith)
                | inr meets ↦
                    let a : at from ≡ max from start = ground arith in
                    let b : at (from + v.size) ≡ min (from + v.size - 1) end + 1 = ground arith in
                    rw (meets, a, b)
                      (cut-Tiles (suc (min (from + v.size - 1) end) - max from start)
                        (max from start) (min (from + v.size - 1) end) (ground arith) (omega arith)
                        (ground arith))
              ])
      ]

      cut_volume-AllWithin : AllWithin split (cut_volume split start end v)
      unfolding cut_volume
      cut_volume-AllWithin = elim (Bool-cases (v.size == 0)) [
        | inl empty ↦ rw empty tt
        | inr filled ↦
            let last = cut_volume_lem (ground arith) in
            rw (filled, last, here)
              (elim (Bool-cases (ltb (from + v.size - 1) start || ltb end from)) [
                | inl apart ↦ rw apart tt
                | inr meets ↦ rw meets (
                    cut-AllWithin (suc (min (from + v.size - 1) end) - max from start)
                      (max from start) (min (from + v.size - 1) end) (ground arith) (omega arith))
              ])
      ]

    cut_volumes-Tiles :
        (from : ℕ) (vs : List VolumeMeta)
        → IsConsecutive from vs
        → end < from + sizes vs
        → Tiles (at from) (end + 1) (cut_volumes split start end vs)
    unfolding cut_volumes sizes
    cut_volumes-Tiles from [] c h = omega arith
    cut_volumes-Tiles from (v ∷ vs) c h =
        Tiles-append (at from) (at (from + v.size)) (end + 1) (cut_volume split start end v)
          (cut_volumes split start end vs) (cut_volume-Tiles from v c.0 c.1)
          (cut_volumes-Tiles (from + v.size) vs c.2 (omega arith))

    cut_volumes-AllWithin :
        (from : ℕ) (vs : List VolumeMeta)
        → IsConsecutive from vs
        → AllWithin split (cut_volumes split start end vs)
    unfolding cut_volumes
    cut_volumes-AllWithin from [] c = tt
    cut_volumes-AllWithin from (v ∷ vs) c =
        AllWithin-append split (cut_volume split start end v) (cut_volumes split start end vs)
          (cut_volume-AllWithin from v c.0 c.1) (cut_volumes-AllWithin (from + v.size) vs c.2)

-- Volumes that hold the request, or no volumes.
abbrev pub Holds : ℕ → Option (List VolumeMeta) → Type 0
Holds end none = Unit {0}
Holds end (some vols) = IsConsecutive 0 vols × (end < sizes vols)

-- For a request inside volumes that follow one another, or without volumes, whose arithmetic
-- stays within 64 bits, the chunks of `plan_chunks` follow one another from the first byte of the
-- request to the last, none is empty, and none is longer than the split, or one byte where the
-- split is 0.
pub plan_chunks-Tiles :
    (start end split : ℕ) (volumes : Option (List VolumeMeta))
    → start ≤ end
    → end + max split 1 < u64_mod
    → Holds end volumes
    → Tiles start (end + 1) (plan_chunks start end split volumes)
      × AllWithin (max split 1) (plan_chunks start end split volumes)
unfolding plan_chunks
plan_chunks-Tiles start end split none h w tiled = (
  cut-Tiles (max split 1) (omega arith) (suc end - start) start end (omega arith) w (omega arith),
  cut-AllWithin (max split 1) (omega arith) (suc end - start) start end (omega arith) w,
)
plan_chunks-Tiles start end split (some vols) h w tiled =
    let first : min (max 0 start) (end + 1) ≡ start = omega arith in
    (
      rw first at (
          cut_volumes-Tiles (max split 1) (omega arith) start end h w 0 vols tiled.0
            (omega (arith, tiled.1))),
      cut_volumes-AllWithin (max split 1) (omega arith) start end h w 0 vols tiled.0,
    )

Tiles-le : (from to : ℕ) (plan : Chunks) → Tiles from to plan → from ≤ to
Tiles-le from to [] t = omega (arith, t)
Tiles-le from to ((s, e) ∷ rest) t = omega (arith, t.0, t.1, Tiles-le (e + 1) to rest t.2)

module _ (small : ℕ) (positive : 0 < small) (to : ℕ) (w : to + small < u64_mod) where
  cut_head-Tiles :
      (count from : ℕ) (plan : Chunks)
      → Tiles from to plan
      → Tiles from to (cut_head small count plan)
        × HeadWithin small count (cut_head small count plan)
  unfolding cut_head
  cut_head-Tiles zero from plan t = (t, tt)
  cut_head-Tiles (suc count) from [] t = (t, tt)
  cut_head-Tiles (suc count) from ((cs, ce) ∷ rest) t =
      let top = Tiles-le (ce + 1) to rest t.2 in
      let ordered = t.1 in
      let size : wrapping_add (wrapping_sub ce cs) 1 ≡ ce - cs + 1 = omega arith in
      let stop : wrapping_sub (wrapping_add cs small) 1 ≡ cs + small - 1 = omega arith in
      let next : wrapping_add (cs + small - 1) 1 ≡ cs + small - 1 + 1 = omega arith in
      rw (size, stop, next)
        (elim (Bool-cases (leb (ce - cs + 1) small)) [
          | inl short ↦
              let ih = cut_head-Tiles count (ce + 1) rest t.2 in
              rw short ((t.0, t.1, ih.0), (ground arith, ih.1))
          | inr long ↦
              let ih =
                cut_head-Tiles count (cs + small - 1 + 1) ((cs + small - 1 + 1, ce) ∷ rest)
                  (refl, ground arith, t.2) in
              rw long ((t.0, omega arith, ih.0), (omega arith, ih.1))
        ])

-- For such a request, the chunks of `plan_chunks_with_head` tile the request too, and of the
-- first `count` none is longer than the size of a small chunk, where that is not 0.
pub plan_chunks_with_head-Tiles :
    (start end split small count : ℕ) (volumes : Option (List VolumeMeta))
    → start ≤ end
    → end + max split 1 < u64_mod
    → end + small + 1 < u64_mod
    → 0 < small
    → Holds end volumes
    → Tiles start (end + 1) (plan_chunks_with_head start end split volumes (some (small, count)))
      × HeadWithin small count (plan_chunks_with_head start end split volumes (some (small, count)))
unfolding plan_chunks_with_head head_of
plan_chunks_with_head-Tiles start end split small zero volumes h w w' p tiled =
    let shut : (ltb 0 small && ltb 0 zero) ≡ false = ground arith in
    rw shut ((plan_chunks-Tiles start end split volumes h w tiled).0, tt)
plan_chunks_with_head-Tiles start end split small (suc count) volumes h w w' p tiled =
    let on : (ltb 0 small && ltb 0 (suc count)) ≡ true = ground arith in
    rw on (
      cut_head-Tiles small p (end + 1) (omega arith) (suc count) start
        (plan_chunks start end split volumes)
        (plan_chunks-Tiles start end split volumes h w tiled).0)
