-- ===== src/Plan/Slicing.antt =====
-- src/engine.rs, `slice_span_by_volumes`: the parts tile the span.
use hydraria.Prelude.{
  ℕ, ◌+◌, ◌-◌, ◌≤◌, ◌<◌, min, max, ◌≡◌, refl, true, ◌||◌, List, [], ◌∷◌, Option, none, some, ltb,
  leb, ◌==◌, wrapping_add, wrapping_sub, u64_mod, arith, Bool-cases, inl, inr,
}
use hydraria.Schedule.State.{VolumeMeta}
use hydraria.Schedule.State.Layout.{IsConsecutive}
use hydraria.Plan.{Chunks, slice_each, slice_span_by_volumes, Tiles, sizes, or_whole}
use hydraria.Plan.Tiling.{Holds}

or_whole-Tiles :
    (start end : ℕ) (parts : Chunks)
    → start ≤ end
    → Tiles start (end + 1) parts
    → Tiles start (end + 1) (or_whole (start, end) parts)
unfolding or_whole
or_whole-Tiles start end [] h t = absurd (omega (arith, t))
or_whole-Tiles start end (c ∷ cs) h t = t

module _ (start end : ℕ) (ordered : start ≤ end) (w : end + 1 < u64_mod) where
  slice_each-Tiles :
      (from : ℕ) (vs : List VolumeMeta)
      → IsConsecutive from vs
      → end < from + sizes vs
      → Tiles (min (max from start) (end + 1)) (end + 1) (slice_each start end vs)
  unfolding slice_each sizes
  slice_each-Tiles from [] c h = omega arith
  slice_each-Tiles from (v ∷ vs) c h =
      let ih = slice_each-Tiles (from + v.size) vs c.2 (omega arith) in
      let here = c.0 in
      elim (Bool-cases (v.size == 0)) [
        | inl empty ↦
            let same : min (max (from + v.size) start) (end + 1) ≡ min (max from start) (end + 1) =
              ground arith in
            rw empty (rw same at ih)
        | inr filled ↦
            let last : wrapping_sub (wrapping_add v.offset v.size) 1 ≡ from + v.size - 1 =
              ground (arith, c.1) in
            rw (filled, last, here)
              (elim (Bool-cases (ltb (from + v.size - 1) start || ltb end from)) [
                | inl apart ↦
                    let same : min (max (from + v.size) start) (end + 1)
                        ≡ min (max from start) (end + 1) =
                      ground arith in
                    rw apart (rw same at ih)
                | inr meets ↦
                    let some_there : leb (max start from) (min end (from + v.size - 1)) ≡ true =
                      ground arith in
                    let next : min (max (from + v.size) start) (end + 1)
                        ≡ min end (from + v.size - 1) + 1 =
                      ground arith in
                    rw (meets, some_there) (ground arith, ground arith, rw next at ih)
              ])
      ]

-- For a span inside volumes that follow one another, or without volumes, the parts that
-- `slice_span_by_volumes` gives follow one another from its first byte to its last, and none is
-- empty.
pub slice_span_by_volumes-Tiles :
    (volumes : Option (List VolumeMeta)) (start end : ℕ)
    → start ≤ end
    → end + 1 < u64_mod
    → Holds end volumes
    → Tiles start (end + 1) (slice_span_by_volumes volumes start end)
unfolding slice_span_by_volumes
slice_span_by_volumes-Tiles none start end h w tiled = (refl, h, refl)
slice_span_by_volumes-Tiles (some vols) start end h w tiled =
    let first : min (max 0 start) (end + 1) ≡ start = omega arith in
    or_whole-Tiles start end (slice_each start end vols) h
      (rw first at (slice_each-Tiles start end h w 0 vols tiled.0 (omega (arith, tiled.1))))
