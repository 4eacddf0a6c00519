-- ===== src/Plan.antt =====
-- src/engine.rs: the ranges that a request is cut into.
pub mod Tiling
pub mod Slicing
pub mod Tests
use hydraria.Prelude.{
  ℕ, zero, suc, ◌+◌, ◌-◌, ◌≤◌, ◌<◌, min, max, ◌≡◌, Bool, true, false, ◌||◌, ◌&&◌, List, [], ◌∷◌,
  ◌++◌, Option, none, some, ltb, leb, ◌==◌, if◌then◌else◌, wrapping_add, wrapping_sub,
}
use hydraria.Schedule.State.{VolumeMeta}

abbrev pub Chunks : Type 0
Chunks = List (ℕ × ℕ)

-- The `while cur <= end` loop of `plan_chunks`, on fuel.
pub cut : ℕ → ℕ → ℕ → ℕ → Chunks
cut zero split cur end = []
cut (suc fuel) split cur end =
    let stop = min (wrapping_sub (wrapping_add cur split) 1) end in
    let rest = cut fuel split (wrapping_add stop 1) end in
    if leb cur end then (cur, stop) ∷ rest else []

-- One volume: its part of `[start, end]`, in chunks.
pub cut_volume : ℕ → ℕ → ℕ → VolumeMeta → Chunks
cut_volume split start end v =
    let v_end = wrapping_sub (wrapping_add v.offset v.size) 1 in
    if v.size == 0 || (ltb v_end start || ltb end v.offset)
    then []
    else cut (suc (min v_end end) - max v.offset start) split (max v.offset start) (min v_end end)

pub cut_volumes : ℕ → ℕ → ℕ → List VolumeMeta → Chunks
cut_volumes split start end [] = []
cut_volumes split start end (v ∷ vs) =
    cut_volume split start end v ++ cut_volumes split start end vs

pub plan_chunks : ℕ → ℕ → ℕ → Option (List VolumeMeta) → Chunks
plan_chunks start end split none = cut (suc end - start) (max split 1) start end
plan_chunks start end split (some vols) = cut_volumes (max split 1) start end vols

-- The loop of `plan_chunks_with_head`, with `count` small chunks still to emit.
pub cut_head : ℕ → ℕ → Chunks → Chunks
cut_head small zero plan = plan
cut_head small (suc count) [] = []
cut_head small (suc count) ((cs, ce) ∷ rest) =
    let whole = (cs, ce) ∷ cut_head small count rest in
    let head_end = wrapping_sub (wrapping_add cs small) 1 in
    let pieces = (cs, head_end) ∷ cut_head small count ((wrapping_add head_end 1, ce) ∷ rest) in
    if leb (wrapping_add (wrapping_sub ce cs) 1) small then whole else pieces

head_of : Option (ℕ × ℕ) → Chunks → Chunks
head_of none plan = plan
head_of (some (small, count)) plan =
    if ltb 0 small && ltb 0 count then cut_head small count plan else plan

pub plan_chunks_with_head : ℕ → ℕ → ℕ → Option (List VolumeMeta) → Option (ℕ × ℕ) → Chunks
unfolding head_of
plan_chunks_with_head start end split volumes head =
    head_of head (plan_chunks start end split volumes)

-- The parts of a span in each volume.
pub slice_each : ℕ → ℕ → List VolumeMeta → Chunks
slice_each start end [] = []
slice_each start end (v ∷ vs) =
    let v_end = wrapping_sub (wrapping_add v.offset v.size) 1 in
    let rest = slice_each start end vs in
    let s = max start v.offset in
    let e = min end v_end in
    if v.size == 0 || (ltb v_end start || ltb end v.offset)
    then rest
    else if leb s e
    then (s, e) ∷ rest
    else rest

or_whole : ℕ × ℕ → Chunks → Chunks
or_whole span [] = span ∷ []
or_whole span (c ∷ cs) = c ∷ cs

pub slice_span_by_volumes : Option (List VolumeMeta) → ℕ → ℕ → Chunks
unfolding or_whole
slice_span_by_volumes none start end = (start, end) ∷ []
slice_span_by_volumes (some vols) start end = or_whole (start, end) (slice_each start end vols)

-- Chunks, none empty, that follow one another from `from` up to `to`, which is not in them.
abbrev pub Tiles : ℕ → ℕ → Chunks → Type 0
Tiles from to [] = from ≡ to
Tiles from to ((s, e) ∷ rest) = (s ≡ from) × (s ≤ e) × Tiles (e + 1) to rest

-- No chunk is longer than `split`.
abbrev pub AllWithin : ℕ → Chunks → Type 0
AllWithin split [] = Unit {0}
AllWithin split ((s, e) ∷ rest) = (e < s + split) × AllWithin split rest

-- None of the first `count` chunks is longer than `small`.
abbrev pub HeadWithin : ℕ → ℕ → Chunks → Type 0
HeadWithin small zero plan = Unit {0}
HeadWithin small (suc count) [] = Unit {0}
HeadWithin small (suc count) ((s, e) ∷ rest) = (e < s + small) × HeadWithin small count rest

unfoldable pub sizes : List VolumeMeta → ℕ
sizes [] = 0
sizes (v ∷ vs) = v.size + sizes vs
