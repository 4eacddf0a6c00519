-- ===== src/Streaming.antt =====
-- src/engine.rs, `stream_range`: which chunk of a request gets a fetcher when, and the serializer
-- that passes the chunks on in the order of the plan. A vector that is indexed below its length is a
-- function. `fetchers` are the fetchers that have not sent their release.
pub mod Run
pub mod Windows
pub mod Spawning
pub mod Warming
use hydraria.Prelude.{
  ℕ, zero, suc, ◌+◌, ◌-◌, ◌*◌, min, max, Bool, true, false, not, ◌&&◌, ◌||◌, List, [], ◌∷◌, ◌++◌,
  map, Option, none, some, length, get_elem?, replicate, ltb, leb, ◌==◌, if◌then◌else◌,
  wrapping_add, saturating_add, saturating_mul,
}
use hydraria.Schedule.State.{VolumeMeta}
use hydraria.Fetch.Stream.Attempts.{ProxyError}
use hydraria.Plan.{Chunks, plan_chunks_with_head}

-- `position`, from the volume with index `i` on.
volume_index : ℕ → ℕ → List VolumeMeta → ℕ
volume_index i cs [] = 0
volume_index i cs (v ∷ vs) =
    let later = volume_index (i + 1) cs vs in
    if ltb 0 v.size && leb v.offset cs && ltb cs (wrapping_add v.offset v.size) then i else later

plan_volume_indices : Chunks → Option (List VolumeMeta) → List ℕ
unfolding volume_index
plan_volume_indices plan none = replicate (length plan) 0
plan_volume_indices plan (some vols) = map (λ chunk. volume_index 0 chunk.0 vols) plan

-- What `stream_range` fixes at its start.
pub record Request : Type 0 where
  pub max_threads : ℕ
  pub max_per_volume : ℕ
  pub total_chunks : ℕ
  pub vol_count : ℕ
  pub vol_of : List ℕ
  pub open_ended : Bool

pub record Config : Type 0 where
  pub max_split : ℕ
  pub max_threads : ℕ
  pub max_per_volume : ℕ
  pub volumes : Option (List VolumeMeta)

volumes_of : Option (List VolumeMeta) → ℕ
volumes_of none = 1
volumes_of (some vols) = length vols

pub request_of : Config → ℕ → ℕ → Bool → Request
unfolding plan_volume_indices volumes_of
request_of c start end open_ended =
    let split = max c.max_split (64 * 1024) in
    let head_split = if open_ended && ltb (256 * 1024) split then some (256 * 1024, 4) else none in
    let plan = plan_chunks_with_head start end split c.volumes head_split in
    record {
      max_threads = max c.max_threads 1;
      max_per_volume = max c.max_per_volume 1;
      total_chunks = length plan;
      vol_count = max (volumes_of c.volumes) 1;
      vol_of = plan_volume_indices plan c.volumes;
      open_ended = open_ended;
    }

pub record Window : Type 0 where
  pub spawned : ℕ → Bool
  pub senders : ℕ → Bool
  pub per_vol : ℕ → ℕ
  pub total_in_flight : ℕ
  pub fetchers : List ℕ

abbrev pub update {ℓ} : {A : Type ℓ} → (ℕ → A) → ℕ → A → ℕ → A
update f i a j = if j == i then a else f j

-- `vol_of.get(idx).copied().unwrap_or(0)`
pub vol_at : Request → ℕ → ℕ
vol_at r idx = elim (get_elem? r.vol_of idx) [ none ↦ 0 | some vi ↦ vi ]

-- The sender is taken, the volume and the whole count one more, and a fetcher is spawned.
pub spawn_fetch : Request → ℕ → Window → Window
spawn_fetch r idx w = record {
  spawned = update w.spawned idx true;
  senders = update w.senders idx false;
  per_vol = update w.per_vol (vol_at r idx) (w.per_vol (vol_at r idx) + 1);
  total_in_flight = w.total_in_flight + 1;
  fetchers = w.fetchers ++ idx ∷ [];
}

-- The first of `count` indices from `at` on that passes the test.
pub first : (ℕ → Bool) → ℕ → ℕ → Option ℕ
first test at zero = none
first test at (suc count) =
    let later = first test (at + 1) count in if test at then some at else later

-- The strict pass, else the overflow pass.
abbrev pub has_room : Request → Window → ℕ → Bool
has_room r w idx = not (w.spawned idx) && ltb (w.per_vol (vol_at r idx)) r.max_per_volume

overflowing : ℕ → Window → Option ℕ → Option ℕ
overflowing limit w none = first (λ idx. not (w.spawned idx)) 0 limit
overflowing limit w (some idx) = some idx

pub pick : Request → ℕ → Window → Option ℕ
unfolding overflowing
pick r limit w = overflowing limit w (first (has_room r w) 0 limit)

take_sender : Request → ℕ → Window → Window
unfolding spawn_fetch
take_sender r idx w =
    if w.senders idx then spawn_fetch r idx w else record w { spawned = update w.spawned idx true }

-- The `while` loop, on fuel.
pub spawn_loop : ℕ → Request → ℕ → Window → Window
unfolding take_sender
spawn_loop zero r limit w = w
spawn_loop (suc fuel) r limit w =
    let round : Window = elim (pick r limit w) [
      | none ↦ w
      | some idx ↦ spawn_loop fuel r limit (take_sender r idx w)
    ] in
    if ltb w.total_in_flight r.max_threads then round else w

-- Where the window ends for a serializer at `head`.
pub limit_at : Request → ℕ → ℕ
limit_at r head =
    let window_end = saturating_add head (saturating_mul r.max_threads 2) in
    min r.total_chunks (max window_end (head + 1))

pub try_spawn_more : Request → ℕ → Window → Window
try_spawn_more r head w = spawn_loop (limit_at r head) r (limit_at r head) w

-- A release event.
pub count_down : Request → ℕ → Window → Window
count_down r vi w = record w {
  per_vol =
      if ltb vi r.vol_count && ltb 0 (w.per_vol vi)
      then update w.per_vol vi (w.per_vol vi - 1)
      else w.per_vol;
  total_in_flight = w.total_in_flight - 1;
}

pub count_down_all : Request → List ℕ → Window → Window
count_down_all r [] w = w
count_down_all r (vi ∷ vis) w = count_down_all r vis (count_down r vi w)

-- `covered`, as it is before the warm-up.
covers : Request → Window → ℕ → Bool
covers r w vi = elim (first (λ idx. w.spawned idx && vol_at r idx == vi) 0 r.total_chunks) [
  | none ↦ false
  | some idx ↦ true
]

warm : Request → Window × ℕ → Option ℕ → Window × ℕ
warm r (w, budget) none = (w, budget)
warm r (w, budget) (some idx) =
    if not (w.spawned idx) && w.senders idx then (spawn_fetch r idx w, budget - 1) else (w, budget)

pub warm_loop : ℕ → Request → Window → ℕ → Window × ℕ → Window × ℕ
unfolding covers warm
warm_loop zero r before vi s = s
warm_loop (suc rounds) r before vi s =
    let first_of = first (λ idx. vol_at r idx == vi) 0 r.total_chunks in
    warm_loop rounds r before (vi + 1)
      (if s.1 == 0 || covers r before vi then s else warm r s first_of)

abbrev pub warmup_next_vols : Request → ℕ
warmup_next_vols r = if r.open_ended then 1 else r.vol_count

pub warm_up : Request → Window → Window
warm_up r w =
    if ltb 1 r.vol_count && ltb 0 (warmup_next_vols r)
    then (warm_loop r.vol_count r w 0 (w, warmup_next_vols r)).0
    else w

abbrev pub new_window : Window
new_window = record {
  spawned = λ idx. false;
  senders = λ idx. true;
  per_vol = λ vi. 0;
  total_in_flight = 0;
  fetchers = [];
}

pub first_window : Request → Window
first_window r = warm_up r (try_spawn_more r 0 new_window)
