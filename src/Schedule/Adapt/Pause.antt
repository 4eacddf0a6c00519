-- ===== src/Schedule/Adapt/Pause.antt =====
-- src/schedule.rs: how long a refused worker waits.
use native.Mathlib.Nat.{one-le-pow, pow-le-pow_right}
use hydraria.Prelude.{
  ℕ, ◌+◌, ◌-◌, ◌*◌, ◌/◌, ◌^◌, ◌≤◌, ◌<◌, min, ◌≡◌, refl, false, Option, none, some, ◌==◌,
  if◌then◌else◌, arith, Bool-cases, inl, inr,
}
use hydraria.Schedule.State.{Scheduler}
use hydraria.Schedule.Adapt.{
  note_overload, longer_hint, scaled_pause, at_least, jitter, overload_backoff, IsTuned,
}

jitter-lt : (span worker : ℕ) → jitter span worker ≤ span - 1
unfolding jitter
jitter-lt span worker = elim (Bool-cases (span == 0)) [
  | inl none_there ↦ rw none_there (omega arith)
  | inr some_there ↦
      let positive : 0 < span = ground arith in rw some_there (omega (arith, positive))
]

scaled_pause-ge : (s : Scheduler) → 250_000_000 ≤ scaled_pause s
unfolding scaled_pause at_least
scaled_pause-ge s = least s.overload_hint (grows (s.overload_strikes - 1))
  where
    grows : (k : ℕ) → 250_000_000 ≤ min (250_000_000 * 2 ^ k) 8_000_000_000
    grows k = let positive : 1 ≤ 2 ^ k = one-le-pow k 2 (omega arith) in omega (arith, positive)

    least : (o : Option ℕ) {n : ℕ} → 250_000_000 ≤ n → 250_000_000 ≤ at_least n o
    least none h = h
    least (some hint) h = omega arith

-- A refused worker waits at least as long as the strikes and the origin ask, and less than twice that.
abbrev pub WaitsFrom : Option ℕ → ℕ → Type 0
WaitsFrom none least = least ≡ 0
WaitsFrom (some wait) least = least ≤ wait × (wait < 2 * least)

pub floor_of : Scheduler → ℕ
floor_of s = if s.overload_strikes == 0 then 0 else scaled_pause s

-- The pause of a worker lies between the floor and twice the floor.
pub overload_backoff-WaitsFrom :
    (s : Scheduler) (worker : ℕ) → WaitsFrom (overload_backoff s worker) (floor_of s)
unfolding overload_backoff floor_of
overload_backoff-WaitsFrom s worker = elim (Bool-cases (s.overload_strikes == 0)) [
  | inl healthy ↦ rw healthy refl
  | inr refused ↦
      rw refused (
        omega arith,
        omega (arith, jitter-lt (scaled_pause s / 1_000_000) worker, scaled_pause-ge s),
      )
]

at_least-longer :
    (a b : ℕ) (current asked : Option ℕ)
    → a ≤ b
    → at_least a current ≤ at_least b (longer_hint current asked)
unfolding at_least longer_hint
at_least-longer a b none none h = h
at_least-longer a b none (some hint) h = omega arith
at_least-longer a b (some cur) none h = omega arith
at_least-longer a b (some cur) (some hint) h = omega arith

at_least-asked :
    (a hint : ℕ) (current : Option ℕ) → hint ≤ at_least a (longer_hint current (some hint))
unfolding at_least longer_hint
at_least-asked a hint none = omega arith
at_least-asked a hint (some cur) = omega arith

-- In a tuned scheduler, a refusal never shortens the pause before the next claim, leaves one that
-- is not 0 and no shorter than the origin asks for, and keeps the scheduler tuned.
pub note_overload-escalates :
    (s : Scheduler) (retry_after : Option ℕ)
    → IsTuned s
    → (floor_of s ≤ floor_of (note_overload s retry_after))
      × (0 < floor_of (note_overload s retry_after))
      × ((hint : ℕ) → retry_after ≡ some hint → hint ≤ floor_of (note_overload s retry_after))
      × IsTuned (note_overload s retry_after)
unfolding note_overload floor_of scaled_pause
note_overload-escalates s retry_after v =
    let struck : min (s.overload_strikes + 1) 6 == 0 ≡ false = ground arith in
    let more : s.overload_strikes - 1 ≤ min (s.overload_strikes + 1) 6 - 1 =
      omega (arith, v.strikes) in
    let longer : 2 ^ (s.overload_strikes - 1) ≤ 2 ^ (min (s.overload_strikes + 1) 6 - 1) =
      pow-le-pow_right (omega arith) more in
    let base = scaled_pause-ge (note_overload s retry_after) in
    let mono =
      at_least-longer (min (250_000_000 * 2 ^ (s.overload_strikes - 1)) 8_000_000_000)
        (min (250_000_000 * 2 ^ (min (s.overload_strikes + 1) 6 - 1)) 8_000_000_000) s.overload_hint
        retry_after (omega (arith, longer)) in
    let low : floor_of s ≤ scaled_pause (note_overload s retry_after) =
      elim (Bool-cases (s.overload_strikes == 0)) [
        | inl healthy ↦ rw healthy (omega arith)
        | inr refused ↦ rw refused mono
      ] in
    rw struck (
      low,
      omega (arith, base),
      λ hint e. rw e (at_least-asked _ hint s.overload_hint),
      record { limited = v.limited; memory = v.memory; strikes = omega arith },
    )
