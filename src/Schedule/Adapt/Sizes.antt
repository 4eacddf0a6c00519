-- ===== src/Schedule/Adapt/Sizes.antt =====
-- src/schedule.rs: the sizes stay within their bounds, and the wall only tightens.
use native.Mathlib.Nat.{pow-suc}
use hydraria.Prelude.{
  ℕ, zero, suc, ◌-◌, ◌*◌, ◌^◌, ◌≤◌, ◌<◌, min, ◌≡◌, refl, Bool, true, Option, none, some, ltb, leb,
  arith, Bool-cases, inl, inr, u64_max,
}
use hydraria.Schedule.State.{Scheduler, Claim, min_claim, min_fragment}
use hydraria.Schedule.Sizing.{claim_len, capped}
use hydraria.Schedule.Adapt.{
  Wall, wall_record, succeeded, shrink, remember, grow, note_claim_outcome, IsWall, IsMemory,
  IsLimit, IsTuned,
}

wall_record-IsWall :
    (now : ℕ) (wall : Wall) (bytes : ℕ)
    → min_claim ≤ bytes
    → bytes ≤ u64_max
    → IsWall wall
    → IsWall (wall_record now wall bytes)
unfolding wall_record
wall_record-IsWall now none bytes p q v = (p, q)
wall_record-IsWall now (some (prev, at)) bytes p q v = ground arith

remember-IsMemory :
    (now : ℕ) (memory : Option Wall) (bytes : ℕ)
    → min_claim ≤ bytes
    → bytes ≤ u64_max
    → IsMemory memory
    → IsMemory (remember now memory bytes)
unfolding remember
remember-IsMemory now none bytes p q v = tt
remember-IsMemory now (some wall) bytes p q v = wall_record-IsWall now wall bytes p q v

grow-IsLimit : (limit : Option ℕ) (wall : ℕ) → IsLimit limit wall → IsLimit (grow limit wall) wall
unfolding grow
grow-IsLimit none wall v = v
grow-IsLimit (some limit) wall v = ground arith

-- What a failure does to the limit and the wall.
record Shrinks (s : Scheduler) (s' : Scheduler) : Type 0 where
  limited : IsLimit s'.auto_limit s'.auto_wall
  floor : min_claim ≤ s'.auto_wall
  ceiling : s'.auto_wall ≤ u64_max
  tightens : s'.auto_wall ≤ s.auto_wall
  strikes : s'.overload_strikes ≡ s.overload_strikes

shrink-Shrinks :
    (s : Scheduler) (limit : Option ℕ) (issued : ℕ)
    → IsLimit limit s.auto_wall
    → limit ≡ s.auto_limit
    → issued ≤ u64_max
    → Shrinks s (shrink s limit issued).0
unfolding shrink
shrink-Shrinks s none issued v e w = record {
  limited = omega arith;
  floor = omega arith;
  ceiling = omega arith;
  tightens = omega arith;
  strikes = refl;
}
shrink-Shrinks s (some limit) issued v e w = elim (Bool-cases (ltb limit issued)) [
  | inl older ↦ rw older (record {
    limited = rw (← e) v;
    floor = omega arith;
    ceiling = omega arith;
    tightens = omega arith;
    strikes = refl;
  })
  | inr counts ↦ rw counts (record {
    limited = omega arith;
    floor = omega arith;
    ceiling = omega arith;
    tightens = omega arith;
    strikes = refl;
  })
]

module _ (now : ℕ) (s : Scheduler) (v : IsTuned s) (ok : Bool) (claim : Claim)
    (issued : claim.issued ≤ u64_max) (cursor : ℕ) where
  -- After any outcome of a claim whose length is a 64-bit number, a tuned scheduler is tuned: its
  -- limit stays between the shortest claim and the wall, the wall that it remembers is no shorter
  -- than a claim, and its strikes do not exceed their bound.
  pub note_claim_outcome-IsTuned : IsTuned (note_claim_outcome now s ok claim cursor).0
  unfolding note_claim_outcome succeeded
  note_claim_outcome-IsTuned = elim (Bool-cases ok) [
    | inl good ↦ rw good (record {
      limited = grow-IsLimit s.auto_limit s.auto_wall v.limited;
      memory = v.memory;
      strikes = omega (arith, v.strikes);
    })
    | inr bad ↦ rw bad (elim (Bool-cases (leb min_fragment (cursor - claim.start))) [
      | inl carried ↦ rw carried v
      | inr empty ↦
          let f = shrink-Shrinks s s.auto_limit claim.issued v.limited refl issued in
          rw empty (record {
            limited = f.limited;
            memory = remember-IsMemory now s.wall_memory _ f.floor f.ceiling v.memory;
            strikes = omega (arith, f.strikes, v.strikes);
          })
    ])
  ]

  -- The wall only tightens.
  pub note_claim_outcome-tightens :
      (note_claim_outcome now s ok claim cursor).0.auto_wall ≤ s.auto_wall
  unfolding note_claim_outcome succeeded
  note_claim_outcome-tightens = elim (Bool-cases ok) [
    | inl good ↦ rw good (omega arith)
    | inr bad ↦ rw bad (elim (Bool-cases (leb min_fragment (cursor - claim.start))) [
      | inl carried ↦ rw carried (omega arith)
      | inr empty ↦
          rw empty (shrink-Shrinks s s.auto_limit claim.issued v.limited refl issued).tightens
    ])
  ]

-- In a tuned scheduler with a limit, a claim has at least one byte and no more bytes than the
-- limit and, where there is one that is not 0, the cap.
pub claim_len-within :
    (s : Scheduler) (limit : ℕ)
    → IsTuned s
    → s.auto_limit ≡ some limit
    → (1 ≤ claim_len s)
      × (claim_len s ≤ limit)
      × ((cap : ℕ) → s.split_cap ≡ some cap → 0 < cap → claim_len s ≤ cap)
unfolding claim_len
claim_len-within s limit v e =
    let b = limit_positive s.auto_limit s.auto_wall limit v.limited e in
    rw e (
      capped-positive s.split_cap _,
      capped-le s.split_cap _ limit (omega arith) b,
      λ cap f p. rw f (capped-cap cap _ p),
    )
  where
    limit_positive : (o : Option ℕ) (wall limit : ℕ) → IsLimit o wall → o ≡ some limit → 0 < limit
    limit_positive none wall limit v e = cc
    limit_positive (some l) wall limit v e = let same : l ≡ limit = cc in omega (arith, v.0, same)

    capped-positive : (o : Option ℕ) (n : ℕ) → 1 ≤ capped o n
    capped-positive none n = omega arith
    capped-positive (some c) n = omega arith

    capped-le : (o : Option ℕ) (n limit : ℕ) → n ≤ limit → 0 < limit → capped o n ≤ limit
    capped-le none n limit p q = omega arith
    capped-le (some c) n limit p q = omega arith

    capped-cap : (cap n : ℕ) → 0 < cap → capped (some cap) n ≤ cap
    capped-cap cap n p = omega arith

-- A row of completed claims.
pub completed : ℕ → Scheduler → Claim → ℕ → ℕ → Scheduler
completed now s claim cursor zero = s
completed now s claim cursor (suc n) =
    (note_claim_outcome now (completed now s claim cursor n) true claim cursor).0

grown : (limit wall n : ℕ) → Option ℕ
grown limit wall n = some (min (limit * 2 ^ n) wall)

completed-grown :
    (now : ℕ) (s : Scheduler) (claim : Claim) (cursor limit : ℕ) (n : ℕ)
    → s.auto_limit ≡ some limit
    → limit ≤ s.auto_wall
    → s.auto_wall ≤ u64_max
    → ((completed now s claim cursor n).auto_limit ≡ grown limit s.auto_wall n)
      × ((completed now s claim cursor n).auto_wall ≡ s.auto_wall)
unfolding completed note_claim_outcome succeeded grow grown
completed-grown now s claim cursor limit zero e p q =
    let once : limit * 2 ^ 0 ≡ limit = omega arith in
    let low : min limit s.auto_wall ≡ limit = omega arith in (rw (once, low) e, refl)
completed-grown now s claim cursor limit (suc n) e p q =
    let (l, w) = completed-grown now s claim cursor limit n e p q in
    let twice : limit * 2 ^ suc n ≡ limit * 2 ^ n * 2 = rw (pow-suc 2 n) (grind arith) in
    let next : min (min (min (limit * 2 ^ n) s.auto_wall * 2) u64_max) s.auto_wall
        ≡ min (limit * 2 ^ suc n) s.auto_wall =
      omega (arith, twice) in
    (rw (l, w, grow) (rw next refl), w)

pow-ge : (n : ℕ) → 44 ≤ n → 2 ^ 44 ≤ 2 ^ n
pow-ge zero h = absurd (omega arith)
pow-ge (suc n) h = elim (Bool-cases (leb 44 n)) [
  | inl later ↦ rw (pow-suc 2 n) (omega (arith, pow-ge n (ground arith)))
  | inr first ↦ let here : n ≡ 43 = ground arith in rw here (omega arith)
]

limit_floor :
    (o : Option ℕ) (wall limit : ℕ)
    → IsLimit o wall
    → o ≡ some limit
    → min_claim ≤ limit × (limit ≤ wall) × (wall ≤ u64_max)
limit_floor none wall limit v e = cc
limit_floor (some l) wall limit v e = let same : l ≡ limit = cc in rw (← same) v

-- From a tuned scheduler with a limit, after 44 completed claims or more the limit is the wall.
pub completed-recovers :
    (now : ℕ) (s : Scheduler) (claim : Claim) (cursor limit : ℕ) (n : ℕ)
    → IsTuned s
    → s.auto_limit ≡ some limit
    → 44 ≤ n
    → (completed now s claim cursor n).auto_limit ≡ some s.auto_wall
unfolding grown
completed-recovers now s claim cursor limit n v e h =
    let (low, high, top) = limit_floor s.auto_limit s.auto_wall limit v.limited e in
    let (l, w) = completed-grown now s claim cursor limit n e high top in
    let big = pow-ge n h in
    let product : 2 ^ 20 * 2 ^ n ≤ limit * 2 ^ n = grind arith in
    let enough : min (limit * 2 ^ n) s.auto_wall ≡ s.auto_wall = omega (arith, product, big) in
    rw l (rw enough refl)
