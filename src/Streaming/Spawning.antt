-- ===== src/Streaming/Spawning.antt =====
-- src/engine.rs, `try_spawn_more`: fetchers are spawned until the threads are in use
-- or every chunk of the window has had one.
use hydraria.Prelude.{
  ℕ, zero, suc, ◌+◌, ◌≤◌, ◌<◌, ◌≡◌, ◌⊎◌, inl, inr, Bool, true, false, not, none, some, ltb, ◌==◌,
  ==_iff, if◌then◌else◌, arith, Bool-cases, Option-cases,
}
use hydraria.Streaming.{
  Request, Window, spawn_fetch, first, has_room, overflowing, pick, take_sender, spawn_loop,
  limit_at, try_spawn_more,
}
use hydraria.Streaming.Windows.{first-none, first-some, IsSound, spawn_fetch-IsSound}

pick-some :
    (r : Request) (limit : ℕ) (w : Window) (idx : ℕ)
    → pick r limit w ≡ some idx
    → (w.spawned idx ≡ false) × (idx < limit)
unfolding pick overflowing
pick-some r limit w idx e = elim (Option-cases (first (has_room r w) 0 limit)) [
  | inl full ↦
      let found : first (λ j. not (w.spawned j)) 0 limit ≡ some idx = rw full at e in
      ground (arith, first-some (λ j. not (w.spawned j)) 0 limit idx found)
  | inr (i, strict) ↦ ground (arith, first-some (has_room r w) 0 limit i strict)
]

pick-none :
    (r : Request) (limit : ℕ) (w : Window) (idx : ℕ)
    → pick r limit w ≡ none
    → idx < limit
    → w.spawned idx ≡ true
unfolding pick overflowing
pick-none r limit w idx e h = elim (Option-cases (first (has_room r w) 0 limit)) [
  | inl full ↦
      let found : first (λ j. not (w.spawned j)) 0 limit ≡ none = rw full at e in
      ground (arith, first-none (λ j. not (w.spawned j)) 0 limit idx found)
  | inr (i, strict) ↦ ground arith
]

-- What holds of a window behind the loop, whatever the serializer has done since.
abbrev pub IsFull : Request → ℕ → Window → Type 0
IsFull r limit w =
    (r.max_threads ≤ w.total_in_flight) ⊎ ((idx : ℕ) → idx < limit → w.spawned idx ≡ true)

-- The chunks below `n` that have had no fetcher.
missing : Window → ℕ → ℕ
missing w zero = 0
missing w (suc n) = (if w.spawned n then 0 else 1) + missing w n

missing-le : (w : Window) (n : ℕ) → missing w n ≤ n
unfolding missing
missing-le w zero = omega arith
missing-le w (suc n) = ground (arith, missing-le w n)

no_missing : (w : Window) (n : ℕ) → missing w n ≤ 0 → (idx : ℕ) → idx < n → w.spawned idx ≡ true
unfolding missing
no_missing w zero e idx h = absurd (omega arith)
no_missing w (suc n) e idx h = elim (Bool-cases (idx == n)) [
  | inl last ↦ ground (arith, ==_iff idx n)
  | inr other ↦ no_missing w n (ground arith) idx (ground (arith, ==_iff idx n))
]

module _ (r : Request) where
  missing-take_sender :
      (w : Window) (n idx : ℕ)
      → w.spawned idx ≡ false
      → missing (take_sender r idx w) n + (if ltb idx n then 1 else 0) ≡ missing w n
  unfolding missing take_sender spawn_fetch
  missing-take_sender w zero idx e = ground arith
  missing-take_sender w (suc n) idx e = ground (arith, missing-take_sender w n idx e, ==_iff n idx)

  spawn_loop-IsFull :
      (fuel limit : ℕ) (w : Window)
      → missing w limit ≤ fuel
      → IsFull r limit (spawn_loop fuel r limit w)
  unfolding spawn_loop
  spawn_loop-IsFull zero limit w h = inr (no_missing w limit h)
  spawn_loop-IsFull (suc fuel) limit w h = elim (Bool-cases (ltb w.total_in_flight r.max_threads)) [
    | inr busy ↦ rw busy (inl (ground arith))
    | inl idle ↦ rw idle (elim (Option-cases (pick r limit w)) [
      | inl done ↦ rw done (inr (λ idx q. pick-none r limit w idx done q))
      | inr (idx, next) ↦
          let p = pick-some r limit w idx next in
          let fewer = missing-take_sender w limit idx p.0 in
          rw next (spawn_loop-IsFull fuel limit (take_sender r idx w) (ground arith))
    ])
  ]

  module _ {closed : ℕ → Bool} {pending : ℕ} where
    spawn_loop-IsSound :
        (fuel limit : ℕ) (w : Window)
        → limit ≤ r.total_chunks
        → IsSound r closed pending w
        → IsSound r closed pending (spawn_loop fuel r limit w)
    unfolding spawn_loop take_sender
    spawn_loop-IsSound zero limit w below v = v
    spawn_loop-IsSound (suc fuel) limit w below v =
        elim (Bool-cases (ltb w.total_in_flight r.max_threads)) [
          | inr busy ↦ rw busy v
          | inl idle ↦ rw idle (elim (Option-cases (pick r limit w)) [
            | inl done ↦ rw done v
            | inr (idx, next) ↦
                let (fresh, inside) = pick-some r limit w idx next in
                rw (next, v.ready idx fresh)
                  (spawn_loop-IsSound fuel limit (spawn_fetch r idx w) below
                    (spawn_fetch-IsSound r idx w (omega arith) v))
          ])
        ]

    pub try_spawn_more-IsSound :
        (head : ℕ) (w : Window)
        → IsSound r closed pending w
        → IsSound r closed pending (try_spawn_more r head w)
    unfolding try_spawn_more
    try_spawn_more-IsSound head w =
        spawn_loop-IsSound (limit_at r head) (limit_at r head) w (unfold limit_at in omega arith)

  pub try_spawn_more-IsFull :
      (head : ℕ) (w : Window) → IsFull r (limit_at r head) (try_spawn_more r head w)
  unfolding try_spawn_more
  try_spawn_more-IsFull head w =
      spawn_loop-IsFull (limit_at r head) (limit_at r head) w (missing-le w (limit_at r head))

  take_sender_bounds :
      (spare idx : ℕ) (w : Window)
      → w.total_in_flight < r.max_threads
      → (take_sender r idx w).total_in_flight ≤ r.max_threads + spare
  unfolding take_sender spawn_fetch
  take_sender_bounds spare idx w h = elim (Bool-cases (w.senders idx)) [
    | inl ready ↦ rw ready (omega arith)
    | inr taken ↦ rw taken (omega arith)
  ]

  spawn_loop_bounds :
      (spare fuel limit : ℕ) (w : Window)
      → w.total_in_flight ≤ r.max_threads + spare
      → (spawn_loop fuel r limit w).total_in_flight ≤ r.max_threads + spare
  unfolding spawn_loop
  spawn_loop_bounds spare zero limit w h = h
  spawn_loop_bounds spare (suc fuel) limit w h =
      elim (Bool-cases (ltb w.total_in_flight r.max_threads)) [
        | inr busy ↦ rw busy h
        | inl idle ↦ rw idle (elim (Option-cases (pick r limit w)) [
          | inl done ↦ rw done h
          | inr (idx, next) ↦
              let room = take_sender_bounds spare idx w (ground arith) in
              rw next (spawn_loop_bounds spare fuel limit (take_sender r idx w) room)
        ])
      ]

  pub try_spawn_more_bounds :
      (spare head : ℕ) (w : Window)
      → w.total_in_flight ≤ r.max_threads + spare
      → (try_spawn_more r head w).total_in_flight ≤ r.max_threads + spare
  unfolding try_spawn_more
  try_spawn_more_bounds spare head w = spawn_loop_bounds spare (limit_at r head) (limit_at r head) w
