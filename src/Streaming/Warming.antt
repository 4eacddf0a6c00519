-- ===== src/Streaming/Warming.antt =====
-- src/engine.rs, `stream_range`: the warm-up of the next volumes.
use hydraria.Prelude.{
  ℕ, zero, suc, ◌+◌, ◌≤◌, ◌<◌, inl, inr, Bool, not, ◌&&◌, ◌||◌, Option, none, some, ltb, ◌==◌,
  ==_iff, if◌then◌else◌, arith, Bool-cases, Option-cases,
}
use hydraria.Streaming.{
  Request, Window, vol_at, spawn_fetch, first, covers, warm, warm_loop, warmup_next_vols, warm_up,
}
use hydraria.Streaming.Windows.{first-some, IsSound, spawn_fetch-IsSound}
use hydraria.Streaming.Spawning.{IsFull}

module _ (r : Request) where
  spawn_fetch-IsFull :
      (limit idx : ℕ) (w : Window) → IsFull r limit w → IsFull r limit (spawn_fetch r idx w)
  unfolding spawn_fetch
  spawn_fetch-IsFull limit idx w (inl busy) = inl (omega arith)
  spawn_fetch-IsFull limit idx w (inr done) = inr (λ j q. ground (arith, done j))

  abbrev IsInside : Option ℕ → Type 0
  IsInside none = Unit
  IsInside (some idx) = idx < r.total_chunks

  first-IsInside : (test : ℕ → Bool) → IsInside (first test 0 r.total_chunks)
  first-IsInside test = elim (Option-cases (first test 0 r.total_chunks)) [
    | inl absent ↦ rw absent tt
    | inr (idx, e) ↦ rw e (omega (arith, first-some test 0 r.total_chunks idx e))
  ]

  -- What the warm-up keeps, with no more fetchers than its budget allows.
  module _ (closed : ℕ → Bool) (pending limit cap : ℕ) where
    abbrev Keeps : Window × ℕ → Type 0
    Keeps (w, budget) =
        IsSound r closed pending w × IsFull r limit w × (w.total_in_flight + budget ≤ cap)

    warm-Keeps :
        (s : Window × ℕ) (at : Option ℕ) → 0 < s.1 → IsInside at → Keeps s → Keeps (warm r s at)
    unfolding warm
    warm-Keeps (w, budget) none h below k = k
    warm-Keeps (w, budget) (some idx) h below k =
        elim (Bool-cases (not (w.spawned idx) && w.senders idx)) [
          | inr no_fetcher ↦ rw no_fetcher k
          | inl fetcher ↦ rw fetcher (
            spawn_fetch-IsSound r idx w below k.0,
            spawn_fetch-IsFull limit idx w k.1,
            unfold spawn_fetch in omega (arith, k.2),
          )
        ]

    if-Keeps :
        (over : Bool) (s : Window × ℕ) (at : Option ℕ)
        → IsInside at
        → Keeps s
        → Keeps (if s.1 == 0 || over then s else warm r s at)
    if-Keeps over s at below k = elim (Bool-cases (s.1 == 0 || over)) [
      | inl stop ↦ rw stop k
      | inr goes ↦ rw goes (warm-Keeps s at (ground (arith, ==_iff s.1 0)) below k)
    ]

    warm_loop-Keeps :
        (rounds : ℕ) (before : Window) (vi : ℕ) (s : Window × ℕ)
        → Keeps s
        → Keeps (warm_loop rounds r before vi s)
    unfolding warm_loop
    warm_loop-Keeps zero before vi s k = k
    warm_loop-Keeps (suc rounds) before vi s k =
        let first_of = first (λ idx. vol_at r idx == vi) 0 r.total_chunks in
        warm_loop-Keeps rounds before (vi + 1)
          (if s.1 == 0 || covers r before vi then s else warm r s first_of)
          (if-Keeps (covers r before vi) s first_of (first-IsInside (λ idx. vol_at r idx == vi)) k)

    pub warm_up-Keeps :
        (w : Window)
        → IsSound r closed pending w
        → IsFull r limit w
        → w.total_in_flight + warmup_next_vols r ≤ cap
        → IsSound r closed pending (warm_up r w)
          × IsFull r limit (warm_up r w)
          × ((warm_up r w).total_in_flight ≤ cap)
    unfolding warm_up
    warm_up-Keeps w sound full room =
        elim (Bool-cases (ltb 1 r.vol_count && ltb 0 (warmup_next_vols r))) [
          | inr off ↦ rw off (sound, full, omega arith)
          | inl on ↦
              let k = warm_loop-Keeps r.vol_count w 0 (w, warmup_next_vols r) (sound, full, room) in
              rw on (k.0, k.1, omega (arith, k.2))
        ]
