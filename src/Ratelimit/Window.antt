-- ===== src/Ratelimit/Window.antt =====
-- No second ever sees more bytes than the limit.
use hydraria.Prelude.{
  ℕ, ◌+◌, ◌-◌, ◌*◌, ◌≤◌, ◌<◌, min, max, ◌≡◌, refl, ◌∙◌, true, false, [], ◌∷◌, ◌++◌, ltb, leb,
  wrapping_add, u64_mod, arith, Bool-cases, inl, inr,
}
use hydraria.Ratelimit.{
  Grants, SwState, evict, decide, acquire_round, recent, granted_within, total, logged, Reaches,
  idle, round, window_length,
}

-- The last instant of a window.
latest : Grants → ℕ
latest [] = 0
latest ((t, b) ∷ rest) = max t (latest rest)

latest-append : (xs : Grants) (t b : ℕ) → latest (xs ++ (t, b) ∷ []) ≡ max (latest xs) t
unfolding latest
latest-append [] t b = omega arith
latest-append (x ∷ xs) t b = omega (arith, latest-append xs t b)

-- A window after its last instant, everything is popped.
evict-all :
    (now : ℕ) (window : Grants) (bytes : ℕ)
    → latest window + window_length ≤ now
    → (evict now window bytes).window ≡ []
unfolding evict latest
evict-all now [] bytes h = refl
evict-all now ((t, b) ∷ rest) bytes h =
    let old : leb window_length (now - t) ≡ true = ground arith in
    rw old (evict-all now rest (bytes - b) (omega arith))

-- What popping keeps.
record IsEvicted (now : ℕ) (window : Grants) (s : SwState) : Type 0 where
  counted : s.window_bytes ≡ total s.window
  fewer : total s.window ≤ total window
  dated : latest s.window ≤ latest window
  kept : (later : ℕ) → now ≤ later → recent s.window later ≡ recent window later

evict-IsEvicted :
    (now : ℕ) (window : Grants) → IsEvicted now window (evict now window (total window))
unfolding evict total recent latest
evict-IsEvicted now [] = record {
  counted = refl;
  fewer = omega arith;
  dated = omega arith;
  kept = λ later h. refl;
}
evict-IsEvicted now ((t, b) ∷ rest) = elim (Bool-cases (leb window_length (now - t))) [
  | inl old ↦
      let ih = evict-IsEvicted now rest in
      let left : b + total rest - b ≡ total rest = omega arith in
      rw (old, left)
        (record {
          counted = ih.counted;
          fewer = omega (arith, ih.fewer);
          dated = omega (arith, ih.dated);
          kept = λ later h. ground (arith, ih.kept later h);
        })
  | inr new ↦
      rw new (record {
        counted = refl;
        fewer = omega arith;
        dated = omega arith;
        kept = λ later h. refl;
      })
]

recent-append :
    (xs : Grants) (t b now : ℕ)
    → recent (xs ++ (t, b) ∷ []) now ≡ recent xs now + recent ((t, b) ∷ []) now
unfolding recent
recent-append [] t b now = omega arith
recent-append (x ∷ xs) t b now = omega (arith, recent-append xs t b now)

total-append : (xs : Grants) (t b : ℕ) → total (xs ++ (t, b) ∷ []) ≡ total xs + b
unfolding total
total-append [] t b = omega arith
total-append (x ∷ xs) t b = omega (arith, total-append xs t b)

recent-le : (xs : Grants) (now : ℕ) → recent xs now ≤ total xs
unfolding recent total
recent-le [] now = omega arith
recent-le ((t, b) ∷ xs) now = ground (arith, recent-le xs now)

-- A window that ends at `stop` holds no more than what was granted since a window before `now`.
within-le : (log : Grants) (now stop : ℕ) → now ≤ stop → granted_within log stop ≤ recent log now
unfolding recent granted_within
within-le [] now stop h = omega arith
within-le ((t, b) ∷ log) now stop h = ground (arith, within-le log now stop h)

-- What the rounds keep.
record IsLimited (rate : ℕ) (s : SwState) (last : ℕ) (log : Grants) : Type 0 where
  counted : s.window_bytes ≡ total s.window
  bounded : total s.window ≤ rate
  dated : latest s.window ≤ last
  covers : (now : ℕ) → last ≤ now → recent log now ≤ recent s.window now
  limited : (stop : ℕ) → granted_within log stop ≤ rate

-- A grant that fits under the limit.
grant-IsLimited :
    (rate now take : ℕ) (s : SwState) (log : Grants)
    → total s.window + take ≤ rate
    → IsLimited rate s now log
    → IsLimited rate
        (record { window = s.window ++ (now, take) ∷ []; window_bytes = total s.window + take })
        now
        ((now, take) ∷ log)
unfolding recent granted_within
grant-IsLimited rate now take s log fits v = record {
  counted = omega (arith, total-append s.window now take);
  bounded = omega (arith, total-append s.window now take);
  dated = omega (arith, latest-append s.window now take, v.dated);
  covers = λ later h. ground (arith, recent-append s.window now take later, v.covers later h);
  limited = λ stop.
      ground (arith, v.limited stop, within-le log now stop, v.covers now, recent-le s.window now);
}

module _ (rate : ℕ) (some_rate : 0 < rate) (small : 2 * rate < u64_mod) where
  decide-IsLimited :
      (now remaining : ℕ) (s : SwState) (log : Grants)
      → 0 < remaining
      → IsLimited rate s now log
      → IsLimited rate
          (decide rate now remaining s).state
          now
          (logged now remaining (decide rate now remaining s) log)
  unfolding decide
  decide-IsLimited now remaining s log wanted v =
      let take = min remaining rate in
      let sum : wrapping_add s.window_bytes take ≡ total s.window + take =
        omega (arith, v.counted, v.bounded) in
      rw sum (elim (Bool-cases (leb (total s.window + take) rate)) [
        | inl fits ↦
            let less : ltb (remaining - take) remaining ≡ true = ground arith in
            let all : remaining - (remaining - take) ≡ take = omega arith in
            rw (fits, less, all) (grant-IsLimited rate now take s log (ground arith) v)
        | inr full ↦
            let none_less : ltb remaining remaining ≡ false = ground arith in rw (full, none_less) v
      ])

  acquire_round-IsLimited :
      (last now remaining : ℕ) (s : SwState) (log : Grants)
      → last ≤ now
      → 0 < remaining
      → IsLimited rate s last log
      → IsLimited rate
          (acquire_round rate now remaining s).state
          now
          (logged now remaining (acquire_round rate now remaining s) log)
  unfolding acquire_round
  acquire_round-IsLimited last now remaining s log h wanted v =
      let gone = evict-IsEvicted now s.window in
      rw v.counted (
        decide-IsLimited now remaining (evict now s.window (total s.window)) log wanted (record {
          counted = gone.counted;
          bounded = omega (arith, gone.fewer, v.bounded);
          dated = omega (arith, gone.dated, v.dated);
          covers = λ later q. omega (arith, gone.kept later q, v.covers later (omega arith));
          limited = v.limited;
        }))

  reached-IsLimited :
      {s : SwState} {last : ℕ} {log : Grants} → Reaches rate s last log → IsLimited rate s last log
  unfolding total recent granted_within latest
  reached-IsLimited (idle now) = record {
    counted = refl;
    bounded = omega arith;
    dated = omega arith;
    covers = λ later h. omega arith;
    limited = λ stop. omega arith;
  }
  reached-IsLimited (round now remaining before h wanted) =
      acquire_round-IsLimited _ now remaining _ _ h wanted (reached-IsLimited before)

  -- With a limit that is not 0 and less than half of the 64-bit range, over any rounds of any
  -- callers at instants that do not go back, the bytes granted within any window of one second do
  -- not exceed the limit.
  pub reached-granted_within :
      {s : SwState} {last : ℕ} {log : Grants}
      → Reaches rate s last log
      → (stop : ℕ) → granted_within log stop ≤ rate
  reached-granted_within r stop = (reached-IsLimited r).limited stop

  decide-empty :
      (now remaining : ℕ) (s : SwState)
      → s.window_bytes ≡ total s.window
      → s.window ≡ []
      → (decide rate now remaining s).remaining ≡ remaining - rate
  unfolding decide total
  decide-empty now remaining s counted gone =
      let none_left : s.window_bytes ≡ 0 = counted ∙ rw gone refl in
      let fits : leb (wrapping_add s.window_bytes (min remaining rate)) rate ≡ true =
        ground arith in
      rw fits (omega arith)

  -- With such a limit, a round at least one window after the last instant grants as much as the
  -- limit allows, whatever came before.
  pub acquire_round-grants :
      {s : SwState} {last : ℕ} {log : Grants} (now remaining : ℕ)
      → Reaches rate s last log
      → last + window_length ≤ now
      → (acquire_round rate now remaining s).remaining ≡ remaining - rate
  unfolding acquire_round
  acquire_round-grants {s} now remaining r h =
      let v = reached-IsLimited r in
      rw v.counted (
        decide-empty now remaining (evict now s.window (total s.window))
          (evict-IsEvicted now s.window).counted
          (evict-all now s.window (total s.window) (omega (arith, v.dated))))
