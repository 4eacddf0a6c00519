-- ===== src/Ratelimit.antt =====
-- src/ratelimit.rs: the sliding window of the rate limiter. Instants and durations are numbers of
-- nanoseconds.
pub mod Window
pub mod Tests
use hydraria.Prelude.{
  ℕ, suc, ◌+◌, ◌-◌, ◌≤◌, ◌<◌, min, max, Bool, true, false, List, [], ◌∷◌, ◌++◌, Option, none, some,
  ltb, leb, if◌then◌else◌, wrapping_add,
}

-- `WINDOW` and `MAX_SLEEP`
abbrev pub window_length : ℕ
window_length = 1_000_000_000

abbrev pub max_sleep : ℕ
max_sleep = 200_000_000

-- Instants with the bytes that were granted at them, the oldest first.
abbrev pub Grants : Type 0
Grants = List (ℕ × ℕ)

pub record SwState : Type 0 where
  pub window : Grants
  pub window_bytes : ℕ

-- `reset_state`, and the state of a new limiter
abbrev pub empty_window : SwState
empty_window = record { window = []; window_bytes = 0 }

-- The loop that pops what has left the window.
pub evict : ℕ → Grants → ℕ → SwState
evict now [] bytes = record { window = []; window_bytes = bytes }
evict now ((t, b) ∷ rest) bytes =
    let fewer = evict now rest (bytes - b) in
    if leb window_length (now - t)
    then fewer
    else record { window = (t, b) ∷ rest; window_bytes = bytes }

-- The age of the oldest entry.
oldest_age : ℕ → Grants → ℕ
oldest_age now [] = window_length
oldest_age now ((t, b) ∷ rest) = now - t

-- What one round of `acquire_sliding_window` leaves: the state, the bytes still wanted, the sleep.
pub record Round : Type 0 where
  pub state : SwState
  pub remaining : ℕ
  pub sleep : ℕ

-- The decision under the lock, after the loop.
pub decide : ℕ → ℕ → ℕ → SwState → Round
unfolding oldest_age
decide rate now remaining s =
    let take = min remaining rate in
    if leb (wrapping_add s.window_bytes take) rate
    then record {
      state = record {
        window = s.window ++ (now, take) ∷ [];
        window_bytes = wrapping_add s.window_bytes take;
      };
      remaining = remaining - take;
      sleep = 0;
    }
    else record {
      state = s;
      remaining = remaining;
      sleep = max (min (window_length - oldest_age now s.window) max_sleep) 5_000_000;
    }

-- One round at `now`, with a limit that is not 0.
pub acquire_round : ℕ → ℕ → ℕ → SwState → Round
acquire_round rate now remaining s = decide rate now remaining (evict now s.window s.window_bytes)

-- The bytes granted at instants less than a window before `now`.
pub recent : Grants → ℕ → ℕ
recent [] now = 0
recent ((t, b) ∷ rest) now = (if ltb now (t + window_length) then b else 0) + recent rest now

-- The bytes granted within the window that ends at `stop`.
pub granted_within : Grants → ℕ → ℕ
granted_within [] stop = 0
granted_within ((t, b) ∷ rest) stop =
    (if ltb stop (t + window_length) then (if leb t stop then b else 0) else 0)
    + granted_within rest stop

pub total : Grants → ℕ
total [] = 0
total ((t, b) ∷ rest) = b + total rest

-- The history with the round's grant, the newest first.
abbrev pub logged : ℕ → ℕ → Round → Grants → Grants
logged now before r log = if ltb r.remaining before then (now, before - r.remaining) ∷ log else log

-- The states of a limiter with one limit, the last instant and the history of its grants, over the
-- rounds of any callers that the lock puts in a row.
pub data Reaches (rate : ℕ) : SwState → ℕ → Grants → Type 0 where
  idle : (now : ℕ) → Reaches rate empty_window now []
  round :
      {s : SwState} {last : ℕ} {log : Grants} (now remaining : ℕ)
      → Reaches rate s last log
      → last ≤ now
      → 0 < remaining
      → Reaches rate
          (acquire_round rate now remaining s).state
          now
          (logged now remaining (acquire_round rate now remaining s) log)
