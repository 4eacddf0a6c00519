-- ===== src/Ratelimit/Tests.antt =====
-- Runs of the limiter at 100 bytes a second.
use hydraria.Prelude.{◌≤◌, [], arith}
use hydraria.Ratelimit.{
  Reaches, idle, round, Round, Grants, acquire_round, logged, empty_window, granted_within,
}
use hydraria.Ratelimit.Window.{reached-granted_within}

-- A caller wants 70 bytes at one second, and another as many half a second later.
abbrev first_round : Round
first_round = acquire_round 100 1_000_000_000 70 empty_window

abbrev second_round : Round
second_round = acquire_round 100 1_500_000_000 70 first_round.state

abbrev history : Grants
history = logged 1_500_000_000 70 second_round (logged 1_000_000_000 70 first_round [])

two_rounds : Reaches 100 second_round.state 1_500_000_000 history
two_rounds =
    round 1_500_000_000 70 (round 1_000_000_000 70 (idle 0) (omega arith) (omega arith))
      (omega arith) (omega arith)

reached-granted_within_example : granted_within history 1_700_000_000 ≤ 100
reached-granted_within_example =
    reached-granted_within 100 (omega arith) (omega arith) two_rounds 1_700_000_000
