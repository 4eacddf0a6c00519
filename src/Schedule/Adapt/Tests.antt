-- ===== src/Schedule/Adapt/Tests.antt =====
-- Runs of a scheduler that has learned a limit of 8 MiB below a wall of 32 MiB.
use hydraria.Prelude.{false, none, some, arith, []}
use hydraria.Schedule.State.{Scheduler, Claim, throughput}
use hydraria.Schedule.Adapt.{note_claim_outcome, IsTuned}
use hydraria.Schedule.Adapt.Sizes.{note_claim_outcome-IsTuned}

abbrev careful : Scheduler
careful = record {
  unclaimed = [];
  live = [];
  strategy = throughput;
  volumes = none;
  max_threads = 4;
  max_per_volume = 4;
  split_cap = none;
  req_start = 0;
  req_end = 8_388_607;
  read_head = 0;
  buffered = 0;
  work_limit = none;
  auto_limit = some 8_388_608;
  auto_wall = 33_554_432;
  dup_budget = 0;
  overload_strikes = 2;
  overload_hint = none;
  wall_memory = some (some (33_554_432, 0));
}

careful-IsTuned : IsTuned careful
careful-IsTuned = record {
  limited = (omega arith, omega arith, omega arith);
  memory = (omega arith, omega arith);
  strikes = omega arith;
}

abbrev empty_claim : Claim
empty_claim = record { start = 0; volume = 0; issued = 8_388_608; end = 8_388_607 }

note_claim_outcome-IsTuned_example : IsTuned (note_claim_outcome 5 careful false empty_claim 0).0
note_claim_outcome-IsTuned_example =
    note_claim_outcome-IsTuned 5 careful careful-IsTuned false empty_claim (omega arith) 0
