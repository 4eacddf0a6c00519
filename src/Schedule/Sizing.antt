-- ===== src/Schedule/Sizing.antt =====
-- src/schedule.rs: how much work is left, and how long a claim should be.
use hydraria.Prelude.{
  ℕ, ◌-◌, ◌/◌, min, max, Bool, List, [], ◌∷◌, Option, none, some, ltb, if◌then◌else◌,
  saturating_add, saturating_mul, wrapping_add, div_ceil, u64_max, length, unwrap_or,
}
use hydraria.Schedule.Ranges.{unclaimed_bytes}
use hydraria.Schedule.State.{
  Scheduler, Live, Strategy, throughput, latency, remaining, is_primary, min_claim, min_fragment,
  endgame_floor,
}

unfoldable pub owed_by : List Live → ℕ
owed_by [] = 0
owed_by (l ∷ ls) = if is_primary l then wrapping_add (remaining l) (owed_by ls) else owed_by ls

unfoldable pub remaining_work : Scheduler → ℕ
remaining_work s = saturating_add (unclaimed_bytes s.unclaimed) (owed_by s.live)

unfoldable pub endgame_threshold : Scheduler → ℕ
endgame_threshold s =
    max (saturating_mul (saturating_mul s.max_threads 4) min_fragment) endgame_floor

unfoldable pub in_tail : Scheduler → Bool
in_tail s = ltb (remaining_work s) (endgame_threshold s)

min_frag_under : Strategy → Bool → ℕ
min_frag_under (latency window head) tail = min_claim
min_frag_under throughput tail = if tail then min_claim else min_fragment

unfoldable pub min_frag : Scheduler → ℕ
unfolding min_frag_under
min_frag s = min_frag_under s.strategy (in_tail s)

unfoldable pub even_share : Scheduler → ℕ
even_share s =
    let free_slots = max (s.max_threads - length s.live) 1 in
    max (div_ceil (unclaimed_bytes s.unclaimed) free_slots) (min_frag s)

policy_len : Strategy → Scheduler → ℕ
policy_len throughput s = even_share s
policy_len (latency window head_claim) s =
    min (max (s.buffered / s.max_threads) (max head_claim 1)) (even_share s)

unfoldable pub capped : Option ℕ → ℕ → ℕ
capped none bounded = max bounded 1
capped (some cap) bounded = max (min bounded cap) 1

unfoldable pub claim_len : Scheduler → ℕ
unfolding policy_len capped
claim_len s = capped s.split_cap (min (policy_len s.strategy s) (unwrap_or s.auto_limit u64_max))

horizon_under : Option ℕ → Scheduler → ℕ
horizon_under none s = s.req_end
horizon_under (some limit) s = min (saturating_add s.read_head (limit - 1)) s.req_end

unfoldable pub horizon : Scheduler → ℕ
unfolding horizon_under
horizon s = horizon_under s.work_limit s

floor_under : Option ℕ → Scheduler → ℕ
floor_under none s = s.req_start
floor_under (some limit) s = max s.read_head s.req_start

unfoldable pub floor : Scheduler → ℕ
unfolding floor_under
floor s = floor_under s.work_limit s

critical_under : Strategy → Scheduler → ℕ
critical_under throughput s = 0
critical_under (latency critical_window head) s =
    max (max critical_window (saturating_mul s.max_threads (claim_len s))) 1

unfoldable pub critical_span : Scheduler → ℕ
unfolding critical_under
critical_span s = critical_under s.strategy s
