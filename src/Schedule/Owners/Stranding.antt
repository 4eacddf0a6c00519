-- ===== src/Schedule/Owners/Stranding.antt =====
-- src/schedule.rs, `hand_back`: what a dead worker had reserved behind the end of its claim.
use mathlib.Core.Path.{subst}
use hydraria.Prelude.{
  ℕ, ◌+◌, ◌-◌, ◌≤◌, ◌<◌, ◌≡◌, refl, true, false, ◌||◌, [], ◌∷◌, none, ltb, arith, All,
}
use hydraria.Schedule.Ranges.{listed}
use hydraria.Schedule.Ranges.Insert.{insert_unclaimed-listed}
use hydraria.Schedule.State.{Scheduler, Live, is_primary}
use hydraria.Schedule.Release.{reclaim_stalled, reclaim_visit, sweep, sweep_on, hand_back}
use hydraria.Schedule.Owners.{owes, one_if, owners_in, owners, IsPlaced, IsSound, IsExclusive}

-- In a sound state in which no byte has two owners and the only claim is a primary that stands
-- still for 30 seconds with bytes left, `reclaim_stalled` leaves a byte that the worker has
-- reserved behind the end of the claim without an owner; it had one.
pub reclaim_stalled-strands :
    (now : ℕ) (s : Scheduler) (l : Live) (x : ℕ)
    → IsSound s
    → IsExclusive s
    → s.live ≡ l ∷ []
    → l.hedge_of ≡ none
    → l.cursor ≤ l.last_cursor
    → l.cursor ≤ l.end
    → l.last_progress + 30_000_000_000 ≤ now
    → l.end < x
    → x < l.reserved
    → (owners s x ≡ 1) × (owners (reclaim_stalled now s).0 x ≡ 0)
unfolding reclaim_stalled sweep sweep_on reclaim_visit hand_back owners_in
reclaim_stalled-strands now s l x v only alone primary stuck going stale behind reserved =
    let one : one_if (listed s.unclaimed x) + owners_in s.live x ≤ 1 = only x in
    let counted : owners_in s.live x ≡ one_if (owes l x) = simp alone (omega arith) in
    let here : All (IsPlaced s.volumes s.req_end) (l ∷ []) =
      subst (All (IsPlaced s.volumes s.req_end)) alone v.placed in
    let word = v.word in
    let back =
      insert_unclaimed-listed s.req_end (omega arith) l.cursor l.end 0 s.unclaimed x here.0.bounded
        v.sorted in
    let still : (ltb l.last_cursor l.cursor || ltb l.end l.cursor) ≡ false = ground arith in
    let dead : ltb (now - l.last_progress) 30_000_000_000 ≡ false = ground arith in
    let owed : one_if (owes l x) ≡ 1 = ground arith in
    let first : is_primary l ≡ true = rw primary refl in
    let nowhere : one_if (listed s.unclaimed x) ≡ 0 = omega arith in
    (omega arith, simp (alone, still, dead, first) (simp back (ground arith)))
