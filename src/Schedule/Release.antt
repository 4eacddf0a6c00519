-- ===== src/Schedule/Release.antt =====
-- src/schedule.rs: how ranges come back. `finish`, `refocus_on_reader` and `reclaim_stalled`.
use hydraria.Prelude.{
  ℕ, ◌-◌, min, max, Bool, false, ◌&&◌, ◌||◌, List, [], ◌∷◌, ◌++◌, Option, none, some, ltb, leb,
  ◌==◌, if◌then◌else◌, saturating_add,
}
use hydraria.Schedule.Ranges.{Ranges, insert_unclaimed}
use hydraria.Schedule.State.{Scheduler, Live, Strategy, throughput, latency, is_primary, min_claim}
use hydraria.Schedule.Sizing.{claim_len}

-- `position(|l| l.worker == worker)` and `remove`: the claim of the worker, and the others.
unfoldable pub with_front : Live → Option (Live × List Live) → Option (Live × List Live)
with_front l none = none
with_front l (some (found, others)) = some (found, l ∷ others)

unfoldable pub split_off : List Live → ℕ → Option (Live × List Live)
unfolding with_front
split_off [] worker = none
split_off (l ∷ ls) worker =
    let rest = with_front l (split_off ls worker) in
    if l.worker == worker then some (l, ls) else rest

-- The loser's end goes below its cursor.
unfoldable pub pulled_in : Live → Live
pulled_in l = record l { end = min l.end (l.cursor - 1) }

-- `cut_short`: the first claim that passes the test.
unfoldable pub cut_short : (Live → Bool) → List Live → List Live
unfolding pulled_in
cut_short matches [] = []
cut_short matches (l ∷ ls) =
    let later = l ∷ cut_short matches ls in if matches l then pulled_in l ∷ ls else later

unfoldable pub is_hedge_of : ℕ → Option ℕ → Bool
is_hedge_of start none = false
is_hedge_of start (some primary) = primary == start

-- What `finish` does with the removed claim, by its `hedge_of`.
unfoldable pub release : Scheduler → Live → ℕ → Option ℕ → Scheduler
unfolding cut_short is_hedge_of
release s live reached (some primary_start) =
    if ltb live.end reached
    then record s { live = cut_short (λ l. is_primary l && l.start == primary_start) s.live }
    else s
release s live reached none =
    if ltb live.end reached
    then record s { live = cut_short (λ l. is_hedge_of live.start l.hedge_of) s.live }
    else record s { unclaimed = insert_unclaimed s.unclaimed reached live.end }

unfoldable pub release_found : Scheduler → ℕ → Option (Live × List Live) → Scheduler
unfolding release
release_found s reached none = s
release_found s reached (some (live, others)) =
    release (record s { live = others }) live reached live.hedge_of

unfoldable pub finish : Scheduler → ℕ → ℕ → Scheduler
unfolding split_off release_found
finish s worker reached = release_found s reached (split_off s.live worker)

-- The shape of the loops over `live`: for a claim, whether it stays, with its new end or marks, and
-- the unclaimed ranges after it. The workers of the claims that go are collected.
abbrev pub Visit : Type 0
Visit = Scheduler → Live → Option Live × Ranges

-- The loop goes on by `next`, with the claims that stay and the state.
unfoldable pub sweep_on :
    (List Live → Scheduler → Scheduler × List ℕ)
    → List Live
    → Live
    → Scheduler
    → Option Live × Ranges
    → Scheduler × List ℕ
sweep_on next done l s (some l', unclaimed) =
    next (done ++ l' ∷ []) (record s { unclaimed = unclaimed })
sweep_on next done l s (none, unclaimed) =
    let (s', workers) = next done (record s { unclaimed = unclaimed }) in (s', l.worker ∷ workers)

unfoldable pub sweep : Visit → List Live → List Live → Scheduler → Scheduler × List ℕ
unfolding sweep_on
sweep visit done [] s = (record s { live = done }, [])
sweep visit done (l ∷ todo) s =
    sweep_on (λ done s. sweep visit done todo s) done l s
      (visit (record s { live = done ++ l ∷ todo }) l)

unfoldable pub hand_back : Live → Ranges → Ranges
hand_back l unclaimed =
    if is_primary l then insert_unclaimed unclaimed l.cursor l.end else unclaimed

-- A claim that stays, cut at `keep`.
unfoldable pub shorten : Ranges → Live → ℕ → Option Live × Ranges
shorten unclaimed l keep =
    if is_primary l && ltb keep l.end
    then (
      some (record l { end = keep }),
      insert_unclaimed unclaimed (max (saturating_add keep 1) l.reserved) l.end,
    )
    else (some l, unclaimed)

-- One round of `refocus_on_reader`, with the reader at `head`.
unfoldable pub refocus_visit : ℕ → ℕ → ℕ → Visit
unfolding hand_back shorten
refocus_visit head hi grace s l =
    let irrelevant = leb hi l.cursor || ltb l.end head in
    let blocks_the_reader = leb head l.end && ltb (saturating_add l.cursor grace) head in
    if ltb l.end l.cursor
    then (some l, s.unclaimed)
    else if irrelevant || blocks_the_reader
    then (none, hand_back l s.unclaimed)
    else shorten s.unclaimed l (saturating_add l.cursor (claim_len s - 1))

unfoldable pub refocus_under : Strategy → Scheduler → ℕ → Scheduler × List ℕ
unfolding sweep refocus_visit
refocus_under throughput s window = (s, [])
refocus_under (latency critical_window head_claim) s window =
    sweep
      (refocus_visit s.read_head (saturating_add s.read_head (max window 1))
        (max head_claim min_claim))
      [] s.live s

-- The new state, and the workers to restart.
unfoldable pub refocus_on_reader : Scheduler → ℕ → Scheduler × List ℕ
unfolding refocus_under
refocus_on_reader s window = refocus_under s.strategy s window

-- One round of `reclaim_stalled` at time `now`.
unfoldable pub reclaim_visit : ℕ → Visit
unfolding hand_back
reclaim_visit now s l =
    if ltb l.last_cursor l.cursor || ltb l.end l.cursor
    then (some (record l { last_cursor = l.cursor; last_progress = now }), s.unclaimed)
    else if ltb (now - l.last_progress) 30_000_000_000
    then (some l, s.unclaimed)
    else (none, hand_back l s.unclaimed)

unfoldable pub reclaim_stalled : ℕ → Scheduler → Scheduler × List ℕ
unfolding sweep reclaim_visit
reclaim_stalled now s = sweep (reclaim_visit now) [] s.live s
