-- ===== src/Schedule/Owners/Stealing.antt =====
-- Tier 2: the victim and the thief together owe what the victim owed.
use hydraria.Prelude.{
  if_holds, ℕ, ◌+◌, ◌≤◌, ◌<◌, min, max, ◌≡◌, refl, true, none, some, ltb, arith, Bool-cases,
  Option-cases, inl, inr, saturating_add, saturating_mul, get_elem?, set, unwrap_or,
}
use hydraria.Schedule.Float.{FloatOps}
use hydraria.Schedule.State.{
  IsLayout, Scheduler, Live, is_primary, remaining, volume_of, volume_end,
}
use hydraria.Schedule.Sizing.{min_frag}
use hydraria.Schedule.Select.{pick_victim}
use hydraria.Schedule.Select.Chosen.{can_rob, pick_victim-Passes}
use hydraria.Schedule.Assign.{Outcome, register, take_tail, split_point, rob, steal}
use hydraria.Schedule.Owners.{owes, one_if, owners, IsPlaced, IsSound}
use hydraria.Schedule.Owners.Counting.{owners_in-set, All-set, All-get}
use hydraria.Schedule.Owners.Taking.{
  Keeps, Keeps-refl, fresh, owners-register, register-IsSound, volumes-register,
}

module _ (now : ℕ) (s : Scheduler) (v : IsSound s) (layout : IsLayout s.volumes) (worker pos : ℕ)
    (victim : Live) (there : get_elem? s.live pos ≡ some victim)
    (primary : is_primary victim ≡ true) (owing : 0 < remaining victim) where
  placed : IsPlaced s.volumes s.req_end victim
  placed = All-get (IsPlaced s.volumes s.req_end) s.live pos v.placed there

  -- The victim is cut at or behind its cursor, and before its end or at it.
  split_bounds : (victim.cursor ≤ split_point victim) × (split_point victim ≤ victim.end)
  unfolding split_point remaining
  split_bounds = ground (arith, placed.bounded, v.word)

  cut : Live
  cut = record victim { end = split_point victim }

  robbed : Scheduler
  unfolding cut
  robbed = record s { live = set s.live pos cut }

  new_start : ℕ
  new_start = max (saturating_add (split_point victim) 1) victim.reserved

  cut-IsPlaced : IsPlaced s.volumes s.req_end cut
  unfolding cut
  cut-IsPlaced = record {
    begun = placed.begun;
    bounded = omega (arith, placed.bounded, split_bounds);
    one_volume = λ p x q r e.
        omega (arith, placed.one_volume p x q (omega (arith, split_bounds)) e, split_bounds);
  }

  robbed-IsSound : IsSound robbed
  unfolding robbed
  robbed-IsSound = record {
    word = v.word;
    sorted = v.sorted;
    placed = All-set (IsPlaced s.volumes s.req_end) s.live pos cut v.placed cut-IsPlaced;
  }

  -- The stolen tail is in the victim's volume.
  new_end_lem :
      new_start ≤ victim.end
      → min (unwrap_or (volume_end s.volumes new_start) victim.end) victim.end ≡ victim.end
  unfolding new_start
  new_end_lem h = elim (Option-cases (volume_end s.volumes new_start)) [
    | inl e ↦ rw (e, unwrap_or) (omega arith)
    | inr (last, e) ↦
        rw (e, unwrap_or)
          (omega (
            arith,
            placed.one_volume primary new_start
                (omega (arith, placed.begun, placed.bounded, split_bounds, v.word)) h e,
          ))
  ]

  -- A byte that the victim owed is owed by it or by the thief, and by one of them.
  shared_byte :
      (x : ℕ)
      → new_start ≤ victim.end
      → one_if (owes cut x)
          + one_if
              (owes (fresh now worker new_start victim.end (volume_of s.volumes new_start) none) x)
        ≡ one_if (owes victim x)
  unfolding cut new_start
  shared_byte x h = ground (arith, split_bounds, placed.bounded, v.word)

  kept_byte : (x : ℕ) → victim.end < new_start → one_if (owes cut x) ≡ one_if (owes victim x)
  unfolding cut new_start
  kept_byte x h = ground (arith, split_bounds, placed.bounded, v.word)

  owners-robbed :
      (x : ℕ) → owners robbed x + one_if (owes victim x) ≡ owners s x + one_if (owes cut x)
  unfolding robbed
  owners-robbed x = omega (arith, owners_in-set s.live pos victim cut x there)

  thief : Live
  thief = fresh now worker new_start victim.end (volume_of s.volumes new_start) none

  thief-IsPlaced : new_start ≤ victim.end → IsPlaced s.volumes s.req_end thief
  unfolding thief new_start
  thief-IsPlaced h = record {
    begun = omega arith;
    bounded = placed.bounded;
    one_volume = λ p x q r e.
        placed.one_volume primary x
          (omega (arith, placed.begun, placed.bounded, split_bounds, v.word)) r e;
  }

  tail-Keeps :
      new_start ≤ victim.end
      → Keeps s
          (register now robbed worker new_start victim.end (volume_of s.volumes new_start) none).0
  unfolding robbed thief
  tail-Keeps h = record {
    owned = λ x. omega (
      arith,
      owners-register now robbed worker new_start victim.end (volume_of s.volumes new_start) none x,
      owners-robbed x,
      shared_byte x h,
    );
    sound =
        register-IsSound now robbed worker new_start victim.end (volume_of s.volumes new_start) none
          robbed-IsSound (thief-IsPlaced h);
    volumes =
        volumes-register now robbed worker new_start victim.end (volume_of s.volumes new_start)
          none;
  }

  no_tail-Keeps : victim.end < new_start → Keeps s robbed
  no_tail-Keeps h = record {
    owned = λ x. omega (arith, owners-robbed x, kept_byte x h);
    sound = robbed-IsSound;
    volumes = unfold robbed in refl;
  }

  take_tail-Keeps : Keeps s (take_tail now robbed worker new_start victim.end).0
  unfolding take_tail robbed
  take_tail-Keeps = elim (Bool-cases (ltb victim.end new_start)) [
    | inl past ↦ rw past (no_tail-Keeps (ground arith))
    | inr before ↦
        let h : new_start ≤ victim.end = ground arith in
        rw (before, new_end_lem h, before) (tail-Keeps h)
  ]

  rob-Keeps : Keeps s (rob now s worker (some (pos, victim))).0
  unfolding rob robbed cut new_start
  rob-Keeps = if_holds (λ (o : Outcome). Keeps s o.0) _ _ _ (Keeps-refl v) take_tail-Keeps

robbable :
    (worker need : ℕ) (l : Live)
    → can_rob worker need l ≡ true
    → (is_primary l ≡ true) × (0 < remaining l)
robbable worker need l h = ground arith

pub steal-Keeps :
    (F : FloatOps) (now : ℕ) (s : Scheduler) (worker : ℕ)
    → IsSound s
    → IsLayout s.volumes
    → Keeps s (steal F now s worker).0
unfolding steal
steal-Keeps F now s worker v layout =
    let need = saturating_mul (min_frag s) 2 in
    elim (Option-cases (pick_victim F now s.live worker need)) [
      | inl e ↦ rw (e, rob) (Keeps-refl v)
      | inr (c, e) ↦
          let p = pick_victim-Passes F now s.live worker need e in
          let (primary, owing) = robbable worker need c.1 p.passed in
          rw e (rob-Keeps now s v layout worker c.0 c.1 p.there primary owing)
    ]
