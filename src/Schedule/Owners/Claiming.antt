-- ===== src/Schedule/Owners/Claiming.antt =====
-- The whole of `claim`: take, steal, hedge.
use hydraria.Prelude.{
  ℕ, ◌-◌, ◌≤◌, min, Bool, true, false, ◌||◌, [], ◌∷◌, List, none, some, ltb, if_holds, arith,
  Bool-cases, Option-cases, inl, inr, saturating_add, wrapping_add, wrapping_sub,
}
use hydraria.Schedule.Float.{FloatOps}
use hydraria.Schedule.State.{
  IsLayout, Scheduler, Live, Strategy, throughput, latency, volume_of, min_claim,
}
use hydraria.Schedule.Sizing.{in_tail}
use hydraria.Schedule.Select.{pick_race}
use hydraria.Schedule.Select.Chosen.{pick_race-Passes}
use hydraria.Schedule.Assign.{
  Outcome, register, take_unclaimed, steal, race, hedge, regions_under, or_else, take_any,
  hedge_under, claim,
}
use hydraria.Schedule.Owners.{IsPlaced, IsSound}
use hydraria.Schedule.Owners.Counting.{All-get}
use hydraria.Schedule.Owners.Taking.{
  Keeps, Keeps-refl, Keeps-trans, owners-register, register-IsSound, volumes-register,
  take_unclaimed-Keeps,
}
use hydraria.Schedule.Owners.Stealing.{steal-Keeps}

-- A hedge owes nothing, and its budget is nobody's range.
hedge-Keeps :
    (now : ℕ) (s : Scheduler) (worker start end volume primary budget : ℕ)
    → IsSound s
    → end ≤ s.req_end
    → Keeps s
        (register now (record s { dup_budget = budget }) worker start end volume (some primary)).0
hedge-Keeps now s worker start end volume primary budget v h =
    let s' : Scheduler = record s { dup_budget = budget } in
    let v' : IsSound s' = record { word = v.word; sorted = v.sorted; placed = v.placed } in
    record {
      owned = λ x. omega (arith, owners-register now s' worker start end volume (some primary) x);
      sound =
          register-IsSound now s' worker start end volume (some primary) v'
            (record { begun = omega arith; bounded = h; one_volume = λ p x q r e. cc });
      volumes = volumes-register now s' worker start end volume (some primary);
    }

or_else-Keeps :
    (s : Scheduler) (o : Outcome) (next : Scheduler → Outcome)
    → Keeps s o.0
    → ((t : Scheduler) → Keeps s t → Keeps s (next t).0)
    → Keeps s (or_else o next).0
unfolding or_else
or_else-Keeps s (t, some c) next k step = k
or_else-Keeps s (t, none) next k step = step t k

take_any-Keeps :
    (now worker : ℕ) (regions : List (ℕ × ℕ × Bool)) (s t : Scheduler)
    → IsLayout s.volumes
    → Keeps s t
    → Keeps s (take_any now regions t worker).0
unfolding take_any
take_any-Keeps now worker [] s t layout k = k
take_any-Keeps now worker ((rs, re, critical) ∷ rest) s t layout k =
    let from = λ (u : Scheduler) (m : Keeps s u) (respect : Bool).
      Keeps-trans m
        (take_unclaimed-Keeps now u m.sound (rw m.volumes layout) worker rs re respect critical) in
    let beyond : Scheduler → Outcome = λ u. take_unclaimed now u worker rs re false critical in
    let others : Scheduler → Outcome = λ u. take_any now rest u worker in
    or_else-Keeps s (take_unclaimed now t worker rs re true critical)
      (λ u. or_else (beyond u) others) (from t k true)
      λ u m.
        or_else-Keeps s (beyond u) others (from u m false)
          λ w n. take_any-Keeps now worker rest s w layout n

module _ (F : FloatOps) (now worker : ℕ) where
  race-Keeps :
      (s : Scheduler) (pos : ℕ) (target : Live)
      → IsSound s
      → target.end ≤ s.req_end
      → Keeps s (race F now s worker (some (pos, target))).0
  unfolding race
  race-Keeps s pos target v h =
      let lo = target.cursor in
      let hi : ℕ = min target.end (saturating_add lo (s.dup_budget - 1)) in
      let size : ℕ = wrapping_add (wrapping_sub hi lo) 1 in
      elim (Bool-cases (ltb hi lo || ltb size min_claim)) [
        | inl t ↦ rw t (Keeps-refl v)
        | inr t ↦ rw t (
            hedge-Keeps now s worker lo hi (volume_of s.volumes lo) target.start
              (wrapping_sub s.dup_budget size) v (omega arith))
      ]

  hedge-tier-Keeps : (s : Scheduler) → IsSound s → Keeps s (hedge F now s worker).0
  unfolding hedge
  hedge-tier-Keeps s v = elim (Bool-cases (ltb s.dup_budget min_claim)) [
    | inl t ↦ rw t (Keeps-refl v)
    | inr t ↦ rw t (elim (Option-cases (pick_race F now s.live worker)) [
      | inl e ↦ rw (e, race) (Keeps-refl v)
      | inr (c, e) ↦
          let p = pick_race-Passes F now s.live worker e in
          let placed = All-get (IsPlaced s.volumes s.req_end) s.live c.0 v.placed p.there in
          rw e (race-Keeps s c.0 c.1 v placed.bounded)
    ])
  ]

  hedge_under-Keeps :
      (strategy : Strategy) (s : Scheduler)
      → IsSound s
      → Keeps s (hedge_under F now strategy s worker).0
  unfolding hedge_under
  hedge_under-Keeps (latency window head) s v = Keeps-refl v
  hedge_under-Keeps throughput s v =
      if_holds (λ (o : Outcome). Keeps s o.0) (in_tail s) (hedge F now s worker) (s, none)
        (hedge-tier-Keeps s v) (Keeps-refl v)

  -- From a sound state over a layout of volumes, `claim` leaves each byte with as many owners as
  -- it had, in a sound state, by whichever tier it hands out work.
  pub claim-Keeps :
      (s : Scheduler) → IsSound s → IsLayout s.volumes → Keeps s (claim F now s worker).0
  unfolding claim
  claim-Keeps s v layout =
      let robbing : Scheduler → Outcome = λ t. steal F now t worker in
      let racing : Scheduler → Outcome = λ u. hedge_under F now u.strategy u worker in
      or_else-Keeps s (take_any now (regions_under s.strategy s) s worker)
        (λ t. or_else (robbing t) racing)
        (take_any-Keeps now worker (regions_under s.strategy s) s s layout (Keeps-refl v))
        λ t k.
          or_else-Keeps s (robbing t) racing
            (Keeps-trans k (steal-Keeps F now t worker k.sound (rw k.volumes layout)))
            λ u l. Keeps-trans l (hedge_under-Keeps u.strategy u l.sound)
