-- ===== src/Schedule/Owners/Taking.antt =====
-- Tier 1: a claim cut from a gap takes over the bytes that it takes out of the unclaimed list.
use hydraria.Prelude.{
  ℕ, ◌+◌, ◌≤◌, ◌≡◌, refl, ◌∙◌, Bool, true, [], ◌∷◌, Option, none, some, arith, Option-cases, inl,
  inr, unwrap_or,
}
use hydraria.Schedule.Ranges.{subtract, between, listed}
use hydraria.Schedule.Ranges.Subtract.{subtract-listed, subtract-IsSortedIn}
use hydraria.Schedule.State.{IsLayout, Scheduler, Live, volume_of, volume_end}
use hydraria.Schedule.Select.{pick_gap}
use hydraria.Schedule.Select.Chosen.{IsGap, pick_gap-IsGap}
use hydraria.Schedule.Assign.{register, cut_start, cut_end, take_gap, take_unclaimed}
use hydraria.Schedule.Owners.{owes, one_if, owners_in, owners, IsPlaced, IsSound}
use hydraria.Schedule.Owners.Counting.{owners_in-append, All-append}

-- The new state answers for the same bytes, and is sound.
pub record Keeps (s s' : Scheduler) : Type 0 where
  pub owned : (x : ℕ) → owners s' x ≡ owners s x
  pub sound : IsSound s'
  pub volumes : s'.volumes ≡ s.volumes

pub Keeps-refl : {s : Scheduler} → IsSound s → Keeps s s
Keeps-refl v = record { owned = λ x. refl; sound = v; volumes = refl }

pub Keeps-trans : {s t u : Scheduler} → Keeps s t → Keeps t u → Keeps s u
Keeps-trans p q = record {
  owned = λ x. q.owned x ∙ p.owned x;
  sound = q.sound;
  volumes = q.volumes ∙ p.volumes;
}

-- The entry that `register` adds.
abbrev pub fresh : ℕ → ℕ → ℕ → ℕ → ℕ → Option ℕ → Live
fresh now worker start end volume hedge_of = record {
  worker = worker;
  volume = volume;
  start = start;
  end = end;
  cursor = start;
  reserved = start;
  started = now;
  last_cursor = start;
  last_progress = now;
  hedge_of = hedge_of;
}

module _ (now : ℕ) (s : Scheduler) (worker start end volume : ℕ) (hedge_of : Option ℕ) where
  pub owners-register :
      (x : ℕ)
      → owners (register now s worker start end volume hedge_of).0 x
        ≡ owners s x + one_if (owes (fresh now worker start end volume hedge_of) x)
  unfolding register owners_in
  owners-register x =
      omega (arith, owners_in-append s.live (fresh now worker start end volume hedge_of ∷ []) x)

  pub register-IsSound :
      IsSound s
      → IsPlaced s.volumes s.req_end (fresh now worker start end volume hedge_of)
      → IsSound (register now s worker start end volume hedge_of).0
  unfolding register
  register-IsSound v p = record {
    word = v.word;
    sorted = v.sorted;
    placed = All-append (IsPlaced s.volumes s.req_end) s.live _ v.placed (p, tt);
  }

  pub volumes-register : (register now s worker start end volume hedge_of).0.volumes ≡ s.volumes
  unfolding register
  volumes-register = refl

module _ (now : ℕ) (s : Scheduler) (v : IsSound s) (layout : IsLayout s.volumes)
    (worker rs re : ℕ) where
  module _ (gap : ℕ × ℕ) (g : IsGap s.unclaimed s.req_end gap) where
    abbrev start : ℕ
    start = cut_start rs gap

    abbrev end : ℕ
    end = cut_end s rs re gap

    -- The claim lies in the gap, and does not pass the end of the volume where it starts.
    start_bound : gap.0 ≤ start
    unfolding cut_start
    start_bound = omega arith

    end_bound : end ≤ gap.1
    unfolding cut_end
    end_bound = omega arith

    end_in_volume : {last : ℕ} → volume_end s.volumes start ≡ some last → end ≤ last
    unfolding cut_end
    end_in_volume e = rw (e, unwrap_or) (omega arith)

    taken_byte : (x : ℕ) → between start end x ≡ true → listed s.unclaimed x ≡ true
    taken_byte x h = g.inside x (ground (arith, start_bound, end_bound))

    one_volume :
        (x : ℕ) {last : ℕ} → start ≤ x → x ≤ end → volume_end s.volumes x ≡ some last → end ≤ last
    one_volume x {last} p q e = elim (Option-cases (volume_end s.volumes start)) [
      | inl outside ↦ cc (layout.none_behind start x outside p)
      | inr (l, inside) ↦
          let same : l ≡ last =
            cc (layout.same_end start x inside p (omega (arith, end_in_volume inside)), e) in
          omega (arith, end_in_volume inside, same)
    ]

    rest : Scheduler
    rest = record s { unclaimed = subtract s.unclaimed start end }

    rest-IsSound : IsSound rest
    unfolding rest
    rest-IsSound = record {
      word = v.word;
      sorted =
          subtract-IsSortedIn s.req_end (omega (arith, v.word)) start end 0 s.unclaimed
            (omega (arith, v.word, end_bound, g.bounded)) v.sorted;
      placed = v.placed;
    }

    fresh-IsPlaced :
        IsPlaced s.volumes s.req_end (fresh now worker start end (volume_of s.volumes start) none)
    fresh-IsPlaced = record {
      begun = omega arith;
      bounded = omega (arith, end_bound, g.bounded);
      one_volume = λ p. one_volume;
    }

    take-Keeps : Keeps s (take_gap now s worker rs re (some gap)).0
    unfolding take_gap rest
    take-Keeps = record {
      owned = λ x.
          owners-register now rest worker start end (volume_of s.volumes start) none x
          ∙ (let cut =
                subtract-listed s.req_end (omega (arith, v.word)) start end 0 s.unclaimed x
                  (omega (arith, v.word, end_bound, g.bounded)) v.sorted in
              rw cut (ground (arith, taken_byte x)));
      sound =
          register-IsSound now rest worker start end (volume_of s.volumes start) none rest-IsSound
            fresh-IsPlaced;
      volumes = volumes-register now rest worker start end (volume_of s.volumes start) none;
    }

  pub take_unclaimed-Keeps :
      (respect critical : Bool) → Keeps s (take_unclaimed now s worker rs re respect critical).0
  unfolding take_unclaimed
  take_unclaimed-Keeps respect critical = elim (Option-cases (pick_gap s rs re respect critical)) [
    | inl e ↦ rw (e, take_gap) (Keeps-refl v)
    | inr (gap, e) ↦
        rw e (take-Keeps gap (pick_gap-IsGap s rs re respect critical s.req_end v.sorted e))
  ]
