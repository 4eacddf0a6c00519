-- ===== src/Schedule/Owners/Rounds.antt =====
-- src/schedule.rs: a loop over the live claims keeps the owners when each round does.
use hydraria.Prelude.{
  ℕ, ◌+◌, ◌≤◌, ◌<◌, ◌≡◌, refl, [], ◌∷◌, ◌++◌, List, Option, none, some, arith, u64_mod, All,
}
use hydraria.Schedule.Ranges.{Ranges, listed, IsSortedIn}
use hydraria.Schedule.State.{Scheduler, Live}
use hydraria.Schedule.Release.{Visit, sweep, sweep_on}
use hydraria.Schedule.Owners.{
  owes, one_if, owners_in, owners, IsPlaced, IsSound, IsExclusive, IsSettled,
}
use hydraria.Schedule.Owners.Counting.{owners_in-append, All-append}
use hydraria.Schedule.Owners.Taking.{Keeps}

abbrev pub owed_by_option : Option Live → ℕ → ℕ
owed_by_option none x = 0
owed_by_option (some l) x = one_if (owes l x)

abbrev pub AllOption : (Live → Type 0) → Option Live → Type 0
AllOption P none = Unit
AllOption P (some l) = P l

-- What a visit of one claim must do for the loop to keep the owners.
pub record IsFair (bound : ℕ) (P : Live → Type 0) (unclaimed : Ranges) (l : Live)
    (result : Option Live × Ranges) : Type 0 where
  pub owned :
      (x : ℕ)
      → one_if (listed unclaimed x) + one_if (owes l x) ≤ 1
      → one_if (listed result.1 x) + owed_by_option result.0 x
        ≡ one_if (listed unclaimed x) + one_if (owes l x)
  pub sorted : IsSortedIn 0 bound result.1
  pub placed : AllOption P result.0

abbrev pub AlwaysFair : Visit → Type 0
AlwaysFair visit =
    (s : Scheduler) (l : Live)
    → s.req_end + 1 < u64_mod
    → IsSortedIn 0 s.req_end s.unclaimed
    → IsPlaced s.volumes s.req_end l
    → IsSettled l
    → IsFair s.req_end (IsPlaced s.volumes s.req_end) s.unclaimed l (visit s l)

-- The state between two rounds of the loop.
record IsMidway (s : Scheduler) (done todo : List Live) : Type 0 where
  word : s.req_end + 1 < u64_mod
  sorted : IsSortedIn 0 s.req_end s.unclaimed
  done_placed : All (IsPlaced s.volumes s.req_end) done
  todo_placed : All (IsPlaced s.volumes s.req_end) todo
  settled : All IsSettled todo
  exclusive : (x : ℕ) → one_if (listed s.unclaimed x) + owners_in done x + owners_in todo x ≤ 1

record IsSwept (s : Scheduler) (done todo : List Live) (t : Scheduler) : Type 0 where
  owned : (x : ℕ) → owners t x ≡ one_if (listed s.unclaimed x) + owners_in done x + owners_in todo x
  sound : IsSound t
  volumes : t.volumes ≡ s.volumes

module _ (s : Scheduler) (done : List Live) (l : Live) (todo : List Live)
    (m : IsMidway s done (l ∷ todo)) where
  gone-IsMidway :
      (unclaimed : Ranges)
      → IsFair s.req_end (IsPlaced s.volumes s.req_end) s.unclaimed l (none, unclaimed)
      → IsMidway (record s { unclaimed = unclaimed }) done todo
  unfolding owners_in
  gone-IsMidway unclaimed f = record {
    word = m.word;
    sorted = f.sorted;
    done_placed = m.done_placed;
    todo_placed = m.todo_placed.1;
    settled = m.settled.1;
    exclusive = λ x. let e = m.exclusive x in omega (arith, f.owned x (omega arith));
  }

  stays-IsMidway :
      (l' : Live) (unclaimed : Ranges)
      → IsFair s.req_end (IsPlaced s.volumes s.req_end) s.unclaimed l (some l', unclaimed)
      → IsMidway (record s { unclaimed = unclaimed }) (done ++ l' ∷ []) todo
  unfolding owners_in
  stays-IsMidway l' unclaimed f = record {
    word = m.word;
    sorted = f.sorted;
    done_placed =
        All-append (IsPlaced s.volumes s.req_end) done (l' ∷ []) m.done_placed (f.placed, tt);
    todo_placed = m.todo_placed.1;
    settled = m.settled.1;
    exclusive = λ x.
        let e = m.exclusive x in
        omega (arith, f.owned x (omega arith), owners_in-append done (l' ∷ []) x);
  }

  sweep_on-IsSwept :
      (next : List Live → Scheduler → Scheduler × List ℕ)
      → ((done : List Live) (s : Scheduler)
          → IsMidway s done todo
          → IsSwept s done todo (next done s).0)
      → (r : Option Live × Ranges) → IsFair s.req_end (IsPlaced s.volumes s.req_end) s.unclaimed l r
      → IsSwept s done (l ∷ todo) (sweep_on next done l s r).0
  unfolding sweep_on owners_in
  sweep_on-IsSwept next ih (none, unclaimed) f =
      let swept = ih done (record s { unclaimed = unclaimed }) (gone-IsMidway unclaimed f) in
      record {
        owned = λ x. let e = m.exclusive x in omega (arith, swept.owned x, f.owned x (omega arith));
        sound = swept.sound;
        volumes = swept.volumes;
      }
  sweep_on-IsSwept next ih (some l', unclaimed) f =
      let swept =
        ih (done ++ l' ∷ []) (record s { unclaimed = unclaimed }) (stays-IsMidway l' unclaimed f) in
      record {
        owned = λ x.
            let e = m.exclusive x in
            omega
              (arith, swept.owned x, f.owned x (omega arith), owners_in-append done (l' ∷ []) x);
        sound = swept.sound;
        volumes = swept.volumes;
      }

module _ (visit : Visit) (fair : AlwaysFair visit) where
  sweep-IsSwept :
      (done todo : List Live) (s : Scheduler)
      → IsMidway s done todo
      → IsSwept s done todo (sweep visit done todo s).0
  unfolding sweep sweep_on owners_in
  sweep-IsSwept done [] s m = record {
    owned = λ x. omega arith;
    sound = record { word = m.word; sorted = m.sorted; placed = m.done_placed };
    volumes = refl;
  }
  sweep-IsSwept done (l ∷ todo) s m =
      sweep_on-IsSwept s done l todo m (λ done s. sweep visit done todo s)
        (λ done s m. sweep-IsSwept done todo s m) (visit (record s { live = done ++ l ∷ todo }) l)
        (fair (record s { live = done ++ l ∷ todo }) l m.word m.sorted m.todo_placed.0 m.settled.0)

module _ (s : Scheduler) (v : IsSound s) (only : IsExclusive s)
    (settled : All IsSettled s.live) where
  pub swept-Keeps : (visit : Visit) → AlwaysFair visit → Keeps s (sweep visit [] s.live s).0
  unfolding owners_in
  swept-Keeps visit fair =
      let swept = sweep-IsSwept visit fair [] s.live s (record {
        word = v.word;
        sorted = v.sorted;
        done_placed = tt;
        todo_placed = v.placed;
        settled = settled;
        exclusive = λ x. omega (arith, only x);
      }) in
      record {
        owned = λ x. omega (arith, swept.owned x);
        sound = swept.sound;
        volumes = swept.volumes;
      }
