-- ===== src/Schedule/Owners/Winning.antt =====
-- src/schedule.rs, `finish`: a hedge that delivers all it was asked for, and the primary it raced.
use hydraria.Prelude.{
  ℕ, ◌≤◌, ◌<◌, ◌≡◌, refl, Bool, true, false, ◌&&◌, List, [], ◌∷◌, none, some, ltb, leb, ◌==◌, arith,
  Bool-cases, Option-cases, inl, inr,
}
use hydraria.Schedule.State.{Scheduler, Live, is_primary}
use hydraria.Schedule.Release.{split_off, pulled_in, cut_short, release, release_found, finish}
use hydraria.Schedule.Owners.{owes, one_if, owners_in, owners, IsPlaced, IsSound}
use hydraria.Schedule.Owners.Removing.{split_off-Parts, cut_short-IsPlaced}
use hydraria.Schedule.Owners.Finishing.{first, raced, owners_in-cut_first, not_owed}

-- Outside the hedge's range each byte keeps its owners.
pub record Wins (l : Live) (s t : Scheduler) : Type 0 where
  pub sound : IsSound t
  pub volumes : t.volumes ≡ s.volumes
  pub fewer : (x : ℕ) → owners t x ≤ owners s x
  pub kept : (x : ℕ) → (leb l.start x && leb x l.end) ≡ false → owners t x ≡ owners s x

owners_in-cut_none :
    (matches : Live → Bool) (ls : List Live) (x : ℕ)
    → first matches ls ≡ none
    → owners_in (cut_short matches ls) x ≡ owners_in ls x
unfolding first cut_short owners_in
owners_in-cut_none matches [] x e = refl
owners_in-cut_none matches (l ∷ ls) x e = elim (Bool-cases (matches l)) [
  | inl hit ↦ let e' = rw hit at e in cc
  | inr miss ↦ rw miss (omega (arith, owners_in-cut_none matches ls x (rw miss at e)))
]

pulled_in-owes : (k : Live) (x : ℕ) → one_if (owes (pulled_in k) x) ≤ one_if (owes k x)
unfolding pulled_in
pulled_in-owes k x = ground arith

pulled_in-owes_outside :
    (l k : Live) (x : ℕ)
    → (leb l.start x && leb x l.end) ≡ false
    → l.start ≤ k.cursor
    → k.end ≤ l.end
    → one_if (owes (pulled_in k) x) ≡ one_if (owes k x)
unfolding pulled_in
pulled_in-owes_outside l k x out from to = ground arith

abbrev is_raced : ℕ → Live → Bool
is_raced primary l = is_primary l && l.start == primary

module _ (s : Scheduler) (worker primary : ℕ) (l : Live) (others : List Live) (v : IsSound s)
    (at : split_off s.live worker ≡ some (l, others)) (hedge : l.hedge_of ≡ some primary)
    (whole : (k : Live)
      → raced others primary ≡ some k
      → (l.start ≤ k.cursor) × (k.end ≤ l.end)) where
  cut_fewer : (x : ℕ) → owners_in (cut_short (is_raced primary) others) x ≤ owners_in others x
  cut_fewer x = elim (Option-cases (first (is_raced primary) others)) [
    | inl nobody ↦ omega (arith, owners_in-cut_none (is_raced primary) others x nobody)
    | inr (k, race) ↦
        omega (arith, owners_in-cut_first (is_raced primary) others x race, pulled_in-owes k x)
  ]

  cut_kept :
      (x : ℕ)
      → (leb l.start x && leb x l.end) ≡ false
      → owners_in (cut_short (is_raced primary) others) x ≡ owners_in others x
  unfolding raced
  cut_kept x out = elim (Option-cases (first (is_raced primary) others)) [
    | inl nobody ↦ owners_in-cut_none (is_raced primary) others x nobody
    | inr (k, race) ↦
        let (from, to) = whole k race in
        omega (
          arith,
          owners_in-cut_first (is_raced primary) others x race,
          pulled_in-owes_outside l k x out from to,
        )
  ]

  pub finish-Wins : l.end < l.cursor → Wins l s (finish s worker l.cursor)
  unfolding finish release_found release
  finish-Wins over =
      let parts = split_off-Parts (IsPlaced s.volumes s.req_end) s.live worker at in
      let done : ltb l.end l.cursor ≡ true = ground arith in
      let nothing : (x : ℕ) → one_if (owes l x) ≡ 0 = λ x. not_owed l x (rw hedge refl) in
      rw (at, hedge, done)
        (record {
          sound = record {
            word = v.word;
            sorted = v.sorted;
            placed =
                cut_short-IsPlaced s.volumes s.req_end (is_raced primary) others
                  (parts.all v.placed).1;
          };
          volumes = refl;
          fewer = λ x. omega (arith, cut_fewer x, parts.owned x, nothing x);
          kept = λ x out. omega (arith, cut_kept x out, parts.owned x, nothing x);
        })
