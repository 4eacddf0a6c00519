-- ===== src/Schedule/Owners/Finishing.antt =====
-- src/schedule.rs, `finish`: what becomes of the range of a claim that ends.
use hydraria.Prelude.{
  ℕ, ◌+◌, ◌≤◌, ◌<◌, ◌≡◌, refl, Bool, true, false, ◌&&◌, [], ◌∷◌, List, Option, none, some, ltb,
  ◌==◌, if◌then◌else◌, arith, Bool-cases, inl, inr, u64_mod,
}
use hydraria.Schedule.Ranges.{Ranges, listed, insert_unclaimed, IsSortedIn}
use hydraria.Schedule.Ranges.Insert.{insert_unclaimed-listed, insert_unclaimed-IsSortedIn}
use hydraria.Schedule.State.{Scheduler, Live, is_primary}
use hydraria.Schedule.Release.{
  split_off, pulled_in, cut_short, is_hedge_of, release, release_found, finish,
}
use hydraria.Schedule.Owners.{
  owes, one_if, owners_in, owners, IsPlaced, IsSound, IsExclusive, IsSettled,
}
use hydraria.Schedule.Owners.Taking.{Keeps}
use hydraria.Schedule.Owners.Removing.{
  split_off-Parts, owners_in-cut_short, cut_short-IsPlaced, hedge_only, Parts,
}

-- Bytes that a claim gives back are unclaimed afterwards, where nobody else owns them.
pub given_back :
    (bound : ℕ) (unclaimed : Ranges) (l : Live) (x : ℕ)
    → bound < u64_mod
    → l.end ≤ bound
    → IsSortedIn 0 bound unclaimed
    → is_primary l ≡ true
    → IsSettled l
    → l.cursor ≤ l.end
    → one_if (listed unclaimed x) + one_if (owes l x) ≤ 1
    → one_if (listed (insert_unclaimed unclaimed l.cursor l.end) x)
      ≡ one_if (listed unclaimed x) + one_if (owes l x)
given_back bound unclaimed l x w b m primary settled some_left one =
    rw (insert_unclaimed-listed bound w l.cursor l.end 0 unclaimed x b m) (ground arith)

module _ (s : Scheduler) (v : IsSound s) (only : IsExclusive s) (l : Live) (others : List Live)
    (parts : Parts (IsPlaced s.volumes s.req_end) s.live l others) where
  -- A primary that stops at its cursor.
  release-primary-Keeps :
      is_primary l ≡ true
      → IsSettled l
      → Keeps s (release (record s { live = others }) l l.cursor none)
  unfolding release
  release-primary-Keeps primary settled =
      let (mine, rest) = parts.all v.placed in
      elim (Bool-cases (ltb l.end l.cursor)) [
        | inl complete ↦ rw complete (record {
          owned = λ x. omega (
            arith,
            parts.owned x,
            owners_in-cut_short (λ h. is_hedge_of l.start h.hedge_of) others x hedges_only,
            spent x (ground arith) settled,
          );
          sound = record {
            word = v.word;
            sorted = v.sorted;
            placed =
                cut_short-IsPlaced s.volumes s.req_end (λ h. is_hedge_of l.start h.hedge_of) others
                  rest;
          };
          volumes = refl;
        })
        | inr partial ↦ rw partial (record {
          owned = λ x. omega (
            arith,
            parts.owned x,
            only x,
            given_back s.req_end s.unclaimed l x (omega (arith, v.word)) mine.bounded v.sorted
                primary settled (ground arith) (omega (arith, parts.owned x, only x)),
          );
          sound = record {
            word = v.word;
            sorted =
                insert_unclaimed-IsSortedIn s.req_end (omega (arith, v.word)) l.cursor l.end 0
                  s.unclaimed (omega arith) mine.bounded v.sorted;
            placed = rest;
          };
          volumes = refl;
        })
      ]
    where
      hedges_only : (h : Live) → is_hedge_of l.start h.hedge_of ≡ true → is_primary h ≡ false
      hedges_only h e = hedge_only l.start h.hedge_of e

      spent : (x : ℕ) → l.end < l.cursor → IsSettled l → one_if (owes l x) ≡ 0
      spent x p q = ground arith

-- A worker that is no hedge finishes at its cursor, between two writes: from a sound state in
-- which no byte has two owners, each byte keeps its owners.
pub finish-Keeps :
    (s : Scheduler) (worker : ℕ) (l : Live) (others : List Live)
    → IsSound s
    → IsExclusive s
    → split_off s.live worker ≡ some (l, others)
    → l.hedge_of ≡ none
    → IsSettled l
    → Keeps s (finish s worker l.cursor)
unfolding finish release_found
finish-Keeps s worker l others v only at primary settled =
    rw (at, primary)
      (release-primary-Keeps s v only l others
        (split_off-Parts (IsPlaced s.volumes s.req_end) s.live worker at) (rw primary refl) settled)

unfoldable pub first : (Live → Bool) → List Live → Option Live
first matches [] = none
first matches (l ∷ ls) = if matches l then some l else first matches ls

-- The primary that a hedge which began at `start` races.
unfoldable pub raced : List Live → ℕ → Option Live
unfolding first
raced ls start = first (λ l. is_primary l && l.start == start) ls

pub owners_in-cut_first :
    (matches : Live → Bool) (ls : List Live) (x : ℕ) {k : Live}
    → first matches ls ≡ some k
    → owners_in (cut_short matches ls) x + one_if (owes k x)
      ≡ owners_in ls x + one_if (owes (pulled_in k) x)
unfolding first cut_short owners_in
owners_in-cut_first matches [] x e = cc
owners_in-cut_first matches (l ∷ ls) x {k} e = elim (Bool-cases (matches l)) [
  | inl hit ↦ let same : l ≡ k = let e' = rw hit at e in cc in rw (hit, same) (omega arith)
  | inr miss ↦ rw miss (omega (arith, owners_in-cut_first matches ls x (rw miss at e)))
]

first-holds :
    (matches : Live → Bool) (ls : List Live) {k : Live}
    → first matches ls ≡ some k
    → matches k ≡ true
unfolding first
first-holds matches [] e = cc
first-holds matches (l ∷ ls) {k} e = elim (Bool-cases (matches l)) [
  | inl hit ↦ let same : l ≡ k = let e' = rw hit at e in cc in rw same at hit
  | inr miss ↦ first-holds matches ls (rw miss at e)
]

pub not_owed : (l : Live) (x : ℕ) → is_primary l ≡ false → one_if (owes l x) ≡ 0
not_owed l x e = ground arith

still_owed :
    (k : Live) (x : ℕ) → is_primary k ≡ true → k.cursor ≤ x → x ≤ k.end → one_if (owes k x) ≡ 1
still_owed k x e p q = ground arith

owed_no_more :
    (k : Live) (x : ℕ) → 0 < x → k.cursor ≤ x → k.reserved ≤ x → one_if (owes (pulled_in k) x) ≡ 0
unfolding pulled_in
owed_no_more k x c p q = ground arith

-- A hedge that was cut before the end of the primary it races, and wins, strands the bytes behind
-- its end that the primary has not reserved: they had one owner and have none.
pub finish-strands :
    (s : Scheduler) (worker reached start : ℕ) (h k : Live) (others : List Live) (x : ℕ)
    → IsExclusive s
    → split_off s.live worker ≡ some (h, others)
    → h.hedge_of ≡ some start
    → h.end < reached
    → raced others start ≡ some k
    → k.cursor ≤ x
    → k.reserved ≤ x
    → h.end < x
    → x ≤ k.end
    → owners s x ≡ 1 × (owners (finish s worker reached) x ≡ 0)
unfolding finish release_found release raced
finish-strands s worker reached start h k others x only at hedge won race p q r t =
    let mine = (split_off-Parts (λ l. Unit) s.live worker at).owned x in
    let cut = owners_in-cut_first (λ l. is_primary l && l.start == start) others x race in
    let holds = first-holds (λ l. is_primary l && l.start == start) others race in
    let hedge_owes = not_owed h x (rw hedge refl) in
    let primary_owed = still_owed k x (ground arith) p t in
    let primary_owes = owed_no_more k x (omega arith) p q in
    let one = only x in
    (
      omega arith,
      rw (at, release_found, hedge, ltb)
          (let e : ltb h.end reached ≡ true = ground arith in rw e (omega arith)),
    )
