-- ===== src/Schedule/Owners/Removing.antt =====
-- src/schedule.rs: taking a claim out of `live`, and pulling in the end of another.
use hydraria.Prelude.{
  ℕ, ◌+◌, ◌≡◌, refl, Bool, true, false, [], ◌∷◌, List, Option, none, some, ◌==◌, arith, Bool-cases,
  inl, inr, All, is_none,
}
use hydraria.Schedule.State.{Live, VolumeMeta, is_primary}
use hydraria.Schedule.Release.{with_front, split_off, pulled_in, cut_short, is_hedge_of}
use hydraria.Schedule.Owners.{owes, one_if, owners_in, IsPlaced}

-- The parts of a list that `split_off` gives.
pub record Parts (P : Live → Type 0) (ls : List Live) (l : Live) (others : List Live) : Type 0 where
  pub owned : (x : ℕ) → owners_in ls x ≡ one_if (owes l x) + owners_in others x
  pub all : All P ls → P l × All P others

some_pair :
    {k l : Live} {ks ls : List Live}
    → ◌≡◌ {A = Option (Live × List Live)} (some (k, ks)) (some (l, ls))
    → (k ≡ l) × (ks ≡ ls)
some_pair e = (cc, cc)

with_front-some :
    (k : Live) (o : Option (Live × List Live)) {l : Live} {others : List Live}
    → with_front k o ≡ some (l, others)
    → (os : List Live) × (o ≡ some (l, os)) × (k ∷ os ≡ others)
unfolding with_front
with_front-some k none e = cc
with_front-some k (some (f, os)) e = (os, cc, cc)

pub split_off-Parts :
    (P : Live → Type 0) (ls : List Live) (worker : ℕ) {l : Live} {others : List Live}
    → split_off ls worker ≡ some (l, others)
    → Parts P ls l others
unfolding split_off owners_in
split_off-Parts P [] worker e = cc
split_off-Parts P (k ∷ ls) worker e = elim (Bool-cases (k.worker == worker)) [
  | inl here ↦
      let (p, q) = some_pair (rw here at e) in
      record { owned = λ x. rw (p, q) refl; all = λ a. (rw (← p) a.0, rw (← q) a.1) }
  | inr there ↦
      let (os, at, q) = with_front-some k (split_off ls worker) (rw there at e) in
      let ih = split_off-Parts P ls worker at in
      record {
        owned = λ x. rw (← q) (omega (arith, ih.owned x));
        all = λ a. let b = ih.all a.1 in (b.0, rw (← q) (a.0, b.1));
      }
]

-- Pulling in a hedge changes no owner.
pub owners_in-cut_short :
    (matches : Live → Bool) (ls : List Live) (x : ℕ)
    → ((l : Live) → matches l ≡ true → is_primary l ≡ false)
    → owners_in (cut_short matches ls) x ≡ owners_in ls x
unfolding cut_short owners_in pulled_in
owners_in-cut_short matches [] x h = refl
owners_in-cut_short matches (l ∷ ls) x h = elim (Bool-cases (matches l)) [
  | inl hit ↦ rw hit (let p = h l hit in ground arith)
  | inr miss ↦ rw miss (omega (arith, owners_in-cut_short matches ls x h))
]

pub cut_short-IsPlaced :
    (volumes : Option (List VolumeMeta)) (req_end : ℕ) (matches : Live → Bool) (ls : List Live)
    → All (IsPlaced volumes req_end) ls
    → All (IsPlaced volumes req_end) (cut_short matches ls)
unfolding cut_short pulled_in
cut_short-IsPlaced volumes req_end matches [] p = tt
cut_short-IsPlaced volumes req_end matches (l ∷ ls) p = elim (Bool-cases (matches l)) [
  | inl hit ↦ rw hit (
    record {
      begun = p.0.begun;
      bounded = omega (arith, p.0.bounded);
      one_volume = λ q x r t e. omega (arith, p.0.one_volume q x r (omega arith) e);
    },
    p.1,
  )
  | inr miss ↦ rw miss (p.0, cut_short-IsPlaced volumes req_end matches ls p.1)
]

pub hedge_only : (start : ℕ) (o : Option ℕ) → is_hedge_of start o ≡ true → is_none o ≡ false
unfolding is_hedge_of
hedge_only start none e = cc
hedge_only start (some primary) e = refl
