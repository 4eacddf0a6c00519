-- ===== src/Schedule/Owners/Counting.antt =====
-- Counting the owners of a byte over lists that change.
use hydraria.Prelude.{ℕ, zero, suc, ◌+◌, ◌≡◌, List, [], ◌∷◌, ◌++◌, some, get_elem?, set, arith, All}
use hydraria.Schedule.State.{Live}
use hydraria.Schedule.Owners.{owes, one_if, owners_in}

pub owners_in-append :
    (xs ys : List Live) (x : ℕ) → owners_in (xs ++ ys) x ≡ owners_in xs x + owners_in ys x
unfolding owners_in
owners_in-append [] ys x = omega arith
owners_in-append (l ∷ xs) ys x = omega (arith, owners_in-append xs ys x)

-- A claim in the list is exchanged for another.
pub owners_in-set :
    (ls : List Live) (pos : ℕ) (l l' : Live) (x : ℕ)
    → get_elem? ls pos ≡ some l
    → owners_in (set ls pos l') x + one_if (owes l x) ≡ owners_in ls x + one_if (owes l' x)
unfolding owners_in
owners_in-set [] pos l l' x e = cc
owners_in-set (k ∷ ls) zero l l' x e = let same : k ≡ l = cc in rw same (omega arith)
owners_in-set (k ∷ ls) (suc pos) l l' x e = omega (arith, owners_in-set ls pos l l' x e)

module _ {ℓ κ} {A : Type ℓ} (P : A → Type κ) where
  pub All-append : (xs ys : List A) → All P xs → All P ys → All P (xs ++ ys)
  All-append [] ys p q = q
  All-append (x ∷ xs) ys p q = (p.0, All-append xs ys p.1 q)

  pub All-set : (xs : List A) (pos : ℕ) (a : A) → All P xs → P a → All P (set xs pos a)
  All-set [] pos a p q = tt
  All-set (x ∷ xs) zero a p q = (q, p.1)
  All-set (x ∷ xs) (suc pos) a p q = (p.0, All-set xs pos a p.1 q)

  pub All-get : (xs : List A) (pos : ℕ) {a : A} → All P xs → get_elem? xs pos ≡ some a → P a
  All-get [] pos p e = cc
  All-get (x ∷ xs) zero {a} p e = let same : x ≡ a = cc in rw same at p.0
  All-get (x ∷ xs) (suc pos) p e = All-get xs pos p.1 e
