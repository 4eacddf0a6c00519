-- ===== src/Cache/Bitmap/Laws.antt =====
-- Reading a bit after a write.
use Prim.Native.Nat.{bit_or}
use native.Mathlib.Decide.{ℕ_discrete}
use hydraria.Prelude.{
  ◌≢◌, ℕ, zero, suc, ◌/◌, ◌%◌, ◌^◌, ◌<◌, ◌≡◌, refl, inl, inr, Bool, true, false, ◌&&◌, ◌||◌, List,
  [], ◌∷◌, some, length, get_elem?, set, length-set, get_elem?-set_self, get_elem?-set_ne,
  Option-cases, arith, ltb, ◌==◌,
}
use hydraria.Cache.Bitmap.{IsBytes, test_bit, has_block, mark_block}

-- The test holds at each number under the limit.
each_under : (ℕ → Bool) → ℕ → Bool
each_under test zero = true
each_under test (suc limit) = each_under test limit && test limit

each_under-at :
    (test : ℕ → Bool) (limit : ℕ) {k : ℕ} → k < limit → each_under test limit ≡ true → test k ≡ true
unfolding each_under
each_under-at test zero under every = absurd (omega arith)
each_under-at test (suc limit) {k} under every = elim (ℕ_discrete k limit) [
  | yes last ↦ rw last (ground arith)
  | no earlier ↦ each_under-at test limit (omega (arith, earlier)) (ground arith)
]

same : Bool → Bool → Bool
same true b = b
same false true = false
same false false = true

eq_of_same : (a b : Bool) → same a b ≡ true → a ≡ b
unfolding same
eq_of_same a b h = ground arith

-- One byte and two bit positions.
abbrev case_holds : ℕ → ℕ → ℕ → Bool
case_holds byte i j =
    same (test_bit (bit_or byte (2 ^ i)) j) (i == j || test_bit byte j)
    && ltb (bit_or byte (2 ^ i)) 256

byte_table :
    each_under (λ byte. each_under (λ i. each_under (λ j. case_holds byte i j) 8) 8) 256 ≡ true
unfolding each_under same
byte_table = refl

byte_case : (byte i j : ℕ) → byte < 256 → i < 8 → j < 8 → case_holds byte i j ≡ true
byte_case byte i j b p q =
    each_under-at (λ j. case_holds byte i j) 8 q
      (each_under-at (λ i. each_under (λ j. case_holds byte i j) 8) 8 p
        (each_under-at (λ byte. each_under (λ i. each_under (λ j. case_holds byte i j) 8) 8) 256 b
          byte_table))

test_bit-bit_or :
    (byte i j : ℕ)
    → byte < 256
    → i < 8
    → j < 8
    → test_bit (bit_or byte (2 ^ i)) j ≡ i == j || test_bit byte j
test_bit-bit_or byte i j b p q = eq_of_same _ _ ((and_parts _ _ (byte_case byte i j b p q)).0)
  where
    and_parts : (c d : Bool) → c && d ≡ true → (c ≡ true) × (d ≡ true)
    and_parts c d h = ground arith

bit_or-lt : (byte i : ℕ) → byte < 256 → i < 8 → bit_or byte (2 ^ i) < 256
bit_or-lt byte i b p = ground (arith, byte_case byte i 0 b p (omega arith))

IsBytes-get :
    (bm : List ℕ) (k : ℕ) {byte : ℕ} → IsBytes bm → get_elem? bm k ≡ some byte → byte < 256
IsBytes-get [] k v e = cc
IsBytes-get (x ∷ bm) zero v e = ground arith
IsBytes-get (x ∷ bm) (suc k) v e = IsBytes-get bm k v.1 e

IsBytes-set : (bm : List ℕ) (k byte : ℕ) → byte < 256 → IsBytes bm → IsBytes (set bm k byte)
IsBytes-set [] k byte h v = tt
IsBytes-set (x ∷ bm) zero byte h v = (h, v.1)
IsBytes-set (x ∷ bm) (suc k) byte h v = (v.0, IsBytes-set bm k byte h v.1)

get_some : (bm : List ℕ) (k : ℕ) → k < length bm → (byte : ℕ) × (get_elem? bm k ≡ some byte)
get_some [] k h = absurd (omega arith)
get_some (x ∷ bm) zero h = (x, refl)
get_some (x ∷ bm) (suc k) h = get_some bm k (omega arith)

get_elem?-lt : (bm : List ℕ) (k : ℕ) {byte : ℕ} → get_elem? bm k ≡ some byte → k < length bm
get_elem?-lt [] k e = cc
get_elem?-lt (x ∷ bm) zero e = omega arith
get_elem?-lt (x ∷ bm) (suc k) e = omega (arith, get_elem?-lt bm k e)

pub mark_block-IsBytes : (bm : List ℕ) (i : ℕ) → IsBytes bm → IsBytes (mark_block bm i)
unfolding mark_block
mark_block-IsBytes bm i v = elim (Option-cases (get_elem? bm (i / 8))) [
  | inl e ↦ rw (e, mark_block) v
  | inr (byte, e) ↦
      rw (e, mark_block)
        (IsBytes-set bm (i / 8) _ (bit_or-lt byte (i % 8) (IsBytes-get bm _ v e) (omega arith)) v)
]

pub length-mark_block : (bm : List ℕ) (i : ℕ) → length (mark_block bm i) ≡ length bm
unfolding mark_block
length-mark_block bm i = elim (Option-cases (get_elem? bm (i / 8))) [
  | inl e ↦ rw (e, mark_block) refl
  | inr (byte, e) ↦ rw (e, mark_block) (length-set bm (i / 8) _)
]

module _ (bm : List ℕ) (i j : ℕ) {byte : ℕ} (e : get_elem? bm (i / 8) ≡ some byte) where
  has_block-mark_near :
      byte < 256 → i / 8 ≡ j / 8 → has_block (mark_block bm i) j ≡ i == j || has_block bm j
  unfolding has_block mark_block
  has_block-mark_near b near =
      rw (e, mark_block, ← near, e, get_elem?-set_self bm (i / 8) _ (get_elem?-lt bm _ e))
        (ground (arith, test_bit-bit_or byte (i % 8) (j % 8) b (omega arith) (omega arith)))

  has_block-mark_far : i / 8 ≢ j / 8 → has_block (mark_block bm i) j ≡ i == j || has_block bm j
  unfolding has_block mark_block
  has_block-mark_far far =
      rw (e, mark_block, get_elem?-set_ne bm (bit_or byte (2 ^ (i % 8))) far)
        (ground (arith, λ (p : i ≡ j). far (omega arith)))

-- Setting the bit of a block that lies in the bitmap sets that one and no other.
pub has_block-mark_block :
    (bm : List ℕ) (i j : ℕ)
    → IsBytes bm
    → i / 8 < length bm
    → has_block (mark_block bm i) j ≡ i == j || has_block bm j
has_block-mark_block bm i j v h =
    let (byte, e) = get_some bm (i / 8) h in
    elim (ℕ_discrete (i / 8) (j / 8)) [
      | yes near ↦ has_block-mark_near bm i j e (IsBytes-get bm (i / 8) v e) near
      | no far ↦ has_block-mark_far bm i j e far
    ]
