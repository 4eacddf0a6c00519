-- ===== src/Chacha/Opened.antt =====
-- src/plugins/chacha20.rs, `transform`: any range of the volumes opens at its place in the file.
use Prim.Native.Nat.{bit_xor}
use hydraria.Prelude.{
  ℕ, zero, suc, ◌+◌, ◌^◌, ◌<◌, ◌≡◌, refl, ap, Bool, true, false, List, [], ◌∷◌, length, ◌==◌,
  if◌then◌else◌, ==_iff, u64_mod, arith, All, take, drop, length-take, length-drop,
}
use hydraria.Chacha.{Cipher, xor_from, apply_at, transform, write_volumes}
use hydraria.Chacha.Keystream.{Reaches, length-xor_from}
use hydraria.Chacha.Sizes.{sum}
use hydraria.Chacha.Sent.{concat, write_volumes-xor_from}

-- A byte of the key stream gives each of the bytes below `n` back.
gives_back : ℕ → ℕ → Bool
gives_back key zero = true
gives_back key (suc b) = if bit_xor (bit_xor b key) key == b then gives_back key b else false

gives_back_lem : (key n b : ℕ) → b < n → gives_back key n ≡ true → bit_xor (bit_xor b key) key ≡ b
unfolding gives_back
gives_back_lem key zero b h q = absurd (omega arith)
gives_back_lem key (suc n) b h q =
    ground (arith, gives_back_lem key n b, ==_iff (bit_xor (bit_xor n key) key) n)

-- Each of the first `n` bytes of the key stream does.
all_keys : ℕ → Bool
all_keys zero = true
all_keys (suc key) = if gives_back key 256 then all_keys key else false

all_keys_lem : (n key : ℕ) → key < n → all_keys n ≡ true → gives_back key 256 ≡ true
unfolding all_keys
all_keys_lem zero key h q = absurd (omega arith)
all_keys_lem (suc n) key h q = ground (arith, all_keys_lem n key)

every_key : all_keys 256 ≡ true
unfolding all_keys gives_back
every_key = refl

xor_twice : (b k : ℕ) → b < 256 → k < 256 → bit_xor (bit_xor b k) k ≡ b
xor_twice b k h q = gives_back_lem k 256 b h (all_keys_lem 256 k q every_key)

abbrev pub IsByte : ℕ → Type 0
IsByte b = b < 256

xor_from-xor_from :
    (c : Cipher) (at : ℕ) (bytes : List ℕ)
    → ((x : ℕ) → c.keystream x < 256)
    → All IsByte bytes
    → xor_from c at (xor_from c at bytes) ≡ bytes
unfolding xor_from
xor_from-xor_from c at [] key v = refl
xor_from-xor_from c at (b ∷ bs) key v =
    rw (xor_twice b (c.keystream at) v.0 (key at), xor_from-xor_from c (at + 1) bs key v.1) refl

take-xor_from :
    (c : Cipher) (at n : ℕ) (bytes : List ℕ)
    → take n (xor_from c at bytes) ≡ xor_from c at (take n bytes)
unfolding xor_from
take-xor_from c at zero bytes = refl
take-xor_from c at (suc n) [] = refl
take-xor_from c at (suc n) (b ∷ bs) =
    ap (λ (xs : List ℕ). bit_xor b (c.keystream at) ∷ xs) (take-xor_from c (at + 1) n bs)

drop-xor_from :
    (c : Cipher) (at n : ℕ) (bytes : List ℕ)
    → drop n (xor_from c at bytes) ≡ xor_from c (at + n) (drop n bytes)
unfolding xor_from
drop-xor_from c at zero bytes = let same : at + 0 ≡ at = omega arith in rw same refl
drop-xor_from c at (suc n) [] = refl
drop-xor_from c at (suc n) (b ∷ bs) =
    let same : at + suc n ≡ at + 1 + n = omega arith in rw same (drop-xor_from c (at + 1) n bs)

All-take : (n : ℕ) (bytes : List ℕ) → All IsByte bytes → All IsByte (take n bytes)
All-take zero bytes v = tt
All-take (suc n) [] v = tt
All-take (suc n) (b ∷ bs) v = (v.0, All-take n bs v.1)

All-drop : (n : ℕ) (bytes : List ℕ) → All IsByte bytes → All IsByte (drop n bytes)
All-drop zero bytes v = v
All-drop (suc n) [] v = tt
All-drop (suc n) (b ∷ bs) v = All-drop n bs v.1

transform-xor_from :
    (c : Cipher) (at : ℕ) (bytes : List ℕ)
    → ((x : ℕ) → c.keystream x < 256)
    → All IsByte bytes
    → (0 < length bytes → c.seeks at ≡ true)
    → transform c at (xor_from c at bytes) ≡ bytes
unfolding transform apply_at
transform-xor_from c at [] key v seeks = unfold xor_from in refl
transform-xor_from c at (b ∷ bs) key v seeks =
    let kept = length-xor_from c at (b ∷ bs) in
    let something : (length (xor_from c at (b ∷ bs)) == 0) ≡ false = ground arith in
    rw (something, seeks (omega arith)) (xor_from-xor_from c at (b ∷ bs) key v)

-- Let the volumes make up the input, of bytes, the key stream consist of bytes, the buffer hold a
-- byte at least and less than 2^63, and each position of the file be within reach of a seek, in
-- less than 2^64. Then any range of the encrypted volumes, one behind the other, is turned by
-- `transform` at its place in the file into the range of the input, however many cores share the
-- work.
pub transform-write_volumes :
    (cores : ℕ) (c : Cipher) (buffer : ℕ) (plan : List ℕ) (input : List ℕ) (at n : ℕ)
    → 0 < buffer
    → buffer < 2 ^ 63
    → sum plan ≡ length input
    → length input < u64_mod
    → All IsByte input
    → ((x : ℕ) → c.keystream x < 256)
    → Reaches c 0 (length input)
    → transform c at (take n (drop at (concat (write_volumes true cores c buffer plan 0 input))))
      ≡ take n (drop at input)
transform-write_volumes cores c buffer plan input at n some_room room h word v key seeks =
    let whole = (write_volumes-xor_from cores c buffer plan input some_room room h word seeks).1 in
    let part : List ℕ = take n (drop at input) in
    let there : 0 + at ≡ at = omega arith in
    rw (whole, drop-xor_from c 0 at input, there, take-xor_from c at n (drop at input))
      (transform-xor_from c at part key (All-take n (drop at input) (All-drop at input v)) (λ p.
        seeks at (omega arith)
          (omega (arith, length-take n (drop at input), length-drop at input))))
