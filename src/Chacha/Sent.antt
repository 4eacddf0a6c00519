-- ===== src/Chacha/Sent.antt =====
-- src/plugins/chacha20.rs, `forward`: what stands in the volumes, one behind the other.
use hydraria.Prelude.{
  ℕ, zero, suc, ◌+◌, ◌-◌, ◌^◌, ◌≤◌, ◌<◌, min, ◌≡◌, refl, ap, ◌∙◌, true, false, ◌||◌, List, [], ◌∷◌,
  ◌++◌, length, map, ◌==◌, wrapping_add, u64_mod, arith, take, drop, length-take, length-drop,
}
use native.Mathlib.Nat.{mod-eq_of_lt}
use hydraria.Chacha.{Cipher, xor_from, sent, volume_loop, write_volumes}
use hydraria.Chacha.Keystream.{
  Reaches, length-xor_from, xor_from-take-drop, apply_keystream_parallel-xor_from,
}
use hydraria.Chacha.Sizes.{sum}

abbrev pub concat : List (List ℕ) → List ℕ
concat [] = []
concat (xs ∷ xss) = xs ++ concat xss

take-nil : (n : ℕ) → take {A = ℕ} n [] ≡ []
take-nil zero = refl
take-nil (suc n) = refl

drop-nil : (n : ℕ) → drop {A = ℕ} n [] ≡ []
drop-nil zero = refl
drop-nil (suc n) = refl

take-take : (n m : ℕ) (xs : List ℕ) → n ≤ m → take n (take m xs) ≡ take n xs
take-take zero m xs h = refl
take-take (suc n) zero xs h = absurd (omega arith)
take-take (suc n) (suc m) [] h = refl
take-take (suc n) (suc m) (x ∷ xs) h = ap (λ (ys : List ℕ). x ∷ ys) (take-take n m xs (omega arith))

drop-take : (n m : ℕ) (xs : List ℕ) → drop n (take (n + m) xs) ≡ take m (drop n xs)
drop-take zero m xs = let same : 0 + m ≡ m = omega arith in rw same refl
drop-take (suc n) m [] = rw (take-nil (suc n + m), take-nil m) refl
drop-take (suc n) m (x ∷ xs) =
    let same : suc n + m ≡ suc (n + m) = omega arith in rw same (drop-take n m xs)

drop-drop : (n m : ℕ) (xs : List ℕ) → drop m (drop n xs) ≡ drop (n + m) xs
drop-drop zero m xs = let same : 0 + m ≡ m = omega arith in rw same refl
drop-drop (suc n) m [] = rw (drop-nil m, drop-nil (suc n + m)) refl
drop-drop (suc n) m (x ∷ xs) =
    let same : suc n + m ≡ suc (n + m) = omega arith in rw same (drop-drop n m xs)

-- What the loop over a volume comes to.
record IsVolume (c : Cipher) (offset size : ℕ) (input : List ℕ) (r : List ℕ × List ℕ × ℕ)
    : Type 0 where
  out : r.0 ≡ xor_from c offset (take size input)
  rest : r.1 ≡ drop size input
  next : r.2 ≡ offset + size

module _ (cores : ℕ) (c : Cipher) (buffer : ℕ) (some_room : 0 < buffer)
    (room : buffer < 2 ^ 63) where
  sent_lem :
      (offset : ℕ) (chunk : List ℕ)
      → length chunk ≤ buffer
      → offset + length chunk < u64_mod
      → Reaches c offset (offset + length chunk)
      → sent true cores c offset chunk ≡ xor_from c offset chunk
  unfolding sent
  sent_lem offset chunk h word seeks =
      apply_keystream_parallel-xor_from cores c offset chunk (omega arith) word seeks

  volume_loop-IsVolume :
      (fuel remaining offset : ℕ) (input : List ℕ)
      → remaining ≤ fuel
      → remaining ≤ length input
      → offset + remaining < u64_mod
      → Reaches c offset (offset + remaining)
      → IsVolume c offset remaining input
          (volume_loop fuel true cores c buffer remaining offset input)
  unfolding volume_loop xor_from
  volume_loop-IsVolume zero zero offset input h enough word seeks = record {
    out = refl;
    rest = refl;
    next = omega arith;
  }
  volume_loop-IsVolume zero (suc remaining) offset input h enough word seeks = absurd (omega arith)
  volume_loop-IsVolume (suc fuel) zero offset input h enough word seeks = record {
    out = refl;
    rest = refl;
    next = omega arith;
  }
  volume_loop-IsVolume (suc fuel) (suc remaining) offset input h enough word seeks =
      let size : ℕ = suc remaining in
      let n : ℕ = min size buffer in
      let chunk : List ℕ = take n input in
      let full : length chunk ≡ n = length-take n input ∙ omega arith in
      let left = length-drop n input in
      let going : (size == 0 || n == 0) ≡ false = ground arith in
      let moved : wrapping_add offset n ≡ offset + n = mod-eq_of_lt (omega arith) in
      let ih =
        volume_loop-IsVolume fuel (size - n) (offset + n) (drop n input) (omega arith) (omega arith)
          (omega arith) (λ x p q. seeks x (omega arith) (omega arith)) in
      let first =
        sent_lem offset chunk (omega arith) (omega arith) (λ x p q. seeks x p (omega arith)) in
      let parts : n + (size - n) ≡ size = omega arith in
      let behind : drop n (take size input) ≡ take (size - n) (drop n input) =
        rw parts at (drop-take n (size - n) input) in
      let whole =
        xor_from-take-drop c offset n (take size input) (omega (arith, length-take size input)) in
      let joined = rw (take-take n size input (omega arith), behind) at whole in
      rw (full, going, moved)
        (record {
          out = rw (first, ih.out) joined;
          rest = ih.rest ∙ drop-drop n (size - n) input ∙ rw parts refl;
          next = ih.next ∙ omega arith;
        })

  write_volumes-concat :
      (plan : List ℕ) (offset : ℕ) (input : List ℕ)
      → sum plan ≡ length input
      → offset + length input < u64_mod
      → Reaches c offset (offset + length input)
      → concat (write_volumes true cores c buffer plan offset input) ≡ xor_from c offset input
  unfolding write_volumes
  write_volumes-concat [] offset [] h word seeks = unfold xor_from in refl
  write_volumes-concat [] offset (b ∷ bs) h word seeks = absurd (omega arith)
  write_volumes-concat (size ∷ plan) offset input h word seeks =
      let v =
        volume_loop-IsVolume size size offset input (omega arith) (omega arith) (omega arith)
          (λ x p q. seeks x p (omega arith)) in
      let left = length-drop size input in
      let ih =
        write_volumes-concat plan (offset + size) (drop size input) (omega arith) (omega arith)
          (λ x p q. seeks x (omega arith) (omega arith)) in
      rw (v.out, v.next, v.rest, ih) (xor_from-take-drop c offset size input (omega arith))

  write_volumes-lengths :
      (plan : List ℕ) (offset : ℕ) (input : List ℕ)
      → sum plan ≡ length input
      → offset + length input < u64_mod
      → Reaches c offset (offset + length input)
      → map length (write_volumes true cores c buffer plan offset input) ≡ plan
  unfolding write_volumes
  write_volumes-lengths [] offset input h word seeks = refl
  write_volumes-lengths (size ∷ plan) offset input h word seeks =
      let v =
        volume_loop-IsVolume size size offset input (omega arith) (omega arith) (omega arith)
          (λ x p q. seeks x p (omega arith)) in
      let left = length-drop size input in
      let ih =
        write_volumes-lengths plan (offset + size) (drop size input) (omega arith) (omega arith)
          (λ x p q. seeks x (omega arith) (omega arith)) in
      let full : length (xor_from c offset (take size input)) ≡ size =
        length-xor_from c offset (take size input) ∙ length-take size input ∙ omega arith in
      rw (v.out, v.next, v.rest, full, ih) refl

pub write_volumes-xor_from :
    (cores : ℕ) (c : Cipher) (buffer : ℕ) (plan : List ℕ) (input : List ℕ)
    → 0 < buffer
    → buffer < 2 ^ 63
    → sum plan ≡ length input
    → length input < u64_mod
    → Reaches c 0 (length input)
    → (map length (write_volumes true cores c buffer plan 0 input) ≡ plan)
      × (concat (write_volumes true cores c buffer plan 0 input) ≡ xor_from c 0 input)
write_volumes-xor_from cores c buffer plan input some_room room h word seeks = (
  write_volumes-lengths cores c buffer some_room room plan 0 input h (omega arith)
      (λ x p q. seeks x p (omega arith)),
  write_volumes-concat cores c buffer some_room room plan 0 input h (omega arith)
      (λ x p q. seeks x p (omega arith)),
)
