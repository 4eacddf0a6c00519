-- ===== src/Chacha/Keystream.antt =====
-- src/plugins/chacha20.rs: however the bytes are cut among workers, the key stream is the same.
use native.Mathlib.Nat.{div-le_self, mod-eq_of_lt}
use Prim.Native.Nat.{bit_xor}
use hydraria.Prelude.{
  ℕ, zero, suc, ◌+◌, ◌-◌, ◌*◌, ◌/◌, ◌%◌, ◌^◌, ◌≤◌, ◌<◌, max, ◌≡◌, refl, sym, ap, true, false, List,
  [], ◌∷◌, ◌++◌, length, leb, ◌==◌, div_ceil, wrapping_add, wrapping_mul, u64_mod, Bool-cases, inl,
  inr, arith, take, drop, length-drop,
}
use hydraria.Chacha.{
  Cipher, xor_from, apply_at, parallel_worker_count, slices, chunk_bytes, apply_keystream_parallel,
}

-- A position that a seek can reach.
abbrev pub Reaches : Cipher → ℕ → ℕ → Type 0
Reaches c from to = (x : ℕ) → from ≤ x → x < to → c.seeks x ≡ true

pub length-xor_from :
    (c : Cipher) (at : ℕ) (bytes : List ℕ) → length (xor_from c at bytes) ≡ length bytes
unfolding xor_from
length-xor_from c at [] = refl
length-xor_from c at (b ∷ bs) = omega (arith, length-xor_from c (at + 1) bs)

pub xor_from-take-drop :
    (c : Cipher) (at n : ℕ) (bytes : List ℕ)
    → n ≤ length bytes
    → xor_from c at (take n bytes) ++ xor_from c (at + n) (drop n bytes) ≡ xor_from c at bytes
unfolding xor_from
xor_from-take-drop c at zero bytes h = let same : at + 0 ≡ at = omega arith in rw same refl
xor_from-take-drop c at (suc n) [] h = absurd (omega arith)
xor_from-take-drop c at (suc n) (b ∷ bs) h =
    let moved : at + suc n ≡ at + 1 + n = omega arith in
    rw moved (
      ap (λ (xs : List ℕ). bit_xor b (c.keystream at) ∷ xs)
        (xor_from-take-drop c (at + 1) n bs (omega arith)))

pub take-drop : (n : ℕ) (bytes : List ℕ) → take n bytes ++ drop n bytes ≡ bytes
take-drop zero bytes = refl
take-drop (suc n) [] = refl
take-drop (suc n) (b ∷ bs) = ap (λ (xs : List ℕ). b ∷ xs) (take-drop n bs)

parallel_worker_count_bounds :
    (cores len : ℕ) → (1 ≤ parallel_worker_count cores len) × (parallel_worker_count cores len ≤ 8)
unfolding parallel_worker_count
parallel_worker_count_bounds cores len = ground arith

-- Slices of the memory are shorter than 2^63 bytes.
chunk_bytes_pos :
    (total workers : ℕ) → total < 2 ^ 63 → 1 ≤ workers → workers ≤ 8 → 0 < chunk_bytes total workers
unfolding chunk_bytes
chunk_bytes_pos total workers h p q =
    let small : div_ceil (total / 64) workers ≤ total / 64 + (workers - 1) = div-le_self _ _ in
    let fits : wrapping_mul (max (div_ceil (total / 64) workers) 1) 64
        ≡ max (div_ceil (total / 64) workers) 1 * 64 =
      mod-eq_of_lt (omega arith) in
    rw fits (omega arith)

-- What each worker does to its slice, and that this goes together.
module _ (c : Cipher) (f : ℕ → List ℕ → List ℕ) (empty : (at : ℕ) → f at [] ≡ [])
    (joins : (at n : ℕ) (bytes : List ℕ)
      → n ≤ length bytes
      → f at (take n bytes) ++ f (at + n) (drop n bytes) ≡ f at bytes) where
  slices_lem :
      (fuel : ℕ) (offset chunk trailing : ℕ) (rest : List ℕ)
      → length rest ≤ fuel
      → 0 < chunk
      → offset + length rest < u64_mod
      → ((x : ℕ) (bytes : List ℕ)
          → offset ≤ x
          → x < offset + length rest
          → apply_at c x bytes ≡ f x bytes)
      → slices fuel c offset chunk trailing rest ≡ f offset rest
  unfolding slices
  slices_lem zero offset chunk trailing [] h p word does = sym (empty offset)
  slices_lem zero offset chunk trailing (b ∷ bs) h p word does = absurd (omega arith)
  slices_lem (suc fuel) offset chunk trailing [] h p word does = sym (empty offset)
  slices_lem (suc fuel) offset chunk trailing (b ∷ bs) h p word does =
      let rest : List ℕ = b ∷ bs in
      let one_slice : (n : ℕ)
          → 0 < n
          → n ≤ length rest
          → apply_at c offset (take n rest)
              ++ slices fuel c (wrapping_add offset n) chunk trailing (drop n rest)
            ≡ f offset rest =
        λ n q r.
          let next : wrapping_add offset n ≡ offset + n = mod-eq_of_lt (omega arith) in
          let left = length-drop n rest in
          rw
            (
              next,
              does offset (take n rest) (omega arith) (omega arith),
              slices_lem fuel (offset + n) chunk trailing (drop n rest) (omega arith) p
                  (omega arith) (λ x bytes s u. does x bytes (omega arith) (omega arith)),
            )
            (joins offset n rest r) in
      let something : (length rest == 0) ≡ false = ground arith in
      rw something (elim (Bool-cases (leb (length rest) (chunk + trailing))) [
        | inl last ↦ rw last (one_slice (length rest) (omega arith) (omega arith))
        | inr more ↦ rw more (one_slice chunk p (ground arith))
      ])

  apply_keystream_parallel_lem :
      (cores merged_offset : ℕ) (bytes : List ℕ)
      → length bytes < 2 ^ 63
      → merged_offset + length bytes < u64_mod
      → ((x : ℕ) (part : List ℕ)
          → merged_offset ≤ x
          → x < merged_offset + length bytes
          → apply_at c x part ≡ f x part)
      → apply_keystream_parallel cores c merged_offset bytes ≡ f merged_offset bytes
  unfolding apply_keystream_parallel
  apply_keystream_parallel_lem cores merged_offset [] h word does = sym (empty merged_offset)
  apply_keystream_parallel_lem cores merged_offset (b ∷ bs) h word does =
      let bytes : List ℕ = b ∷ bs in
      let workers : ℕ = parallel_worker_count cores (length bytes) in
      let (low, high) = parallel_worker_count_bounds cores (length bytes) in
      let something : (length bytes == 0) ≡ false = ground arith in
      rw something (elim (Bool-cases (leb workers 1)) [
        | inl alone ↦ rw alone (does merged_offset bytes (omega arith) (omega arith))
        | inr shared ↦ rw shared (
            slices_lem (length bytes) merged_offset (chunk_bytes (length bytes) workers)
              (length bytes % 64) bytes (omega arith)
              (chunk_bytes_pos (length bytes) workers h low high) word does)
      ])

-- For less than 2^63 bytes that end within 64 bits, at positions within reach of a seek,
-- `apply_keystream_parallel` on any number of cores does what one cipher does that goes over them
-- from the first byte on.
pub apply_keystream_parallel-xor_from :
    (cores : ℕ) (c : Cipher) (merged_offset : ℕ) (bytes : List ℕ)
    → length bytes < 2 ^ 63
    → merged_offset + length bytes < u64_mod
    → Reaches c merged_offset (merged_offset + length bytes)
    → apply_keystream_parallel cores c merged_offset bytes ≡ xor_from c merged_offset bytes
unfolding apply_at xor_from
apply_keystream_parallel-xor_from cores c merged_offset bytes h word seeks =
    apply_keystream_parallel_lem c (xor_from c) (λ at. refl) (xor_from-take-drop c) cores
      merged_offset bytes h word (λ x part p q. rw (seeks x p q) refl)

-- For less than 2^63 bytes that end within 64 bits, at positions that no seek reaches,
-- `apply_keystream_parallel` gives the bytes back as they are.
pub apply_keystream_parallel-plain :
    (cores : ℕ) (c : Cipher) (merged_offset : ℕ) (bytes : List ℕ)
    → length bytes < 2 ^ 63
    → merged_offset + length bytes < u64_mod
    → ((x : ℕ) → merged_offset ≤ x → x < merged_offset + length bytes → c.seeks x ≡ false)
    → apply_keystream_parallel cores c merged_offset bytes ≡ bytes
unfolding apply_at
apply_keystream_parallel-plain cores c merged_offset bytes h word fails =
    apply_keystream_parallel_lem c (λ at part. part) (λ at. refl) (λ at n part p. take-drop n part)
      cores merged_offset bytes h word (λ x part p q. rw (fails x p q) refl)
