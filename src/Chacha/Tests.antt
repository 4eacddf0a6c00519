-- ===== src/Chacha/Tests.antt =====
-- Ten bytes in three volumes, through a buffer of three bytes.
use hydraria.Prelude.{ℕ, ◌+◌, ◌*◌, ◌%◌, ◌^◌, ◌≡◌, refl, true, List, [], ◌∷◌, ltb, arith, take, drop}
use hydraria.Chacha.{Cipher, xor_from, transform, apply_keystream_parallel, write_volumes}
use hydraria.Chacha.Keystream.{apply_keystream_parallel-xor_from, apply_keystream_parallel-plain}
use hydraria.Chacha.Sent.{concat}
use hydraria.Chacha.Opened.{transform-write_volumes}

-- The positions that a counter of 32 bits reaches, in blocks of 64 bytes.
abbrev cipher : Cipher
cipher = record { keystream = λ x. (x * 7 + 5) % 256; seeks = λ x. ltb x (2 ^ 38) }

abbrev ten_bytes : List ℕ
ten_bytes = 1 ∷ 2 ∷ 3 ∷ 4 ∷ 5 ∷ 6 ∷ 7 ∷ 8 ∷ 9 ∷ 10 ∷ []

apply_keystream_parallel-xor_from_example :
    apply_keystream_parallel 4 cipher 100 ten_bytes ≡ xor_from cipher 100 ten_bytes
apply_keystream_parallel-xor_from_example =
    apply_keystream_parallel-xor_from 4 cipher 100 ten_bytes (omega arith) (omega arith)
      (λ x p q. ground arith)

-- A little behind 256 GiB.
apply_keystream_parallel-plain_example :
    apply_keystream_parallel 4 cipher 274_877_906_944 ten_bytes ≡ ten_bytes
apply_keystream_parallel-plain_example =
    apply_keystream_parallel-plain 4 cipher 274_877_906_944 ten_bytes (omega arith) (omega arith)
      (λ x p q. ground arith)

transform-write_volumes_example :
    transform cipher 3
      (take 4 (drop 3 (concat (write_volumes true 4 cipher 3 (4 ∷ 4 ∷ 2 ∷ []) 0 ten_bytes))))
    ≡ 4 ∷ 5 ∷ 6 ∷ 7 ∷ []
transform-write_volumes_example =
    transform-write_volumes 4 cipher 3 (4 ∷ 4 ∷ 2 ∷ []) ten_bytes 3 4 (omega arith) (omega arith)
      refl (omega arith) (omega arith) (λ x. omega arith) (λ x p q. ground arith)
