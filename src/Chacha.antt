-- ===== src/Chacha.antt =====
-- src/plugins/chacha20.rs: the key stream over the bytes of a file, and the volumes that the sender
-- writes. The cipher is a library's: a parameter, with the byte of the key stream at each position,
-- and whether `try_seek` can go there.
pub mod Keystream
pub mod Sizes
pub mod Sent
pub mod Opened
pub mod Tests
use Prim.Native.Nat.{bit_xor}
use hydraria.Prelude.{
  ℕ, zero, suc, ◌+◌, ◌-◌, ◌*◌, ◌/◌, ◌%◌, min, max, Bool, true, false, ◌||◌, List, [], ◌∷◌, ◌++◌,
  length, ltb, leb, ◌==◌, if◌then◌else◌, div_ceil, wrapping_add, wrapping_sub, wrapping_mul, take,
  drop,
}

pub record Cipher : Type 0 where
  pub keystream : ℕ → ℕ
  pub seeks : ℕ → Bool

-- `apply_keystream`, from position `at` on
pub xor_from : Cipher → ℕ → List ℕ → List ℕ
xor_from c at [] = []
xor_from c at (b ∷ bs) = bit_xor b (c.keystream at) ∷ xor_from c (at + 1) bs

-- A new cipher, its `try_seek`, and `apply_keystream`. Where the seek fails nothing is done.
apply_at : Cipher → ℕ → List ℕ → List ℕ
apply_at c at bytes = if c.seeks at then xor_from c at bytes else bytes

-- `ByteTransform::transform`
pub transform : Cipher → ℕ → List ℕ → List ℕ
unfolding apply_at
transform c merged_offset bytes =
    if length bytes == 0 then bytes else apply_at c merged_offset bytes

abbrev pub min_bytes : ℕ
min_bytes = 256 * 1024

-- On a machine with `cores` cores.
parallel_worker_count : ℕ → ℕ → ℕ
parallel_worker_count cores buf_len =
    if ltb buf_len min_bytes then 1 else max (min (min cores 8) (max (buf_len / min_bytes) 1)) 1

-- The loop over the slices, on fuel; each slice has a worker.
slices : ℕ → Cipher → ℕ → ℕ → ℕ → List ℕ → List ℕ
unfolding apply_at
slices zero c offset chunk trailing rest = []
slices (suc fuel) c offset chunk trailing rest =
    let n = if leb (length rest) (chunk + trailing) then length rest else chunk in
    let done =
      apply_at c offset (take n rest)
      ++ slices fuel c (wrapping_add offset n) chunk trailing (drop n rest) in
    if length rest == 0 then [] else done

chunk_bytes : ℕ → ℕ → ℕ
chunk_bytes total workers = wrapping_mul (max (div_ceil (total / 64) workers) 1) 64

pub apply_keystream_parallel : ℕ → Cipher → ℕ → List ℕ → List ℕ
apply_keystream_parallel cores c merged_offset bytes =
    let total = length bytes in
    let workers = parallel_worker_count cores total in
    if total == 0
    then bytes
    else if leb workers 1
    then apply_at c merged_offset bytes
    else slices total c merged_offset (chunk_bytes total workers) (total % 64) bytes

pub data SplitMode : Type 0 where
  random fixed : SplitMode

-- The loops of `plan_volume_sizes`, on fuel. `pick` is `gen_range(low..=high)` in a round.
fixed_sizes : ℕ → ℕ → ℕ → List ℕ
fixed_sizes zero max_size remaining = []
fixed_sizes (suc fuel) max_size remaining =
    let more = max_size ∷ fixed_sizes fuel max_size (remaining - max_size) in
    if ltb max_size remaining then more else if ltb 0 remaining then remaining ∷ [] else []

random_sizes : (ℕ → ℕ → ℕ → ℕ) → ℕ → ℕ → ℕ → List ℕ
random_sizes pick zero max_size remaining = []
random_sizes pick (suc fuel) max_size remaining =
    let lower = max (max_size / 2) (min (1024 * 1024) max_size) in
    let high = min max_size (remaining - 1) in
    let size = pick fuel (min lower high) high in
    let more = size ∷ random_sizes pick fuel max_size (remaining - size) in
    if remaining == 0 then [] else if leb remaining max_size then remaining ∷ [] else more

sizes_in : (ℕ → ℕ → ℕ → ℕ) → SplitMode → ℕ → ℕ → List ℕ
unfolding fixed_sizes random_sizes
sizes_in pick fixed max_size total = fixed_sizes total max_size total
sizes_in pick random max_size total = random_sizes pick total max_size total

pub plan_volume_sizes : (ℕ → ℕ → ℕ → ℕ) → ℕ → ℕ → SplitMode → List ℕ
unfolding sizes_in
plan_volume_sizes pick total max_size mode =
    if max_size == 0 || leb total max_size then total ∷ [] else sizes_in pick mode max_size total

-- What the sender does with a buffer.
sent : Bool → ℕ → Cipher → ℕ → List ℕ → List ℕ
sent encrypt cores c merged_offset bytes =
    if encrypt then apply_keystream_parallel cores c merged_offset bytes else bytes

-- The loop over one volume, on fuel: what is written, what is left of the input, and the offset.
-- The input is a list of bytes; `read_exact_or_eof` fills the buffer as far as the input goes.
volume_loop : ℕ → Bool → ℕ → Cipher → ℕ → ℕ → ℕ → List ℕ → List ℕ × List ℕ × ℕ
volume_loop zero encrypt cores c buffer remaining merged_offset input = ([], input, merged_offset)
volume_loop (suc fuel) encrypt cores c buffer remaining merged_offset input =
    let chunk = take (min remaining buffer) input in
    let n = length chunk in
    let (out, rest, offset) =
      volume_loop fuel encrypt cores c buffer (remaining - n) (wrapping_add merged_offset n)
        (drop n input) in
    let written : List ℕ × List ℕ × ℕ =
      (sent encrypt cores c merged_offset chunk ++ out, rest, offset) in
    if remaining == 0 || n == 0 then ([], input, merged_offset) else written

-- The loop over the volumes of the plan.
pub write_volumes : Bool → ℕ → Cipher → ℕ → List ℕ → ℕ → List ℕ → List (List ℕ)
write_volumes encrypt cores c buffer [] merged_offset input = []
write_volumes encrypt cores c buffer (size ∷ plan) merged_offset input =
    let (out, rest, offset) = volume_loop size encrypt cores c buffer size merged_offset input in
    out ∷ write_volumes encrypt cores c buffer plan offset rest
