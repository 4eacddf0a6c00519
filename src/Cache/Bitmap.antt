-- ===== src/Cache/Bitmap.antt =====
-- src/cache.rs: the bit tests and the bit writes on the block bitmap, one bit for a block, eight to
-- a byte, the low bit first.
pub mod Laws
use Prim.Native.Nat.{bit_or}
use hydraria.Prelude.{
  ℕ, ◌/◌, ◌%◌, ◌^◌, ◌<◌, Bool, false, not, List, [], ◌∷◌, Option, none, some, get_elem?, set, ◌==◌,
}

-- `(b >> bit) & 1 != 0`
abbrev pub test_bit : ℕ → ℕ → Bool
test_bit byte bit = not (byte / 2 ^ bit % 2 == 0)

abbrev pub has_bit_in : Option ℕ → ℕ → Bool
has_bit_in none bit = false
has_bit_in (some byte) bit = test_bit byte bit

-- `bm.get(idx / 8).map(|&b| (b >> (idx % 8)) & 1 != 0).unwrap_or(false)`
unfoldable pub has_block : List ℕ → ℕ → Bool
has_block bm idx = has_bit_in (get_elem? bm (idx / 8)) (idx % 8)

abbrev or_bit_in : List ℕ → ℕ → ℕ → Option ℕ → List ℕ
or_bit_in bm at bit none = bm
or_bit_in bm at bit (some byte) = set bm at (bit_or byte (2 ^ bit))

-- `bm[idx / 8] |= 1 << (idx % 8)`, where the byte is there
pub mark_block : List ℕ → ℕ → List ℕ
mark_block bm idx = or_bit_in bm (idx / 8) (idx % 8) (get_elem? bm (idx / 8))

-- A `Vec<u8>`.
abbrev pub IsBytes : List ℕ → Type 0
IsBytes [] = Unit {0}
IsBytes (b ∷ bs) = (b < 256) × IsBytes bs
