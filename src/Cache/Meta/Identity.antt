-- ===== src/Cache/Meta/Identity.antt =====
-- Compatibility is equality of what identifies the content.
use Prim.Native.String.{String}
use text.Mathlib.TextEquality.{eq_iff}
use hydraria.Prelude.{ℕ, ◌≡◌, ◌↔◌, true, Option, none, some, arith}
use hydraria.Cache.Meta.{Meta, option_eq, cache_meta_compatible, validators_agree}

-- The validator that a client may trust: the ETag, or else the modification date.
pub data Validator : Type 0 where
  by_etag : String → Validator
  by_date : Option String → Validator

abbrev pub validator : Option String → Option String → Validator
validator (some tag) date = by_etag tag
validator none date = by_date date

pub record Identity : Type 0 where
  pub size : ℕ
  pub block : ℕ
  pub valid : Validator

pub identity : Meta → Identity
identity m = record {
  size = m.total_size;
  block = m.block_size;
  valid = validator m.etag m.last_modified;
}

option_eq_iff : (a b : Option String) → (option_eq a b ≡ true) ↔ (a ≡ b)
option_eq_iff none none = ground arith
option_eq_iff none (some b) = ground arith
option_eq_iff (some a) none = ground arith
option_eq_iff (some a) (some b) = ground (arith, eq_iff a b)

validators_agree_iff :
    (a b : Option String) (m n : Meta)
    → (validators_agree a b m n ≡ true)
      ↔ (validator a m.last_modified ≡ validator b n.last_modified)
unfolding validators_agree
validators_agree_iff none none m n = ground (arith, option_eq_iff m.last_modified n.last_modified)
validators_agree_iff none (some b) m n = ground arith
validators_agree_iff (some a) none m n = ground arith
validators_agree_iff (some a) (some b) m n = ground (arith, eq_iff a b)

-- A stored entry is compatible with a request exactly when sizes, block sizes and validators
-- agree: the ETag where there is one, else the modification date.
pub cache_meta_compatible_iff :
    (stored desired : Meta)
    → (cache_meta_compatible stored desired ≡ true) ↔ (identity stored ≡ identity desired)
unfolding cache_meta_compatible identity
cache_meta_compatible_iff stored desired =
    ground (arith, validators_agree_iff stored.etag desired.etag stored desired)
