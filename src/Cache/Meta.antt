-- ===== src/Cache/Meta.antt =====
-- src/cache.rs, `CacheMeta` and `cache_meta_compatible`: when a stored entry may serve a request.
pub mod Identity
use Prim.Native.String.{String}
use text.Mathlib.Text.{◌==◌ as str_eq}
use hydraria.Prelude.{
  ℕ, ◌+◌, ◌*◌, Bool, true, false, not, List, Option, none, some, ◌==◌, if◌then◌else◌,
}

pub record Meta : Type 0 where
  pub etag : Option String
  pub last_modified : Option String
  pub total_size : ℕ
  pub content_type : Option String
  pub block_size : ℕ
  pub urls : List String

abbrev pub option_eq : Option String → Option String → Bool
option_eq none none = true
option_eq (some a) (some b) = str_eq a b
option_eq none (some b) = false
option_eq (some a) none = false

-- The last `match`, on both ETags.
validators_agree : Option String → Option String → Meta → Meta → Bool
validators_agree (some a) (some b) stored desired = str_eq a b
validators_agree none none stored desired = option_eq stored.last_modified desired.last_modified
validators_agree none (some b) stored desired = false
validators_agree (some a) none stored desired = false

unfoldable pub cache_meta_compatible : Meta → Meta → Bool
unfolding validators_agree
cache_meta_compatible stored desired =
    if not (stored.total_size == desired.total_size)
    then false
    else if not (stored.block_size == desired.block_size)
    then false
    else validators_agree stored.etag desired.etag stored desired
