-- ===== src/Hostmap/Tests.antt =====
-- Runs of the host map: `*.b`, `*.a.b` and `a.b` go elsewhere, as `x`, `y` and `z`.
use hydraria.Prelude.{◌≡◌, refl, true, List, [], ◌∷◌, none, some}
use hydraria.Hostmap.{
  Std, HostMapping, host, HostTable, build, build_on, parse_rule, parse_source, parse_target, as_ip,
  as_addr, split_host, host_with, all, is_host_char, is_digit, decimal, rsplit_colon, prepend,
  contains, starts_with, has_star, normalize_host, trim_dots, lower, add_rule, without, bytes_eq,
  sort_longest, insert_longest, lookup, validate,
}
use hydraria.Hostmap.Lookup.{is_plain, IsMostSpecific, lookup-IsMostSpecific}

abbrev std : Std
std = record { trim = λ s. s; parse_ip = λ s. none; parse_addr = λ s. none }

abbrev rules : List HostMapping
rules =
    record { from = 42 ∷ 46 ∷ 98 ∷ []; to = 120 ∷ []; enabled = true }
    ∷ record { from = 42 ∷ 46 ∷ 97 ∷ 46 ∷ 98 ∷ []; to = 121 ∷ []; enabled = true }
    ∷ record { from = 65 ∷ 46 ∷ 98 ∷ 46 ∷ []; to = 122 ∷ []; enabled = true }
    ∷ []

abbrev table : HostTable
table = record {
  exact = (97 ∷ 46 ∷ 98 ∷ [], host (122 ∷ []) 0) ∷ [];
  wildcards = (46 ∷ 97 ∷ 46 ∷ 98 ∷ [], host (121 ∷ []) 0) ∷ (46 ∷ 98 ∷ [], host (120 ∷ []) 0) ∷ [];
}

built : build std rules ≡ some table
unfolding build build_on parse_rule parse_source parse_target as_ip as_addr split_host host_with all
    is_host_char is_digit decimal rsplit_colon prepend contains starts_with has_star normalize_host
    trim_dots lower add_rule without bytes_eq sort_longest insert_longest
built = refl

-- No rules are well formed.
pub no_rules : (s : Std) → validate s [] ≡ true
unfolding validate build build_on sort_longest
no_rules s = refl

plain : is_plain (normalize_host std (99 ∷ 46 ∷ 97 ∷ 46 ∷ 98 ∷ [])) ≡ true
unfolding normalize_host trim_dots lower
plain = refl

-- `c.a.b`
lookup-IsMostSpecific_example :
    IsMostSpecific std rules
      (normalize_host std (99 ∷ 46 ∷ 97 ∷ 46 ∷ 98 ∷ []))
      (lookup std table (99 ∷ 46 ∷ 97 ∷ 46 ∷ 98 ∷ []))
lookup-IsMostSpecific_example =
    lookup-IsMostSpecific std rules table (99 ∷ 46 ∷ 97 ∷ 46 ∷ 98 ∷ []) built plain
