-- ===== src/Dns/Tests.antt =====
-- Runs of the name resolver: a query for `a.bc`, and an answer that is cut short.
use hydraria.Prelude.{ℕ, ◌≡◌, ◌↔◌, refl, List, [], ◌∷◌, ◌++◌, some}
use hydraria.Dns.{
  build_query, encode_labels, split_dots, start_label, trim_dots, query_header, skip_name,
  parse_answer,
}
use hydraria.Dns.Names.{IsName, skip_name_iff}
use hydraria.Dns.Answers.{Returns, parse_answer-Returns}

-- `a.bc.`
abbrev asked : List ℕ
asked = 97 ∷ 46 ∷ 98 ∷ 99 ∷ 46 ∷ []

abbrev packet : List ℕ
packet = query_header 513 ++ (1 ∷ 97 ∷ 2 ∷ 98 ∷ 99 ∷ 0 ∷ 0 ∷ 1 ∷ 0 ∷ 1 ∷ [])

built : build_query 513 asked ≡ some packet
unfolding build_query encode_labels split_dots start_label trim_dots
built = refl

skip_name_iff_example : (skip_name packet 14 ≡ some 18) ↔ IsName packet 14 18
skip_name_iff_example = skip_name_iff packet 14 18

parse_answer-Returns_example : Returns (parse_answer packet 513)
parse_answer-Returns_example = parse_answer-Returns packet 513
