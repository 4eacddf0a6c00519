-- ===== src/Header/Tests.antt =====
-- Range headers of requests for a file of ten bytes, and for an empty one.
use hydraria.Prelude.{
  ◌≡◌, refl, true, false, [], ◌∷◌, ◌++◌, none, some, ◌==◌, ==_iff, if◌then◌else◌, arith,
}
use hydraria.Header.{
  Str, strip_prefix, before, after, is_digit, are_digits, decimal, parse_digits, parse_u64,
  suffix_range, ended_at, span_range, first_range, bytes_prefix, ranges_in, parse_range_header,
  clip, requested,
}
use hydraria.Header.Within.{IsWithin, requested-IsWithin}
use hydraria.Header.Spans.{is_plain, requested-span}

-- Without the spaces in front.
trim : Str → Str
trim [] = []
trim (c ∷ cs) = if c == 32 then trim cs else c ∷ cs

trim_plain : (s : Str) → is_plain s ≡ true → trim s ≡ s
unfolding trim is_plain
trim_plain [] h = refl
trim_plain (c ∷ cs) h =
    let printed : (c == 32) ≡ false = ground (arith, ==_iff c 32) in rw printed refl

-- `bytes=-4`
last_four : requested trim 10 (some (bytes_prefix ++ 45 ∷ 52 ∷ [])) ≡ some (6, 9)
unfolding requested clip parse_range_header ranges_in first_range span_range ended_at suffix_range
    parse_u64 parse_digits are_digits is_digit decimal before after strip_prefix trim
last_four = refl

-- An empty file is sent as one byte.
empty_file : requested trim 0 none ≡ some (0, 0)
unfolding requested
empty_file = refl

requested-IsWithin_example : IsWithin 10 (requested trim 10 (some (bytes_prefix ++ 45 ∷ 52 ∷ [])))
requested-IsWithin_example =
    requested-IsWithin trim 10 (omega arith) (omega arith) (some (bytes_prefix ++ 45 ∷ 52 ∷ []))

-- `bytes=2-99`
requested-span_example :
    requested trim 10 (some (bytes_prefix ++ (50 ∷ []) ++ 45 ∷ 57 ∷ 57 ∷ [])) ≡ some (2, 9)
unfolding are_digits is_digit decimal
requested-span_example =
    requested-span trim trim_plain 10 (omega arith) (omega arith) (50 ∷ []) (57 ∷ 57 ∷ []) refl refl
      (omega arith) (omega arith) (omega arith) (omega arith)
