-- ===== src/Header.antt =====
-- src/engine.rs, `parse_range_header`, and src/routes.rs: the range of a file that a request asks
-- for. A string is the list of its bytes; `trim` is the standard library's, a parameter. The text of
-- an error is left out.
pub mod Within
pub mod Spans
pub mod Tests
use hydraria.Prelude.{
  ℕ, zero, suc, ◌+◌, ◌-◌, ◌*◌, min, Bool, true, false, ◌&&◌, List, [], ◌∷◌, Option, none, some,
  length, ltb, leb, ◌==◌, if◌then◌else◌, wrapping_sub, u64_mod, unwrap_or,
}

abbrev pub Str : Type 0
Str = List ℕ

pub strip_prefix : Str → Str → Option Str
strip_prefix s [] = some s
strip_prefix [] (p ∷ ps) = none
strip_prefix (c ∷ cs) (p ∷ ps) = let rest = strip_prefix cs ps in if c == p then rest else none

-- The first part of `split` or `splitn`, and the second one of `splitn(2, …)`, empty without any.
pub before : ℕ → Str → Str
before sep [] = []
before sep (c ∷ cs) = let rest = before sep cs in if c == sep then [] else c ∷ rest

pub after : ℕ → Str → Str
after sep [] = []
after sep (c ∷ cs) = let rest = after sep cs in if c == sep then cs else rest

pub is_digit : ℕ → Bool
is_digit c = leb 48 c && leb c 57

pub are_digits : Str → Bool
unfolding is_digit
are_digits [] = true
are_digits (c ∷ cs) = let rest = are_digits cs in is_digit c && rest

pub decimal : ℕ → Str → ℕ
decimal n [] = n
decimal n (c ∷ cs) = decimal (n * 10 + (c - 48)) cs

parse_digits : Str → Option ℕ
unfolding are_digits decimal
parse_digits [] = none
parse_digits (c ∷ cs) =
    if are_digits (c ∷ cs) && ltb (decimal 0 (c ∷ cs)) u64_mod
    then some (decimal 0 (c ∷ cs))
    else none

-- `parse::<u64>`, which takes a plus sign
pub parse_u64 : Str → Option ℕ
unfolding parse_digits
parse_u64 [] = none
parse_u64 (c ∷ cs) = if c == 43 then parse_digits cs else parse_digits (c ∷ cs)

suffix_range : Option ℕ → Option ℕ → Option (ℕ × Option ℕ)
suffix_range none total = none
suffix_range (some n) none = none
suffix_range (some n) (some total) = if n == 0 then none else some (total - n, some (total - 1))

ended_at : ℕ → Option ℕ → Option (ℕ × Option ℕ)
ended_at start none = none
ended_at start (some end) = if ltb end start then none else some (start, some end)

span_range : Option ℕ → Str → Option (ℕ × Option ℕ)
unfolding ended_at
span_range none e = none
span_range (some start) e =
    if length e == 0 then some (start, none) else ended_at start (parse_u64 e)

-- The first range, without or with what follows its leading dash.
first_range : (Str → Str) → Option ℕ → Str → Option Str → Option (ℕ × Option ℕ)
unfolding span_range suffix_range
first_range trim total first none =
    span_range (parse_u64 (trim (before 45 first))) (trim (after 45 first))
first_range trim total first (some suffix) = suffix_range (parse_u64 (trim suffix)) total

abbrev pub bytes_prefix : Str
bytes_prefix = 98 ∷ 121 ∷ 116 ∷ 101 ∷ 115 ∷ 61 ∷ []

ranges_in : (Str → Str) → Option ℕ → Option Str → Option (ℕ × Option ℕ)
unfolding first_range
ranges_in trim total none = none
ranges_in trim total (some rest) =
    let first = trim (before 44 rest) in first_range trim total first (strip_prefix first (45 ∷ []))

pub parse_range_header : (Str → Str) → Str → Option ℕ → Option (ℕ × Option ℕ)
unfolding ranges_in
parse_range_header trim value total = ranges_in trim total (strip_prefix (trim value) bytes_prefix)

clip : ℕ → Option (ℕ × Option ℕ) → Option (ℕ × ℕ)
clip total none = none
clip total (some (s, e)) =
    let end = min (unwrap_or e (wrapping_sub total 1)) (wrapping_sub total 1) in
    if ltb end s then none else some (s, end)

-- What is sent to a request, with its range header where it has one.
pub requested : (Str → Str) → ℕ → Option Str → Option (ℕ × ℕ)
unfolding clip
requested trim total none = some (0, total - 1)
requested trim total (some rh) = clip total (parse_range_header trim rh (some total))
