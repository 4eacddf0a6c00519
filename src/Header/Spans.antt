-- ===== src/Header/Spans.antt =====
-- src/engine.rs and src/routes.rs: a range header that gives a first and a last position.
use hydraria.Prelude.{
  ℕ, ◌-◌, ◌<◌, ◌≡◌, refl, ap, Bool, true, false, inl, inr, ◌&&◌, ◌||◌, [], ◌∷◌, ◌++◌, Option, none,
  some, min, ltb, leb, ◌==◌, ==_iff, if◌then◌else◌, length, wrapping_sub, u64_mod, arith,
  Bool-cases,
}
use hydraria.Header.{
  Str, strip_prefix, before, after, is_digit, are_digits, decimal, parse_digits, parse_u64,
  ended_at, span_range, first_range, bytes_prefix, ranges_in, parse_range_header, clip, requested,
}

-- Each byte is printed and is no space.
unfoldable pub is_plain : Str → Bool
is_plain [] = true
is_plain (c ∷ cs) = let rest = is_plain cs in leb 33 c && leb c 126 && rest

is_plain_digits : (s : Str) → are_digits s ≡ true → is_plain s ≡ true
unfolding are_digits is_digit is_plain
is_plain_digits [] h = refl
is_plain_digits (c ∷ cs) h = ground (arith, is_plain_digits cs)

is_plain-span :
    (a b : Str) → are_digits a ≡ true → are_digits b ≡ true → is_plain (a ++ 45 ∷ b) ≡ true
unfolding are_digits is_digit is_plain
is_plain-span [] b h k = is_plain_digits b k
is_plain-span (c ∷ cs) b h k = ground (arith, is_plain-span cs b)

before_digits : (sep : ℕ) (s : Str) → sep < 48 → are_digits s ≡ true → before sep s ≡ s
unfolding are_digits is_digit before
before_digits sep [] low h = refl
before_digits sep (c ∷ cs) low h =
    let other : (c == sep) ≡ false = ground (arith, ==_iff c sep) in
    let more : are_digits cs ≡ true = ground arith in rw (other, before_digits sep cs low more) refl

before-span :
    (a b : Str) → are_digits a ≡ true → are_digits b ≡ true → before 44 (a ++ 45 ∷ b) ≡ a ++ 45 ∷ b
unfolding are_digits is_digit before
before-span [] b h k = ap (λ (s : Str). 45 ∷ s) (before_digits 44 b (omega arith) k)
before-span (c ∷ cs) b h k =
    let other : (c == 44) ≡ false = ground (arith, ==_iff c 44) in
    let more : are_digits cs ≡ true = ground arith in rw (other, before-span cs b more k) refl

before-dash : (a b : Str) → are_digits a ≡ true → before 45 (a ++ 45 ∷ b) ≡ a
unfolding are_digits is_digit before
before-dash [] b h = refl
before-dash (c ∷ cs) b h =
    let other : (c == 45) ≡ false = ground (arith, ==_iff c 45) in
    let more : are_digits cs ≡ true = ground arith in rw (other, before-dash cs b more) refl

after-dash : (a b : Str) → are_digits a ≡ true → after 45 (a ++ 45 ∷ b) ≡ b
unfolding are_digits is_digit after
after-dash [] b h = refl
after-dash (c ∷ cs) b h =
    let other : (c == 45) ≡ false = ground (arith, ==_iff c 45) in
    let more : are_digits cs ≡ true = ground arith in rw (other, after-dash cs b more) refl

parse_u64_digits :
    (s : Str)
    → 0 < length s
    → are_digits s ≡ true
    → decimal 0 s < u64_mod
    → parse_u64 s ≡ some (decimal 0 s)
unfolding parse_u64 parse_digits
parse_u64_digits [] some_digits h word = absurd (omega arith)
parse_u64_digits (c ∷ cs) some_digits h word =
    let no_sign : (c == 43) ≡ false = unfold are_digits is_digit in ground (arith, ==_iff c 43) in
    let small : ltb (decimal 0 (c ∷ cs)) u64_mod ≡ true = ground arith in
    rw (no_sign, h, small) refl

no_suffix :
    (a b : Str) → 0 < length a → are_digits a ≡ true → strip_prefix (a ++ 45 ∷ b) (45 ∷ []) ≡ none
unfolding are_digits is_digit strip_prefix
no_suffix [] b some_digits h = absurd (omega arith)
no_suffix (c ∷ cs) b some_digits h =
    let other : (c == 45) ≡ false = ground (arith, ==_iff c 45) in rw other refl

parse_range_header-span :
    (trim : Str → Str)
    → ((s : Str) → is_plain s ≡ true → trim s ≡ s)
    → (a b : Str) (total : Option ℕ) → are_digits a ≡ true
    → are_digits b ≡ true
    → 0 < length a
    → 0 < length b
    → decimal 0 a < u64_mod
    → decimal 0 b < u64_mod
    → parse_range_header trim (bytes_prefix ++ a ++ 45 ∷ b) total
      ≡ (if ltb (decimal 0 b) (decimal 0 a) then none else some (decimal 0 a, some (decimal 0 b)))
unfolding parse_range_header strip_prefix ranges_in first_range span_range ended_at
parse_range_header-span trim keeps a b total h k some_a some_b word_a word_b =
    let whole : trim (bytes_prefix ++ a ++ 45 ∷ b) ≡ bytes_prefix ++ a ++ 45 ∷ b =
      keeps (bytes_prefix ++ a ++ 45 ∷ b) (unfold is_plain in is_plain-span a b h k) in
    let first : trim (before 44 (a ++ 45 ∷ b)) ≡ a ++ 45 ∷ b =
      rw (before-span a b h k) (keeps (a ++ 45 ∷ b) (is_plain-span a b h k)) in
    let from : parse_u64 (trim (before 45 (a ++ 45 ∷ b))) ≡ some (decimal 0 a) =
      rw (before-dash a b h, keeps a (is_plain_digits a h)) (parse_u64_digits a some_a h word_a) in
    let last : trim (after 45 (a ++ 45 ∷ b)) ≡ b =
      rw (after-dash a b h) (keeps b (is_plain_digits b k)) in
    let to : parse_u64 b ≡ some (decimal 0 b) = parse_u64_digits b some_b k word_b in
    let given : (length b == 0) ≡ false = ground (arith, ==_iff (length b) 0) in
    rw (whole, first, no_suffix a b some_a h, from, last, given, to) refl

-- Let `trim` keep a text of printed bytes without spaces, and a file have bytes, fewer than 2^64.
-- For a header `bytes=A-B`, with digits A and B whose numbers are less than 2^64, the request is
-- refused if B is less than A or A is not in the file; else it is sent the bytes from A to B, or
-- to the last of the file where that comes first.
pub requested-span :
    (trim : Str → Str)
    → ((s : Str) → is_plain s ≡ true → trim s ≡ s)
    → (total : ℕ) → 0 < total
    → total < u64_mod
    → (a b : Str) → are_digits a ≡ true
    → are_digits b ≡ true
    → 0 < length a
    → 0 < length b
    → decimal 0 a < u64_mod
    → decimal 0 b < u64_mod
    → requested trim total (some (bytes_prefix ++ a ++ 45 ∷ b)) ≡ (
        if ltb (decimal 0 b) (decimal 0 a) || leb total (decimal 0 a)
        then none
        else some (decimal 0 a, min (decimal 0 b) (total - 1)))
unfolding requested clip
requested-span trim keeps total some_bytes word a b h k some_a some_b word_a word_b =
    let last : wrapping_sub total 1 ≡ total - 1 = omega arith in
    let parsed =
      parse_range_header-span trim keeps a b (some total) h k some_a some_b word_a word_b in
    elim (Bool-cases (ltb (decimal 0 b) (decimal 0 a))) [
      | inl backward ↦ rw (parsed, backward) refl
      | inr forward ↦
          let cut : ltb (min (decimal 0 b) (total - 1)) (decimal 0 a) ≡ leb total (decimal 0 a) =
            ground arith in
          rw (parsed, forward, last, cut) refl
    ]
