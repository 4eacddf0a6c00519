-- ===== src/Dns/Queries.antt =====
-- src/dns.rs, `build_query` and `skip_name`: what is asked for can be passed over.
use hydraria.Prelude.{
  ℕ, ◌+◌, ◌-◌, ◌%◌, ◌≡◌, refl, sym, ap, ◌∙◌, false, ◌||◌, List, [], ◌∷◌, ◌++◌, Option, none, some,
  length, get_elem?, ltb, ◌==◌, Bool-cases, inl, inr, arith,
}
use hydraria.Dns.{Str, encode_labels, split_dots, trim_dots, query_header, build_query, skip_name}
use hydraria.Dns.Names.{IsName, root, label, skip_name_iff}

length-append : (xs ys : List ℕ) → length (xs ++ ys) ≡ length xs + length ys
length-append [] ys = omega arith
length-append (x ∷ xs) ys = omega (arith, length-append xs ys)

append_assoc : (xs ys zs : List ℕ) → (xs ++ ys) ++ zs ≡ xs ++ (ys ++ zs)
append_assoc [] ys zs = refl
append_assoc (x ∷ xs) ys zs = ap (λ r. x ∷ r) (append_assoc xs ys zs)

get-append :
    (before : List ℕ) (b : ℕ) (after : List ℕ)
    → get_elem? (before ++ b ∷ after) (length before) ≡ some b
get-append [] b after = refl
get-append (x ∷ xs) b after = get-append xs b after

encoded-IsName :
    (labels : List Str) (before bytes after : List ℕ)
    → encode_labels labels ≡ some bytes
    → IsName (before ++ (bytes ++ 0 ∷ after)) (length before) (length before + length bytes + 1)
unfolding encode_labels
encoded-IsName [] before bytes after e =
    let nothing : [] ≡ bytes = cc in
    let here : length before + 0 + 1 ≡ length before + 1 = omega arith in
    rw (← nothing) (rw here (root (get-append before 0 after)))
encoded-IsName (l ∷ ls) before bytes after e =
    elim (Bool-cases (length l == 0 || ltb 63 (length l))) [
      | inl bad ↦ let e' = rw bad at e in cc
      | inr good ↦
          rest (encode_labels ls) refl good (rw good at e)
            (λ before bytes. encoded-IsName ls before bytes after)
    ]
  where
    rest :
        (o : Option (List ℕ))
        → encode_labels ls ≡ o
        → length l == 0 || ltb 63 (length l) ≡ false
        → elim o [ none ↦ none | some more ↦ some (length l % 256 ∷ l ++ more) ] ≡ some bytes
        → ((before bytes : List ℕ)
            → encode_labels ls ≡ some bytes
            → IsName
                (before ++ (bytes ++ 0 ∷ after))
                (length before)
                (length before + length bytes + 1))
        → IsName (before ++ (bytes ++ 0 ∷ after)) (length before) (length before + length bytes + 1)
    rest none q good e later = cc
    rest (some more) q good e later =
        let whole : length l % 256 ∷ l ++ more ≡ bytes = cc in
        let size : length l % 256 ≡ length l = ground arith in
        let next = later (before ++ length l % 256 ∷ l) more q in
        let split : (before ++ length l % 256 ∷ l) ++ (more ++ 0 ∷ after)
            ≡ before ++ ((length l % 256 ∷ l ++ more) ++ 0 ∷ after) =
          append_assoc before (length l % 256 ∷ l) (more ++ 0 ∷ after)
          ∙ ap (λ r. before ++ r) (sym (append_assoc (length l % 256 ∷ l) more (0 ∷ after))) in
        let long = length-append before (length l % 256 ∷ l) in
        let longer = length-append l more in
        let start : length (before ++ length l % 256 ∷ l) ≡ length before + 1 + length l % 256 =
          omega (arith, long, size) in
        let stop : length before + 1 + length l % 256 + length more + 1
            ≡ length before + length (length l % 256 ∷ l ++ more) + 1 =
          omega (arith, longer, size) in
        let next' = rw (split, start, stop) at next in
        rw (← whole) (
          label (length l % 256) (get-append before (length l % 256) ((l ++ more) ++ 0 ∷ after))
            (ground (arith, size)) (ground (arith, size)) next')

-- When `build_query` gives a packet, `skip_name` passes over the name in it and stops at its last
-- four bytes, the type and the class.
pub skip_name-build_query :
    (id : ℕ) (name : Str) (packet : List ℕ)
    → build_query id name ≡ some packet
    → skip_name packet 12 ≡ some (length packet - 4)
unfolding build_query
skip_name-build_query id name packet e = on (encode_labels (split_dots (trim_dots name))) refl e
  where
    on :
        (o : Option (List ℕ))
        → encode_labels (split_dots (trim_dots name)) ≡ o
        → elim o [
          | none ↦ none
          | some labels ↦ some (query_header id ++ (labels ++ 0 ∷ 0 ∷ 1 ∷ 0 ∷ 1 ∷ []))
        ]
          ≡ some packet
        → skip_name packet 12 ≡ some (length packet - 4)
    on none q e = cc
    on (some labels) q e =
        let whole : query_header id ++ (labels ++ 0 ∷ 0 ∷ 1 ∷ 0 ∷ 1 ∷ []) ≡ packet = cc in
        let size = length-append labels (0 ∷ 0 ∷ 1 ∷ 0 ∷ 1 ∷ []) in
        let stop : length (query_header id ++ (labels ++ 0 ∷ 0 ∷ 1 ∷ 0 ∷ 1 ∷ [])) - 4
            ≡ 12 + length labels + 1 =
          omega (arith, size) in
        rw (← whole) (
          rw stop (
            (skip_name_iff _ 12 _).1 (
              encoded-IsName (split_dots (trim_dots name)) (query_header id) labels
                (0 ∷ 1 ∷ 0 ∷ 1 ∷ []) q)))
