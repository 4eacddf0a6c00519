-- ===== src/Dns.antt =====
-- src/dns.rs: the query and the answer of a name server, as lists of bytes. A message has at most
-- 65,535 bytes, so that the positions in it are far from the end of a machine word.
pub mod Names
pub mod Queries
pub mod Answers
pub mod Tests
use hydraria.Prelude.{
  ℕ, zero, suc, ◌+◌, ◌-◌, ◌*◌, ◌/◌, ◌%◌, ◌≤◌, ◌<◌, min, Bool, true, false, not, ◌&&◌, ◌||◌, List,
  [], ◌∷◌, ◌++◌, Option, none, some, length, get_elem?, ltb, leb, ◌==◌, if◌then◌else◌,
}

abbrev pub Str : Type 0
Str = List ℕ

-- `MAX_TTL`, in seconds
abbrev pub max_ttl : ℕ
max_ttl = 10 * 60

pub data ParseError : Type 0 where
  truncated : ParseError
  other_id : ParseError
  refused : ℕ → ParseError

-- A result, or the panic of an index that is out of range.
pub data Run (A : Type 0) : Type 0 where
  panicked : Run A
  err : ParseError → Run A
  ok : A → Run A

infixl 5 ◌>>=◌
abbrev ◌>>=◌ : {A B : Type 0} → Run A → (A → Run B) → Run B
◌>>=◌ m f = elim m [ panicked ↦ panicked | err e ↦ err e | ok a ↦ f a ]

-- The loop of `skip_name` on fuel. The two high bits of a pointer's byte are set.
pub skip_from : ℕ → List ℕ → ℕ → Option ℕ
skip_from zero message at = none
skip_from (suc fuel) message at = elim (get_elem? message at) [
  | none ↦ none
  | some len ↦
      if len == 0
      then some (at + 1)
      else if leb 192 len
      then some (at + 2)
      else skip_from fuel message (at + 1 + len)
]

-- `none` is the error of a truncated message.
pub skip_name : List ℕ → ℕ → Option ℕ
skip_name message at = skip_from (length message + 1) message at

-- `data[i]`
byte_or_panic : Option ℕ → Run ℕ
byte_or_panic none = panicked
byte_or_panic (some b) = ok b

pub byte : List ℕ → ℕ → Run ℕ
unfolding byte_or_panic
byte message i = byte_or_panic (get_elem? message i)

-- `u16::from_be_bytes` and `u32::from_be_bytes`
pub u16_at : List ℕ → ℕ → Run ℕ
u16_at message i = do high ← byte message i; low ← byte message (i + 1); ok (high * 256 + low)

pub u32_at : List ℕ → ℕ → Run ℕ
u32_at message i = do high ← u16_at message i; low ← u16_at message (i + 2); ok (high * 65536 + low)

pub name_or_short : Option ℕ → Run ℕ
name_or_short none = err truncated
name_or_short (some at) = ok at

-- The questions are passed over.
pub skip_questions : ℕ → List ℕ → ℕ → Run ℕ
skip_questions zero message at = ok at
skip_questions (suc n) message at = do
  next ← name_or_short (skip_name message at)
  skip_questions n message (next + 4)

pub address_at : List ℕ → ℕ → Run (List ℕ)
address_at message at = do
  a ← byte message at
  b ← byte message (at + 1)
  c ← byte message (at + 2)
  d ← byte message (at + 3)
  ok (a ∷ b ∷ c ∷ d ∷ [])

-- The addresses found, and the shortest time to live.
abbrev pub Found : Type 0
Found = List (List ℕ) × ℕ

-- The data of a record of a type, with its time to live.
pub keep_record : List ℕ → ℕ → ℕ → ℕ → ℕ → Found → Run Found
keep_record message at rtype ttl rdlen found =
    if not (rtype == 1 && rdlen == 4)
    then ok found
    else do address ← address_at message at; ok (found.0 ++ address ∷ [], min found.1 ttl)

pub read_record : List ℕ → ℕ → Found → Run (ℕ × Found)
read_record message at found = if ltb (length message) (at + 10) then err truncated else do
  rtype ← u16_at message at
  ttl ← u32_at message (at + 4)
  rdlen ← u16_at message (at + 8)
  if ltb (length message) (at + 10 + rdlen)
      then err truncated
      else do kept ← keep_record message (at + 10) rtype ttl rdlen found; ok (at + 10 + rdlen, kept)

pub read_records : ℕ → List ℕ → ℕ → Found → Run Found
read_records zero message at found = ok found
read_records (suc n) message at found = do
  start ← name_or_short (skip_name message at)
  (next, kept) ← read_record message start found
  read_records n message next kept

-- Behind the checks of the identifier and of the answer's code.
pub read_body : List ℕ → Run Found
read_body message = do
  qdcount ← u16_at message 4
  ancount ← u16_at message 6
  at ← skip_questions qdcount message 12
  read_records ancount message at ([], max_ttl)

pub parse_answer : List ℕ → ℕ → Run Found
parse_answer message want_id = if ltb (length message) 12 then err truncated else do
  id ← u16_at message 0
  if not (id == want_id) then err other_id else do
    flags ← byte message 3
    if not (flags % 16 == 0) then err (refused (flags % 16)) else read_body message

-- `trim_end_matches('.')`
trim_dots : Str → Str
trim_dots [] = []
trim_dots (c ∷ cs) = let rest = trim_dots cs in if c == 46 && length rest == 0 then [] else c ∷ rest

-- `split('.')`
start_label : ℕ → List Str → List Str
start_label c [] = (c ∷ []) ∷ []
start_label c (l ∷ ls) = (c ∷ l) ∷ ls

pub split_dots : Str → List Str
unfolding start_label
split_dots [] = [] ∷ []
split_dots (c ∷ cs) = let rest = split_dots cs in if c == 46 then [] ∷ rest else start_label c rest

-- The labels of the packet, or `none` where one is empty or too long.
pub encode_labels : List Str → Option (List ℕ)
encode_labels [] = some []
encode_labels (l ∷ ls) =
    let rest = encode_labels ls in
    if length l == 0 || ltb 63 (length l)
    then none
    else elim rest [ none ↦ none | some bytes ↦ some (length l % 256 ∷ l ++ bytes) ]

abbrev pub query_header : ℕ → List ℕ
query_header id = id / 256 % 256 ∷ id % 256 ∷ 1 ∷ 0 ∷ 0 ∷ 1 ∷ 0 ∷ 0 ∷ 0 ∷ 0 ∷ 0 ∷ 0 ∷ []

-- The random identifier is an argument.
pub build_query : ℕ → Str → Option (List ℕ)
unfolding trim_dots
build_query id name = elim (encode_labels (split_dots (trim_dots name))) [
  | none ↦ none
  | some labels ↦ some (query_header id ++ (labels ++ 0 ∷ 0 ∷ 1 ∷ 0 ∷ 1 ∷ []))
]
