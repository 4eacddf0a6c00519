-- ===== src/Dns/Answers.antt =====
-- src/dns.rs, `parse_answer`: no index is out of range, whatever the message.
use hydraria.Prelude.{
  ℕ, zero, suc, ◌+◌, ◌%◌, ◌≤◌, ◌<◌, not, ◌&&◌, List, [], ◌∷◌, Option, none, some, length, get_elem?,
  ltb, ◌==◌, if◌then◌else◌, Bool-cases, if_holds, inl, inr, arith,
}
use hydraria.Dns.{
  Run, panicked, err, ok, ◌>>=◌, truncated, byte_or_panic, byte, u16_at, u32_at, skip_name,
  name_or_short, skip_questions, address_at, Found, keep_record, read_record, read_records,
  read_body, parse_answer,
}

-- The run does not panic.
abbrev pub Returns : {A : Type 0} → Run A → Type 0
Returns panicked = ⊥
Returns (err e) = Unit
Returns (ok a) = Unit

bind-Returns :
    {A B : Type 0} (m : Run A) (f : A → Run B)
    → Returns m
    → ((a : A) → Returns (f a))
    → Returns (m >>= f)
bind-Returns panicked f v w = v
bind-Returns (err e) f v w = tt
bind-Returns (ok a) f v w = w a

get_in : (xs : List ℕ) (i : ℕ) → i < length xs → Returns (byte_or_panic (get_elem? xs i))
unfolding byte_or_panic
get_in [] i h = absurd (omega arith)
get_in (x ∷ xs) zero h = tt
get_in (x ∷ xs) (suc i) h = get_in xs i (omega arith)

module _ (message : List ℕ) where
  byte-Returns : (i : ℕ) → i < length message → Returns (byte message i)
  unfolding byte
  byte-Returns i h = get_in message i h

  u16_at-Returns : (i : ℕ) → i + 2 ≤ length message → Returns (u16_at message i)
  unfolding u16_at
  u16_at-Returns i h = bind-Returns (byte message i) _ (byte-Returns i (omega arith)) (λ high.
      bind-Returns (byte message (i + 1)) _ (byte-Returns (i + 1) (omega arith)) (λ low. tt))

  u32_at-Returns : (i : ℕ) → i + 4 ≤ length message → Returns (u32_at message i)
  unfolding u32_at
  u32_at-Returns i h = bind-Returns (u16_at message i) _ (u16_at-Returns i (omega arith)) (λ high.
      bind-Returns (u16_at message (i + 2)) _ (u16_at-Returns (i + 2) (omega arith)) (λ low. tt))

  name_or_short-Returns : (o : Option ℕ) → Returns (name_or_short o)
  unfolding name_or_short
  name_or_short-Returns none = tt
  name_or_short-Returns (some at) = tt

  skip_questions-Returns : (n at : ℕ) → Returns (skip_questions n message at)
  unfolding skip_questions
  skip_questions-Returns zero at = tt
  skip_questions-Returns (suc n) at =
      bind-Returns (name_or_short (skip_name message at)) _
        (name_or_short-Returns (skip_name message at)) (λ next. skip_questions-Returns n (next + 4))

  address_at-Returns : (at : ℕ) → at + 4 ≤ length message → Returns (address_at message at)
  unfolding address_at
  address_at-Returns at h = bind-Returns (byte message at) _ (byte-Returns at (omega arith)) (λ a.
      bind-Returns (byte message (at + 1)) _ (byte-Returns (at + 1) (omega arith)) (λ b.
        bind-Returns (byte message (at + 2)) _ (byte-Returns (at + 2) (omega arith)) (λ c.
          bind-Returns (byte message (at + 3)) _ (byte-Returns (at + 3) (omega arith)) (λ d. tt))))

  keep_record-Returns :
      (at rtype ttl rdlen : ℕ) (found : Found)
      → at + rdlen ≤ length message
      → Returns (keep_record message at rtype ttl rdlen found)
  unfolding keep_record
  keep_record-Returns at rtype ttl rdlen found h =
      elim (Bool-cases (not (rtype == 1 && rdlen == 4))) [
        | inl other ↦ rw other tt
        | inr address ↦ rw address (
            bind-Returns (address_at message at) _ (address_at-Returns at (ground arith)) (λ a. tt))
      ]

  read_record-Returns : (at : ℕ) (found : Found) → Returns (read_record message at found)
  unfolding read_record
  read_record-Returns at found = elim (Bool-cases (ltb (length message) (at + 10))) [
    | inl short ↦ rw short tt
    | inr long ↦ rw long (
        bind-Returns (u16_at message at) _ (u16_at-Returns at (ground arith)) (λ rtype.
          bind-Returns (u32_at message (at + 4)) _ (u32_at-Returns (at + 4) (ground arith)) (λ ttl.
            bind-Returns (u16_at message (at + 8)) _ (u16_at-Returns (at + 8) (ground arith))
              (λ rdlen. body rtype ttl rdlen))))
  ]
    where
      body :
          (rtype ttl rdlen : ℕ)
          → Returns {A = ℕ × Found} (
              if ltb (length message) (at + 10 + rdlen)
              then err truncated
              else (keep_record message (at + 10) rtype ttl rdlen found >>= λ kept.
                  ok (at + 10 + rdlen, kept)))
      body rtype ttl rdlen = elim (Bool-cases (ltb (length message) (at + 10 + rdlen))) [
        | inl short ↦ rw short tt
        | inr long ↦ rw long (
            bind-Returns (keep_record message (at + 10) rtype ttl rdlen found) _
              (keep_record-Returns (at + 10) rtype ttl rdlen found (ground arith)) (λ kept. tt))
      ]

  read_records-Returns : (n at : ℕ) (found : Found) → Returns (read_records n message at found)
  unfolding read_records
  read_records-Returns zero at found = tt
  read_records-Returns (suc n) at found =
      bind-Returns (name_or_short (skip_name message at)) _
        (name_or_short-Returns (skip_name message at))
        (λ start.
          bind-Returns (read_record message start found) _ (read_record-Returns start found)
            (λ (next, kept). read_records-Returns n next kept))

  read_body-Returns : 12 ≤ length message → Returns (read_body message)
  unfolding read_body
  read_body-Returns h =
      bind-Returns (u16_at message 4) _ (u16_at-Returns 4 (omega arith)) (λ qdcount.
        bind-Returns (u16_at message 6) _ (u16_at-Returns 6 (omega arith)) (λ ancount.
          bind-Returns (skip_questions qdcount message 12) _ (skip_questions-Returns qdcount 12)
            (λ at. read_records-Returns ancount at _)))

  -- Whatever the message, `parse_answer` returns an answer or an error: it never panics at an
  -- index out of range.
  pub parse_answer-Returns : (want_id : ℕ) → Returns (parse_answer message want_id)
  unfolding parse_answer
  parse_answer-Returns want_id = elim (Bool-cases (ltb (length message) 12)) [
    | inl short ↦ rw short tt
    | inr long ↦ rw long (
        bind-Returns (u16_at message 0) _ (u16_at-Returns 0 (ground arith)) (λ id.
          elim (Bool-cases (not (id == want_id))) [
            | inl other ↦ rw other tt
            | inr mine ↦ rw mine (
                bind-Returns (byte message 3) _ (byte-Returns 3 (ground arith)) (λ flags.
                  if_holds Returns (not (flags % 16 == 0)) _ _ tt
                    (read_body-Returns (ground arith))))
          ]))
  ]
