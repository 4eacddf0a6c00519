-- ===== src/Dns/Names.antt =====
-- src/dns.rs, `skip_name`: the loop ends, behind the name that stands in the message.
use hydraria.Prelude.{
  ℕ, zero, suc, ◌+◌, ◌≤◌, ◌<◌, ◌≡◌, ◌↔◌, refl, true, false, List, [], ◌∷◌, Option, none, some,
  length, get_elem?, leb, ◌==◌, if◌then◌else◌, Bool-cases, inl, inr, arith,
}
use hydraria.Dns.{skip_from, skip_name}

-- A name that stands at a position and ends before another: labels, and a root or a pointer.
pub data IsName (message : List ℕ) : ℕ → ℕ → Type 0 where
  root : {at : ℕ} → get_elem? message at ≡ some 0 → IsName message at (at + 1)
  pointer : {at : ℕ} (b : ℕ) → get_elem? message at ≡ some b → 192 ≤ b → IsName message at (at + 2)
  label :
      {at : ℕ} (b : ℕ) {end : ℕ}
      → get_elem? message at ≡ some b
      → 0 < b
      → b < 192
      → IsName message (at + 1 + b) end
      → IsName message at end

get_lt : {A : Type 0} (xs : List A) (i : ℕ) {a : A} → get_elem? xs i ≡ some a → i < length xs
get_lt [] i e = cc
get_lt (x ∷ xs) zero e = omega arith
get_lt (x ∷ xs) (suc i) e = omega (arith, get_lt xs i e)

IsName-lt : (message : List ℕ) {at end : ℕ} → IsName message at end → at < length message
IsName-lt message {at} (root e) = get_lt message at e
IsName-lt message {at} (pointer b e h) = get_lt message at e
IsName-lt message {at} (label b e p q v) = get_lt message at e

-- With fuel for every byte left, a name is passed over.
skip_from_complete :
    (fuel : ℕ) (message : List ℕ) {at end : ℕ}
    → IsName message at end
    → length message < at + fuel
    → skip_from fuel message at ≡ some end
unfolding skip_from
skip_from_complete zero message v h = let inside = IsName-lt message v in absurd (omega arith)
skip_from_complete (suc fuel) message (root e) h = rw (skip_from, e) refl
skip_from_complete (suc fuel) message (pointer b e p) h =
    let far : b == 0 ≡ false = ground arith in
    let high : leb 192 b ≡ true = ground arith in rw (skip_from, e, far, high) refl
skip_from_complete (suc fuel) message (label b e p q v) h =
    let far : b == 0 ≡ false = ground arith in
    let low : leb 192 b ≡ false = ground arith in
    rw (skip_from, e, far, low) (skip_from_complete fuel message v (omega arith))

skip_from_sound :
    (fuel : ℕ) (message : List ℕ) (at end : ℕ)
    → skip_from fuel message at ≡ some end
    → IsName message at end
unfolding skip_from
skip_from_sound zero message at end e = cc
skip_from_sound (suc fuel) message at end e =
    found (get_elem? message at) refl e (λ at. skip_from_sound fuel message at end)
  where
    found :
        (o : Option ℕ)
        → get_elem? message at ≡ o
        → elim o [
          | none ↦ none
          | some len ↦
              if len == 0
              then some (at + 1)
              else if leb 192 len
              then some (at + 2)
              else skip_from fuel message (at + 1 + len)
        ]
          ≡ some end
        → ((at : ℕ) → skip_from fuel message at ≡ some end → IsName message at end)
        → IsName message at end
    found none q e later = cc
    found (some len) q e later = elim (Bool-cases (len == 0)) [
      | inl last ↦
          let here : at + 1 ≡ end = let e' = rw last at e in cc in
          let zero_len : len ≡ 0 = ground arith in rw (← here) (root (rw zero_len at q))
      | inr more ↦
          let e1 = rw more at e in
          elim (Bool-cases (leb 192 len)) [
            | inl high ↦
                let here : at + 2 ≡ end = let e' = rw high at e1 in cc in
                rw (← here) (pointer len q (ground arith))
            | inr low ↦
                label len q (ground arith) (ground arith) (later (at + 1 + len) (rw low at e1))
          ]
    ]

-- On the fuel of one round for each byte of the message and one more, the loop of `skip_name`
-- returns exactly the position behind the name, labels that end in a root or in a pointer, that
-- stands at its start; it fails exactly where none stands there.
pub skip_name_iff :
    (message : List ℕ) (at end : ℕ) → (skip_name message at ≡ some end) ↔ IsName message at end
unfolding skip_name
skip_name_iff message at end = (
  λ e. skip_from_sound (length message + 1) message at end e,
  λ v. skip_from_complete (length message + 1) message v (omega arith),
)
