-- ===== src/Settings/Samples.antt =====
-- src/models.rs, `ThroughputSampler`: the ring of the last throughput samples.
use hydraria.Prelude.{
  ℕ, zero, suc, ◌+◌, ◌-◌, ◌/◌, ◌≤◌, ◌<◌, ◌≡◌, refl, sym, ap, ◌∙◌, ◌||◌, List, [], ◌∷◌, ◌++◌, Option,
  none, some, length, leb, ◌==◌, if◌then◌else◌, Bool-cases, inl, inr, arith, wrapping_add, drop,
  length-drop,
}

pub record ThroughputSampler : Type 0 where
  pub samples : List ℕ
  pub capacity : ℕ

pub new_sampler : ℕ → ThroughputSampler
new_sampler capacity = record { samples = []; capacity = capacity }

-- `s.remove(0)` and `s.push(bps)`; `none` where `remove` panics.
shift : List ℕ → ℕ → Option (List ℕ)
shift [] bps = none
shift (s ∷ ss) bps = some (ss ++ bps ∷ [])

with_samples : ThroughputSampler → Option (List ℕ) → Option ThroughputSampler
with_samples s none = none
with_samples s (some samples) = some (record s { samples = samples })

pub push : ThroughputSampler → ℕ → Option ThroughputSampler
unfolding shift with_samples
push s bps = with_samples s (
    if leb s.capacity (length s.samples) then shift s.samples bps else some (s.samples ++ bps ∷ []))

-- `&s[n..]`
sum : List ℕ → ℕ
sum [] = 0
sum (x ∷ xs) = wrapping_add x (sum xs)

pub recent_mean : ThroughputSampler → ℕ → ℕ
unfolding sum
recent_mean s n =
    let tail = drop (length s.samples - n) s.samples in
    if length s.samples == 0 || n == 0 then 0 else sum tail / length tail

pub current : ThroughputSampler → ℕ
current s = last 0 s.samples
  where
    last : ℕ → List ℕ → ℕ
    last d [] = d
    last d (x ∷ xs) = last x xs

-- A row of pushes.
pub push_all : Option ThroughputSampler → List ℕ → Option ThroughputSampler
push_all none bs = none
push_all (some s) [] = some s
push_all (some s) (b ∷ bs) = push_all (push s b) bs

-- The last `n` of a list.
abbrev pub last_of : ℕ → List ℕ → List ℕ
last_of n xs = drop (length xs - n) xs

length-append : (xs ys : List ℕ) → length (xs ++ ys) ≡ length xs + length ys
length-append [] ys = omega arith
length-append (x ∷ xs) ys = omega (arith, length-append xs ys)

drop-append : (n : ℕ) (xs ys : List ℕ) → n ≤ length xs → drop n (xs ++ ys) ≡ drop n xs ++ ys
drop-append zero xs ys h = refl
drop-append (suc n) [] ys h = absurd (omega arith)
drop-append (suc n) (x ∷ xs) ys h = drop-append n xs ys (omega arith)

shift-drop :
    (n b : ℕ) (xs : List ℕ) → n < length xs → shift (drop n xs) b ≡ some (drop (suc n) xs ++ b ∷ [])
unfolding shift
shift-drop n b [] h = absurd (omega arith)
shift-drop zero b (x ∷ xs) h = refl
shift-drop (suc n) b (x ∷ xs) h = shift-drop n b xs (omega arith)

append-append : (xs ys zs : List ℕ) → (xs ++ ys) ++ zs ≡ xs ++ (ys ++ zs)
append-append [] ys zs = refl
append-append (x ∷ xs) ys zs = ap (λ r. x ∷ r) (append-append xs ys zs)

push_all-cons :
    (s : ThroughputSampler) (b : ℕ) (bs : List ℕ)
    → push_all (some s) (b ∷ bs) ≡ push_all (push s b) bs
unfolding push_all
push_all-cons s b bs = refl

module _ (capacity : ℕ) (room : 0 < capacity) where
  ring : List ℕ → ThroughputSampler
  ring history = record { samples = last_of capacity history; capacity = capacity }

  push-ring : (history : List ℕ) (b : ℕ) → push (ring history) b ≡ some (ring (history ++ b ∷ []))
  unfolding push ring with_samples
  push-ring history b =
      let size = length-drop (length history - capacity) history in
      let longer = length-append history (b ∷ []) in
      elim (Bool-cases (leb capacity (length (drop (length history - capacity) history)))) [
        | inl full ↦
            let next : length (history ++ b ∷ []) - capacity ≡ suc (length history - capacity) =
              ground (arith, size, longer) in
            rw
              (
                full,
                next,
                shift-drop (length history - capacity) b history (ground (arith, size)),
                drop-append (suc (length history - capacity)) history (b ∷ [])
                    (ground (arith, size)),
              )
              refl
        | inr free ↦
            let next : length (history ++ b ∷ []) - capacity ≡ 0 = ground (arith, size, longer) in
            let here : length history - capacity ≡ 0 = ground (arith, size) in
            rw (free, next, here) refl
      ]

  push_all-ring :
      (history more : List ℕ) → push_all (some (ring history)) more ≡ some (ring (history ++ more))
  unfolding push_all
  push_all-ring history [] = ap (λ h. some (ring h)) (sym (append-nil history))
    where
      append-nil : (xs : List ℕ) → xs ++ [] ≡ xs
      append-nil [] = refl
      append-nil (x ∷ xs) = ap (λ r. x ∷ r) (append-nil xs)
  push_all-ring history (b ∷ bs) =
      rw (push_all-cons (ring history) b bs, push-ring history b)
        (push_all-ring (history ++ b ∷ []) bs)
      ∙ ap (λ h. some (ring h)) (append-append history (b ∷ []) bs)

  -- A sampler with a positive capacity never panics in a row of pushes, and holds the last of
  -- them, as many as its capacity.
  pub push_all-last_of :
      (bs : List ℕ)
      → push_all (some (new_sampler capacity)) bs
        ≡ some (record { samples = last_of capacity bs; capacity = capacity })
  unfolding ring new_sampler
  push_all-last_of bs = rw (← start) (push_all-ring [] bs)
    where
      start : drop {A = ℕ} (0 - capacity) [] ≡ []
      start = let none_left : 0 - capacity ≡ 0 = omega arith in rw none_left refl
