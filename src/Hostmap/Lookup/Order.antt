-- ===== src/Hostmap/Lookup/Order.antt =====
-- src/hostmap.rs: sorting the suffixes, and the search for the first that fits.
use hydraria.Prelude.{
  ℕ, ◌≤◌, ◌≡◌, refl, ◌∙◌, true, false, [], ◌∷◌, Option, none, some, length, ltb, if◌then◌else◌,
  Bool-cases, inl, inr, arith,
}
use hydraria.Hostmap.{
  Str, Target, Rules, bytes_eq, insert_longest, sort_longest, get, fits, find_suffix,
}
use hydraria.Hostmap.Lookup.Tables.{bytes_eq-true, bytes_eq_refl}

get-insert_longest :
    (key k : Str) (t : Target) (rs : Rules)
    → get (insert_longest (key, t) rs) k ≡ (if bytes_eq key k then some t else get rs k)
unfolding get insert_longest
get-insert_longest key k t [] = refl
get-insert_longest key k t ((k0, t0) ∷ rs) = elim (Bool-cases (ltb (length key) (length k0))) [
  | inr first ↦ rw first refl
  | inl longer ↦
      rw (longer, get-insert_longest key k t rs)
        (elim (Bool-cases (bytes_eq k0 k)) [
          | inr miss ↦ rw miss refl
          | inl hit ↦ elim (Bool-cases (bytes_eq key k)) [
            | inr other ↦ rw (hit, other) refl
            | inl both ↦
                let e = bytes_eq-true k0 k hit in
                let e' = bytes_eq-true key k both in
                let l : length k0 ≡ length key = rw (e, e') refl in absurd (ground (arith, l))
          ]
        ])
]

-- Sorting changes no answer.
pub get-sort_longest : (rs : Rules) (k : Str) → get (sort_longest rs) k ≡ get rs k
unfolding get sort_longest
get-sort_longest [] k = refl
get-sort_longest ((key, t) ∷ rs) k =
    get-insert_longest key k t (sort_longest rs) ∙ rw (get-sort_longest rs k) refl

abbrev pub AllBelow : ℕ → Rules → Type 0
AllBelow n [] = Unit
AllBelow n (r ∷ rs) = (length r.0 ≤ n) × AllBelow n rs

abbrev pub IsDescending : Rules → Type 0
IsDescending [] = Unit
IsDescending (r ∷ rs) = AllBelow (length r.0) rs × IsDescending rs

AllBelow-weaken : (n m : ℕ) (rs : Rules) → n ≤ m → AllBelow n rs → AllBelow m rs
AllBelow-weaken n m [] h v = tt
AllBelow-weaken n m (r ∷ rs) h (v, vs) = (omega arith, AllBelow-weaken n m rs h vs)

insert_longest-AllBelow :
    (n : ℕ) (r : Str × Target) (rs : Rules)
    → length r.0 ≤ n
    → AllBelow n rs
    → AllBelow n (insert_longest r rs)
unfolding insert_longest
insert_longest-AllBelow n r [] h v = (h, tt)
insert_longest-AllBelow n r (k ∷ ks) h (v, vs) = elim (Bool-cases (ltb (length r.0) (length k.0))) [
  | inl longer ↦ rw longer (v, insert_longest-AllBelow n r ks h vs)
  | inr first ↦ rw first (h, (v, vs))
]

insert_longest-IsDescending :
    (r : Str × Target) (rs : Rules) → IsDescending rs → IsDescending (insert_longest r rs)
unfolding insert_longest
insert_longest-IsDescending r [] v = (tt, tt)
insert_longest-IsDescending r (k ∷ ks) (below, v) =
    elim (Bool-cases (ltb (length r.0) (length k.0))) [
      | inl longer ↦ rw longer (
        insert_longest-AllBelow (length k.0) r ks (ground arith) below,
        insert_longest-IsDescending r ks v,
      )
      | inr first ↦ rw first (
        (ground arith, AllBelow-weaken (length k.0) (length r.0) ks (ground arith) below),
        (below, v),
      )
    ]

pub sort_longest-IsDescending : (rs : Rules) → IsDescending (sort_longest rs)
unfolding sort_longest
sort_longest-IsDescending [] = tt
sort_longest-IsDescending (r ∷ rs) =
    insert_longest-IsDescending r (sort_longest rs) (sort_longest-IsDescending rs)

-- The answer of `find_suffix`: no rule fits, or this one does and no longer one.
abbrev pub Found : Rules → Str → Option (Str × Target) → Type 0
Found rs name none = (s : Str) → fits name s ≡ true → get rs s ≡ none
Found rs name (some (s, t)) =
    (fits name s ≡ true)
    × (get rs s ≡ some t)
    × ((s' : Str) (t' : Target) → fits name s' ≡ true → get rs s' ≡ some t' → length s' ≤ length s)

get-AllBelow :
    (n : ℕ) (rs : Rules) (s : Str) (t : Target) → AllBelow n rs → get rs s ≡ some t → length s ≤ n
unfolding get
get-AllBelow n [] s t v e = cc
get-AllBelow n ((k, t0) ∷ rs) s t (v, vs) e = elim (Bool-cases (bytes_eq k s)) [
  | inl hit ↦ rw (← bytes_eq-true k s hit) v
  | inr miss ↦ get-AllBelow n rs s t vs (rw miss at e)
]

get-unfit :
    (rs : Rules) (name k s : Str) (t : Target)
    → fits name k ≡ false
    → fits name s ≡ true
    → get ((k, t) ∷ rs) s ≡ get rs s
unfolding get
get-unfit rs name k s t unfit fit = elim (Bool-cases (bytes_eq k s)) [
  | inl hit ↦ let unfit' = rw (bytes_eq-true k s hit) at unfit in cc
  | inr miss ↦ rw miss refl
]

Found-later :
    (rs : Rules) (name k : Str) (t : Target) (found : Option (Str × Target))
    → fits name k ≡ false
    → Found rs name found
    → Found ((k, t) ∷ rs) name found
Found-later rs name k t none unfit v = λ s fit. get-unfit rs name k s t unfit fit ∙ v s fit
Found-later rs name k t (some (s, to)) unfit (fit, here, longest) = (
  fit,
  get-unfit rs name k s t unfit fit ∙ here,
  λ s' t' fit' e. longest s' t' fit' (rw (get-unfit rs name k s' t unfit fit') at e),
)

pub find_suffix-Found :
    (rs : Rules) (name : Str) → IsDescending rs → Found rs name (find_suffix rs name)
unfolding find_suffix get
find_suffix-Found [] name v = λ s fit. refl
find_suffix-Found ((k, t) ∷ rs) name (below, v) = elim (Bool-cases (fits name k)) [
  | inl fit ↦ rw fit (
    fit,
    rw (bytes_eq_refl k) refl,
    λ s' t' fit' e. get-AllBelow (length k) ((k, t) ∷ rs) s' t' (omega arith, below) e,
  )
  | inr unfit ↦
      rw unfit (Found-later rs name k t (find_suffix rs name) unfit (find_suffix-Found rs name v))
]
