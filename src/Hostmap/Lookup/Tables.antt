-- ===== src/Hostmap/Lookup/Tables.antt =====
-- src/hostmap.rs: the two maps of a table.
use hydraria.Prelude.{
  ◌≡◌, refl, ◌∙◌, true, false, [], ◌∷◌, ◌++◌, Option, none, some, ◌==◌, if◌then◌else◌, Bool-cases,
  inl, inr, arith,
}
use hydraria.Hostmap.{Str, Target, HostTable, Rules, bytes_eq, without, add_rule, get}

abbrev pub or_later : Option Target → Option Target → Option Target
or_later (some t) later = some t
or_later none later = later

pub bytes_eq_refl : (s : Str) → bytes_eq s s ≡ true
unfolding bytes_eq
bytes_eq_refl [] = refl
bytes_eq_refl (c ∷ cs) = let here : c == c ≡ true = ground arith in rw (here, bytes_eq_refl cs) refl

pub bytes_eq-true : (s k : Str) → bytes_eq s k ≡ true → s ≡ k
unfolding bytes_eq
bytes_eq-true [] [] e = refl
bytes_eq-true [] (y ∷ ys) e = cc
bytes_eq-true (x ∷ xs) [] e = cc
bytes_eq-true (x ∷ xs) (y ∷ ys) e = elim (Bool-cases (x == y)) [
  | inl here ↦
      let head : x ≡ y = ground arith in
      let tail = bytes_eq-true xs ys (simp here at e) in rw (head, tail) refl
  | inr apart ↦ let e' = simp apart at e in cc
]

get-without :
    (rs : Rules) (key k : Str)
    → get (without rs key) k ≡ (if bytes_eq key k then none else get rs k)
unfolding get without
get-without [] key k = ground arith
get-without ((k0, t) ∷ rs) key k =
    let rest = get-without rs key k in
    elim (Bool-cases (bytes_eq k0 key)) [
      | inl same ↦
          let e = bytes_eq-true k0 key same in
          rw (same, e)
            (elim (Bool-cases (bytes_eq key k)) [
              | inl hit ↦ rw hit (rest ∙ rw hit refl)
              | inr miss ↦ rw miss (rest ∙ rw miss refl)
            ])
      | inr apart ↦ rw apart (elim (Bool-cases (bytes_eq k0 k)) [
        | inl hit ↦
            let e = bytes_eq-true k0 k hit in
            elim (Bool-cases (bytes_eq key k)) [
              | inl both ↦
                  let e' = bytes_eq-true key k both in
                  let same : bytes_eq k0 key ≡ true = rw (e, e') (bytes_eq_refl k) in cc
              | inr miss ↦ rw (hit, miss) refl
            ]
        | inr miss ↦ rw miss rest
      ])
    ]

get-append :
    (rs : Rules) (key k : Str) (t : Target)
    → get (rs ++ (key, t) ∷ []) k ≡ or_later (get rs k) (if bytes_eq key k then some t else none)
unfolding get
get-append [] key k t = refl
get-append ((k0, t0) ∷ rs) key k t = elim (Bool-cases (bytes_eq k0 k)) [
  | inl hit ↦ rw hit refl
  | inr miss ↦ rw miss (get-append rs key k t)
]

-- What the table says of a source.
abbrev pub entry_of : HostTable → Str → Option Target
entry_of table [] = get table.exact []
entry_of table (c ∷ cs) = if c == 42 then get table.wildcards cs else get table.exact (c ∷ cs)

get-replace :
    (rs : Rules) (key k : Str) (t : Target)
    → get ((key, t) ∷ without rs key) k ≡ (if bytes_eq key k then some t else get rs k)
unfolding get
get-replace rs key k t = elim (Bool-cases (bytes_eq key k)) [
  | inl hit ↦ rw hit refl
  | inr miss ↦ rw miss (get-without rs key k ∙ rw miss refl)
]

get-move :
    (rs : Rules) (key k : Str) (t : Target)
    → get (without rs key ++ (key, t) ∷ []) k ≡ (if bytes_eq key k then some t else get rs k)
get-move rs key k t =
    get-append (without rs key) key k t
    ∙ rw (get-without rs key k) (elim (Bool-cases (bytes_eq key k)) [
      | inl hit ↦ rw hit refl
      | inr miss ↦ rw miss (kept (get rs k))
    ])
  where
    kept : (o : Option Target) → or_later o none ≡ o
    kept none = refl
    kept (some t) = refl

-- A new rule answers for its source, and for no other.
pub add_rule-entry_of :
    (table : HostTable) (from : Str) (to : Target) (key : Str)
    → entry_of (add_rule table from to) key
      ≡ (if bytes_eq from key then some to else entry_of table key)
unfolding add_rule bytes_eq
add_rule-entry_of table [] to [] = get-replace table.exact [] [] to
add_rule-entry_of table [] to (k ∷ ks) = elim (Bool-cases (k == 42)) [
  | inl star ↦ rw star refl
  | inr plain ↦ rw plain (get-replace table.exact [] (k ∷ ks) to)
]
add_rule-entry_of table (c ∷ cs) to [] = elim (Bool-cases (c == 42)) [
  | inl star ↦ rw star refl
  | inr plain ↦ rw plain (get-replace table.exact (c ∷ cs) [] to)
]
add_rule-entry_of table (c ∷ cs) to (k ∷ ks) = elim (Bool-cases (c == 42)) [
  | inl star ↦ simp star (elim (Bool-cases (k == 42)) [
    | inl here ↦
        let same : c == k ≡ true = ground arith in
        simp (here, same) (get-move table.wildcards cs ks to)
    | inr away ↦ let apart : c == k ≡ false = ground arith in simp (away, apart) refl
  ])
  | inr plain ↦ simp plain (elim (Bool-cases (k == 42)) [
    | inl here ↦ let apart : c == k ≡ false = ground arith in simp (here, apart) refl
    | inr away ↦ simp away (get-replace table.exact (c ∷ cs) (k ∷ ks) to)
  ])
]
