-- ===== src/Hostmap/Merged.antt =====
-- src/hostmap.rs, `merged_rules`: the rules of a task go before the global ones.
use hydraria.Prelude.{
  ◌≡◌, refl, sym, ◌∙◌, false, ◌&&◌, ◌||◌, List, [], ◌∷◌, ◌++◌, Option, none, some, length, ◌==◌,
  if◌then◌else◌, Bool-cases, inl, inr, arith, is_none,
}
use hydraria.Hostmap.{
  Str, Std, HostMapping, Target, bytes_eq, normalize_host, parse_source, parse_target, parse_rule,
  without_from, merge_on, merged_rules, contains, has_star,
}
use hydraria.Hostmap.Lookup.{last_for, sends, or_later_assoc, or_later-none}
use hydraria.Hostmap.Lookup.Tables.{or_later, bytes_eq-true}

-- What one rule says of a source.
says : Std → HostMapping → Str → Option Target
says std rule key = if rule.enabled then sends (parse_rule std rule) key else none

abbrev later_or : Option HostMapping → Option HostMapping → Option HostMapping
later_or (some later) earlier = some later
later_or none earlier = earlier

-- The last rule for a host, enabled or not.
pub last_about : Std → List HostMapping → Str → Option HostMapping
last_about std [] key = none
last_about std (r ∷ rs) key =
    later_or (last_about std rs key)
      (if bytes_eq (normalize_host std r.from) key then some r else none)

-- What it says, if it is enabled; without one, what the global rules say.
pub decided : Std → Option HostMapping → Str → Option Target → Option Target
unfolding says
decided std none key global = global
decided std (some rule) key global = says std rule key

parse_source-normal :
    (std : Std) (raw s : Str) → parse_source std raw ≡ some s → normalize_host std raw ≡ s
unfolding parse_source
parse_source-normal std raw s e =
    let n = normalize_host std raw in
    elim (Bool-cases (length n == 0)) [
      | inl empty ↦ let e' = simp empty at e in cc
      | inr filled ↦
          let e1 = simp filled at e in
          elim (Bool-cases (contains n (58 ∷ 47 ∷ 47 ∷ []) || contains n (47 ∷ []))) [
            | inl url ↦ let e' = simp url at e1 in cc
            | inr bare ↦
                let e2 = simp bare at e1 in
                elim (Bool-cases (contains n (58 ∷ []) && is_none (std.parse_ip n))) [
                  | inl port ↦ let e' = simp port at e2 in cc
                  | inr no_port ↦
                      let e3 = simp no_port at e2 in
                      elim (Bool-cases (has_star n)) [
                        | inl star ↦ starred n s (simp star at e3)
                        | inr plain ↦ plainly n s (simp plain at e3)
                      ]
                ]
          ]
    ]
  where
    starred : (n s : Str) → (if length n == 2 then none else some n) ≡ some s → n ≡ s
    starred n s e = elim (Bool-cases (length n == 2)) [
      | inl bad ↦ let e' = rw bad at e in cc
      | inr good ↦ let e' = rw good at e in cc
    ]

    plainly : (n s : Str) → (if contains n (42 ∷ []) then none else some n) ≡ some s → n ≡ s
    plainly n s e = elim (Bool-cases (contains n (42 ∷ []))) [
      | inl bad ↦ let e' = rw bad at e in cc
      | inr good ↦ let e' = rw good at e in cc
    ]

-- A rule says nothing of another host.
says-other :
    (std : Std) (rule : HostMapping) (key : Str)
    → bytes_eq (normalize_host std rule.from) key ≡ false
    → says std rule key ≡ none
unfolding says parse_rule sends
says-other std rule key other = elim (Bool-cases rule.enabled) [
  | inr off ↦ rw off refl
  | inl on ↦ rw on (parsed (parse_source std rule.from) refl)
]
  where
    parsed :
        (o : Option Str)
        → parse_source std rule.from ≡ o
        → sends
            (elim o [
              | none ↦ none
              | some from ↦ elim (parse_target std rule.to) [
                | none ↦ none
                | some to ↦ some (from, to)
              ]
            ])
            key
          ≡ none
    parsed none e = refl
    parsed (some from) e = target (parse_target std rule.to)
      where
        target :
            (t : Option Target)
            → sends (elim t [ none ↦ none | some to ↦ some (from, to) ]) key ≡ none
        target none = refl
        target (some to) =
            let apart = rw (parse_source-normal std rule.from from e) at other in rw apart refl

last_for-append :
    (std : Std) (xs : List HostMapping) (r : HostMapping) (key : Str)
    → last_for std (xs ++ r ∷ []) key ≡ or_later (says std r key) (last_for std xs key)
unfolding last_for says
last_for-append std [] r key = sym (or_later-none _)
last_for-append std (x ∷ xs) r key =
    rw (last_for-append std xs r key) (or_later_assoc (says std r key) (last_for std xs key) _)

last_for-without_from :
    (std : Std) (xs : List HostMapping) (name key : Str)
    → last_for std (without_from std xs name) key
      ≡ (if bytes_eq name key then none else last_for std xs key)
unfolding last_for without_from says
last_for-without_from std [] name key = elim (Bool-cases (bytes_eq name key)) [
  | inl hit ↦ rw hit refl
  | inr miss ↦ rw miss refl
]
last_for-without_from std (x ∷ xs) name key =
    let rest = last_for-without_from std xs name key in
    elim (Bool-cases (bytes_eq (normalize_host std x.from) name)) [
      | inl dropped ↦ rw dropped (elim (Bool-cases (bytes_eq name key)) [
        | inl hit ↦ rw hit (rest ∙ rw hit refl)
        | inr miss ↦
            let same = bytes_eq-true (normalize_host std x.from) name dropped in
            let silent = says-other std x key (rw same miss) in
            rw (miss, silent, or_later-none) (rest ∙ rw miss refl)
      ])
      | inr kept ↦
          rw (kept, rest)
            (elim (Bool-cases (bytes_eq name key)) [
              | inl hit ↦
                  let silent = says-other std x key (rw (← bytes_eq-true name key hit) kept) in
                  rw (hit, silent) refl
              | inr miss ↦ rw miss refl
            ])
    ]

last_about-cons :
    (std : Std) (r : HostMapping) (rs : List HostMapping) (key : Str)
    → last_about std (r ∷ rs) key
      ≡ later_or
          (last_about std rs key)
          (if bytes_eq (normalize_host std r.from) key then some r else none)
unfolding last_about
last_about-cons std r rs key = refl

merge_on-last_for :
    (std : Std) (rs out : List HostMapping) (key : Str)
    → last_for std (merge_on std out rs) key
      ≡ decided std (last_about std rs key) key (last_for std out key)
unfolding merge_on decided last_about
merge_on-last_for std [] out key = refl
merge_on-last_for std (r ∷ rs) out key =
    let name = normalize_host std r.from in
    merge_on-last_for std rs (without_from std out name ++ r ∷ []) key
    ∙ rw
        (
          last_about-cons std r rs key,
          last_for-append std (without_from std out name) r key,
          last_for-without_from std out name key,
        )
        (elim (Bool-cases (bytes_eq name key)) [
          | inl hit ↦ rw (hit, or_later-none) (mine (last_about std rs key))
          | inr miss ↦ rw (miss, says-other std r key miss) (other (last_about std rs key))
        ])
  where
    mine :
        (later : Option HostMapping)
        → decided std later key (says std r key)
          ≡ decided std (later_or later (some r)) key (last_for std out key)
    mine none = refl
    mine (some l) = refl

    other :
        (later : Option HostMapping)
        → decided std later key (last_for std out key)
          ≡ decided std (later_or later none) key (last_for std out key)
    other none = refl
    other (some l) = refl

-- Under `merged_rules`, the last rule of the task for a source decides where it is sent, or that
-- it is not where that rule is disabled; without one, the global rules decide.
pub merged_rules-last_for :
    (std : Std) (global task_rules : List HostMapping) (key : Str)
    → last_for std (merged_rules std global task_rules) key
      ≡ decided std (last_about std task_rules key) key (last_for std global key)
unfolding merged_rules decided last_about
merged_rules-last_for std global [] key = refl
merged_rules-last_for std global (r ∷ rs) key =
    let some_rules : length (r ∷ rs) == 0 ≡ false = ground arith in
    rw some_rules (merge_on-last_for std (r ∷ rs) global key)
