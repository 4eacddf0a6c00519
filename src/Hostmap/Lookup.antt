-- ===== src/Hostmap/Lookup.antt =====
-- src/hostmap.rs: `lookup` in a table that `build` made answers by the last rule for the host, or else
-- by the last rule for the longest suffix of the host.
pub mod Tables
pub mod Order
use hydraria.Prelude.{
  ℕ, ◌≤◌, ◌≡◌, ◌≢◌, refl, sym, ap, ◌∙◌, Bool, true, false, not, List, [], ◌∷◌, Option, none, some,
  length, ◌==◌, if◌then◌else◌, Bool-cases, inl, inr, arith,
}
use hydraria.Hostmap.{
  Str, Std, HostMapping, Target, HostTable, Rules, bytes_eq, normalize_host, parse_rule, build_on,
  build, get, fits, find_suffix, or_target, lookup, add_rule, sort_longest,
}
use hydraria.Hostmap.Lookup.Tables.{entry_of, or_later, add_rule-entry_of}
use hydraria.Hostmap.Lookup.Order.{
  get-sort_longest, Found, find_suffix-Found, sort_longest-IsDescending, IsDescending,
}

-- The target of one rule, for a source.
unfoldable pub sends : Option (Str × Target) → Str → Option Target
sends none key = none
sends (some (from, to)) key = if bytes_eq from key then some to else none

-- The target of the last enabled rule with a source.
unfoldable pub last_for : Std → List HostMapping → Str → Option Target
unfolding sends
last_for std [] key = none
last_for std (rule ∷ rules) key =
    or_later (last_for std rules key)
      (if rule.enabled then sends (parse_rule std rule) key else none)

pub or_later_assoc : (a b c : Option Target) → or_later (or_later a b) c ≡ or_later a (or_later b c)
or_later_assoc none b c = refl
or_later_assoc (some a) b c = refl

pub or_later-none : (a : Option Target) → or_later a none ≡ a
or_later-none none = refl
or_later-none (some a) = refl

after_rule :
    (std : Std) (rules : List HostMapping) (table done : HostTable) (key : Str)
    (r : Option (Str × Target))
    → ((from : Str) (to : Target)
        → build_on std (add_rule table from to) rules ≡ some done
        → entry_of done key
          ≡ or_later (last_for std rules key) (entry_of (add_rule table from to) key))
    → elim r [ none ↦ none | some (from, to) ↦ build_on std (add_rule table from to) rules ]
      ≡ some done
    → entry_of done key
      ≡ or_later (or_later (last_for std rules key) (sends r key)) (entry_of table key)
unfolding sends
after_rule std rules table done key none later e = cc
after_rule std rules table done key (some (from, to)) later e =
    later from to e
    ∙ rw (add_rule-entry_of table from to key, or_later_assoc (last_for std rules key) _ _)
        (ap (or_later (last_for std rules key)) (elim (Bool-cases (bytes_eq from key)) [
          | inl hit ↦ rw hit refl
          | inr miss ↦ rw miss refl
        ]))

build_on-entry_of :
    (std : Std) (rules : List HostMapping) (table done : HostTable) (key : Str)
    → build_on std table rules ≡ some done
    → entry_of done key ≡ or_later (last_for std rules key) (entry_of table key)
unfolding build_on last_for
build_on-entry_of std [] table done key e = let same : table ≡ done = cc in rw same refl
build_on-entry_of std (rule ∷ rules) table done key e = elim (Bool-cases rule.enabled) [
  | inr off ↦ simp (off, or_later-none) (build_on-entry_of std rules table done key (simp off at e))
  | inl on ↦ simp on (
      after_rule std rules table done key (parse_rule std rule)
        (λ from to e. build_on-entry_of std rules (add_rule table from to) done key e)
        (simp on at e))
]

empty_table : HostTable
empty_table = record { exact = []; wildcards = [] }

empty_entry_of : (key : Str) → entry_of empty_table key ≡ none
unfolding empty_table get
empty_entry_of [] = refl
empty_entry_of (c ∷ cs) = elim (Bool-cases (c == 42)) [
  | inl star ↦ rw star refl
  | inr plain ↦ rw plain refl
]

sorted-entry_of :
    (t : HostTable) (key : Str)
    → entry_of (record t { wildcards = sort_longest t.wildcards }) key ≡ entry_of t key
sorted-entry_of t [] = refl
sorted-entry_of t (c ∷ cs) = elim (Bool-cases (c == 42)) [
  | inl star ↦ rw star (get-sort_longest t.wildcards cs)
  | inr plain ↦ rw plain refl
]

-- Everything that a finished table says of a source is what the rules say.
build-entry_of :
    (std : Std) (rules : List HostMapping) (table : HostTable)
    → build std rules ≡ some table
    → ((key : Str) → entry_of table key ≡ last_for std rules key) × IsDescending table.wildcards
unfolding build empty_table
build-entry_of std rules table e = on (build_on std empty_table rules) refl e
  where
    on :
        (done : Option HostTable)
        → build_on std empty_table rules ≡ done
        → elim done [
          | none ↦ none
          | some t ↦ some (record t { wildcards = sort_longest t.wildcards })
        ]
          ≡ some table
        → ((key : Str) → entry_of table key ≡ last_for std rules key) × IsDescending table.wildcards
    on none q e = cc
    on (some t) q e =
        let same : record t { wildcards = sort_longest t.wildcards } ≡ table = cc in
        rw (← same) (
          λ key.
              sorted-entry_of t key
              ∙ build_on-entry_of std rules empty_table t key q
              ∙ rw (empty_entry_of key, or_later-none (last_for std rules key)) refl,
          sort_longest-IsDescending t.wildcards,
        )

-- No rule has a suffix of the name, or the last rule with the longest one sends it to `answer`.
abbrev pub IsByLongest : Std → List HostMapping → Str → Option Target → Type 0
IsByLongest std rules name none =
    (suffix : Str) → fits name suffix ≡ true → last_for std rules (42 ∷ suffix) ≡ none
IsByLongest std rules name (some to) =
    (suffix : Str) × (fits name suffix ≡ true)
    × (last_for std rules (42 ∷ suffix) ≡ some to)
    × ((other : Str) (t : Target)
        → fits name other ≡ true
        → last_for std rules (42 ∷ other) ≡ some t
        → length other ≤ length suffix)

-- The last rule for the name decides, or else the longest suffix.
abbrev pub IsMostSpecific : Std → List HostMapping → Str → Option Target → Type 0
IsMostSpecific std rules name answer =
    ((to : Target) → last_for std rules name ≡ some to → answer ≡ some to)
    × (last_for std rules name ≡ none → IsByLongest std rules name answer)

-- A name that begins with `*` is no host.
abbrev pub is_plain : Str → Bool
is_plain [] = true
is_plain (c ∷ cs) = not (c == 42)

plain-entry_of :
    (table : HostTable) (name : Str)
    → is_plain name ≡ true
    → entry_of table name ≡ get table.exact name
plain-entry_of table [] e = refl
plain-entry_of table (c ∷ cs) e = elim (Bool-cases (c == 42)) [
  | inl star ↦ let e' = rw star at e in cc
  | inr plain ↦ rw plain refl
]

Found-IsByLongest :
    (std : Std) (rules : List HostMapping) (table : HostTable) (name : Str)
    (found : Option (Str × Target))
    → ((key : Str) → entry_of table key ≡ last_for std rules key)
    → Found table.wildcards name found
    → IsByLongest std rules name (or_target none found)
unfolding or_target
Found-IsByLongest std rules table name none says v =
    λ suffix fit. sym (says (42 ∷ suffix)) ∙ v suffix fit
Found-IsByLongest std rules table name (some (s, t)) says (fit, here, longest) = (
  s,
  fit,
  sym (says (42 ∷ s)) ∙ here,
  λ other to fit' e. longest other to fit' (says (42 ∷ other) ∙ e),
)

-- In a table that `build` made, a host that does not begin with `*` is sent where the last
-- enabled rule for it says; without one, where the last enabled rule for the longest suffix with
-- a rule says; and without that, nowhere.
pub lookup-IsMostSpecific :
    (std : Std) (rules : List HostMapping) (table : HostTable) (name : Str)
    → build std rules ≡ some table
    → is_plain (normalize_host std name) ≡ true
    → IsMostSpecific std rules (normalize_host std name) (lookup std table name)
unfolding lookup
lookup-IsMostSpecific std rules table name built plain =
    let h = normalize_host std name in
    let (says, sorted) = build-entry_of std rules table built in
    let exact : get table.exact h ≡ last_for std rules h =
      sym (plain-entry_of table h plain) ∙ says h in
    let found = find_suffix-Found table.wildcards h sorted in
    (
      λ to e. rw (exact, e) refl,
      λ e.
          rw (exact, e)
            (Found-IsByLongest std rules table h (find_suffix table.wildcards h) says found),
    )
