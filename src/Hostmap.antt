-- ===== src/Hostmap.antt =====
-- src/hostmap.rs: the rules that send a host elsewhere. A string is the list of its bytes. `trim` and
-- the parsers of addresses are the standard library's, a parameter.
pub mod Lookup
pub mod Merged
pub mod Tests
use hydraria.Prelude.{
  ℕ, zero, suc, ◌+◌, ◌-◌, ◌*◌, ◌≤◌, ◌<◌, ◌≡◌, Bool, true, false, not, ◌&&◌, ◌||◌, List, [], ◌∷◌,
  ◌++◌, Option, none, some, map, length, ltb, leb, ◌==◌, if◌then◌else◌, drop, is_none,
}

abbrev pub Str : Type 0
Str = List ℕ

pub bytes_eq : Str → Str → Bool
bytes_eq [] [] = true
bytes_eq [] (y ∷ ys) = false
bytes_eq (x ∷ xs) [] = false
bytes_eq (x ∷ xs) (y ∷ ys) = let rest = bytes_eq xs ys in x == y && rest

-- What the code uses of the standard library; an address is its octets.
pub record Std : Type 0 where
  pub trim : Str → Str
  pub parse_ip : Str → Option (List ℕ)
  pub parse_addr : Str → Option (List ℕ × ℕ)

pub record HostMapping : Type 0 where
  pub from : Str
  pub to : Str
  pub enabled : Bool

pub data Target : Type 0 where
  ip : List ℕ → ℕ → Target
  host : Str → ℕ → Target

starts_with : Str → Str → Bool
starts_with s [] = true
starts_with [] (p ∷ ps) = false
starts_with (c ∷ cs) (p ∷ ps) = let rest = starts_with cs ps in c == p && rest

contains : Str → Str → Bool
unfolding starts_with
contains [] needle = starts_with [] needle
contains (c ∷ cs) needle = let rest = contains cs needle in starts_with (c ∷ cs) needle || rest

-- `trim_end_matches('.')`
trim_dots : Str → Str
trim_dots [] = []
trim_dots (c ∷ cs) = let rest = trim_dots cs in if c == 46 && length rest == 0 then [] else c ∷ rest

lower : ℕ → ℕ
lower c = if leb 65 c && leb c 90 then c + 32 else c

pub normalize_host : Std → Str → Str
unfolding trim_dots lower
normalize_host std s = map lower (trim_dots (std.trim s))

-- `rsplit_once(':')`
prepend : ℕ → Option (Str × Str) → Str → Option (Str × Str)
prepend c (some (h, p)) cs = some (c ∷ h, p)
prepend c none cs = if c == 58 then some ([], cs) else none

rsplit_colon : Str → Option (Str × Str)
unfolding prepend
rsplit_colon [] = none
rsplit_colon (c ∷ cs) = prepend c (rsplit_colon cs) cs

all : (ℕ → Bool) → Str → Bool
all test [] = true
all test (c ∷ cs) = let rest = all test cs in test c && rest

is_digit : ℕ → Bool
is_digit c = leb 48 c && leb c 57

is_host_char : ℕ → Bool
unfolding is_digit
is_host_char c =
    is_digit c || (leb 65 c && leb c 90) || (leb 97 c && leb c 122) || c == 45 || c == 46 || c == 95

-- `parse::<u16>` of digits
decimal : ℕ → Str → ℕ
decimal n [] = n
decimal n (c ∷ cs) = decimal (n * 10 + (c - 48)) cs

-- The host and the port, behind the address forms.
host_with : Std → Str → ℕ → Option Target
unfolding contains all is_host_char
host_with std h port =
    if contains h (58 ∷ [])
    then none
    else if not (all is_host_char h)
    then none
    else some (host (normalize_host std h) port)

split_host : Std → Str → Option (Str × Str) → Option Target
unfolding host_with all is_digit decimal
split_host std s none = host_with std s 0
split_host std s (some (h, p)) =
    if not (length h == 0) && all is_digit p && not (length p == 0)
    then (if leb (decimal 0 p) 65535 then host_with std h (decimal 0 p) else none)
    else host_with std s 0

as_addr : Std → Str → Option (List ℕ × ℕ) → Option Target
unfolding split_host rsplit_colon
as_addr std s (some (a, port)) = some (ip a port)
as_addr std s none = split_host std s (rsplit_colon s)

as_ip : Std → Str → Option (List ℕ) → Option Target
unfolding as_addr
as_ip std s (some a) = some (ip a 0)
as_ip std s none = as_addr std s (std.parse_addr s)

-- `Ok` of a target; an error's text is left out.
pub parse_target : Std → Str → Option Target
unfolding as_ip contains
parse_target std raw =
    let s = std.trim raw in
    if length s == 0
    then none
    else if contains s (58 ∷ 47 ∷ 47 ∷ []) || contains s (47 ∷ [])
    then none
    else as_ip std s (std.parse_ip s)

-- `strip_prefix("*.")`
pub has_star : Str → Bool
unfolding starts_with
has_star s = starts_with s (42 ∷ 46 ∷ [])

pub parse_source : Std → Str → Option Str
unfolding contains has_star
parse_source std raw =
    let s = normalize_host std raw in
    if length s == 0
    then none
    else if contains s (58 ∷ 47 ∷ 47 ∷ []) || contains s (47 ∷ [])
    then none
    else if contains s (58 ∷ []) && is_none (std.parse_ip s)
    then none
    else if has_star s
    then (if length s == 2 then none else some s)
    else if contains s (42 ∷ [])
    then none
    else some s

abbrev pub Rules : Type 0
Rules = List (Str × Target)

pub record HostTable : Type 0 where
  pub exact : Rules
  pub wildcards : Rules

-- `retain(|(s, _)| *s != key)`
pub without : Rules → Str → Rules
without [] key = []
without ((k, t) ∷ rs) key =
    let rest = without rs key in if bytes_eq k key then rest else (k, t) ∷ rest

-- A source that begins with `*` is a wildcard with the rest as its suffix.
pub add_rule : HostTable → Str → Target → HostTable
add_rule table [] to = record table { exact = ([], to) ∷ without table.exact [] }
add_rule table (c ∷ cs) to =
    if c == 42
    then record table { wildcards = without table.wildcards cs ++ (cs, to) ∷ [] }
    else record table { exact = (c ∷ cs, to) ∷ without table.exact (c ∷ cs) }

-- `sort_by_key` with the longest suffix first, in place where the lengths agree.
pub insert_longest : Str × Target → Rules → Rules
insert_longest r [] = r ∷ []
insert_longest r (k ∷ ks) =
    let rest = insert_longest r ks in if ltb (length r.0) (length k.0) then k ∷ rest else r ∷ k ∷ ks

pub sort_longest : Rules → Rules
sort_longest [] = []
sort_longest (r ∷ rs) = insert_longest r (sort_longest rs)

-- `?`
infixl 5 ◌>>=◌
abbrev ◌>>=◌ : {A B : Type 0} → Option A → (A → Option B) → Option B
◌>>=◌ m f = elim m [ none ↦ none | some a ↦ f a ]

pub parse_rule : Std → HostMapping → Option (Str × Target)
parse_rule std rule = do
  from ← parse_source std rule.from
  to ← parse_target std rule.to
  some (from, to)

-- The loop of `build`.
pub build_on : Std → HostTable → List HostMapping → Option HostTable
build_on std table [] = some table
build_on std table (rule ∷ rules) =
    let skipped = build_on std table rules in
    if not rule.enabled
    then skipped
    else do (from, to) ← parse_rule std rule; build_on std (add_rule table from to) rules

pub build : Std → List HostMapping → Option HostTable
build std rules = do
  table ← build_on std (record { exact = []; wildcards = [] }) rules
  some (record table { wildcards = sort_longest table.wildcards })

pub get : Rules → Str → Option Target
get [] key = none
get ((k, t) ∷ rs) key = let rest = get rs key in if bytes_eq k key then some t else rest

-- `host.ends_with(suffix) && host.len() > suffix.len()`
pub fits : Str → Str → Bool
fits name suffix =
    ltb (length suffix) (length name) && bytes_eq (drop (length name - length suffix) name) suffix

pub find_suffix : Rules → Str → Option (Str × Target)
find_suffix [] name = none
find_suffix ((s, t) ∷ rs) name =
    let rest = find_suffix rs name in if fits name s then some (s, t) else rest

or_target : Option Target → Option (Str × Target) → Option Target
or_target (some t) later = some t
or_target none none = none
or_target none (some (s, t)) = some t

pub lookup : Std → HostTable → Str → Option Target
unfolding or_target
lookup std table name =
    let h = normalize_host std name in or_target (get table.exact h) (find_suffix table.wildcards h)

-- `validate`: whether it is `Ok`
pub validate : Std → List HostMapping → Bool
validate std rules = not (is_none (build std rules))

-- `retain(|g| normalize_host(&g.from) != key)`
pub without_from : Std → List HostMapping → Str → List HostMapping
without_from std [] key = []
without_from std (g ∷ gs) key =
    let rest = without_from std gs key in
    if bytes_eq (normalize_host std g.from) key then rest else g ∷ rest

pub merge_on : Std → List HostMapping → List HostMapping → List HostMapping
merge_on std out [] = out
merge_on std out (r ∷ rs) =
    merge_on std (without_from std out (normalize_host std r.from) ++ r ∷ []) rs

pub merged_rules : Std → List HostMapping → List HostMapping → List HostMapping
merged_rules std global task_rules =
    let merged = merge_on std global task_rules in if length task_rules == 0 then global else merged
