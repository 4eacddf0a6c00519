-- ===== src/Schedule/Owners.antt =====
-- Who answers for a byte: the list of unclaimed ranges, or a live claim that is no hedge.
pub mod Counting
pub mod Taking
pub mod Stealing
pub mod Claiming
pub mod Removing
pub mod Finishing
pub mod Rounds
pub mod Sweeping
pub mod Winning
pub mod Stranding
use hydraria.Prelude.{
  ℕ, ◌+◌, ◌≤◌, ◌<◌, ◌≡◌, ◌⊎◌, Bool, true, ◌&&◌, ◌||◌, List, [], ◌∷◌, Option, some, ltb, leb,
  if◌then◌else◌, u64_mod, All,
}
use hydraria.Schedule.Ranges.{listed, IsSortedIn}
use hydraria.Schedule.State.{Scheduler, Live, VolumeMeta, is_primary, volume_end}

-- A claim owes the bytes from its cursor to its end, and those that its worker has reserved.
abbrev pub owes : Live → ℕ → Bool
owes l x = is_primary l && leb l.cursor x && (leb x l.end || ltb x l.reserved)

abbrev pub one_if : Bool → ℕ
one_if b = if b then 1 else 0

unfoldable pub owners_in : List Live → ℕ → ℕ
owners_in [] x = 0
owners_in (l ∷ ls) x = one_if (owes l x) + owners_in ls x

abbrev pub owners : Scheduler → ℕ → ℕ
owners s x = one_if (listed s.unclaimed x) + owners_in s.live x

-- A claim of the request whose range lies in one volume.
pub record IsPlaced (volumes : Option (List VolumeMeta)) (req_end : ℕ) (l : Live) : Type 0 where
  pub begun : l.start ≤ l.cursor
  pub bounded : l.end ≤ req_end
  pub one_volume :
      is_primary l ≡ true
      → (x : ℕ) {last : ℕ} → l.start ≤ x
      → x ≤ l.end
      → volume_end volumes x ≡ some last
      → l.end ≤ last

pub record IsSound (s : Scheduler) : Type 0 where
  pub word : s.req_end + 1 < u64_mod
  pub sorted : IsSortedIn 0 s.req_end s.unclaimed
  pub placed : All (IsPlaced s.volumes s.req_end) s.live

-- No byte has two owners.
abbrev pub IsExclusive : Scheduler → Type 0
IsExclusive s = (x : ℕ) → owners s x ≤ 1

-- A worker that is between two writes: it has delivered what it reserved, or reserved nothing
-- behind its end.
abbrev pub IsSettled : Live → Type 0
IsSettled l = (l.reserved ≤ l.end + 1) ⊎ (l.reserved ≤ l.cursor)
