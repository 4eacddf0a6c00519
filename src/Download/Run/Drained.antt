-- ===== src/Download/Run/Drained.antt =====
-- src/download.rs: when, after fair steps, the scheduler has no work left, the file is complete.
use hydraria.Prelude.{
  ℕ, ◌+◌, ◌<◌, ◌≡◌, refl, Bool, true, false, List, Option, [], ◌∷◌, leb, ◌==◌, arith, Bool-cases,
  inl, inr, u64_mod, All,
}
use hydraria.Cache.Entry.{Entry, contiguous_from, present, IsValid}
use hydraria.Cache.Entry.Contiguous.{contiguous_from-IsLongest}
use hydraria.Schedule.Float.{FloatOps}
use hydraria.Schedule.Ranges.{Ranges, listed}
use hydraria.Schedule.State.{Live, Strategy, VolumeMeta, IsLayout, remaining}
use hydraria.Schedule.Owners.{owes, one_if, owners_in, owners, IsPlaced, IsSettled}
use hydraria.Download.{Engine, build_scheduler, is_drained, is_empty, all_delivered, is_complete}
use hydraria.Download.Run.{System, Turns, AllFair}
use hydraria.Download.Run.Built.{built-IsAnswered}
use hydraria.Download.Run.Answered.{Turns-IsAnswered}

is_empty-listed :
    (unclaimed : Ranges) (x : ℕ) → is_empty unclaimed ≡ true → listed unclaimed x ≡ false
unfolding is_empty
is_empty-listed [] x h = refl
is_empty-listed (r ∷ rs) x h = cc

-- A claim with nothing remaining, whose worker is between two writes, owes nothing.
delivered-owes :
    {volumes : Option (List VolumeMeta)} (req_end : ℕ) (l : Live) (x : ℕ)
    → req_end + 1 < u64_mod
    → IsPlaced volumes req_end l
    → IsSettled l
    → (remaining l == 0) ≡ true
    → one_if (owes l x) ≡ 0
unfolding remaining
delivered-owes req_end l x word p settled none_left = ground (arith, p.bounded)

all_delivered-owners_in :
    (volumes : Option (List VolumeMeta)) (req_end : ℕ) (ls : List Live) (x : ℕ)
    → req_end + 1 < u64_mod
    → All (IsPlaced volumes req_end) ls
    → All IsSettled ls
    → all_delivered ls ≡ true
    → owners_in ls x ≡ 0
unfolding all_delivered owners_in
all_delivered-owners_in volumes req_end [] x word p settled h = refl
all_delivered-owners_in volumes req_end (l ∷ ls) x word p settled h =
    let here : (remaining l == 0) ≡ true = ground arith in
    let behind : all_delivered ls ≡ true = ground arith in
    omega (
      arith,
      delivered-owes req_end l x word p.0 settled.0 here,
      all_delivered-owners_in volumes req_end ls x word p.1 settled.1 behind,
    )

-- The test by which a job finds that it is done.
is_complete_of_present :
    {Disk : Type 0} (e : Entry Disk)
    → IsValid e
    → ((x : ℕ) → x < e.meta.total_size → present e x ≡ true)
    → is_complete e e.meta.total_size ≡ true
unfolding is_complete
is_complete_of_present e v all =
    let longest = contiguous_from-IsLongest e 0 e.meta.total_size v in
    let n = contiguous_from e 0 e.meta.total_size in
    elim (Bool-cases (leb e.meta.total_size n)) [
      | inl enough ↦ enough
      | inr short ↦
          let missing = longest.maximal (ground arith) in
          let there = all (0 + n) (ground arith) in cc
    ]

-- For a well-formed entry of a file with bytes and a layout of volumes, let the tasks of a job
-- take steps, in any order, from a scheduler built from what is on disk, and let each step be
-- fair: a worker reserves within its claim, writes within the file and advances over what is on
-- disk; when it finishes, it has no claim, or it stands where it reports on its claim, as a
-- primary whose claim is settled, as a hedge before its end, or as a hedge at its end, with its
-- range on disk, that covers what is left of the primary that it raced; `refocus_on_reader` and
-- `reclaim_stalled` run while every claim is settled. A claim is settled when its worker has
-- delivered what it reserved, or has reserved nothing behind the end of it. When the scheduler is
-- then drained, and every claim is settled, the test by which the job finds that it is done
-- succeeds.
pub Turns-is_complete :
    {Disk : Type 0} (pwrite_all : Disk → List ℕ → ℕ → Disk × Bool)
    (replace_bitmap : Disk → List ℕ → Disk × Bool) (F : FloatOps) (engine : Engine)
    (threads now : ℕ) (strategy : Strategy) (e : Entry Disk) {z : System Disk}
    → IsValid e
    → 0 < e.meta.total_size
    → IsLayout engine.volumes
    → (run : Turns pwrite_all replace_bitmap F engine threads
        (record {
          scheduler = build_scheduler now e engine e.meta.total_size threads strategy;
          entry = e;
        })
        z)
    → AllFair pwrite_all replace_bitmap F engine threads run
    → is_drained z.scheduler ≡ true
    → All IsSettled z.scheduler.live
    → is_complete z.entry z.entry.meta.total_size ≡ true
unfolding is_drained
Turns-is_complete pwrite_all replace_bitmap F engine threads now strategy e {z} v some_bytes layout
      run fair drained settled =
    let a =
      Turns-IsAnswered engine layout e.meta.total_size some_bytes pwrite_all replace_bitmap F
        threads (built-IsAnswered now threads strategy e engine v some_bytes) run fair in
    let no_ranges : is_empty z.scheduler.unclaimed ≡ true = ground arith in
    let no_claims : all_delivered z.scheduler.live ≡ true = ground arith in
    let nobody : (x : ℕ) → owners z.scheduler x ≡ 0 = λ x.
      rw (is_empty-listed z.scheduler.unclaimed x no_ranges) (
        omega (
          arith,
          all_delivered-owners_in z.scheduler.volumes z.scheduler.req_end z.scheduler.live x
              a.sound.word a.sound.placed settled no_claims,
        )) in
    is_complete_of_present z.entry a.valid λ x h. elim (a.answered x (omega (arith, a.size))) [
      | inl there ↦ there
      | inr owned ↦ absurd (omega (arith, nobody x))
    ]
