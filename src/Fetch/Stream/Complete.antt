-- ===== src/Fetch/Stream/Complete.antt =====
-- src/engine.rs, `fetch_claim`: a response that brings the bytes, on a disk that takes them.
use hydraria.Prelude.{
  ℕ, ◌+◌, ◌-◌, ◌≤◌, ◌<◌, min, ◌≡◌, ◌⊎◌, refl, Bool, true, List, [], ◌∷◌, length, Option, ltb, leb,
  ◌==◌, wrapping_add, wrapping_sub, u64_mod, Bool-cases, inl, inr, arith, take,
}
use hydraria.Cache.Entry.{Entry}
use hydraria.Cache.Coalescer.Working.{flush-ok, write-ok}
use hydraria.Fetch.Pipeline.{ByteTransform}
use hydraria.Fetch.Stream.{
  Item, received, failed, Round, Fetch, Flow, going, stopped, broken, io, outgoing, advance,
  deliver, carry_on, stream, settle, land, respond,
}

-- The claim ends at `end` in every round, and every item is received.
abbrev pub AllReceived : ℕ → List Round → Type 0
AllReceived end [] = Unit
AllReceived end (r ∷ rs) =
    (r.live_end ≡ end) × ((b : List ℕ) × (r.item ≡ received b)) × AllReceived end rs

item_length : Item → ℕ
item_length (received b) = length b
item_length failed = 0

-- The bytes that the items bring.
unfoldable pub supplied : List Round → ℕ
unfolding item_length
supplied [] = 0
supplied (r ∷ rs) = item_length r.item + supplied rs

module _ {Disk : Type 0} (pwrite_all : Disk → List ℕ → ℕ → Disk × Bool)
    (replace_bitmap : Disk → List ℕ → Disk × Bool) (pipeline : Option (List ByteTransform))
    (transform_on_write : Bool) (end : ℕ) (word : end + 1 < u64_mod)
    (writes : (disk : Disk) (bytes : List ℕ) (at : ℕ) → (pwrite_all disk bytes at).1 ≡ true)
    (replaces : (disk : Disk) (bitmap : List ℕ) → (replace_bitmap disk bitmap).1 ≡ true) where
  -- The loop goes on or has ended as it should.
  IsFine : Flow → Type 0
  IsFine flow = (flow ≡ going) ⊎ (flow ≡ stopped)

  -- What a round leaves: what is missing can still come, or nothing is missing.
  IsOnTheWay : ℕ → Fetch Disk × Flow → Type 0
  IsOnTheWay later (f, going) = (f.cursor ≤ end + 1) × (end + 1 ≤ f.cursor + later)
  IsOnTheWay later (f, stopped) = f.cursor ≡ end + 1
  IsOnTheWay later (f, broken) = ⊥
  IsOnTheWay later (f, io) = ⊥

  deliver-IsOnTheWay :
      (f : Fetch Disk) (b : List ℕ) (below later : ℕ)
      → f.cursor ≤ end + 1
      → end + 1 ≤ f.cursor + (length b + later)
      → IsOnTheWay later
          (deliver pwrite_all replace_bitmap pipeline transform_on_write f (received b) end below)
  unfolding deliver advance IsOnTheWay
  deliver-IsOnTheWay f b below later p q = elim (Bool-cases (length b == 0)) [
    | inl empty ↦ rw empty (p, ground arith)
    | inr some_bytes ↦ simp some_bytes (elim (Bool-cases (ltb end f.cursor)) [
      | inl past ↦ rw past (ground arith)
      | inr open_end ↦
          let n = min (wrapping_add (wrapping_sub end f.cursor) 1) (length b) in
          let room : wrapping_add (wrapping_sub end f.cursor) 1 ≡ end + 1 - f.cursor =
            ground (arith, word) in
          let good =
            write-ok pwrite_all replace_bitmap writes replaces f.writer f.sink f.cursor
              (outgoing pwrite_all replace_bitmap pipeline transform_on_write f.cursor (take n b))
              (leb below f.cursor) in
          let moved : wrapping_add f.cursor n ≡ f.cursor + n = ground (arith, word) in
          simp (open_end, good, moved)
            (elim (Bool-cases (ltb n (length b))) [
              | inl last ↦ simp last (ground (arith, room))
              | inr more ↦ simp more (ground (arith, room))
            ])
    ])
  ]

  IsDelivered : Fetch Disk × Flow → Type 0
  IsDelivered r = (r.0.cursor ≡ end + 1) × IsFine r.1

  carry_on-IsDelivered :
      (next : Fetch Disk → Fetch Disk × Flow) (later : ℕ)
      → ((g : Fetch Disk) → g.cursor ≤ end + 1 → end + 1 ≤ g.cursor + later → IsDelivered (next g))
      → (out : Fetch Disk × Flow) → IsOnTheWay later out
      → IsDelivered (carry_on pwrite_all replace_bitmap pipeline transform_on_write next out)
  unfolding carry_on IsOnTheWay IsDelivered IsFine
  carry_on-IsDelivered next later on (f, going) (p, q) = on f p q
  carry_on-IsDelivered next later on (f, stopped) done = (done, inr refl)
  carry_on-IsDelivered next later on (f, broken) wrong = absurd wrong
  carry_on-IsDelivered next later on (f, io) wrong = absurd wrong

  stream-IsDelivered :
      (rounds : List Round) (f : Fetch Disk)
      → AllReceived end rounds
      → f.cursor ≤ end + 1
      → end + 1 ≤ f.cursor + supplied rounds
      → IsDelivered (stream pwrite_all replace_bitmap pipeline transform_on_write rounds f)
  unfolding stream IsDelivered IsFine supplied item_length
  stream-IsDelivered [] f all p q = (omega arith, inl refl)
  stream-IsDelivered (r ∷ rs) f (same, (b, came), all) p q =
      let q' = rw came at q in
      rw (same, came)
        (carry_on-IsDelivered
          (λ g. stream pwrite_all replace_bitmap pipeline transform_on_write rs g) (supplied rs)
          (λ g p q. stream-IsDelivered rs g all p q) _
          (deliver-IsOnTheWay f b r.write_through_below (supplied rs) p q'))

  land-published :
      (r : Fetch Disk × Flow)
      → IsDelivered r
      → ((land pwrite_all replace_bitmap pipeline transform_on_write r).0.published ≡ end + 1)
        × IsFine (land pwrite_all replace_bitmap pipeline transform_on_write r).1
  unfolding land settle IsDelivered IsFine
  land-published (f, going) (p, q) =
      let good = flush-ok pwrite_all replace_bitmap writes replaces f.writer f.sink in
      simp good (p, q)
  land-published (f, stopped) (p, q) =
      let good = flush-ok pwrite_all replace_bitmap writes replaces f.writer f.sink in
      simp good (p, q)
  land-published (f, broken) (p, inl q) = cc
  land-published (f, broken) (p, inr q) = cc
  land-published (f, io) (p, inl q) = cc
  land-published (f, io) (p, inr q) = cc

  -- On a disk that takes every write, a response whose items are all received and bring the bytes
  -- up to the end of the claim, which stays where it is, moves the cursor behind that end,
  -- without an error.
  pub respond-completes :
      (merged_start reserved : ℕ) (sink : Entry Disk) (rounds : List Round)
      → AllReceived end rounds
      → merged_start ≤ end + 1
      → end + 1 ≤ merged_start + supplied rounds
      → ((respond pwrite_all replace_bitmap pipeline transform_on_write merged_start reserved sink
            rounds).0.published
          ≡ end + 1)
        × (((respond pwrite_all replace_bitmap pipeline transform_on_write merged_start reserved
                sink rounds).1
              ≡ going)
            ⊎ ((respond pwrite_all replace_bitmap pipeline transform_on_write merged_start reserved
                  sink rounds).1
                ≡ stopped))
  unfolding respond IsFine
  respond-completes merged_start reserved sink rounds all p q =
      land-published _ (stream-IsDelivered rounds _ all p q)
