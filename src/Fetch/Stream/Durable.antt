-- ===== src/Fetch/Stream/Durable.antt =====
-- src/engine.rs, `fetch_claim`: a published byte is on disk.
use hydraria.Prelude.{
  ℕ, ◌≤◌, ◌<◌, ◌≡◌, refl, ◌∙◌, Bool, ◌||◌, List, [], Option, arith, Bool-cases, inl, inr, u64_mod,
  ◌⊎◌,
}
use hydraria.Cache.Intervals.{within}
use hydraria.Cache.Entry.{Entry, present, IsValid}
use hydraria.Cache.Coalescer.{flush, pending}
use hydraria.Cache.Coalescer.Stages.{flush-Accepts}
use hydraria.Cache.Coalescer.Durable.{flush-durable}
use hydraria.Fetch.Pipeline.{ByteTransform}
use hydraria.Fetch.Stream.{Round, Fetch, Flow, going, stopped, broken, io, settle, land, respond}
use hydraria.Fetch.Stream.Items.{IsFetching, AllInside, IsServed, stream-IsServed}

-- After the last flush: what was received from `origin` on is on disk, and nothing else has changed.
pub record IsLanded {Disk : Type 0} (total origin : ℕ) (before : Entry Disk) (f : Fetch Disk)
    : Type 0 where
  pub valid : IsValid f.sink
  pub size : f.sink.meta.total_size ≡ total
  pub forward : origin ≤ f.cursor
  pub inside : f.cursor ≤ total
  pub published : f.published ≡ f.cursor
  pub committed : f.reserved ≤ f.published
  pub known : (x : ℕ) → x < total → present f.sink x ≡ within origin f.cursor x || present before x

module _ {Disk : Type 0} (pwrite_all : Disk → List ℕ → ℕ → Disk × Bool)
    (replace_bitmap : Disk → List ℕ → Disk × Bool) (pipeline : Option (List ByteTransform))
    (transform_on_write : Bool) (total : ℕ) (word : total < u64_mod) (origin : ℕ)
    (before : Entry Disk) where
  settle-IsLanded :
      (f : Fetch Disk) (flow : Flow)
      → IsFetching total origin before f
      → ((settle pwrite_all replace_bitmap pipeline transform_on_write f flow
            (flush pwrite_all replace_bitmap f.writer f.sink)).1
          ≡ io)
        ⊎ IsLanded total origin before
            (settle pwrite_all replace_bitmap pipeline transform_on_write f flow
              (flush pwrite_all replace_bitmap f.writer f.sink)).0
  unfolding settle
  settle-IsLanded f flow v =
      let w = flush pwrite_all replace_bitmap f.writer f.sink in
      let clean =
        flush-Accepts pwrite_all replace_bitmap total f.writer f.sink
          (λ x. pending f.writer x || present f.sink x)
          (record { ready = v.ready; knows = λ ok x h. refl }) in
      elim (Bool-cases w.ok) [
        | inr bad ↦ rw bad (inl refl)
        | inl good ↦ simp good (
            inr (record {
              valid = clean.ready.valid;
              size = clean.ready.size;
              forward = v.forward;
              inside = v.inside;
              published = refl;
              committed = omega (arith, v.committed);
              known = λ x h.
                  (flush-durable pwrite_all replace_bitmap total f.writer f.sink x v.ready h good).1
                  ∙ v.known x h;
            }))
      ]

  land-IsLanded :
      (r : Fetch Disk × Flow)
      → IsServed pwrite_all replace_bitmap pipeline transform_on_write total word origin before r
      → ((land pwrite_all replace_bitmap pipeline transform_on_write r).1 ≡ io)
        ⊎ IsLanded total origin before
            (land pwrite_all replace_bitmap pipeline transform_on_write r).0
  unfolding land
  land-IsLanded (f, io) v = inl refl
  land-IsLanded (f, broken) (inl wrong) = cc
  land-IsLanded (f, stopped) (inl wrong) = cc
  land-IsLanded (f, going) (inl wrong) = cc
  land-IsLanded (f, broken) (inr v) = settle-IsLanded f broken v
  land-IsLanded (f, stopped) (inr v) = settle-IsLanded f stopped v
  land-IsLanded (f, going) (inr v) = settle-IsLanded f going v

  -- A response leaves every byte up to the published cursor on disk, or it ends with an I/O error.
  pub respond-IsLanded :
      (reserved : ℕ) (rounds : List Round)
      → IsValid before
      → before.meta.total_size ≡ total
      → origin ≤ total
      → reserved ≤ origin
      → AllInside total rounds
      → ((respond pwrite_all replace_bitmap pipeline transform_on_write origin reserved before
            rounds).1
          ≡ io)
        ⊎ IsLanded total origin before
            (respond pwrite_all replace_bitmap pipeline transform_on_write origin reserved before
              rounds).0
  unfolding respond
  respond-IsLanded reserved rounds valid size p settled inside = land-IsLanded _ (
      stream-IsServed pwrite_all replace_bitmap pipeline transform_on_write total word origin before
        rounds
        (record {
          cursor = origin;
          writer = record { start = 0; buf = [] };
          sink = before;
          published = origin;
          reserved = reserved;
        })
        inside
        (record {
          ready = record { valid = valid; size = size; inside = omega arith };
          forward = omega arith;
          inside = p;
          ends = inl refl;
          mark = omega arith;
          committed = settled;
          known = λ x h. ground arith;
        }))
