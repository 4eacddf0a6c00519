-- ===== src/Cache/Coalescer/Stages.antt =====
-- src/cache.rs, `WriteCoalescer`: what each stage of a write keeps of the accepted bytes.
use hydraria.Prelude.{
  ℕ, ◌+◌, ◌≤◌, ◌<◌, ◌≡◌, refl, Bool, true, ◌||◌, List, [], ◌∷◌, ◌++◌, length, leb, ◌==◌, u64_mod,
  arith, Bool-cases, inl, inr,
}
use hydraria.Cache.Intervals.{within}
use hydraria.Cache.Entry.{Entry, write_range, IsValid}
use hydraria.Cache.Entry.Written.{write_range-IsValid}
use hydraria.Cache.Entry.Accepted.{write_range-meta, write_range-written}
use hydraria.Cache.Coalescer.{
  Coalescer, Written, flush, write_through, append, keep, take_in, joins, pending, accepted,
  coalesce_bytes,
}

length-append {ℓ} : {A : Type ℓ} (xs ys : List A) → length (xs ++ ys) ≡ length xs + length ys
length-append [] ys = omega arith
length-append (x ∷ xs) ys = omega (arith, length-append xs ys)

-- A well-formed entry whose buffer lies within the file.
pub record IsReady {Disk : Type 0} (total : ℕ) (w : Written Disk) : Type 0 where
  pub valid : IsValid w.sink
  pub size : w.sink.meta.total_size ≡ total
  pub inside : w.coalescer.start + length w.coalescer.buf ≤ total

-- After an operation: when it returned `Ok`, the accepted bytes are those of `known`.
pub record Accepts {Disk : Type 0} (total : ℕ) (known : ℕ → Bool) (w : Written Disk) : Type 0 where
  pub ready : IsReady total w
  pub knows : w.ok ≡ true → (x : ℕ) → x < total → accepted w x ≡ known x

-- A buffer that joins the new bytes grows by them.
pub take_in_lem :
    (at : ℕ) (content : List ℕ) (c : Coalescer)
    → joins c at ≡ true
    → c.start + length c.buf < u64_mod
    → ((take_in at content c).start + length (take_in at content c).buf ≡ at + length content)
      × ((x : ℕ)
          → pending (take_in at content c) x ≡ within at (at + length content) x || pending c x)
unfolding take_in
take_in_lem at content c joined w =
    let size = length-append c.buf content in (ground (arith, size), λ x. ground (arith, size))

module _ {Disk : Type 0} (pwrite_all : Disk → List ℕ → ℕ → Disk × Bool)
    (replace_bitmap : Disk → List ℕ → Disk × Bool) (total : ℕ) where
  pub flush-Accepts :
      (c : Coalescer) (sink : Entry Disk) (known : ℕ → Bool)
      → Accepts total known (record { sink = sink; coalescer = c; ok = true })
      → Accepts total known (flush pwrite_all replace_bitmap c sink)
  unfolding flush
  flush-Accepts c sink known v = elim (Bool-cases (length c.buf == 0)) [
    | inl empty ↦ rw empty v
    | inr filled ↦
        let fits : c.start + length c.buf ≤ sink.meta.total_size =
          omega (arith, v.ready.size, v.ready.inside) in
        let valid =
          write_range-IsValid pwrite_all replace_bitmap sink c.start c.buf fits v.ready.valid in
        let same = write_range-meta pwrite_all replace_bitmap sink c.start c.buf in
        rw filled (elim (Bool-cases (write_range pwrite_all replace_bitmap sink c.start c.buf).1) [
          | inl good ↦ rw good (record {
            ready = record {
              valid = valid;
              size = rw same v.ready.size;
              inside = omega (arith, v.ready.inside);
            };
            knows = λ ok x h.
                let w =
                  write_range-written pwrite_all replace_bitmap sink c.start c.buf x fits
                    v.ready.valid (omega (arith, v.ready.size)) good in
                rw w (ground (arith, v.knows refl x h));
          })
          | inr bad ↦ simp bad (record {
            ready = record { valid = valid; size = rw same v.ready.size; inside = v.ready.inside };
            knows = λ ok. cc;
          })
        ])
  ]

  pub write_through-Accepts :
      (at : ℕ) (content : List ℕ) (known : ℕ → Bool) (w : Written Disk)
      → at + length content ≤ total
      → Accepts total known w
      → Accepts total
          (λ x. within at (at + length content) x || known x)
          (write_through pwrite_all replace_bitmap at content w)
  unfolding write_through
  write_through-Accepts at content known w p v = elim (Bool-cases w.ok) [
    | inl good ↦
        let fits : at + length content ≤ w.sink.meta.total_size = omega (arith, v.ready.size) in
        let same = write_range-meta pwrite_all replace_bitmap w.sink at content in
        rw good (record {
          ready = record {
            valid =
                write_range-IsValid pwrite_all replace_bitmap w.sink at content fits v.ready.valid;
            size = rw same v.ready.size;
            inside = v.ready.inside;
          };
          knows = λ ok x h.
              let new =
                write_range-written pwrite_all replace_bitmap w.sink at content x fits v.ready.valid
                  (omega (arith, v.ready.size)) ok in
              rw new (ground (arith, v.knows good x h));
        })
    | inr bad ↦ simp bad (record { ready = v.ready; knows = λ ok. cc })
  ]

  keep-Accepts :
      (c : Coalescer) (sink : Entry Disk) (known : ℕ → Bool)
      → Accepts total known (record { sink = sink; coalescer = c; ok = true })
      → Accepts total known (keep pwrite_all replace_bitmap c sink)
  unfolding keep
  keep-Accepts c sink known v = elim (Bool-cases (leb coalesce_bytes (length c.buf))) [
    | inl full ↦ rw full (flush-Accepts c sink known v)
    | inr room ↦ rw room v
  ]

  pub append-Accepts :
      (at : ℕ) (content : List ℕ) (known : ℕ → Bool) (w : Written Disk)
      → at + length content ≤ total
      → (w.ok ≡ true → joins w.coalescer at ≡ true)
      → Accepts total known w
      → Accepts total
          (λ x. within at (at + length content) x || known x)
          (append pwrite_all replace_bitmap at content w)
  unfolding append
  append-Accepts at content known w p joined v = elim (Bool-cases w.ok) [
    | inl good ↦
        let fits = v.ready.valid.geometry.fits in
        let positive = v.ready.valid.geometry.positive in
        let grown =
          take_in_lem at content w.coalescer (joined good)
            (omega (arith, fits, v.ready.size, v.ready.inside)) in
        simp good (
          keep-Accepts (take_in at content w.coalescer) w.sink _ (record {
            ready = record {
              valid = v.ready.valid;
              size = v.ready.size;
              inside = omega (arith, grown.0);
            };
            knows = λ ok x h. ground (arith, grown.1 x, v.knows good x h);
          }))
    | inr bad ↦ simp bad (record { ready = v.ready; knows = λ ok. cc })
  ]

  pub flush-joins :
      (c : Coalescer) (sink : Entry Disk) (at : ℕ)
      → (flush pwrite_all replace_bitmap c sink).ok ≡ true
      → joins (flush pwrite_all replace_bitmap c sink).coalescer at ≡ true
  unfolding flush
  flush-joins c sink at ok = elim (Bool-cases (length c.buf == 0)) [
    | inl empty ↦ simp empty (ground arith)
    | inr filled ↦
        let good : (write_range pwrite_all replace_bitmap sink c.start c.buf).1 ≡ true =
          simp filled at ok in
        simp (filled, good) refl
  ]
