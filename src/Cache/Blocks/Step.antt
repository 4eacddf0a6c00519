-- ===== src/Cache/Blocks/Step.antt =====
-- src/cache.rs, `write_range`: what one round of its loop does to the blocks.
use mathlib.Core.Path.{subst}
use native.Mathlib.Decide.{ℕ_discrete}
use hydraria.Prelude.{
  ℕ, zero, suc, ◌+◌, ◌-◌, ◌*◌, ◌%◌, ◌≤◌, ◌<◌, min, ◌≡◌, ◌≢◌, refl, sym, ◌∙◌, inl, inr, true, false,
  ◌||◌, List, [], ◌∷◌, some, length, get_elem?, set, length-set, get_elem?-set_self,
  get_elem?-set_ne, Bool-cases, arith,
}
use hydraria.Cache.Bitmap.{has_block}
use hydraria.Cache.Bitmap.Laws.{has_block-mark_block, mark_block-IsBytes, length-mark_block}
use hydraria.Cache.Intervals.{
  Intervals, merge_interval, interval_set_covers, covered, within, IsSlot,
}
use hydraria.Cache.Intervals.Merge.{merge_interval-covered, merge_interval-IsSlot}
use hydraria.Cache.Intervals.Full.{interval_set_covers_iff}
use hydraria.Cache.Blocks.{
  Marks, block_len, complete_slot, mark_slot, mark_step, holds_at, size_of_block, IsGeometry,
  IsMarked, u32_mod,
}
use hydraria.Cache.Blocks.Geometry.{block_len_lem, nonempty_in, lo_in_lem, hi_in_lem}

get_elem?-some {ℓ} :
    {A : Type ℓ} (xs : List A) (i : ℕ) → i < length xs → (a : A) × (get_elem? xs i ≡ some a)
get_elem?-some [] i h = absurd (omega arith)
get_elem?-some (x ∷ xs) zero h = (x, refl)
get_elem?-some (x ∷ xs) (suc i) h = get_elem?-some xs i (omega arith)

module _ {total bs : ℕ} (g : IsGeometry total bs) (start end b : ℕ) (inside : b * bs < total) where
  block_len_32 : block_len total bs b % u32_mod ≡ size_of_block total bs b
  block_len_32 = omega (arith, block_len_lem g b inside, g.small)

  -- A slot that replaces the old one, its block being marked when it is full.
  module _ (m : Marks) (v : IsMarked total bs m) (slot : Intervals)
      (ok : IsSlot (size_of_block total bs b) slot) where
    complete_slot-holds_far :
        (b' r : ℕ)
        → b ≢ b'
        → holds_at (complete_slot total bs start end b m slot) b' r ≡ holds_at m b' r
    unfolding complete_slot holds_at
    complete_slot-holds_far b' r far = ground (
      arith,
      has_block-mark_block m.bitmap b b' v.bytes (v.roomy b inside),
      get_elem?-set_ne m.partial {i = b} {j = b'} [] far,
      get_elem?-set_ne m.partial {i = b} {j = b'} slot far,
    )

    complete_slot-holds_near :
        (r : ℕ)
        → has_block m.bitmap b ≡ false
        → r < size_of_block total bs b
        → holds_at (complete_slot total bs start end b m slot) b r ≡ covered slot r
    unfolding complete_slot holds_at
    complete_slot-holds_near r clear h =
        let size = size_of_block total bs b in
        rw block_len_32 (elim (Bool-cases (interval_set_covers slot size)) [
          | inl full ↦ rw full (
              ground (
                arith,
                has_block-mark_block m.bitmap b b v.bytes (v.roomy b inside),
                (interval_set_covers_iff size slot (omega arith) ok).0 full r h,
              ))
          | inr part ↦ rw (part, clear, get_elem?-set_self m.partial b slot (v.slots b inside)) refl
        ])

    complete_slot-IsMarked : IsMarked total bs (complete_slot total bs start end b m slot)
    unfolding complete_slot
    complete_slot-IsMarked =
        elim (Bool-cases (interval_set_covers slot (block_len total bs b % u32_mod))) [
          | inl full ↦ rw full (record {
            bytes = mark_block-IsBytes m.bitmap b v.bytes;
            roomy = λ c h. rw (length-mark_block m.bitmap b) (v.roomy c h);
            slots = λ c h. rw (length-set m.partial b []) (v.slots c h);
            minimal = set_minimal [] tt;
          })
          | inr part ↦ rw part (record {
            bytes = v.bytes;
            roomy = v.roomy;
            slots = λ c h. rw (length-set m.partial b slot) (v.slots c h);
            minimal = set_minimal slot ok;
          })
        ]
      where
        set_minimal :
            (new : Intervals)
            → IsSlot (size_of_block total bs b) new
            → (c : ℕ) (s : Intervals) → c * bs < total
            → get_elem? (set m.partial b new) c ≡ some s
            → IsSlot (size_of_block total bs c) s
        set_minimal new k c s h e = elim (ℕ_discrete b c) [
          | yes p ↦
              subst
                (λ d.
                  get_elem? (set m.partial b new) d ≡ some s → IsSlot (size_of_block total bs d) s)
                p
                (λ e'.
                  subst (λ t. IsSlot (size_of_block total bs b) t)
                    (let q : new ≡ s =
                        cc (get_elem?-set_self m.partial b new (v.slots b inside), e') in
                      q)
                    k)
                e
          | no p ↦ v.minimal c s h (sym (get_elem?-set_ne m.partial new p) ∙ e)
        ]

  -- One round, for a block that the write reaches.
  module _ (low : start ≤ b * bs + bs - 1) (high : b * bs ≤ end) (ordered : start ≤ end)
      (e_in : end < total) (m : Marks) (v : IsMarked total bs m) where
    slot_at : (slot : Intervals) × (get_elem? m.partial b ≡ some slot)
    slot_at = get_elem?-some m.partial b (v.slots b inside)

    grown : Intervals
    grown =
        merge_interval slot_at.0 (start - b * bs)
          (min (end + 1 - b * bs) (size_of_block total bs b))

    grown-IsSlot : IsSlot (size_of_block total bs b) grown
    unfolding grown
    grown-IsSlot =
        merge_interval-IsSlot (size_of_block total bs b) slot_at.0 _ _ (omega arith)
          (v.minimal b slot_at.0 inside slot_at.1)

    mark_step-clear :
        has_block m.bitmap b ≡ false
        → mark_step total bs start end b m ≡ complete_slot total bs start end b m grown
    unfolding mark_step mark_slot grown
    mark_step-clear clear =
        rw
          (
            clear,
            slot_at.1,
            lo_in_lem g b inside start end low high ordered e_in,
            hi_in_lem g b inside start end low high ordered e_in,
          )
          (ground (arith, v.roomy b inside, nonempty_in g b inside start end low high ordered e_in))

    mark_step-set : has_block m.bitmap b ≡ true → mark_step total bs start end b m ≡ m
    unfolding mark_step
    mark_step-set full = ground arith

    pub mark_step-IsMarked : IsMarked total bs (mark_step total bs start end b m)
    mark_step-IsMarked = elim (Bool-cases (has_block m.bitmap b)) [
      | inl full ↦ rw (mark_step-set full) v
      | inr clear ↦ rw (mark_step-clear clear) (complete_slot-IsMarked m v grown grown-IsSlot)
    ]

    grown-covered :
        (r : ℕ)
        → r < size_of_block total bs b
        → covered grown r ≡ within start (end + 1) (b * bs + r) || covered slot_at.0 r
    unfolding grown
    grown-covered r h = ground (
      arith,
      merge_interval-covered (size_of_block total bs b) slot_at.0 (start - b * bs)
          (min (end + 1 - b * bs) (size_of_block total bs b)) r
          (v.minimal b slot_at.0 inside slot_at.1),
    )

    pub mark_step-holds_near :
        (r : ℕ)
        → r < size_of_block total bs b
        → holds_at (mark_step total bs start end b m) b r
          ≡ within start (end + 1) (b * bs + r) || holds_at m b r
    mark_step-holds_near r h = elim (Bool-cases (has_block m.bitmap b)) [
      | inl full ↦ rw (mark_step-set full) (unfold holds_at in ground arith)
      | inr clear ↦
          rw
            (
              mark_step-clear clear,
              complete_slot-holds_near m v grown grown-IsSlot r clear h,
              grown-covered r h,
            )
            (unfold holds_at in rw (clear, slot_at.1) refl)
    ]

    pub mark_step-holds_far :
        (b' r : ℕ) → b ≢ b' → holds_at (mark_step total bs start end b m) b' r ≡ holds_at m b' r
    mark_step-holds_far b' r far = elim (Bool-cases (has_block m.bitmap b)) [
      | inl full ↦ rw (mark_step-set full) refl
      | inr clear ↦
          rw (mark_step-clear clear) (complete_slot-holds_far m v grown grown-IsSlot b' r far)
    ]
