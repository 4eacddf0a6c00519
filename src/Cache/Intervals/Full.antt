-- ===== src/Cache/Intervals/Full.antt =====
-- When `interval_set_covers` marks a block complete.
use hydraria.Prelude.{ℕ, ◌+◌, ◌<◌, ◌≡◌, ◌↔◌, true, false, [], ◌∷◌, arith}
use hydraria.Cache.Intervals.{Intervals, interval_set_covers, covered, IsMinimalIn, IsSlot}

pub covered_below :
    (bound from : ℕ) (xs : Intervals) (x : ℕ)
    → x < from
    → IsMinimalIn from bound xs
    → covered xs x ≡ false
covered_below bound from [] x h m = ground arith
covered_below bound from ((s, e) ∷ rest) x h m = ground (arith, covered_below bound (e + 1) rest x)

complete_of_covered :
    (block_len : ℕ) (xs : Intervals)
    → 0 < block_len
    → IsSlot block_len xs
    → ((x : ℕ) → x < block_len → covered xs x ≡ true)
    → interval_set_covers xs block_len ≡ true
unfolding interval_set_covers
complete_of_covered block_len [] p m all = ground (arith, all 0)
complete_of_covered block_len ((s, e) ∷ []) p m all = ground (arith, all 0, all e)
complete_of_covered block_len ((s, e) ∷ (s', e') ∷ rest) p m all =
    ground (arith, all e, covered_below block_len (e' + 1) rest e)

covered_of_complete :
    (block_len : ℕ) (xs : Intervals) (x : ℕ)
    → interval_set_covers xs block_len ≡ true
    → x < block_len
    → covered xs x ≡ true
unfolding interval_set_covers
covered_of_complete block_len [] x full h = cc
covered_of_complete block_len ((s, e) ∷ []) x full h = ground arith
covered_of_complete block_len ((s, e) ∷ (s', e') ∷ rest) x full h = cc

-- On a minimal list of a block that is not empty, `interval_set_covers` holds exactly when every
-- byte of the block has been written.
pub interval_set_covers_iff :
    (block_len : ℕ) (xs : Intervals)
    → 0 < block_len
    → IsSlot block_len xs
    → (interval_set_covers xs block_len ≡ true) ↔ ((x : ℕ) → x < block_len → covered xs x ≡ true)
interval_set_covers_iff block_len xs p m =
    (λ full x h. covered_of_complete block_len xs x full h, complete_of_covered block_len xs p m)
