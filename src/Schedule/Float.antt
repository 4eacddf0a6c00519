-- ===== src/Schedule/Float.antt =====
-- The `f64` operations that the rate comparisons of src/schedule.rs use. Floating-point arithmetic is a
-- parameter: the scheduler's safety does not rest on it.
use hydraria.Prelude.{ℕ, Bool}

pub record FloatOps : Type 1 where
  pub Float : Type 0
  -- `n as f64`, and the seconds of a number of nanoseconds
  pub of_u64 : ℕ → Float
  pub as_secs_f64 : ℕ → Float
  pub mul : Float → Float → Float
  pub div : Float → Float → Float
  pub fmax : Float → Float → Float
  pub less : Float → Float → Bool
  -- `total_cmp` is not `Greater`
  pub total_le : Float → Float → Bool
  -- `0.001` and `STRAGGLER_RATIO`
  pub milli : Float
  pub straggler_ratio : Float
