-- ===== src/Header/Within.antt =====
-- src/engine.rs and src/routes.rs: the range that is sent lies in the file.
use hydraria.Prelude.{
  ℕ, ◌-◌, ◌≤◌, ◌<◌, ◌≡◌, inl, inr, Option, none, some, min, ltb, wrapping_sub, u64_mod, arith,
  Bool-cases, unwrap_or,
}
use hydraria.Header.{Str, parse_range_header, clip, requested}

-- A range that is sent has a byte, and ends in the file.
abbrev pub IsWithin : ℕ → Option (ℕ × ℕ) → Type 0
IsWithin total none = Unit
IsWithin total (some (s, e)) = (s ≤ e) × (e < total)

clip-IsWithin :
    (total : ℕ)
    → 0 < total
    → total < u64_mod
    → (r : Option (ℕ × Option ℕ)) → IsWithin total (clip total r)
unfolding clip
clip-IsWithin total some_bytes word none = tt
clip-IsWithin total some_bytes word (some (s, e)) =
    let last : wrapping_sub total 1 ≡ total - 1 = omega arith in
    elim (Bool-cases (ltb (min (unwrap_or e (wrapping_sub total 1)) (wrapping_sub total 1)) s)) [
      | inl past ↦ rw past tt
      | inr fits ↦ rw fits (ground arith, ground arith)
    ]

-- For a file with bytes, fewer than 2^64, and with any range header or none, what is sent starts
-- no later than it ends, and ends in the file, or the request is refused.
pub requested-IsWithin :
    (trim : Str → Str) (total : ℕ)
    → 0 < total
    → total < u64_mod
    → (rh : Option Str) → IsWithin total (requested trim total rh)
unfolding requested
requested-IsWithin trim total some_bytes word none = (omega arith, omega arith)
requested-IsWithin trim total some_bytes word (some rh) =
    clip-IsWithin total some_bytes word (parse_range_header trim rh (some total))
