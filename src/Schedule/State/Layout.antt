-- ===== src/Schedule/State/Layout.antt =====
-- src/schedule.rs, `volume_end`: volumes that follow one another make a layout.
use hydraria.Prelude.{
  ℕ, ◌+◌, ◌-◌, ◌≤◌, ◌<◌, ◌≡◌, refl, true, false, ◌&&◌, List, [], ◌∷◌, none, some, ltb, leb, u64_mod,
  arith, Bool-cases, inl, inr, wrapping_add, wrapping_sub,
}
use hydraria.Schedule.State.{VolumeMeta, holds, end_from, volume_end, IsLayout}

-- Volumes, each at the end of the one before, within 64 bits.
abbrev pub IsConsecutive : ℕ → List VolumeMeta → Type 0
IsConsecutive from [] = Unit {0}
IsConsecutive from (v ∷ vs) =
    (v.offset ≡ from) × (from + v.size < u64_mod) × IsConsecutive (from + v.size) vs

module _ (from : ℕ) (v : VolumeMeta) (at : v.offset ≡ from) (w : from + v.size < u64_mod)
    (x : ℕ) where
  holds_lem : holds v x ≡ leb from x && ltb x (from + v.size)
  unfolding holds
  holds_lem = ground arith

  last_lem : holds v x ≡ true → wrapping_sub (wrapping_add v.offset v.size) 1 ≡ from + v.size - 1
  unfolding holds
  last_lem inside = ground arith

end_from-same :
    (from : ℕ) (vs : List VolumeMeta) (x y : ℕ) {last : ℕ}
    → IsConsecutive from vs
    → end_from vs x ≡ some last
    → x ≤ y
    → y ≤ last
    → from ≤ x × (end_from vs y ≡ some last)
unfolding end_from
end_from-same from [] x y c e p q = cc
end_from-same from (v ∷ vs) x y {last} c e p q =
    let here = holds_lem from v c.0 c.1 x in
    let there = holds_lem from v c.0 c.1 y in
    let stop = last_lem from v c.0 c.1 x in
    elim (Bool-cases (holds v x)) [
      | inl inside ↦
          let same : wrapping_sub (wrapping_add v.offset v.size) 1 ≡ last =
            let e' = rw inside at e in cc in
          let also : holds v y ≡ true = rw there (ground (arith, here, stop, same)) in
          (ground arith, rw (also, same) refl)
      | inr outside ↦
          let (later, ih) = end_from-same (from + v.size) vs x y c.2 (rw outside at e) p q in
          let also : holds v y ≡ false = rw there (ground arith) in (omega arith, rw also ih)
    ]

end_from-none :
    (from : ℕ) (vs : List VolumeMeta) (x y : ℕ)
    → IsConsecutive from vs
    → from ≤ x
    → end_from vs x ≡ none
    → x ≤ y
    → end_from vs y ≡ none
unfolding end_from
end_from-none from [] x y c b e p = refl
end_from-none from (v ∷ vs) x y c b e p =
    let here = holds_lem from v c.0 c.1 x in
    let there = holds_lem from v c.0 c.1 y in
    elim (Bool-cases (holds v x)) [
      | inl inside ↦ let e' = rw inside at e in cc
      | inr outside ↦
          let also : holds v y ≡ false = rw there (ground (arith, here)) in
          rw also
            (end_from-none (from + v.size) vs x y c.2 (ground (arith, here)) (rw outside at e) p)
    ]

-- Volumes that start at the first byte and follow one another within 64 bits have ends that
-- agree: two bytes of one volume have the same end, and behind a byte of no volume there is none.
pub consecutive-IsLayout : (vs : List VolumeMeta) → IsConsecutive 0 vs → IsLayout (some vs)
unfolding volume_end
consecutive-IsLayout vs c = record {
  same_end = λ x y e p q. (end_from-same 0 vs x y c e p q).1;
  none_behind = λ x y e p. end_from-none 0 vs x y c (omega arith) e p;
}
