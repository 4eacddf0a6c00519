-- ===== src/Fetch/Pipeline.antt =====
-- src/plugins/mod.rs, `TransformPipeline`, and src/engine.rs, `transform_outgoing`. A transform works in
-- place on a slice, so it keeps the length.
use hydraria.Prelude.{
  ℕ, ◌≡◌, refl, ◌∙◌, ap, List, [], ◌∷◌, Option, none, some, length, arith, ◌==◌, if◌then◌else◌,
}

-- An object that implements `ByteTransform`.
pub record ByteTransform : Type 0 where
  pub transform : ℕ → List ℕ → List ℕ
  pub in_place :
      (merged_offset : ℕ) (bytes : List ℕ) → length (transform merged_offset bytes) ≡ length bytes

-- `apply_reverse`: the last of the stored transforms comes first.
pub apply_reverse : List ByteTransform → ℕ → List ℕ → List ℕ
apply_reverse [] merged_offset bytes = bytes
apply_reverse (t ∷ ts) merged_offset bytes =
    t.transform merged_offset (apply_reverse ts merged_offset bytes)

apply_some : List ByteTransform → ℕ → List ℕ → List ℕ
apply_some ts merged_offset bytes =
    let bytes' = apply_reverse ts merged_offset bytes in if length bytes == 0 then bytes else bytes'

pub transform_outgoing : Option (List ByteTransform) → ℕ → List ℕ → List ℕ
unfolding apply_some
transform_outgoing none merged_offset bytes = bytes
transform_outgoing (some []) merged_offset bytes = bytes
transform_outgoing (some (t ∷ ts)) merged_offset bytes = apply_some (t ∷ ts) merged_offset bytes

-- The sender's order.
pub apply_forward : List ByteTransform → ℕ → List ℕ → List ℕ
apply_forward [] merged_offset bytes = bytes
apply_forward (t ∷ ts) merged_offset bytes =
    apply_forward ts merged_offset (t.transform merged_offset bytes)

-- Transforms that undo themselves.
abbrev pub AllInvolutive : List ByteTransform → Type 0
AllInvolutive [] = Unit {0}
AllInvolutive (t ∷ ts) =
    ((merged_offset : ℕ) (bytes : List ℕ)
      → t.transform merged_offset (t.transform merged_offset bytes) ≡ bytes)
    × AllInvolutive ts

length-apply_reverse :
    (ts : List ByteTransform) (merged_offset : ℕ) (bytes : List ℕ)
    → length (apply_reverse ts merged_offset bytes) ≡ length bytes
unfolding apply_reverse
length-apply_reverse [] merged_offset bytes = refl
length-apply_reverse (t ∷ ts) merged_offset bytes =
    t.in_place merged_offset (apply_reverse ts merged_offset bytes)
    ∙ length-apply_reverse ts merged_offset bytes

pub length-transform_outgoing :
    (pipeline : Option (List ByteTransform)) (merged_offset : ℕ) (bytes : List ℕ)
    → length (transform_outgoing pipeline merged_offset bytes) ≡ length bytes
unfolding transform_outgoing
length-transform_outgoing none merged_offset bytes = refl
length-transform_outgoing (some []) merged_offset bytes = refl
length-transform_outgoing (some (t ∷ ts)) merged_offset bytes =
    ground (arith, length-apply_reverse (t ∷ ts) merged_offset bytes)

-- For transforms that undo themselves, `apply_reverse` gives back the bytes that the sender put
-- through the transforms in their stored order.
pub apply_reverse-apply_forward :
    (ts : List ByteTransform) (merged_offset : ℕ) (bytes : List ℕ)
    → AllInvolutive ts
    → apply_reverse ts merged_offset (apply_forward ts merged_offset bytes) ≡ bytes
unfolding apply_reverse apply_forward
apply_reverse-apply_forward [] merged_offset bytes v = refl
apply_reverse-apply_forward (t ∷ ts) merged_offset bytes v =
    ap (t.transform merged_offset)
      (apply_reverse-apply_forward ts merged_offset (t.transform merged_offset bytes) v.1)
    ∙ v.0 merged_offset bytes
