-- ===== src/Prelude/Wire.antt =====
-- 32-bit floats as little-endian words.
use vdb_rs.Prelude.{
  ℕ, zero, suc, ◌*◌, ◌^◌, ◌<◌, ◌≡◌, refl, List, [], ◌∷◌, ◌++◌, length, take, drop, arith,
  length-append, take-append, drop-append,
}
use vdb_rs.Prelude.Bytes.{to_le_bytes, from_le_bytes, length-to_le_bytes, from_le_bytes-to_le_bytes}

-- `f32::to_bits` and `f32::from_bits`, which lose nothing.
pub record Wire (F : Type 0) : Type 0 where
  pub to_bits : F → ℕ
  pub from_bits : ℕ → F
  pub to_bits-lt : (x : F) → to_bits x < 2 ^ 32
  pub from_bits-to_bits : (x : F) → from_bits (to_bits x) ≡ x

module _ {F : Type 0} (wire : Wire F) where
  -- `chunks_exact(4)`
  unfoldable pub read_words : ℕ → List ℕ → List F
  read_words zero bytes = []
  read_words (suc n) bytes =
      wire.from_bits (from_le_bytes (take 4 bytes)) ∷ read_words n (drop 4 bytes)

  unfoldable pub f32_bytes : List F → List ℕ
  f32_bytes [] = []
  f32_bytes (x ∷ xs) = to_le_bytes 4 (wire.to_bits x) ++ f32_bytes xs

  pub length-f32_bytes : (xs : List F) → length (f32_bytes xs) ≡ length xs * 4
  unfolding f32_bytes
  length-f32_bytes [] = refl
  length-f32_bytes (x ∷ xs) = omega (
    arith,
    length-append (to_le_bytes 4 (wire.to_bits x)) (f32_bytes xs),
    length-to_le_bytes 4 (wire.to_bits x),
    length-f32_bytes xs,
  )

  pub read_words-f32_bytes : (xs : List F) → read_words (length xs) (f32_bytes xs) ≡ xs
  unfolding f32_bytes read_words
  read_words-f32_bytes [] = refl
  read_words-f32_bytes (x ∷ xs) =
      let bytes = to_le_bytes 4 (wire.to_bits x) in
      let four = length-to_le_bytes 4 (wire.to_bits x) in
      rw
        (
          take-append 4 bytes (f32_bytes xs) four,
          drop-append 4 bytes (f32_bytes xs) four,
          from_le_bytes-to_le_bytes 4 (wire.to_bits x) (wire.to_bits-lt x),
          wire.from_bits-to_bits x,
          read_words-f32_bytes xs,
        )
        refl
