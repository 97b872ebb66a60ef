-- ===== src/Simd.antt =====
-- src/simd.rs: the dot product, the squared distance and the Hamming distance. The routines for
-- particular processors are intrinsics; the model is the portable code, which they stand in for.
use Prim.Native.Nat.{bit_xor}
use vdb_rs.Prelude.{ℕ, zero, suc, ◌+◌, ◌*◌, ◌/◌, ◌%◌, List, [], ◌∷◌, some, length, take, drop, ◌==◌}
use vdb_rs.Prelude.Float.{Float}
use vdb_rs.Prelude.Bytes.{from_le_bytes}
use vdb_rs.Prelude.Panic.{Panics, ◌>>◌, assert, traverse}

module _ {F : Type 0} ⦃fl : Float F⦄ where
  -- `zip`, `map` and `sum`: the terms are added to the sum from the left.
  unfoldable pub sum_zip : (F → F → F) → F → List F → List F → F
  sum_zip term acc [] b = acc
  sum_zip term acc (x ∷ a) [] = acc
  sum_zip term acc (x ∷ a) (y ∷ b) = sum_zip term (fl.add acc (term x y)) a b

  unfoldable pub dot_product : List F → List F → Panics F
  unfolding sum_zip
  dot_product a b = do assert (length a == length b); some (sum_zip fl.mul fl.zero_value a b)

  abbrev pub squared_difference : F → F → F
  squared_difference x y = let d = fl.sub x y in fl.mul d d

  unfoldable pub l2_distance_squared : List F → List F → Panics F
  unfolding sum_zip
  l2_distance_squared a b = do
    assert (length a == length b)
    some (sum_zip squared_difference fl.zero_value a b)

-- `count_ones` of a word of `w` bits.
unfoldable pub count_ones : ℕ → ℕ → ℕ
count_ones zero x = 0
count_ones (suc w) x = x % 2 + count_ones w (x / 2)

-- The loop over the blocks of eight bytes, each read as a little-endian word.
unfoldable pub hamming_blocks : ℕ → ℕ → List ℕ → List ℕ → ℕ
hamming_blocks zero dist a b = dist
hamming_blocks (suc n) dist a b =
    hamming_blocks n
      (dist + count_ones 64 (bit_xor (from_le_bytes (take 8 a)) (from_le_bytes (take 8 b))))
      (drop 8 a) (drop 8 b)

-- The loop over the bytes that are left.
unfoldable pub hamming_tail : ℕ → List ℕ → List ℕ → ℕ
hamming_tail dist [] b = dist
hamming_tail dist (x ∷ a) [] = dist
hamming_tail dist (x ∷ a) (y ∷ b) = hamming_tail (dist + count_ones 8 (bit_xor x y)) a b

unfoldable pub hamming_distance_fallback : List ℕ → List ℕ → ℕ
unfolding hamming_blocks hamming_tail count_ones from_le_bytes
hamming_distance_fallback a b =
    let chunks = length a / 8 in
    hamming_tail (hamming_blocks chunks 0 a b) (drop (chunks * 8) a) (drop (chunks * 8) b)

unfoldable pub hamming_distance : List ℕ → List ℕ → Panics ℕ
unfolding hamming_distance_fallback
hamming_distance a b = do assert (length a == length b); some (hamming_distance_fallback a b)

-- The results are written to `out`, which has as many places as there are codes.
unfoldable pub batch_hamming_distance : List ℕ → List (List ℕ) → Panics (List ℕ)
unfolding hamming_distance
batch_hamming_distance query codes = traverse (hamming_distance query) codes
