-- ===== src/Quantizer.antt =====
-- `RabitqConfig`, `RabitqCode`, `QueryQuantizedCode`, `RabitqQuantizer` and `Sq8Data` of
-- src/index_ivf_rq.rs. The dimension is a multiple of 64, as `RabitqConfig::new` demands, so that
-- every write to the packed bits is in range; beyond the range, where the source would panic, the
-- model writes nothing.
use Prim.Native.Nat.{bit_or}
use vdb_rs.Prelude.{
  ℕ, zero, suc, ◌-◌, ◌*◌, ◌/◌, ◌%◌, ◌^◌, min, Bool, ◌&&◌, ◌||◌, List, [], ◌∷◌, none, some, length,
  take, drop, set, replicate, get_elem?, if◌then◌else◌, leb, ◌==◌,
}
use vdb_rs.Prelude.Float.{Float, flt, fle}
use vdb_rs.Prelude.Panic.{Panics, ◌>>=◌, ◌>>◌, assert}
use vdb_rs.Simd.{hamming_distance}

pub record RabitqConfig (F : Type 0) : Type 0 where
  pub dim : ℕ
  pub num_bits : ℕ
  pub epsilon_0 : F

pub record RabitqCode (F : Type 0) : Type 0 where
  pub bits : List ℕ
  pub alpha : F
  pub beta : F

pub record QueryQuantizedCode (F : Type 0) : Type 0 where
  pub bits : List ℕ
  pub alpha : F
  pub scale : F
  pub quantized : List ℕ
  pub bq : ℕ
  pub total_sum : F

pub record RabitqQuantizer (F : Type 0) : Type 0 where
  pub config : RabitqConfig F
  pub rotation : List F

pub record Sq8Data (F : Type 0) : Type 0 where
  pub min : List F
  pub max : List F
  pub codes : List (List ℕ)

-- `bits[d / 8] |= 1 << (d % 8)`.
unfoldable pub set_bit : List ℕ → ℕ → List ℕ
set_bit bits d = elim (get_elem? bits (d / 8)) [
  | none ↦ bits
  | some byte ↦ set bits (d / 8) (bit_or byte (2 ^ (d % 8)))
]

-- The test of `encode_query_quantized`: 1, 2, 4 or 8 bits.
unfoldable pub allowed_bits : ℕ → Bool
allowed_bits bq = leb 1 bq && leb bq 8 && 8 % bq == 0

module _ {F : Type 0} ⦃fl : Float F⦄ where
  -- The literal 1.9 is the value nearest to 19 / 10, which is what the division returns.
  unfoldable pub RabitqConfig_new : ℕ → Panics (RabitqConfig F)
  RabitqConfig_new dim = do
    assert (dim % 64 == 0)
    some (record { dim = dim; num_bits = 4; epsilon_0 = fl.div (fl.of_ℕ 19) (fl.of_ℕ 10) })

  -- The sum of the images, from the left.
  unfoldable pub sum_map : (F → F) → F → List F → F
  sum_map f acc [] = acc
  sum_map f acc (x ∷ xs) = sum_map f (fl.add acc (f x)) xs

  abbrev pub norm_squared : List F → F
  norm_squared v = sum_map (λ x. fl.mul x x) fl.zero_value v

  -- One row of the matrix times the vector, and the rows in order.
  unfoldable pub row_sum : List F → List F → F → F
  row_sum row [] acc = acc
  row_sum [] (x ∷ v) acc = acc
  row_sum (r ∷ row) (x ∷ v) acc = row_sum row v (fl.add acc (fl.mul r x))

  unfoldable pub rotate_rows : ℕ → ℕ → List F → List F → List F
  unfolding row_sum
  rotate_rows zero dim rotation v = []
  rotate_rows (suc n) dim rotation v =
      row_sum rotation v fl.zero_value ∷ rotate_rows n dim (drop dim rotation) v

  unfoldable pub apply_rotation : List F → List F → List F
  unfolding rotate_rows
  apply_rotation rotation v = rotate_rows (length v) (length v) rotation v

  unfoldable pub rotate_vector : RabitqQuantizer F → List F → Panics (List F)
  unfolding apply_rotation
  rotate_vector q v = do assert (length v == q.config.dim); some (apply_rotation q.rotation v)

  -- The loop that sets the bit of every coordinate that is at least zero.
  unfoldable pub sign_bits : ℕ → List F → List ℕ → List ℕ
  unfolding set_bit
  sign_bits d [] bits = bits
  sign_bits d (v ∷ vs) bits =
      sign_bits (suc d) vs (if fle fl.zero_value v then set_bit bits d else bits)

  unfoldable pub encode_rotated : RabitqQuantizer F → List F → RabitqCode F
  unfolding sign_bits sum_map
  encode_rotated q rotated =
      let dim = q.config.dim in
      let norm_sq = norm_squared rotated in
      let scale = fl.add (fl.sqrt norm_sq) q.config.epsilon_0 in
      record {
        bits = sign_bits 0 (take dim rotated) (replicate (dim / 8) 0);
        alpha = norm_sq;
        beta = fl.div (sum_map fl.abs fl.zero_value rotated) scale;
      }

  unfoldable pub encode : RabitqQuantizer F → List F → Panics (RabitqCode F)
  unfolding encode_rotated apply_rotation
  encode q v = do
    assert (length v == q.config.dim)
    some (encode_rotated q (apply_rotation q.rotation v))

  unfoldable pub encode_query_from_rotated : RabitqQuantizer F → List F → Panics (RabitqCode F)
  unfolding encode_rotated
  encode_query_from_rotated q rotated = do
    assert (length rotated == q.config.dim)
    some (encode_rotated q rotated)

  -- The distance from the Hamming distance of two codes, `estimate_distance_from_hamming` of
  -- src/search.rs and the end of `estimate_distance_sq_raw`.
  unfoldable pub estimate_distance_from_hamming : ℕ → RabitqCode F → RabitqCode F → ℕ → F
  estimate_distance_from_hamming dim query code hamming =
      let dim_f = fl.of_ℕ dim in
      let s_xy = fl.sub dim_f (fl.mul (fl.of_ℕ 2) (fl.of_ℕ hamming)) in
      let dot = fl.div (fl.mul (fl.mul query.beta code.beta) s_xy) dim_f in
      fl.sub (fl.add query.alpha code.alpha) (fl.mul (fl.of_ℕ 2) dot)

  unfoldable pub estimate_distance_sq : RabitqQuantizer F → RabitqCode F → RabitqCode F → Panics F
  estimate_distance_sq q query code = do
    hamming ← hamming_distance query.bits code.bits
    some (estimate_distance_from_hamming q.config.dim query code hamming)

  unfoldable pub max_abs : F → List F → F
  max_abs acc [] = acc
  max_abs acc (v ∷ vs) =
      max_abs (if fl.is_nan (fl.abs v) || flt (fl.abs v) acc then acc else fl.abs v) vs

  -- The level of one coordinate.
  unfoldable pub quantize_level : F → F → F → ℕ
  quantize_level top levels v =
      if flt fl.zero_value top
      then min (fl.to_u8 (fl.round (fl.mul (fl.div (fl.abs v) top) levels))) (fl.to_u8 levels)
      else 0

  -- The loop that packs the levels, `bq` bits for each coordinate, and adds them up.
  unfoldable pub pack_levels : ℕ → F → F → ℕ → List F → List ℕ → F → List ℕ × F
  unfolding quantize_level
  pack_levels bq top levels d [] packed total = (packed, total)
  pack_levels bq top levels d (v ∷ vs) packed total =
      let val = quantize_level top levels v in
      let per_byte = 8 / bq in
      let byte_idx = d / per_byte in
      let shifted = val * 2 ^ ((d % per_byte) * bq) % 256 in
      pack_levels bq top levels (suc d) vs
        (elim (get_elem? packed byte_idx) [
          | none ↦ packed
          | some byte ↦ set packed byte_idx (bit_or byte shifted)
        ])
        (fl.add total (fl.of_ℕ val))

  unfoldable pub encode_query_quantized :
      RabitqQuantizer F → List F → ℕ → Panics (QueryQuantizedCode F)
  unfolding allowed_bits max_abs pack_levels sign_bits apply_rotation sum_map
  encode_query_quantized q v bq = do
    assert (allowed_bits bq)
    let dim = q.config.dim
    let rotated = apply_rotation q.rotation v
    let top = max_abs fl.zero_value rotated
    let levels = fl.of_ℕ (2 ^ bq - 1)
    let bytes_needed = dim / (8 / bq)
    let packing =
        pack_levels bq top levels 0 (take dim rotated) (replicate bytes_needed 0) fl.zero_value
    some (record {
      bits = sign_bits 0 (take dim rotated) (replicate (dim / 8) 0);
      alpha = norm_squared rotated;
      scale = if flt fl.zero_value top then fl.div top levels else fl.of_ℕ 1;
      quantized = packing.0;
      bq = bq;
      total_sum = packing.1;
    })

  -- `QueryQuantizedCode::value`.
  unfoldable pub value : QueryQuantizedCode F → ℕ → Panics ℕ
  value code d = do
    let per_byte = 8 / code.bq
    byte ← get_elem? code.quantized (d / per_byte)
    some (byte / 2 ^ ((d % per_byte) * code.bq) % 2 ^ code.bq)
