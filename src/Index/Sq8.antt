-- ===== src/Index/Sq8.antt =====
-- `Sq8Data` of src/index_ivf_rq.rs: codes of eight bits between the least and the greatest value of
-- each coordinate. The vectors of an index have one length; on shorter ones, where the source would
-- panic, the model leaves the other coordinates alone.
use vdb_rs.Prelude.{ℕ, List, [], ◌∷◌, length, replicate, map, if◌then◌else◌}
use vdb_rs.Prelude.Float.{Float, flt}
use vdb_rs.Quantizer.{Sq8Data}

module _ {F : Type 0} ⦃fl : Float F⦄ where
  -- `Sq8Data::new`, with the ends that no value has reached yet.
  unfoldable pub Sq8Data_new : ℕ → Sq8Data F
  Sq8Data_new dim = record {
    min = replicate dim fl.max_value;
    max = replicate dim fl.min_value;
    codes = [];
  }

  unfoldable pub lower : List F → List F → List F
  lower [] v = []
  lower (m ∷ ms) [] = m ∷ ms
  lower (m ∷ ms) (x ∷ v) = (if flt x m then x else m) ∷ lower ms v

  unfoldable pub raise : List F → List F → List F
  raise [] v = []
  raise (m ∷ ms) [] = m ∷ ms
  raise (m ∷ ms) (x ∷ v) = (if flt m x then x else m) ∷ raise ms v

  -- The loop over the vectors that finds the two ends of each coordinate.
  unfoldable pub bounds : List (List F) → List F → List F → List F × List F
  unfolding lower raise
  bounds [] lo hi = (lo, hi)
  bounds (v ∷ vs) lo hi = bounds vs (lower lo v) (raise hi v)

  unfoldable pub encode_coordinate : F → F → F → ℕ
  encode_coordinate lo hi x =
      let range = fl.sub hi lo in
      if flt fl.zero_value range
      then fl.to_u8 (fl.round (fl.mul (fl.div (fl.sub x lo) range) (fl.of_ℕ 255)))
      else 0

  unfoldable pub encode_vector : List F → List F → List F → List ℕ
  unfolding encode_coordinate
  encode_vector [] hi v = []
  encode_vector (l ∷ lo) [] v = []
  encode_vector (l ∷ lo) (h ∷ hi) [] = []
  encode_vector (l ∷ lo) (h ∷ hi) (x ∷ v) = encode_coordinate l h x ∷ encode_vector lo hi v

  unfoldable pub Sq8Data_build : List (List F) → Sq8Data F
  unfolding Sq8Data_new bounds encode_vector
  Sq8Data_build [] = Sq8Data_new 0
  Sq8Data_build (first ∷ rest) =
      let dim = length first in
      let ends = bounds (first ∷ rest) (replicate dim fl.max_value) (replicate dim fl.min_value) in
      record {
        min = ends.0;
        max = ends.1;
        codes = map (encode_vector ends.0 ends.1) (first ∷ rest);
      }

  unfoldable pub decode_vector : List F → List F → List ℕ → List F
  decode_vector [] hi code = []
  decode_vector (l ∷ lo) [] code = []
  decode_vector (l ∷ lo) (h ∷ hi) [] = []
  decode_vector (l ∷ lo) (h ∷ hi) (c ∷ code) =
      fl.add l (fl.mul (fl.div (fl.of_ℕ c) (fl.of_ℕ 255)) (fl.sub h l)) ∷ decode_vector lo hi code

  unfoldable pub dequantize : Sq8Data F → List ℕ → List F
  unfolding decode_vector
  dequantize sq8 code = decode_vector sq8.min sq8.max code
