-- ===== src/Tests/Scans.antt =====
-- A partition and indexes for the theorems on src/search.rs and src/index_ivf_rq.rs.
use mathlib.Core.List.{Permᴰ}
use vdb_rs.Prelude.Sort.{IsSorted}
use vdb_rs.Prelude.Panic.{dist_key}
use vdb_rs.Simd.{sum_zip}
use vdb_rs.Index.Defs.{flat_search, add_with_payload}
use vdb_rs.Stats.{new as stats_new}
use vdb_rs.Index.Add.{IsValid, add_with_payload-IsValid}
use vdb_rs.Index.Flat.{true_distances, flat_search-nearest}
use vdb_rs.Prelude.{
  All, take, arith, get_elem?, ℕ, ◌≡◌, refl, true, false, List, [], ◌∷◌, none, some,
}
use vdb_rs.Quantizer.{RabitqConfig, RabitqCode}
use vdb_rs.Index.Defs.{IvfRabitqIndex}
use vdb_rs.Search.{scan_partition}
use vdb_rs.Search.Scan.{found, scan_partition-fastscan}
use vdb_rs.Tests.Number.{Number, number_float}

abbrev config : RabitqConfig Number
config = record { dim = 64; num_bits = 4; epsilon_0 = Number.num 2 }

abbrev code : ℕ → RabitqCode Number
code n = record {
  bits = n ∷ 0 ∷ 0 ∷ 0 ∷ 0 ∷ 0 ∷ 0 ∷ 255 ∷ [];
  alpha = Number.num n;
  beta = Number.num 3;
}

abbrev entries : List (ℕ × RabitqCode Number)
entries = (0, code 5) ∷ (1, code 9) ∷ []

abbrev index : IvfRabitqIndex Number Number
index = record {
  config = config;
  quantizer = record { config = config; rotation = [] };
  centroids = [];
  rotated_centroids = [];
  rotated_centroid_norms_sq = [];
  partitions = entries ∷ [];
  raw = [];
  payloads = [];
  partition_stats = [];
  sq8 = [];
  id_to_partition = [];
  sq8_dirty = false;
  next_id = 2;
}

scan_partition-fastscan_example :
    (scan_partition index (code 1) 0 none true ≡ some (found index (code 1) none entries))
    × (scan_partition index (code 1) 0 none false ≡ some (found index (code 1) none entries))
scan_partition-fastscan_example =
    scan_partition-fastscan index (code 1) 0 none entries refl refl (refl, (refl, tt))

abbrev filled : IvfRabitqIndex Number Number
filled = record index {
  raw = (Number.num 4 ∷ Number.num 1 ∷ []) ∷ (Number.num 1 ∷ Number.num 2 ∷ []) ∷ [];
}

abbrev pub asked : List Number
asked = Number.num 1 ∷ Number.num 1 ∷ []

distances_ordered : All (λ r. number_float.is_nan r.1 ≡ false) (true_distances 0 asked filled.raw)
unfolding true_distances sum_zip
distances_ordered = (refl, (refl, tt))

flat_search-nearest_example :
    (ranked : List (ℕ × Number)) × Permᴰ ranked (true_distances 0 asked filled.raw)
    × IsSorted dist_key ranked
    × (flat_search filled asked 1 ≡ some (take 1 ranked))
flat_search-nearest_example =
    flat_search-nearest filled asked 1 (refl, (refl, tt)) distances_ordered

-- One partition around (1, 1), with nothing in it.
abbrev tiny_config : RabitqConfig Number
tiny_config = record { dim = 2; num_bits = 4; epsilon_0 = Number.num 2 }

abbrev pub fresh : IvfRabitqIndex Number Number
fresh = record index {
  config = tiny_config;
  quantizer = record { config = tiny_config; rotation = [] };
  centroids = asked ∷ [];
  partitions = [] ∷ [];
  partition_stats = stats_new ∷ [];
  next_id = 0;
}

pub fresh-IsValid : IsValid fresh
fresh-IsValid = record {
  same_dim = refl;
  some_partition = omega arith;
  centroid_count = refl;
  stats_count = refl;
  centroid_dims = (refl, tt);
  vector_dims = tt;
  payload_count = refl;
  id_count = refl;
  next_count = refl;
}

add_with_payload-IsValid_example :
    (next : IvfRabitqIndex Number Number) × (add_with_payload fresh asked [] ≡ some (next, 0))
    × IsValid next
    × (get_elem? next.raw 0 ≡ some asked)
    × (get_elem? next.payloads 0 ≡ some [])
add_with_payload-IsValid_example = add_with_payload-IsValid fresh asked [] fresh-IsValid refl
