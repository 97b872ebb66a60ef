-- ===== src/Index/Search.antt =====
-- `IvfRabitqIndex::search` of src/index_ivf_rq.rs, which ranks by the estimates alone.
use vdb_rs.Prelude.{
  ℕ, min, List, [], ◌∷◌, ◌++◌, some, length, map, take, get_elem?, if◌then◌else◌, ◌==◌,
}
use vdb_rs.Prelude.Float.{Float}
use vdb_rs.Prelude.Perms.{range}
use vdb_rs.Prelude.Panic.{Panics, ◌>>=◌, ◌>>◌, assert, traverse, sort_by_dist}
use vdb_rs.Simd.{dot_product}
use vdb_rs.Quantizer.{
  RabitqCode, RabitqQuantizer, rotate_vector, encode_query_from_rotated, estimate_distance_sq,
  norm_squared,
}
use vdb_rs.Index.Defs.{IvfRabitqIndex}

module _ {F : Type 0} ⦃fl : Float F⦄ where
  unfoldable pub estimate_entries :
      RabitqQuantizer F → RabitqCode F → List (ℕ × RabitqCode F) → Panics (List (ℕ × F))
  estimate_entries q query_code entries =
      traverse (λ e. do dist ← estimate_distance_sq q query_code e.1; some (e.0, dist)) entries

  -- The partitions one after the other.
  unfoldable pub estimate_partitions :
      RabitqQuantizer F
      → RabitqCode F
      → List (List (ℕ × RabitqCode F))
      → List ℕ
      → Panics (List (ℕ × F))
  unfolding estimate_entries
  estimate_partitions q query_code partitions [] = some []
  estimate_partitions q query_code partitions (pid ∷ pids) = do
    entries ← get_elem? partitions pid
    part ← estimate_entries q query_code entries
    rest ← estimate_partitions q query_code partitions pids
    some (part ++ rest)

  -- The distance of one rotated centroid.
  unfoldable pub route_distance : List (List F) → List F → List F → F → ℕ → Panics (ℕ × F)
  route_distance rotated_centroids norms rotated_query q_norm_sq i = do
    c ← get_elem? rotated_centroids i
    dot ← dot_product rotated_query c
    nsq ← get_elem? norms i
    some (i, fl.sub (fl.add q_norm_sq nsq) (fl.mul (fl.of_ℕ 2) dot))

module _ {F N : Type 0} ⦃fl : Float F⦄ ⦃fn : Float N⦄ where
  -- `order` is the order in which the hash set of the selected partitions gives them out.
  unfoldable pub ivf_search :
      IvfRabitqIndex F N → List F → ℕ → ℕ → (List ℕ → List ℕ) → Panics (List (ℕ × F))
  unfolding estimate_partitions route_distance
  ivf_search idx query k nprobe order = do
    assert (length query == idx.config.dim)
    rotated_query ← rotate_vector idx.quantizer query
    query_code ← encode_query_from_rotated idx.quantizer rotated_query
    dists ←
        traverse
          (route_distance idx.rotated_centroids idx.rotated_centroid_norms_sq rotated_query
            (norm_squared rotated_query))
          (range (length idx.rotated_centroids))
    sorted ← sort_by_dist dists
    let n = length idx.partitions
    let probes = if nprobe == 0 then n else min nprobe n
    let selected = order (map (λ r. r.0) (take probes sorted))
    candidates ← estimate_partitions idx.quantizer query_code idx.partitions selected
    ranked ← sort_by_dist candidates
    some (take k ranked)
