-- ===== src/Index/Build.antt =====
-- `IvfRabitqIndex::build` of src/index_ivf_rq.rs. The random rotation, the numbers that k-means draws
-- and the square root of the system are arguments.
use vdb_rs.Prelude.{
  ℕ, suc, List, [], ◌∷◌, ◌++◌, some, length, map, take, replicate, get_elem?, false,
}
use vdb_rs.Prelude.Float.{Float}
use vdb_rs.Prelude.Panic.{Panics, ◌>>=◌, traverse}
use vdb_rs.Payload.{Payload}
use vdb_rs.Stats.{PartitionStats, new as stats_new, update}
use vdb_rs.SysInfo.{default_num_partitions}
use vdb_rs.Quantizer.{
  RabitqCode, RabitqQuantizer, RabitqConfig_new, encode, rotate_vector, norm_squared,
}
use vdb_rs.Index.Defs.{IvfRabitqIndex, modify, nearest_partition}
use vdb_rs.Index.Parts.{sq8_of}
use vdb_rs.Index.Kmeans.{kmeans}

-- The vectors that the loop of `build` fills.
pub record Filled (F N : Type 0) : Type 0 where
  pub partitions : List (List (ℕ × RabitqCode F))
  pub raw : List (List F)
  pub payloads : List (Payload N)
  pub partition_stats : List (PartitionStats N)
  pub id_to_partition : List ℕ

module _ {F N : Type 0} ⦃fl : Float F⦄ ⦃fn : Float N⦄ where
  unfoldable pub fill :
      RabitqQuantizer F → List (List F) → ℕ → List (List F) → Filled F N → Panics (Filled F N)
  unfolding modify
  fill quantizer centroids id [] parts = some parts
  fill quantizer centroids id (vector ∷ vectors) parts = do
    pid ← nearest_partition centroids vector
    code ← encode quantizer vector
    partitions ← modify parts.partitions pid (λ entries. entries ++ (id, code) ∷ [])
    stats ← modify parts.partition_stats pid (λ st. update st [])
    fill quantizer centroids (suc id) vectors (record {
      partitions = partitions;
      raw = parts.raw ++ vector ∷ [];
      payloads = parts.payloads ++ [] ∷ [];
      partition_stats = stats;
      id_to_partition = parts.id_to_partition ++ pid ∷ [];
    })

  unfoldable pub build :
      (ℕ → ℕ) → List F → ℕ → (ℕ → F) → List (List F) → Panics (IvfRabitqIndex F N)
  unfolding fill
  build isqrt rotation first draw vectors = do
    v ← get_elem? vectors 0
    config ← RabitqConfig_new (length v)
    let num_partitions = default_num_partitions isqrt (length vectors)
    let quantizer : RabitqQuantizer F = record { config = config; rotation = rotation }
    centroids ← kmeans vectors num_partitions 20 first draw
    rotated_centroids ← traverse (rotate_vector quantizer) centroids
    parts ← fill quantizer centroids 0 vectors (record {
      partitions = replicate num_partitions [];
      raw = [];
      payloads = [];
      partition_stats = replicate num_partitions stats_new;
      id_to_partition = [];
    })
    sq8 ← traverse (sq8_of parts.raw) (take num_partitions parts.partitions)
    some (record {
      config = config;
      quantizer = quantizer;
      centroids = centroids;
      rotated_centroids = rotated_centroids;
      rotated_centroid_norms_sq = map norm_squared rotated_centroids;
      partitions = parts.partitions;
      raw = parts.raw;
      payloads = parts.payloads;
      partition_stats = parts.partition_stats;
      sq8 = sq8;
      id_to_partition = parts.id_to_partition;
      sq8_dirty = false;
      next_id = length vectors;
    })
