-- ===== src/Index/Parts.antt =====
-- `from_parts` of src/index_ivf_rq.rs: the index from what a file holds. What a file does not hold
-- (the partition of each identifier, the statistics, the rotated centroids and the SQ8 codes) is
-- computed again.
use vdb_rs.Prelude.{
  ℕ, suc, List, [], ◌∷◌, none, some, length, set, get_elem?, map, replicate, ltb, false,
}
use vdb_rs.Prelude.Float.{Float}
use vdb_rs.Prelude.Panic.{Panics, ◌>>=◌, ◌>>◌, assert, traverse}
use vdb_rs.Payload.{Payload}
use vdb_rs.Stats.{PartitionStats, new as stats_new, update}
use vdb_rs.Quantizer.{
  RabitqConfig, RabitqCode, RabitqQuantizer, Sq8Data, rotate_vector, norm_squared,
}
use vdb_rs.Index.Sq8.{Sq8Data_build}
use vdb_rs.Index.Defs.{IvfRabitqIndex, entry_vectors}

module _ {F : Type 0} where
  -- `id_to_partition[*id as usize] = pid` for the entries of one partition, and for all of them.
  unfoldable pub assign_entries : ℕ → List (ℕ × RabitqCode F) → List ℕ → Panics (List ℕ)
  assign_entries pid [] ids = some ids
  assign_entries pid (entry ∷ entries) ids = do
    assert (ltb entry.0 (length ids))
    assign_entries pid entries (set ids entry.0 pid)

  unfoldable pub assign_partitions : ℕ → List (List (ℕ × RabitqCode F)) → List ℕ → Panics (List ℕ)
  unfolding assign_entries
  assign_partitions pid [] ids = some ids
  assign_partitions pid (entries ∷ partitions) ids = do
    rest ← assign_entries pid entries ids
    assign_partitions (suc pid) partitions rest

module _ {F N : Type 0} ⦃fn : Float N⦄ where
  -- The statistics of one partition; an identifier without a payload counts for nothing.
  unfoldable pub stats_of :
      List (Payload N) → List (ℕ × RabitqCode F) → PartitionStats N → PartitionStats N
  stats_of payloads [] stats = stats
  stats_of payloads (entry ∷ entries) stats =
      stats_of payloads entries
        (elim (get_elem? payloads entry.0) [ none ↦ stats | some payload ↦ update stats payload ])

module _ {F : Type 0} ⦃fl : Float F⦄ where
  unfoldable pub sq8_of : List (List F) → List (ℕ × RabitqCode F) → Panics (Sq8Data F)
  unfolding entry_vectors
  sq8_of raw entries = do refs ← entry_vectors raw entries; some (Sq8Data_build refs)

module _ {F N : Type 0} ⦃fl : Float F⦄ ⦃fn : Float N⦄ where
  unfoldable pub from_parts :
      RabitqConfig F
      → RabitqQuantizer F
      → List (List F)
      → List (List (ℕ × RabitqCode F))
      → List (List F)
      → List (Payload N)
      → ℕ
      → Panics (IvfRabitqIndex F N)
  unfolding assign_partitions stats_of sq8_of
  from_parts config quantizer centroids partitions raw payloads next_id = do
    id_to_partition ← assign_partitions 0 partitions (replicate (length raw) 0)
    rotated_centroids ← traverse (rotate_vector quantizer) centroids
    sq8 ← traverse (sq8_of raw) partitions
    some (record {
      config = config;
      quantizer = quantizer;
      centroids = centroids;
      rotated_centroids = rotated_centroids;
      rotated_centroid_norms_sq = map norm_squared rotated_centroids;
      partitions = partitions;
      raw = raw;
      payloads = payloads;
      partition_stats = map (λ entries. stats_of payloads entries stats_new) partitions;
      sq8 = sq8;
      id_to_partition = id_to_partition;
      sq8_dirty = false;
      next_id = next_id;
    })
