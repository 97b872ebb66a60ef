-- ===== src/Index/Built.antt =====
-- `build` makes a well-formed index of the vectors it is given.
use vdb_rs.Prelude.{
  ℕ, ◌≤◌, ◌<◌, ◌≡◌, refl, sym, subst, ◌∙◌, true, false, List, [], some, length, map, replicate,
  get_elem?, ap, take, get_elem?-lt, All, All-get, All-map_pred, All-take, arith, length-replicate,
  ◌%◌, ◌==◌,
}
use vdb_rs.Prelude.Float.{Float}
use vdb_rs.Prelude.Panic.{traverse}
use vdb_rs.Stats.{new as stats_new}
use vdb_rs.SysInfo.{default_num_partitions}
use vdb_rs.Quantizer.{RabitqConfig, RabitqQuantizer, RabitqConfig_new, rotate_vector, norm_squared}
use vdb_rs.Index.Defs.{IvfRabitqIndex, nearest_partition}
use vdb_rs.Index.Add.{IsValid}
use vdb_rs.Index.Parts.{sq8_of}
use vdb_rs.Index.Rebuild.{traverse_total, sq8_of_total, rotate_vector_total}
use vdb_rs.Index.Kmeans.{kmeans}
use vdb_rs.Index.Seeds.{IsShape}
use vdb_rs.Index.Clusters.{All-replicate, kmeans_few}
use vdb_rs.Index.Build.{Filled, build}
use vdb_rs.Index.Filled.{fill_total}
use vdb_rs.Index.Entries.{entries_in, fill_entries, fill_ids, get_elem?-replicate}

module _ {F N : Type 0} ⦃fl : Float F⦄ ⦃fn : Float N⦄ where
  -- `build`, from so many centroids as k-means has found.
  build_total :
      (isqrt : ℕ → ℕ) (rotation : List F) (first : ℕ) (draw : ℕ → F)
      (vectors centroids : List (List F)) (dim c p : ℕ)
      → let k = default_num_partitions isqrt (length vectors) in
        1 ≤ c
        → c ≤ k
        → p < k
        → 1 ≤ length vectors
        → All (λ v. length v ≡ dim) vectors
        → dim % 64 ≡ 0
        → kmeans vectors k 20 first draw ≡ some centroids
        → IsShape c dim centroids
        → (idx : IvfRabitqIndex F N) × (build isqrt rotation first draw vectors ≡ some idx)
          × (idx.raw ≡ vectors)
          × (length idx.partitions ≡ k)
          × (idx.centroids ≡ centroids)
          × All (All (λ e. e.0 < length vectors)) idx.partitions
          × (c ≡ k → IsValid idx)
          × (traverse (nearest_partition idx.centroids) vectors ≡ some idx.id_to_partition)
          × (get_elem? idx.partitions p ≡ some (entries_in idx.quantizer idx.centroids p 0 vectors))
  unfolding build RabitqConfig_new
  build_total isqrt rotation first draw vectors centroids dim c p pos le inside one h multiple
        clustered shape =
      let k = default_num_partitions isqrt (length vectors) in
      let (v, at) = get_elem?-lt vectors 0 (omega (arith, one)) in
      let wide : length v ≡ dim = All-get _ vectors 0 v h at in
      let fits : (dim % 64 == 0) ≡ true = ground arith in
      let config : RabitqConfig F = record {
        dim = dim;
        num_bits = 4;
        epsilon_0 = fl.div (fl.of_ℕ 19) (fl.of_ℕ 10);
      } in
      let quantizer : RabitqQuantizer F = record { config = config; rotation = rotation } in
      let (rotated, turned) =
        traverse_total (rotate_vector quantizer) centroids
          (All-map_pred _ _ centroids (rotate_vector_total quantizer) shape.1) in
      let empty : Filled F N = record {
        partitions = replicate k [];
        raw = [];
        payloads = [];
        partition_stats = replicate k stats_new;
        id_to_partition = [];
      } in
      let (parts, filled, counts, same) =
        fill_total quantizer c k 0 (length vectors) centroids vectors empty pos le shape h
          (omega arith)
          (
            length-replicate k [],
            length-replicate k stats_new,
            refl,
            refl,
            refl,
            All-replicate _ k [] tt,
          ) in
      let (partition_count, stat_count, id_count, payload_count, raw_count, ids) = counts in
      let (pids, placed, all_pids) = fill_ids quantizer centroids 0 vectors empty parts filled in
      let entries =
        fill_entries quantizer centroids 0 p vectors empty parts [] filled
          (get_elem?-replicate k p [] inside) in
      let (sq8, built) = traverse_total (sq8_of parts.raw) (take k parts.partitions) (
        All-map_pred _ _ (take k parts.partitions)
          (λ es l.
            sq8_of_total parts.raw es (All-map_pred _ _ es (λ e m. omega (arith, m, raw_count)) l))
          (All-take _ k parts.partitions ids)) in
      (
        record {
          config = config;
          quantizer = quantizer;
          centroids = centroids;
          rotated_centroids = rotated;
          rotated_centroid_norms_sq = map norm_squared rotated;
          partitions = parts.partitions;
          raw = parts.raw;
          payloads = parts.payloads;
          partition_stats = parts.partition_stats;
          sq8 = sq8;
          id_to_partition = parts.id_to_partition;
          sq8_dirty = false;
          next_id = length vectors;
        },
        rw (at, wide, fits, clustered, turned, filled, built) refl,
        same,
        partition_count,
        refl,
        ids,
        (λ enough. record {
          same_dim = refl;
          some_partition = omega (arith, partition_count, pos, le);
          centroid_count = shape.0 ∙ enough ∙ sym partition_count;
          stats_count = stat_count ∙ sym partition_count;
          centroid_dims = All-map_pred _ _ centroids (λ c e. sym e) shape.1;
          vector_dims =
              subst (All (λ v. dim ≡ length v)) (sym same)
                (All-map_pred _ _ vectors (λ v e. sym e) h);
          payload_count = payload_count ∙ sym raw_count;
          id_count = id_count ∙ sym raw_count;
          next_count = sym raw_count;
        }),
        placed ∙ ap some (sym all_pids),
        entries,
      )

  -- From one, two or three vectors of one dimension, a dimension that is a multiple of 64, `build`
  -- returns an index of four partitions that has no more centroids than the vectors, which are they,
  -- with every identifier below the number of vectors.
  pub build-few :
      (isqrt : ℕ → ℕ) (rotation : List F) (first : ℕ) (draw : ℕ → F) (vectors : List (List F))
      (dim : ℕ)
      → 1 ≤ length vectors
      → length vectors < 4
      → All (λ v. length v ≡ dim) vectors
      → dim % 64 ≡ 0
      → (idx : IvfRabitqIndex F N) × (build isqrt rotation first draw vectors ≡ some idx)
        × (idx.raw ≡ vectors)
        × (length idx.partitions ≡ 4)
        × (idx.centroids ≡ vectors)
        × All (All (λ e. e.0 < length vectors)) idx.partitions
  unfolding default_num_partitions
  build-few isqrt rotation first draw vectors dim one few h multiple =
      let t : default_num_partitions isqrt (length vectors) ≡ 4 = ground arith in
      let (idx, built, same, count, kept, ids, valid, placed, entries) =
        build_total isqrt rotation first draw vectors vectors dim (length vectors) 0 one
          (omega (arith, t, few)) (omega (arith, t)) one h multiple
          (kmeans_few vectors (default_num_partitions isqrt (length vectors)) 20 first draw
            (omega (arith, t, few)))
          (refl, h) in
      (idx, built, same, count ∙ t, kept, ids)
