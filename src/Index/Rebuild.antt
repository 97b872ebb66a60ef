-- ===== src/Index/Rebuild.antt =====
-- An index built from the parts of a file is well formed.
use vdb_rs.Prelude.{
  ℕ, suc, ◌≤◌, ◌<◌, ◌≡◌, refl, sym, ◌∙◌, true, false, ltb, List, [], ◌∷◌, some, length, map,
  get_elem?, get_elem?-lt, set, length-set, replicate, length-replicate, length-map, All,
  All-map_pred, arith, ◌==◌,
}
use vdb_rs.Prelude.Float.{Float}
use vdb_rs.Prelude.Panic.{Panics, traverse}
use vdb_rs.Payload.{Payload}
use vdb_rs.Stats.{new as stats_new}
use vdb_rs.Quantizer.{
  RabitqConfig, RabitqCode, RabitqQuantizer, Sq8Data, apply_rotation, rotate_vector, norm_squared,
}
use vdb_rs.Index.Sq8.{Sq8Data_build}
use vdb_rs.Index.Defs.{IvfRabitqIndex, entry_vectors}
use vdb_rs.Index.Add.{IsValid}
use vdb_rs.Index.Parts.{assign_entries, assign_partitions, stats_of, sq8_of, from_parts}

pub traverse_total :
    {A B : Type 0} (f : A → Panics B) (xs : List A)
    → All (λ x. (b : B) × (f x ≡ some b)) xs
    → (ys : List B) × (traverse f xs ≡ some ys)
traverse_total f [] h = ([], refl)
traverse_total f (x ∷ xs) h =
    let (y, here) = h.0 in
    let (ys, rest) = traverse_total f xs h.1 in (y ∷ ys, rw (here, rest) refl)

module _ {F : Type 0} where
  assign_entries_total :
      (pid : ℕ) (entries : List (ℕ × RabitqCode F)) (ids : List ℕ) (n : ℕ)
      → length ids ≡ n
      → All (λ e. e.0 < n) entries
      → (out : List ℕ) × (assign_entries pid entries ids ≡ some out) × (length out ≡ n)
  unfolding assign_entries
  assign_entries_total pid [] ids n l h = (ids, refl, l)
  assign_entries_total pid (entry ∷ entries) ids n l h =
      let inside : ltb entry.0 (length ids) ≡ true = ground (arith, h.0) in
      let (out, done, size) =
        assign_entries_total pid entries (set ids entry.0 pid) n (length-set ids entry.0 pid ∙ l)
          h.1 in
      (out, rw inside done, size)

  assign_partitions_total :
      (pid : ℕ) (partitions : List (List (ℕ × RabitqCode F))) (ids : List ℕ) (n : ℕ)
      → length ids ≡ n
      → All (All (λ e. e.0 < n)) partitions
      → (out : List ℕ) × (assign_partitions pid partitions ids ≡ some out) × (length out ≡ n)
  unfolding assign_partitions
  assign_partitions_total pid [] ids n l h = (ids, refl, l)
  assign_partitions_total pid (entries ∷ partitions) ids n l h =
      let (next, done, size) = assign_entries_total pid entries ids n l h.0 in
      let (out, rest, count) = assign_partitions_total (suc pid) partitions next n size h.1 in
      (out, rw done rest, count)

module _ {F : Type 0} ⦃fl : Float F⦄ where
  pub sq8_of_total :
      (raw : List (List F)) (entries : List (ℕ × RabitqCode F))
      → All (λ e. e.0 < length raw) entries
      → (sq8 : Sq8Data F) × (sq8_of raw entries ≡ some sq8)
  unfolding sq8_of entry_vectors
  sq8_of_total raw entries h =
      let (refs, found) =
        traverse_total (λ e. get_elem? raw e.0) entries
          (All-map_pred _ _ entries (λ e lt. get_elem?-lt raw e.0 lt) h) in
      (Sq8Data_build refs, rw found refl)

  pub rotate_vector_total :
      (q : RabitqQuantizer F) (v : List F)
      → length v ≡ q.config.dim
      → (out : List F) × (rotate_vector q v ≡ some out)
  unfolding rotate_vector
  rotate_vector_total q v h =
      let same : (length v == q.config.dim) ≡ true = ground arith in
      (apply_rotation q.rotation v, rw same refl)

module _ {F N : Type 0} ⦃fl : Float F⦄ ⦃fn : Float N⦄ where
  -- What a file holds of an index.
  abbrev pub Holds :
      IvfRabitqIndex F N
      → RabitqConfig F
      → RabitqQuantizer F
      → List (List F)
      → List (List (ℕ × RabitqCode F))
      → List (List F)
      → List (Payload N)
      → ℕ
      → Type 0
  Holds index config quantizer centroids partitions raw payloads next_id =
      (index.config ≡ config)
      × (index.quantizer ≡ quantizer)
      × (index.centroids ≡ centroids)
      × (index.partitions ≡ partitions)
      × (index.raw ≡ raw)
      × (index.payloads ≡ payloads)
      × (index.next_id ≡ next_id)

  -- Parts that agree in number and in dimension, with every identifier below the number of vectors,
  -- make a well-formed index that holds them.
  pub from_parts_total :
      (config : RabitqConfig F) (rotation : List F) (centroids : List (List F))
      (partitions : List (List (ℕ × RabitqCode F))) (raw : List (List F))
      (payloads : List (Payload N))
      → 1 ≤ length partitions
      → length centroids ≡ length partitions
      → All (λ c. length c ≡ config.dim) centroids
      → All (λ v. length v ≡ config.dim) raw
      → length payloads ≡ length raw
      → All (All (λ e. e.0 < length raw)) partitions
      → let quantizer : RabitqQuantizer F = record { config = config; rotation = rotation } in
        (index : IvfRabitqIndex F N) × (from_parts config quantizer centroids partitions raw
            payloads
            (length raw)
          ≡ some index)
        × IsValid index
        × Holds index config quantizer centroids partitions raw payloads (length raw)
        × (assign_partitions 0 partitions (replicate (length raw) 0) ≡ some index.id_to_partition)
        × (traverse (rotate_vector quantizer) centroids ≡ some index.rotated_centroids)
        × (traverse (sq8_of raw) partitions ≡ some index.sq8)
        × (index.partition_stats ≡ map (λ entries. stats_of payloads entries stats_new) partitions)
  unfolding from_parts
  from_parts_total config rotation centroids partitions raw payloads some_one count cdims vdims
        pcount ids =
      let quantizer : RabitqQuantizer F = record { config = config; rotation = rotation } in
      let (assigned, done, size) =
        assign_partitions_total 0 partitions (replicate (length raw) 0) (length raw)
          (length-replicate (length raw) 0) ids in
      let (rotated, turned) =
        traverse_total (rotate_vector quantizer) centroids
          (All-map_pred _ _ centroids (rotate_vector_total quantizer) cdims) in
      let (sq8, built) =
        traverse_total (sq8_of raw) partitions
          (All-map_pred _ _ partitions (sq8_of_total raw) ids) in
      (
        record {
          config = config;
          quantizer = quantizer;
          centroids = centroids;
          rotated_centroids = rotated;
          rotated_centroid_norms_sq = map norm_squared rotated;
          partitions = partitions;
          raw = raw;
          payloads = payloads;
          partition_stats = map (λ entries. stats_of payloads entries stats_new) partitions;
          sq8 = sq8;
          id_to_partition = assigned;
          sq8_dirty = false;
          next_id = length raw;
        },
        rw (done, turned, built) refl,
        record {
          same_dim = refl;
          some_partition = some_one;
          centroid_count = count;
          stats_count = length-map partitions (λ entries. stats_of payloads entries stats_new);
          centroid_dims = All-map_pred _ _ centroids (λ c e. sym e) cdims;
          vector_dims = All-map_pred _ _ raw (λ v e. sym e) vdims;
          payload_count = pcount;
          id_count = size;
          next_count = refl;
        },
        (refl, refl, refl, refl, refl, refl, refl),
        done,
        turned,
        built,
        refl,
      )
