-- ===== src/Index/Add.antt =====
-- Insertion keeps the index well formed and stores what it is given.
use vdb_rs.Prelude.{
  ℕ, suc, ◌+◌, ◌≤◌, ◌<◌, ◌≡◌, refl, sym, ◌∙◌, Bool, true, false, List, [], ◌∷◌, ◌++◌, some, length,
  get_elem?, set, replicate, length-replicate, ◌%◌, All, All-append, All-map_pred, arith, ◌==◌,
  if◌then◌else◌, length-append, length-set, get_elem?-append_last, get_elem?-lt,
}
use vdb_rs.Prelude.Float.{Float, flt}
use vdb_rs.Payload.{Payload}
use vdb_rs.Stats.{update, new as stats_new}
use vdb_rs.Simd.{l2_distance_squared, sum_zip, squared_difference}
use vdb_rs.Quantizer.{
  RabitqQuantizer, RabitqConfig, RabitqConfig_new, RabitqCode, encode, encode_rotated,
  apply_rotation,
}
use vdb_rs.Index.Sq8.{Sq8Data_new}
use vdb_rs.Index.Defs.{
  IvfRabitqIndex, new, modify, nearest_loop, nearest_partition, add_with_payload,
}

-- The parts of the index agree in number, every vector and centroid has the dimension, and the next
-- identifier is the number of vectors.
pub record IsValid {F N : Type 0} (idx : IvfRabitqIndex F N) : Type 0 where
  pub same_dim : idx.config.dim ≡ idx.quantizer.config.dim
  pub some_partition : 1 ≤ length idx.partitions
  pub centroid_count : length idx.centroids ≡ length idx.partitions
  pub stats_count : length idx.partition_stats ≡ length idx.partitions
  pub centroid_dims : All (λ c. idx.config.dim ≡ length c) idx.centroids
  pub vector_dims : All (λ v. idx.config.dim ≡ length v) idx.raw
  pub payload_count : length idx.payloads ≡ length idx.raw
  pub id_count : length idx.id_to_partition ≡ length idx.raw
  pub next_count : idx.next_id ≡ length idx.raw

pub modify-lt {ℓ} :
    {A : Type ℓ} (xs : List A) (i : ℕ) (f : A → A)
    → i < length xs
    → (ys : List A) × (length ys ≡ length xs) × (modify xs i f ≡ some ys)
unfolding modify
modify-lt xs i f h =
    let (x, e) = get_elem?-lt xs i h in (set xs i (f x), length-set xs i (f x), rw e refl)

module _ {F : Type 0} ⦃fl : Float F⦄ where
  pub distance_of_length :
      (a b : List F) → length a ≡ length b → (d : F) × (l2_distance_squared a b ≡ some d)
  unfolding l2_distance_squared
  distance_of_length a b h =
      let same : (length a == length b) ≡ true = ground arith in
      (sum_zip squared_difference fl.zero_value a b, rw same refl)

  -- The nearest partition is one of the partitions.
  pub nearest_loop-lt :
      (i best n : ℕ) (d : F) (cs : List (List F)) (v : List F)
      → best < n
      → i + length cs ≤ n
      → All (λ c. length v ≡ length c) cs
      → (pid : ℕ) × (pid < n) × (nearest_loop i best d cs v ≡ some pid)
  unfolding nearest_loop
  nearest_loop-lt i best n d [] v b l h = (best, b, refl)
  nearest_loop-lt i best n d (c ∷ cs) v b l h =
      let (e, found) = distance_of_length v c h.0 in
      let (pid, lt, rest) =
        nearest_loop-lt (suc i) (if flt e d then i else best) n (if flt e d then e else d) cs v
          (next (flt e d)) (omega arith) h.1 in
      (pid, lt, rw (found, nearest_loop) rest)
    where
      next : (t : Bool) → (if t then i else best) < n
      next true = omega arith
      next false = b

  pub encode_of_length :
      (q : RabitqQuantizer F) (v : List F)
      → length v ≡ q.config.dim
      → (code : RabitqCode F) × (encode q v ≡ some code)
  unfolding encode
  encode_of_length q v h =
      let same : (length v == q.config.dim) ≡ true = ground arith in
      (encode_rotated q (apply_rotation q.rotation v), rw same refl)

module _ {F N : Type 0} ⦃fl : Float F⦄ ⦃fn : Float N⦄ where
  nearest_partition-lt :
      (idx : IvfRabitqIndex F N) (v : List F)
      → IsValid idx
      → length v ≡ idx.config.dim
      → (pid : ℕ) × (pid < length idx.partitions) × (nearest_partition idx.centroids v ≡ some pid)
  unfolding nearest_partition
  nearest_partition-lt idx v h d =
      nearest_loop-lt 0 0 (length idx.partitions) fl.max_value idx.centroids v
        (omega (arith, h.some_partition)) (omega (arith, h.centroid_count))
        (All-map_pred _ _ idx.centroids (λ c e. d ∙ e) h.centroid_dims)

  -- What an insertion makes of the index.
  pub add_with_payload_stores :
      (idx : IvfRabitqIndex F N) (vector : List F) (payload : Payload N)
      → IsValid idx
      → length vector ≡ idx.config.dim
      → (next : IvfRabitqIndex F N) × (add_with_payload idx vector payload
          ≡ some (next, idx.next_id))
        × IsValid next
        × (next.config ≡ idx.config)
        × (next.next_id ≡ suc idx.next_id)
        × (next.raw ≡ idx.raw ++ vector ∷ [])
        × (next.payloads ≡ idx.payloads ++ payload ∷ [])
  unfolding add_with_payload
  add_with_payload_stores idx vector payload h d =
      let same : (length vector == idx.config.dim) ≡ true = ground arith in
      let (pid, lt, nearest) = nearest_partition-lt idx vector h d in
      let (code, encoded) = encode_of_length idx.quantizer vector (d ∙ h.same_dim) in
      let (partitions, count, pushed) =
        modify-lt idx.partitions pid (λ entries. entries ++ (idx.next_id, code) ∷ []) lt in
      let (stats, stats_count, updated) =
        modify-lt idx.partition_stats pid (λ st. update st payload)
          (omega (arith, h.stats_count, lt)) in
      (
        record idx {
          partitions = partitions;
          partition_stats = stats;
          raw = idx.raw ++ vector ∷ [];
          id_to_partition = idx.id_to_partition ++ pid ∷ [];
          payloads = idx.payloads ++ payload ∷ [];
          sq8_dirty = true;
          next_id = idx.next_id + 1;
        },
        rw (same, nearest, encoded, pushed, updated) refl,
        record {
          same_dim = h.same_dim;
          some_partition = omega (arith, count, h.some_partition);
          centroid_count = omega (arith, count, h.centroid_count);
          stats_count = omega (arith, count, stats_count, h.stats_count);
          centroid_dims = h.centroid_dims;
          vector_dims = All-append _ idx.raw (vector ∷ []) h.vector_dims (sym d, tt);
          payload_count = omega (
            arith,
            length-append idx.payloads (payload ∷ []),
            length-append idx.raw (vector ∷ []),
            h.payload_count,
          );
          id_count = omega (
            arith,
            length-append idx.id_to_partition (pid ∷ []),
            length-append idx.raw (vector ∷ []),
            h.id_count,
          );
          next_count = omega (arith, length-append idx.raw (vector ∷ []), h.next_count);
        },
        refl,
        omega arith,
        refl,
        refl,
      )

  -- Inserting a vector of the right dimension into a well-formed index returns, with the next
  -- identifier; the index stays well formed, and its vector and its payload are found under that
  -- identifier.
  pub add_with_payload-IsValid :
      (idx : IvfRabitqIndex F N) (vector : List F) (payload : Payload N)
      → IsValid idx
      → length vector ≡ idx.config.dim
      → (next : IvfRabitqIndex F N) × (add_with_payload idx vector payload
          ≡ some (next, idx.next_id))
        × IsValid next
        × (get_elem? next.raw idx.next_id ≡ some vector)
        × (get_elem? next.payloads idx.next_id ≡ some payload)
  add_with_payload-IsValid idx vector payload h d =
      let (next, added, valid, same, more, raw, payloads) =
        add_with_payload_stores idx vector payload h d in
      (
        next,
        added,
        valid,
        rw raw (get_elem?-append_last idx.raw vector idx.next_id h.next_count),
        rw payloads (
            get_elem?-append_last idx.payloads payload idx.next_id
              (h.next_count ∙ sym h.payload_count)),
      )

  -- A new index of a dimension that is a multiple of 64 is well formed, and has four partitions with
  -- nothing in them.
  pub new-IsValid :
      (rotation : List F) (dim : ℕ)
      → dim % 64 ≡ 0
      → (idx : IvfRabitqIndex F N) × (new rotation dim ≡ some idx)
        × IsValid idx
        × (idx.raw ≡ [])
        × (idx.payloads ≡ [])
        × (idx.config.dim ≡ dim)
        × (RabitqConfig_new idx.config.dim ≡ some idx.config)
        × (idx.quantizer ≡ record { config = idx.config; rotation = rotation })
        × (idx.partitions ≡ replicate 4 [])
  unfolding new RabitqConfig_new
  new-IsValid rotation dim h =
      let multiple : (dim % 64 == 0) ≡ true = ground arith in
      let config : RabitqConfig F = record {
        dim = dim;
        num_bits = 4;
        epsilon_0 = fl.div (fl.of_ℕ 19) (fl.of_ℕ 10);
      } in
      let wide = sym (length-replicate dim fl.zero_value) in
      (
        record {
          config = config;
          quantizer = record { config = config; rotation = rotation };
          centroids = replicate 4 (replicate dim fl.zero_value);
          rotated_centroids = replicate 4 (replicate dim fl.zero_value);
          rotated_centroid_norms_sq = replicate 4 fl.zero_value;
          partitions = replicate 4 [];
          raw = [];
          payloads = [];
          partition_stats = replicate 4 stats_new;
          sq8 = replicate 4 (Sq8Data_new dim);
          id_to_partition = [];
          sq8_dirty = false;
          next_id = 0;
        },
        rw multiple refl,
        record {
          same_dim = refl;
          some_partition = omega arith;
          centroid_count = refl;
          stats_count = refl;
          centroid_dims = (wide, (wide, (wide, (wide, tt))));
          vector_dims = tt;
          payload_count = refl;
          id_count = refl;
          next_count = refl;
        },
        refl,
        refl,
        refl,
        rw multiple refl,
        refl,
        refl,
      )
