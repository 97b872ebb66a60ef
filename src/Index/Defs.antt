-- ===== src/Index/Defs.antt =====
-- The record `IvfRabitqIndex` and its operations.
use vdb_rs.Prelude.{
  ℕ, suc, ◌+◌, Bool, true, false, List, [], ◌∷◌, ◌++◌, Option, none, some, length, replicate,
  get_elem?, set, take, if◌then◌else◌, ◌==◌,
}
use vdb_rs.Prelude.Float.{Float, flt}
use vdb_rs.Prelude.Panic.{Panics, ◌>>=◌, ◌>>◌, assert, traverse, sort_by_dist}
use vdb_rs.Payload.{Payload}
use vdb_rs.Stats.{PartitionStats, new as stats_new, update}
use vdb_rs.Simd.{l2_distance_squared}
use vdb_rs.Quantizer.{RabitqConfig, RabitqCode, RabitqQuantizer, Sq8Data, RabitqConfig_new, encode}
use vdb_rs.Index.Sq8.{Sq8Data_new, Sq8Data_build, dequantize}

pub record IvfRabitqIndex (F N : Type 0) : Type 0 where
  pub config : RabitqConfig F
  pub quantizer : RabitqQuantizer F
  pub centroids : List (List F)
  pub rotated_centroids : List (List F)
  pub rotated_centroid_norms_sq : List F
  pub partitions : List (List (ℕ × RabitqCode F))
  pub raw : List (List F)
  pub payloads : List (Payload N)
  pub partition_stats : List (PartitionStats N)
  pub sq8 : List (Sq8Data F)
  pub id_to_partition : List ℕ
  pub sq8_dirty : Bool
  pub next_id : ℕ

-- The update of one place of a vector; out of range it panics.
unfoldable pub modify {ℓ} : {A : Type ℓ} → List A → ℕ → (A → A) → Panics (List A)
modify xs i f = do x ← get_elem? xs i; some (set xs i (f x))

module _ {F : Type 0} ⦃fl : Float F⦄ where
  -- The loop of `nearest_partition`: the first centroid at the least distance found so far.
  unfoldable pub nearest_loop : ℕ → ℕ → F → List (List F) → List F → Panics ℕ
  nearest_loop i best best_dist [] v = some best
  nearest_loop i best best_dist (c ∷ cs) v = do
    d ← l2_distance_squared v c
    nearest_loop (suc i) (if flt d best_dist then i else best)
        (if flt d best_dist then d else best_dist) cs v

  unfoldable pub nearest_partition : List (List F) → List F → Panics ℕ
  unfolding nearest_loop
  nearest_partition centroids v = nearest_loop 0 0 fl.max_value centroids v

  -- The loop of `flat_search`.
  unfoldable pub distances_from : ℕ → List F → List (List F) → Panics (List (ℕ × F))
  distances_from i query [] = some []
  distances_from i query (v ∷ vs) = do
    d ← l2_distance_squared query v
    rest ← distances_from (suc i) query vs
    some ((i, d) ∷ rest)

module _ {F : Type 0} where
  -- The raw vectors of the entries of a partition.
  unfoldable pub entry_vectors : List (List F) → List (ℕ × RabitqCode F) → Panics (List (List F))
  entry_vectors raw entries = traverse (λ e. get_elem? raw e.0) entries

  -- `position` of an identifier among the entries.
  unfoldable pub position : ℕ → ℕ → List (ℕ × RabitqCode F) → Option ℕ
  position i id [] = none
  position i id ((j, code) ∷ entries) = if j == id then some i else position (suc i) id entries

module _ {F N : Type 0} ⦃fl : Float F⦄ ⦃fn : Float N⦄ where
  -- `IvfRabitqIndex::new`; the random rotation is an argument.
  unfoldable pub new : List F → ℕ → Panics (IvfRabitqIndex F N)
  new rotation dim = do
    config ← RabitqConfig_new dim
    some (record {
      config = config;
      quantizer = record { config = config; rotation = rotation };
      centroids = replicate 4 (replicate dim fl.zero_value);
      rotated_centroids = replicate 4 (replicate dim fl.zero_value);
      rotated_centroid_norms_sq = replicate 4 fl.zero_value;
      partitions = replicate 4 [];
      raw = [];
      payloads = [];
      partition_stats = replicate 4 stats_new;
      sq8 = replicate 4 (Sq8Data_new dim);
      id_to_partition = [];
      sq8_dirty = false;
      next_id = 0;
    })

  unfoldable pub add_with_payload :
      IvfRabitqIndex F N → List F → Payload N → Panics (IvfRabitqIndex F N × ℕ)
  unfolding modify
  add_with_payload idx vector payload = do
    assert (length vector == idx.config.dim)
    pid ← nearest_partition idx.centroids vector
    code ← encode idx.quantizer vector
    partitions ← modify idx.partitions pid (λ entries. entries ++ (idx.next_id, code) ∷ [])
    stats ← modify idx.partition_stats pid (λ st. update st payload)
    some (
      record idx {
        partitions = partitions;
        partition_stats = stats;
        raw = idx.raw ++ vector ∷ [];
        id_to_partition = idx.id_to_partition ++ pid ∷ [];
        payloads = idx.payloads ++ payload ∷ [];
        sq8_dirty = true;
        next_id = idx.next_id + 1;
      },
      idx.next_id,
    )

  unfoldable pub add : IvfRabitqIndex F N → List F → Panics (IvfRabitqIndex F N × ℕ)
  add idx vector = add_with_payload idx vector []

  -- `flat_search`: every raw vector, by its true distance.
  unfoldable pub flat_search : IvfRabitqIndex F N → List F → ℕ → Panics (List (ℕ × F))
  unfolding distances_from
  flat_search idx query k = do
    candidates ← distances_from 0 query idx.raw
    sorted ← sort_by_dist candidates
    some (take k sorted)

  unfoldable pub rebuild_sq8 : IvfRabitqIndex F N → Panics (IvfRabitqIndex F N)
  unfolding entry_vectors
  rebuild_sq8 idx = do
    data_all ←
        traverse (λ entries. do refs ← entry_vectors idx.raw entries; some (Sq8Data_build refs))
          idx.partitions
    some (record idx { sq8 = data_all; sq8_dirty = false })

  -- The result is `none` where the source returns `None`; a panic is the outer `none`.
  unfoldable pub sq8_distance : IvfRabitqIndex F N → List F → ℕ → Panics (Option F)
  unfolding position
  sq8_distance idx query id = elim (get_elem? idx.id_to_partition id) [
    | none ↦ some none
    | some pid ↦ elim (get_elem? idx.sq8 pid) [
      | none ↦ some none
      | some sq8 ↦ do
        entries ← get_elem? idx.partitions pid
        elim (position 0 id entries) [
          | none ↦ some none
          | some pos ↦ do
            code ← get_elem? sq8.codes pos
            d ← l2_distance_squared query (dequantize sq8 code)
            some (some d)
        ]
    ]
  ]
