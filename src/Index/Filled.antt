-- ===== src/Index/Filled.antt =====
-- The loop of `build` puts every vector into a partition.
use vdb_rs.Prelude.{
  ℕ, suc, ◌+◌, ◌≤◌, ◌<◌, ◌≡◌, refl, sym, subst, ◌∙◌, List, [], ◌∷◌, ◌++◌, some, length,
  get_elem?-lt, set, All, All-append, All-get, All-map_pred, arith, append_assoc, append-nil,
  length-append, length-set,
}
use vdb_rs.Prelude.Float.{Float}
use vdb_rs.Stats.{update}
use vdb_rs.Quantizer.{RabitqCode, RabitqQuantizer}
use vdb_rs.Index.Defs.{modify, nearest_partition}
use vdb_rs.Index.Add.{modify-lt, encode_of_length, nearest_loop-lt}
use vdb_rs.Index.Seeds.{IsShape}
use vdb_rs.Index.Clusters.{All-set}
use vdb_rs.Index.Build.{Filled, fill}

module _ {F : Type 0} where
  modify_entries :
      (n pid : ℕ) (code : RabitqCode F) (partitions : List (List (ℕ × RabitqCode F)))
      → pid < length partitions
      → All (All (λ e. e.0 < n)) partitions
      → (out : List (List (ℕ × RabitqCode F))) × (modify partitions pid
            (λ entries. entries ++ (n, code) ∷ [])
          ≡ some out)
        × (length out ≡ length partitions)
        × All (All (λ e. e.0 < suc n)) out
  unfolding modify
  modify_entries n pid code partitions lt h =
      let (entries, at) = get_elem?-lt partitions pid lt in
      let wider =
        All-map_pred _ (All (λ e. e.0 < suc n)) partitions
          (λ es l. All-map_pred _ _ es (λ e m. omega (arith, m)) l) h in
      let new = entries ++ (n, code) ∷ [] in
      (
        set partitions pid new,
        rw at refl,
        length-set partitions pid new,
        All-set _ partitions pid new wider (
            All-append _ entries ((n, code) ∷ []) (All-get _ partitions pid entries wider at)
              (omega arith, tt)),
      )

module _ {F N : Type 0} where
  -- So many partitions, of entries of the first so many vectors.
  abbrev pub IsFilled : ℕ → ℕ → Filled F N → Type 0
  IsFilled k n parts =
      (length parts.partitions ≡ k)
      × (length parts.partition_stats ≡ k)
      × (length parts.id_to_partition ≡ n)
      × (length parts.payloads ≡ n)
      × (length parts.raw ≡ n)
      × All (All (λ e. e.0 < n)) parts.partitions

module _ {F N : Type 0} ⦃fl : Float F⦄ ⦃fn : Float N⦄ where
  pub fill_total :
      (q : RabitqQuantizer F) (c k n m : ℕ) (centroids vectors : List (List F)) (parts : Filled F N)
      → 1 ≤ c
      → c ≤ k
      → IsShape c q.config.dim centroids
      → All (λ v. length v ≡ q.config.dim) vectors
      → n + length vectors ≡ m
      → IsFilled k n parts
      → (out : Filled F N) × (fill q centroids n vectors parts ≡ some out)
        × IsFilled k m out
        × (out.raw ≡ parts.raw ++ vectors)
  unfolding fill nearest_partition
  fill_total q c k n m centroids [] parts pos le s h e f =
      (parts, refl, subst (λ j. IsFilled k j parts) (omega arith) f, sym (append-nil parts.raw))
  fill_total q c k n m centroids (v ∷ vectors) parts pos le s h e f =
      let (partition_count, stat_count, id_count, payload_count, raw_count, ids) = f in
      let (pid, lt, found) =
        nearest_loop-lt 0 0 c fl.max_value centroids v (omega (arith, pos)) (omega (arith, s.0))
          (All-map_pred _ _ centroids (λ c e. h.0 ∙ sym e) s.1) in
      let (code, encoded) = encode_of_length q v h.0 in
      let (partitions, pushed, size, inside) =
        modify_entries n pid code parts.partitions (omega (arith, partition_count, le, lt)) ids in
      let (stats, stats_size, updated) =
        modify-lt parts.partition_stats pid (λ st. update st [])
          (omega (arith, stat_count, le, lt)) in
      let next : Filled F N = record {
        partitions = partitions;
        raw = parts.raw ++ v ∷ [];
        payloads = parts.payloads ++ [] ∷ [];
        partition_stats = stats;
        id_to_partition = parts.id_to_partition ++ pid ∷ [];
      } in
      let (out, rest, filled, same) =
        fill_total q c k (suc n) m centroids vectors next pos le s h.1 (omega (arith, e)) (
          size ∙ partition_count,
          stats_size ∙ stat_count,
          omega (arith, length-append parts.id_to_partition (pid ∷ []), id_count),
          omega (arith, length-append parts.payloads ([] ∷ []), payload_count),
          omega (arith, length-append parts.raw (v ∷ []), raw_count),
          inside,
        ) in
      (
        out,
        rw (found, encoded, pushed, updated) rest,
        filled,
        same ∙ append_assoc parts.raw (v ∷ []) vectors,
      )
