-- ===== src/Search/Run.antt =====
-- `search` of src/search.rs: the filter, the partitions, the candidates, and their ranking.
use vdb_rs.Prelude.{
  ℕ, min, Bool, true, not, ◌&&◌, ◌||◌, List, [], ◌∷◌, ◌++◌, Option, none, some, length, map, take,
  get_elem?, if◌then◌else◌, ltb, ◌==◌,
}
use vdb_rs.Prelude.Float.{Float}
use vdb_rs.Prelude.Perms.{range}
use vdb_rs.Prelude.Panic.{Panics, ◌>>=◌, ◌>>◌, assert, traverse, sort_by_dist}
use vdb_rs.Simd.{dot_product, l2_distance_squared}
use vdb_rs.Sql.Predicate.{SqlPredicate}
use vdb_rs.Sql.Pushdown.{can_partition_match}
use vdb_rs.Sql.Result.{Result, ok}
use vdb_rs.Sql.Token.Lexer.{Lexis}
use vdb_rs.Sql.Filter.{parse_sql_filter}
use vdb_rs.Quantizer.{
  RabitqCode, QueryQuantizedCode, encode, encode_query_quantized, rotate_vector, norm_squared,
}
use vdb_rs.Index.Defs.{IvfRabitqIndex, sq8_distance}
use vdb_rs.Search.Defs.{SearchOptions, filter_panics, scan_partition, scan_partition_quantized}

-- `parse_sql_filter(s).ok()`
unfoldable pub ok_of {ℓ} : {A : Type ℓ} → Result A → Option A
ok_of (ok a) = some a
ok_of _ = none

module _ {N : Type 0} ⦃fn : Float N⦄ where
  unfoldable pub filter_of : Lexis N → SearchOptions → Option (SqlPredicate N)
  unfolding ok_of
  filter_of lx options = elim options.sql_filter [
    | none ↦ none
    | some s ↦ ok_of (parse_sql_filter lx s)
  ]

-- With a pool and two partitions or more, each has a thread, and the results stand in the order
-- `arrival` in which the threads take the lock.
unfoldable pub arrange : Option (List ℕ → List ℕ) → List ℕ → List ℕ
arrange none pids = pids
arrange (some arrival) pids = if ltb 1 (length pids) then arrival pids else pids

module _ {F : Type 0} ⦃fl : Float F⦄ where
  -- `unwrap_or(f32::MAX)`
  unfoldable pub or_max : Option F → F
  or_max none = fl.max_value
  or_max (some d) = d

module _ {F : Type 0} where
  unfoldable pub scan_all : (ℕ → Panics (List (ℕ × F))) → List ℕ → Panics (List (ℕ × F))
  scan_all scan [] = some []
  scan_all scan (pid ∷ pids) = do part ← scan pid; rest ← scan_all scan pids; some (part ++ rest)

module _ {F N : Type 0} ⦃fl : Float F⦄ ⦃fn : Float N⦄ where
  unfoldable pub is_eligible : IvfRabitqIndex F N → Option (SqlPredicate N) → ℕ → Panics Bool
  is_eligible idx none pid = some true
  is_eligible idx (some pred) pid = do
    st ← get_elem? idx.partition_stats pid
    some (can_partition_match pred st)

  unfoldable pub centroid_distance : IvfRabitqIndex F N → List F → ℕ → Panics (ℕ × F)
  centroid_distance idx rotated_query i = do
    rc ← get_elem? idx.rotated_centroids i
    dot ← dot_product rotated_query rc
    nsq ← get_elem? idx.rotated_centroid_norms_sq i
    some (i, fl.sub (fl.add (norm_squared rotated_query) nsq) (fl.mul (fl.of_ℕ 2) dot))

  -- The partitions to scan: those that the statistics admit, the nearest `nprobe` of them.
  unfoldable pub select_partitions :
      IvfRabitqIndex F N → List F → Option (SqlPredicate N) → ℕ → Panics (List ℕ)
  unfolding is_eligible centroid_distance
  select_partitions idx query pred nprobe = do
    eligible ← filter_panics (is_eligible idx pred) (range (length idx.partitions))
    rotated_query ← rotate_vector idx.quantizer query
    dists ← traverse (centroid_distance idx rotated_query) eligible
    sorted ← sort_by_dist dists
    some (map (λ r. r.0) (take nprobe sorted))

  -- One partition, by the quantized query where there is one.
  unfoldable pub scan_one :
      IvfRabitqIndex F N
      → RabitqCode F
      → Option (QueryQuantizedCode F)
      → Option (SqlPredicate N)
      → Bool
      → ℕ
      → Panics (List (ℕ × F))
  scan_one idx query_code none pred fastscan pid = scan_partition idx query_code pid pred fastscan
  scan_one idx query_code (some qq) pred fastscan pid = scan_partition_quantized idx qq pid pred

  unfoldable pub exact_distance : IvfRabitqIndex F N → List F → ℕ × F → Panics (ℕ × F)
  exact_distance idx query r = elim (get_elem? idx.raw r.0) [
    | none ↦ some (r.0, fl.max_value)
    | some v ↦ do d ← l2_distance_squared query v; some (r.0, d)
  ]

  unfoldable pub approximate_distance : IvfRabitqIndex F N → List F → ℕ × F → Panics (ℕ × F)
  unfolding or_max
  approximate_distance idx query r = do d ← sq8_distance idx query r.0; some (r.0, or_max d)

  unfoldable pub rerank :
      IvfRabitqIndex F N → List F → SearchOptions → ℕ → List (ℕ × F) → Panics (List (ℕ × F))
  unfolding exact_distance approximate_distance
  rerank idx query options nprobe candidates = do
    sorted ← sort_by_dist candidates
    let use_sq8 = options.sq8_refine && not idx.sq8_dirty
    let use_raw = options.refine && ltb 0 (length idx.raw) && not use_sq8
    let refine_n =
        if nprobe == length idx.partitions
        then length sorted
        else min options.refine_k (length sorted)
    if options.refine && ltb 0 options.refine_k
        then (do
          reranked ←
              (if use_raw
                then traverse (exact_distance idx query) (take refine_n sorted)
                else if use_sq8
                then traverse (approximate_distance idx query) (take refine_n sorted)
                else some (take refine_n sorted))
          sort_by_dist reranked)
        else some sorted

  unfoldable pub quantize_query :
      IvfRabitqIndex F N → List F → ℕ → Panics (Option (QueryQuantizedCode F))
  quantize_query idx query query_bits =
      if ltb 0 query_bits
      then (do qq ← encode_query_quantized idx.quantizer query query_bits; some (some qq))
      else some none

  unfoldable pub search :
      Lexis N
      → IvfRabitqIndex F N
      → List F
      → SearchOptions
      → Option (List ℕ → List ℕ)
      → Panics (List (ℕ × F))
  unfolding filter_of quantize_query select_partitions scan_one scan_all arrange rerank
  search lx idx query options pool = do
    assert (length query == idx.config.dim)
    if length idx.raw == 0 || options.k == 0 then some [] else (do
      let n = length idx.partitions
      let nprobe = if options.nprobe == 0 then n else min options.nprobe n
      let pred = filter_of lx options
      query_code ← encode idx.quantizer query
      qq ← quantize_query idx query options.query_bits
      selected ← select_partitions idx query pred nprobe
      candidates ←
          scan_all (scan_one idx query_code qq pred options.fastscan) (arrange pool selected)
      if length candidates == 0 then some [] else (do
        refined ← rerank idx query options nprobe candidates
        some (take options.k refined)))
