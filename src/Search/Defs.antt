-- ===== src/Search/Defs.antt =====
-- `SearchOptions`, `search`, `scan_partition` and `scan_partition_quantized` of src/search.rs.
use vdb_rs.Prelude.{
  ℕ, zero, suc, ◌/◌, ◌%◌, ◌^◌, Bool, true, false, List, [], ◌∷◌, ◌++◌, Option, none, some, length,
  map, take, drop, get_elem?, if◌then◌else◌, ◌==◌,
}
use vdb_rs.Prelude.Assoc.{Str}
use vdb_rs.Prelude.Float.{Float}
use vdb_rs.Prelude.Panic.{Panics, ◌>>=◌}
use vdb_rs.Simd.{batch_hamming_distance}
use vdb_rs.Sql.Predicate.{SqlPredicate}
use vdb_rs.Sql.Eval.{eval}
use vdb_rs.Quantizer.{
  RabitqCode, QueryQuantizedCode, estimate_distance_sq, estimate_distance_from_hamming, value,
}
use vdb_rs.Index.Defs.{IvfRabitqIndex}

pub record SearchOptions : Type 0 where
  pub k : ℕ
  -- Zero scans every partition.
  pub nprobe : ℕ
  pub refine : Bool
  pub refine_k : ℕ
  pub fastscan : Bool
  -- Zero leaves the query as it is.
  pub query_bits : ℕ
  pub sq8_refine : Bool
  pub sql_filter : Option Str

abbrev pub default_options : SearchOptions
default_options = record {
  k = 10;
  nprobe = 0;
  refine = true;
  refine_k = 100;
  fastscan = true;
  query_bits = 0;
  sq8_refine = false;
  sql_filter = none;
}

-- The entries that a scan keeps, in order, by a test that may panic.
unfoldable pub filter_panics {ℓ} : {A : Type ℓ} → (A → Panics Bool) → List A → Panics (List A)
filter_panics p [] = some []
filter_panics p (x ∷ xs) = do
  keep ← p x
  rest ← filter_panics p xs
  some (if keep then x ∷ rest else rest)

abbrev pub batch_size : ℕ
batch_size = 64

module _ {F : Type 0} ⦃fl : Float F⦄ where
  -- The sum of the query's levels at the bits of the code that are set.
  unfoldable pub sum_positive : ℕ → ℕ → QueryQuantizedCode F → List ℕ → F → Panics F
  sum_positive d zero query_code bits sum = some sum
  sum_positive d (suc n) query_code bits sum = do
    byte ← get_elem? bits (d / 8)
    level ←
        (if byte / 2 ^ (d % 8) % 2 == 1
          then (do v ← value query_code d; some (some v))
          else some none)
    sum_positive (suc d) n query_code bits
        (elim level [ none ↦ sum | some v ↦ fl.add sum (fl.of_ℕ v) ])

  unfoldable pub estimate_distance_quantized : ℕ → QueryQuantizedCode F → RabitqCode F → Panics F
  unfolding sum_positive
  estimate_distance_quantized dim query_code code = do
    sum_pos ← sum_positive 0 dim query_code code.bits fl.zero_value
    let sum = fl.sub (fl.mul (fl.of_ℕ 2) sum_pos) query_code.total_sum
    let dot = fl.div (fl.mul (fl.mul code.beta query_code.scale) sum) (fl.of_ℕ dim)
    some (fl.sub (fl.add query_code.alpha code.alpha) (fl.mul (fl.of_ℕ 2) dot))

module _ {F N : Type 0} ⦃fl : Float F⦄ ⦃fn : Float N⦄ where
  unfoldable pub passes_predicate : IvfRabitqIndex F N → ℕ → Option (SqlPredicate N) → Bool
  passes_predicate idx id none = true
  passes_predicate idx id (some pred) = elim (get_elem? idx.payloads id) [
    | none ↦ false
    | some p ↦ eval pred p
  ]

  -- The loop without batches.
  unfoldable pub scan_plain :
      IvfRabitqIndex F N
      → RabitqCode F
      → Option (SqlPredicate N)
      → List (ℕ × RabitqCode F)
      → Panics (List (ℕ × F))
  scan_plain idx query_code pred [] = some []
  scan_plain idx query_code pred ((id, code) ∷ entries) =
      let rest = scan_plain idx query_code pred entries in
      if passes_predicate idx id pred
      then (do
        dist ← estimate_distance_sq idx.quantizer query_code code
        more ← rest
        some ((id, dist) ∷ more))
      else rest

  -- The inner loop over one batch and its Hamming distances.
  unfoldable pub score_batch :
      IvfRabitqIndex F N
      → RabitqCode F
      → Option (SqlPredicate N)
      → List (ℕ × RabitqCode F)
      → List ℕ
      → Panics (List (ℕ × F))
  score_batch idx query_code pred [] out = some []
  score_batch idx query_code pred (e ∷ entries) [] = none
  score_batch idx query_code pred ((id, code) ∷ entries) (hamming ∷ out) = do
    more ← score_batch idx query_code pred entries out
    some (
        if passes_predicate idx id pred
        then (id, estimate_distance_from_hamming idx.config.dim query_code code hamming) ∷ more
        else more)

  -- The `while` over the batches, by fuel; a batch has an entry at least.
  unfoldable pub scan_batches :
      ℕ
      → IvfRabitqIndex F N
      → RabitqCode F
      → Option (SqlPredicate N)
      → List (ℕ × RabitqCode F)
      → Panics (List (ℕ × F))
  unfolding score_batch
  scan_batches f idx query_code pred [] = some []
  scan_batches zero idx query_code pred (e ∷ entries) = none
  scan_batches (suc f) idx query_code pred (e ∷ entries) =
      let rest = scan_batches f idx query_code pred (drop batch_size (e ∷ entries)) in
      do
        out ←
            batch_hamming_distance query_code.bits
              (map (λ x. x.1.bits) (take batch_size (e ∷ entries)))
        scores ← score_batch idx query_code pred (take batch_size (e ∷ entries)) out
        more ← rest
        some (scores ++ more)

  unfoldable pub scan_partition :
      IvfRabitqIndex F N → RabitqCode F → ℕ → Option (SqlPredicate N) → Bool → Panics (List (ℕ × F))
  unfolding scan_plain scan_batches
  scan_partition idx query_code pid pred fastscan = do
    entries ← get_elem? idx.partitions pid
    if fastscan
        then scan_batches (length entries) idx query_code pred entries
        else scan_plain idx query_code pred entries

  unfoldable pub scan_quantized :
      IvfRabitqIndex F N
      → QueryQuantizedCode F
      → Option (SqlPredicate N)
      → List (ℕ × RabitqCode F)
      → Panics (List (ℕ × F))
  unfolding estimate_distance_quantized
  scan_quantized idx query_code pred [] = some []
  scan_quantized idx query_code pred ((id, code) ∷ entries) =
      let rest = scan_quantized idx query_code pred entries in
      if passes_predicate idx id pred
      then (do
        dist ← estimate_distance_quantized idx.config.dim query_code code
        more ← rest
        some ((id, dist) ∷ more))
      else rest

  unfoldable pub scan_partition_quantized :
      IvfRabitqIndex F N
      → QueryQuantizedCode F
      → ℕ
      → Option (SqlPredicate N)
      → Panics (List (ℕ × F))
  unfolding scan_quantized
  scan_partition_quantized idx query_code pid pred = do
    entries ← get_elem? idx.partitions pid
    scan_quantized idx query_code pred entries
