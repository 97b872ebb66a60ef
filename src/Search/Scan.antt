-- ===== src/Search/Scan.antt =====
-- The scan in batches finds what the scan one by one finds.
use vdb_rs.Prelude.{
  ℕ, zero, suc, ◌≤◌, ◌≡◌, refl, ap, sym, ◌∙◌, true, false, List, [], ◌∷◌, ◌++◌, Option, some,
  length, take, drop, map, get_elem?, All, All-take, arith, ◌==◌, if◌then◌else◌, take-append-drop,
  length-drop, Bool-cases, inl, inr,
}
use vdb_rs.Prelude.Float.{Float}
use vdb_rs.Prelude.Panic.{traverse}
use vdb_rs.Simd.{hamming_distance, hamming_distance_fallback, batch_hamming_distance}
use vdb_rs.Sql.Predicate.{SqlPredicate}
use vdb_rs.Quantizer.{
  RabitqCode, RabitqQuantizer, estimate_distance_sq, estimate_distance_from_hamming,
}
use vdb_rs.Index.Defs.{IvfRabitqIndex}
use vdb_rs.Search.Defs.{
  passes_predicate, scan_plain, score_batch, scan_batches, batch_size, scan_partition,
}

hamming_of_length :
    (a b : List ℕ)
    → length a ≡ length b
    → hamming_distance a b ≡ some (hamming_distance_fallback a b)
unfolding hamming_distance
hamming_of_length a b h = let same : (length a == length b) ≡ true = ground arith in rw same refl

module _ {F : Type 0} where
  abbrev pub HasLength : RabitqCode F → ℕ × RabitqCode F → Type 0
  HasLength query_code e = length query_code.bits ≡ length (e.1.bits)

  -- Every Hamming distance of a batch is found.
  batch-distances :
      (query_code : RabitqCode F) (entries : List (ℕ × RabitqCode F))
      → All (HasLength query_code) entries
      → traverse (hamming_distance query_code.bits) (map (λ x. x.1.bits) entries)
        ≡ some (map (λ x. hamming_distance_fallback query_code.bits x.1.bits) entries)
  batch-distances query_code [] h = refl
  batch-distances query_code (e ∷ entries) h =
      rw (hamming_of_length query_code.bits e.1.bits h.0, batch-distances query_code entries h.1)
        refl

  All-drop :
      (query_code : RabitqCode F) (n : ℕ) (entries : List (ℕ × RabitqCode F))
      → All (HasLength query_code) entries
      → All (HasLength query_code) (drop n entries)
  All-drop query_code zero entries h = h
  All-drop query_code (suc n) [] h = tt
  All-drop query_code (suc n) (e ∷ entries) h = All-drop query_code n entries h.1

module _ {F : Type 0} ⦃fl : Float F⦄ where
  estimate-of_length :
      (q : RabitqQuantizer F) (query_code code : RabitqCode F) (dim : ℕ)
      → dim ≡ q.config.dim
      → length query_code.bits ≡ length code.bits
      → estimate_distance_sq q query_code code
        ≡ some (
            estimate_distance_from_hamming dim query_code code
              (hamming_distance_fallback query_code.bits code.bits))
  unfolding estimate_distance_sq
  estimate-of_length q query_code code dim d h =
      rw (hamming_of_length query_code.bits code.bits h) (
        ap
          (λ n. some (
            estimate_distance_from_hamming n query_code code
              (hamming_distance_fallback query_code.bits code.bits)))
          (sym d))

module _ {F N : Type 0} ⦃fl : Float F⦄ ⦃fn : Float N⦄ where
  -- What a scan finds where no code has a wrong length: the entries that pass, in order, each with
  -- its estimate.
  unfoldable pub found :
      IvfRabitqIndex F N
      → RabitqCode F
      → Option (SqlPredicate N)
      → List (ℕ × RabitqCode F)
      → List (ℕ × F)
  found idx query_code pred [] = []
  found idx query_code pred ((id, code) ∷ entries) =
      if passes_predicate idx id pred
      then (
        id,
        estimate_distance_from_hamming idx.config.dim query_code code
            (hamming_distance_fallback query_code.bits code.bits),
      )
        ∷ found idx query_code pred entries
      else found idx query_code pred entries

  pub scan_plain-found :
      (idx : IvfRabitqIndex F N) (query_code : RabitqCode F) (pred : Option (SqlPredicate N))
      (entries : List (ℕ × RabitqCode F))
      → idx.config.dim ≡ idx.quantizer.config.dim
      → All (HasLength query_code) entries
      → scan_plain idx query_code pred entries ≡ some (found idx query_code pred entries)
  unfolding scan_plain found
  scan_plain-found idx query_code pred [] d h = refl
  scan_plain-found idx query_code pred ((id, code) ∷ entries) d h =
      elim (Bool-cases (passes_predicate idx id pred)) [
        | inl t ↦
            rw
              (
                t,
                estimate-of_length idx.quantizer query_code code idx.config.dim d h.0,
                scan_plain-found idx query_code pred entries d h.1,
              )
              refl
        | inr t ↦ rw t (scan_plain-found idx query_code pred entries d h.1)
      ]

  found-append :
      (idx : IvfRabitqIndex F N) (query_code : RabitqCode F) (pred : Option (SqlPredicate N))
      (xs ys : List (ℕ × RabitqCode F))
      → found idx query_code pred (xs ++ ys)
        ≡ found idx query_code pred xs ++ found idx query_code pred ys
  unfolding found
  found-append idx query_code pred [] ys = refl
  found-append idx query_code pred ((id, code) ∷ xs) ys =
      elim (Bool-cases (passes_predicate idx id pred)) [
        | inl t ↦ rw (t, found-append idx query_code pred xs ys) refl
        | inr t ↦ rw (t, found-append idx query_code pred xs ys) refl
      ]

  score_batch-found :
      (idx : IvfRabitqIndex F N) (query_code : RabitqCode F) (pred : Option (SqlPredicate N))
      (entries : List (ℕ × RabitqCode F))
      → score_batch idx query_code pred entries
          (map (λ x. hamming_distance_fallback query_code.bits x.1.bits) entries)
        ≡ some (found idx query_code pred entries)
  unfolding score_batch found
  score_batch-found idx query_code pred [] = refl
  score_batch-found idx query_code pred ((id, code) ∷ entries) =
      elim (Bool-cases (passes_predicate idx id pred)) [
        | inl t ↦ rw (t, score_batch-found idx query_code pred entries) refl
        | inr t ↦ rw (t, score_batch-found idx query_code pred entries) refl
      ]

  scan_batches-found :
      (fuel : ℕ) (idx : IvfRabitqIndex F N) (query_code : RabitqCode F)
      (pred : Option (SqlPredicate N)) (entries : List (ℕ × RabitqCode F))
      → length entries ≤ fuel
      → All (HasLength query_code) entries
      → scan_batches fuel idx query_code pred entries ≡ some (found idx query_code pred entries)
  unfolding scan_batches batch_hamming_distance found
  scan_batches-found fuel idx query_code pred [] f h = refl
  scan_batches-found zero idx query_code pred (e ∷ entries) f h = absurd (omega arith)
  scan_batches-found (suc fuel) idx query_code pred (e ∷ entries) f h =
      let all = e ∷ entries in
      let rest =
        scan_batches-found fuel idx query_code pred (drop batch_size all)
          (omega (arith, length-drop batch_size all)) (All-drop query_code batch_size all h) in
      let split : found idx query_code pred (take batch_size all)
            ++ found idx query_code pred (drop batch_size all)
          ≡ found idx query_code pred all =
        sym (found-append idx query_code pred (take batch_size all) (drop batch_size all))
        ∙ ap (found idx query_code pred) (take-append-drop batch_size all) in
      rw
        (
          batch-distances query_code (take batch_size all)
              (All-take (HasLength query_code) batch_size all h),
          score_batch-found idx query_code pred (take batch_size all),
          rest,
        )
        (ap some split)

  -- Where the index's dimension is its quantizer's, and every code of the partition is as long as
  -- the query's, the scan in batches of 64 and the scan one by one both return, and find the same
  -- entries in the same order at the same distances.
  pub scan_partition-fastscan :
      (idx : IvfRabitqIndex F N) (query_code : RabitqCode F) (pid : ℕ)
      (pred : Option (SqlPredicate N)) (entries : List (ℕ × RabitqCode F))
      → idx.config.dim ≡ idx.quantizer.config.dim
      → get_elem? idx.partitions pid ≡ some entries
      → All (HasLength query_code) entries
      → (scan_partition idx query_code pid pred true ≡ some (found idx query_code pred entries))
        × (scan_partition idx query_code pid pred false ≡ some (found idx query_code pred entries))
  unfolding scan_partition
  scan_partition-fastscan idx query_code pid pred entries d e h = (
    rw e (scan_batches-found (length entries) idx query_code pred entries (omega arith) h),
    rw e (scan_plain-found idx query_code pred entries d h),
  )
