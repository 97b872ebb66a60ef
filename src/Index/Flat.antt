-- ===== src/Index/Flat.antt =====
-- The exhaustive search finds the nearest vectors.
use mathlib.Core.List.{Permᴰ}
use vdb_rs.Prelude.{
  ℕ, suc, ◌≡◌, refl, true, false, List, [], ◌∷◌, some, length, take, All, arith, ◌==◌,
}
use vdb_rs.Prelude.Float.{Float}
use vdb_rs.Prelude.Sort.{sort, IsSorted, sort-perm, sort-IsSorted}
use vdb_rs.Prelude.Panic.{dist_key, sort_by_dist_ordered}
use vdb_rs.Simd.{sum_zip, squared_difference, l2_distance_squared}
use vdb_rs.Index.Defs.{IvfRabitqIndex, distances_from, flat_search}

module _ {F : Type 0} ⦃fl : Float F⦄ where
  -- The sum of the squared differences, where the lengths agree.
  abbrev pub distance : List F → List F → F
  distance query v = sum_zip squared_difference fl.zero_value query v

  -- Every vector's identifier and distance.
  unfoldable pub true_distances : ℕ → List F → List (List F) → List (ℕ × F)
  true_distances i query [] = []
  true_distances i query (v ∷ vs) = (i, distance query v) ∷ true_distances (suc i) query vs

  l2_of_length :
      (a b : List F) → length a ≡ length b → l2_distance_squared a b ≡ some (distance a b)
  unfolding l2_distance_squared
  l2_of_length a b h = let same : (length a == length b) ≡ true = ground arith in rw same refl

  distances_from-true :
      (i : ℕ) (query : List F) (vs : List (List F))
      → All (λ v. length query ≡ length v) vs
      → distances_from i query vs ≡ some (true_distances i query vs)
  unfolding distances_from true_distances
  distances_from-true i query [] h = refl
  distances_from-true i query (v ∷ vs) h =
      rw (l2_of_length query v h.0, distances_from-true (suc i) query vs h.1) refl

module _ {F N : Type 0} ⦃fl : Float F⦄ ⦃fn : Float N⦄ where
  -- Where every vector has the length of the query and no distance is NaN, the search returns the
  -- first `k` of all vectors sorted by their distances: of the vectors' identifiers with their
  -- distances, each once, in ascending order.
  pub flat_search-nearest :
      (idx : IvfRabitqIndex F N) (query : List F) (k : ℕ)
      → All (λ v. length query ≡ length v) idx.raw
      → All (λ r. fl.is_nan r.1 ≡ false) (true_distances 0 query idx.raw)
      → (ranked : List (ℕ × F)) × Permᴰ ranked (true_distances 0 query idx.raw)
        × IsSorted dist_key ranked
        × (flat_search idx query k ≡ some (take k ranked))
  unfolding flat_search
  flat_search-nearest idx query k h ordered =
      let all = true_distances 0 query idx.raw in
      (
        sort dist_key all,
        sort-perm dist_key all,
        sort-IsSorted dist_key all,
        rw (distances_from-true 0 query idx.raw h, sort_by_dist_ordered all ordered) refl,
      )
