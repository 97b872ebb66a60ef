-- ===== src/Index/Kmeans.antt =====
-- `kmeans` of src/index_ivf_rq.rs. The numbers drawn at random are arguments. Vectors that differ in
-- length make the distances panic before the sums are taken.
use vdb_rs.Prelude.{
  ℕ, zero, suc, ◌-◌, ◌%◌, Bool, true, false, not, ◌||◌, List, [], ◌∷◌, ◌++◌, none, some, length,
  map, take, replicate, get_elem?, leb, if◌then◌else◌, ◌==◌,
}
use vdb_rs.Prelude.Float.{Float, flt, fle}
use vdb_rs.Prelude.Panic.{Panics, ◌>>=◌, traverse}
use vdb_rs.Simd.{l2_distance_squared}
use vdb_rs.Index.Defs.{modify, nearest_partition}

-- `assignments[i] != new_pid` for some vector.
unfoldable pub differs : List ℕ → List ℕ → Bool
differs [] new = false
differs (a ∷ old) [] = false
differs (a ∷ old) (b ∷ new) = not (a == b) || differs old new

module _ {F : Type 0} ⦃fl : Float F⦄ where
  -- The distances to the nearest centroid so far, with the last centroid taken in, and their sum.
  unfoldable pub shrink : List F → List (List F) → List F → F → Panics (List F × F)
  shrink last [] dists total = some ([], total)
  shrink last (v ∷ vs) [] total = none
  shrink last (v ∷ vs) (dist ∷ dists) total = do
    d ← l2_distance_squared v last
    let kept = if flt d dist then d else dist
    rest ← shrink last vs dists (fl.add total kept)
    some (kept ∷ rest.0, rest.1)

  -- The first place at which the running sum reaches the threshold, else the place 0.
  unfoldable pub choose : ℕ → F → F → List F → ℕ
  choose i acc threshold [] = 0
  choose i acc threshold (d ∷ dists) =
      if fle threshold (fl.add acc d) then i else choose (suc i) (fl.add acc d) threshold dists

  -- The rounds of the loop; `draw` is the number drawn with so many rounds to go.
  unfoldable pub init_loop :
      List (List F) → (ℕ → F) → ℕ → List (List F) → List F → Panics (List (List F))
  unfolding shrink choose
  init_loop vectors draw zero centroids dists = some centroids
  init_loop vectors draw (suc n) centroids dists = do
    last ← get_elem? centroids (length centroids - 1)
    pass ← shrink last vectors dists fl.zero_value
    v ← get_elem? vectors (
        if fle pass.1 fl.zero_value
        then length centroids % length vectors
        else choose 0 fl.zero_value (fl.mul (draw n) pass.1) pass.0)
    init_loop vectors draw n (centroids ++ v ∷ []) pass.0

  unfoldable pub kmeans_plus_plus_init : List (List F) → ℕ → ℕ → (ℕ → F) → Panics (List (List F))
  unfolding init_loop
  kmeans_plus_plus_init vectors k first draw = do
    v ← get_elem? vectors (first % length vectors)
    init_loop vectors draw (k - 1) (v ∷ []) (replicate (length vectors) fl.max_value)

  -- `sums[pid][d] += v[d]` for every coordinate.
  unfoldable pub add_vector : List F → List F → List F
  add_vector [] v = []
  add_vector (s ∷ sum) [] = s ∷ sum
  add_vector (s ∷ sum) (x ∷ v) = fl.add s x ∷ add_vector sum v

  -- The sums and the numbers of the vectors of each partition.
  unfoldable pub accumulate :
      List (List F) → List ℕ → List (List F) → List ℕ → Panics (List (List F) × List ℕ)
  unfolding modify add_vector
  accumulate sums counts [] pids = some (sums, counts)
  accumulate sums counts (v ∷ vectors) [] = none
  accumulate sums counts (v ∷ vectors) (pid ∷ pids) = do
    more ← modify counts pid suc
    further ← modify sums pid (λ sum. add_vector sum v)
    accumulate further more vectors pids

  -- The loop that looks for the vector farthest from an empty partition's centroid.
  unfoldable pub farthest : ℕ → ℕ → F → List (List F) → List F → Panics ℕ
  farthest i best best_dist [] centroid = some best
  farthest i best best_dist (v ∷ vectors) centroid = do
    d ← l2_distance_squared v centroid
    farthest (suc i) (if flt best_dist d then i else best)
        (if flt best_dist d then d else best_dist) vectors centroid

  unfoldable pub move_centroid : List (List F) → List F → List F → ℕ → Panics (List F)
  unfolding farthest
  move_centroid vectors centroid sum count =
      if count == 0
      then (do
        id ← farthest 0 0 (fl.sub fl.zero_value (fl.of_ℕ 1)) vectors centroid
        get_elem? vectors id)
      else some (map (λ s. fl.mul s (fl.div (fl.of_ℕ 1) (fl.of_ℕ count))) sum)

  unfoldable pub move_centroids :
      List (List F) → List (List F) → List (List F) → List ℕ → Panics (List (List F))
  unfolding move_centroid
  move_centroids vectors [] sums counts = some []
  move_centroids vectors (c ∷ centroids) (sum ∷ sums) (count ∷ counts) = do
    moved ← move_centroid vectors c sum count
    rest ← move_centroids vectors centroids sums counts
    some (moved ∷ rest)
  move_centroids vectors (c ∷ centroids) _ _ = none

  -- The loop of at most so many rounds, which ends early when no vector has moved.
  unfoldable pub lloyd : ℕ → ℕ → ℕ → List (List F) → List (List F) → List ℕ → Panics (List (List F))
  unfolding differs accumulate move_centroids
  lloyd zero dim k vectors centroids assignments = some centroids
  lloyd (suc n) dim k vectors centroids assignments = do
    new ← traverse (nearest_partition centroids) vectors
    elim (differs assignments new) [
      | false ↦ some centroids
      | true ↦ do
        totals ← accumulate (replicate k (replicate dim fl.zero_value)) (replicate k 0) vectors new
        moved ← move_centroids vectors centroids totals.0 totals.1
        lloyd n dim k vectors moved new
    ]

  unfoldable pub kmeans : List (List F) → ℕ → ℕ → ℕ → (ℕ → F) → Panics (List (List F))
  unfolding kmeans_plus_plus_init lloyd
  kmeans vectors k max_iters first draw =
      if leb (length vectors) k then some (take k vectors) else (do
        v ← get_elem? vectors 0
        centroids ← kmeans_plus_plus_init vectors k first draw
        lloyd max_iters (length v) k vectors centroids (replicate (length vectors) 0))
