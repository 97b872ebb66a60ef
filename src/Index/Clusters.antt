-- ===== src/Index/Clusters.antt =====
-- `kmeans` returns as many centroids as were asked for, each of the dimension of the vectors.
use vdb_rs.Prelude.{
  ℕ, zero, suc, ◌+◌, ◌≤◌, ◌<◌, ◌≡◌, refl, ap, sym, ◌∙◌, Bool, true, false, List, [], ◌∷◌, some,
  length, map, take, replicate, get_elem?-lt, leb, if◌then◌else◌, ◌==◌, All, All-get, All-map_pred,
  All-take, arith, length-map, length-replicate, length-set, length-take, Bool-cases, inl, inr, set,
}
use vdb_rs.Prelude.Float.{Float, flt}
use vdb_rs.Prelude.Panic.{◌>>=◌, traverse}
use vdb_rs.Index.Defs.{modify, nearest_partition}
use vdb_rs.Index.Add.{modify-lt, distance_of_length, nearest_loop-lt}
use vdb_rs.Index.Seeds.{IsShape, init_total}
use vdb_rs.Index.Kmeans.{
  add_vector, accumulate, farthest, move_centroid, move_centroids, lloyd, kmeans, differs,
}

pub All-set {κ} :
    {A : Type 0} (P : A → Type κ) (xs : List A) (i : ℕ) (a : A)
    → All P xs
    → P a
    → All P (set xs i a)
All-set P [] i a h p = tt
All-set P (x ∷ xs) zero a h p = (p, h.1)
All-set P (x ∷ xs) (suc i) a h p = (h.0, All-set P xs i a h.1 p)

take_whole : {A : Type 0} (n : ℕ) (xs : List A) → length xs ≤ n → take n xs ≡ xs
take_whole zero [] h = refl
take_whole zero (x ∷ xs) h = absurd (omega arith)
take_whole (suc n) [] h = refl
take_whole (suc n) (x ∷ xs) h = ap (◌∷◌ x) (take_whole n xs (omega arith))

pub All-replicate {κ} : {A : Type 0} (P : A → Type κ) (n : ℕ) (a : A) → P a → All P (replicate n a)
All-replicate P zero a p = tt
All-replicate P (suc n) a p = (p, All-replicate P n a p)

module _ {F : Type 0} ⦃fl : Float F⦄ where
  length-add_vector : (sum v : List F) → length (add_vector sum v) ≡ length sum
  unfolding add_vector
  length-add_vector [] v = refl
  length-add_vector (s ∷ sum) [] = refl
  length-add_vector (s ∷ sum) (x ∷ v) = ap suc (length-add_vector sum v)

  modify_sum :
      (k dim pid : ℕ) (sums : List (List F)) (v : List F)
      → pid < k
      → IsShape k dim sums
      → (out : List (List F)) × (modify sums pid (λ sum. add_vector sum v) ≡ some out)
        × IsShape k dim out
  unfolding modify
  modify_sum k dim pid sums v lt s =
      let (sum, at) = get_elem?-lt sums pid (omega (arith, s.0)) in
      (
        set sums pid (add_vector sum v),
        rw at refl,
        (
          length-set sums pid (add_vector sum v) ∙ s.0,
          All-set _ sums pid (add_vector sum v) s.1
              (length-add_vector sum v ∙ All-get _ sums pid sum s.1 at),
        ),
      )

  accumulate_total :
      (k dim : ℕ) (sums : List (List F)) (counts : List ℕ) (vectors : List (List F)) (pids : List ℕ)
      → IsShape k dim sums
      → length counts ≡ k
      → length pids ≡ length vectors
      → All (λ pid. pid < k) pids
      → (out : List (List F) × List ℕ) × (accumulate sums counts vectors pids ≡ some out)
        × IsShape k dim out.0
        × (length out.1 ≡ k)
  unfolding accumulate
  accumulate_total k dim sums counts [] pids s c l h = ((sums, counts), refl, s, c)
  accumulate_total k dim sums counts (v ∷ vectors) [] s c l h = absurd (omega arith)
  accumulate_total k dim sums counts (v ∷ vectors) (pid ∷ pids) s c l h =
      let (more, size, counted) = modify-lt counts pid suc (omega (arith, h.0, c)) in
      let (further, added, shape) = modify_sum k dim pid sums v h.0 s in
      let (out, done, rest, count) =
        accumulate_total k dim further more vectors pids shape (size ∙ c) (omega arith) h.1 in
      (out, rw (counted, added) done, rest, count)

  farthest_total :
      (i best n : ℕ) (bd : F) (vectors : List (List F)) (centroid : List F)
      → best < n
      → i + length vectors ≤ n
      → All (λ v. length v ≡ length centroid) vectors
      → (id : ℕ) × (farthest i best bd vectors centroid ≡ some id) × (id < n)
  unfolding farthest
  farthest_total i best n bd [] centroid b l h = (best, refl, b)
  farthest_total i best n bd (v ∷ vectors) centroid b l h =
      let (d, found) = distance_of_length v centroid h.0 in
      let (id, rest, lt) =
        farthest_total (suc i) (if flt bd d then i else best) n (if flt bd d then d else bd) vectors
          centroid (next (flt bd d)) (omega arith) h.1 in
      (id, rw (found, farthest) rest, lt)
    where
      next : (t : Bool) → (if t then i else best) < n
      next true = omega arith
      next false = b

  move_centroid_total :
      (dim : ℕ) (vectors : List (List F)) (c sum : List F) (count : ℕ)
      → 1 ≤ length vectors
      → All (λ v. length v ≡ dim) vectors
      → length c ≡ dim
      → length sum ≡ dim
      → (out : List F) × (move_centroid vectors c sum count ≡ some out) × (length out ≡ dim)
  unfolding move_centroid
  move_centroid_total dim vectors c sum count one h cd sd = elim (Bool-cases (count == 0)) [
    | inl t ↦
        let (id, found, lt) =
          farthest_total 0 0 (length vectors) (fl.sub fl.zero_value (fl.of_ℕ 1)) vectors c
            (omega (arith, one)) (omega arith) (All-map_pred _ _ vectors (λ v e. e ∙ sym cd) h) in
        let (v, at) = get_elem?-lt vectors id lt in
        (v, rw (t, found, at) refl, All-get _ vectors id v h at)
    | inr t ↦
        let scale : F → F = λ s. fl.mul s (fl.div (fl.of_ℕ 1) (fl.of_ℕ count)) in
        (map scale sum, rw t refl, length-map sum scale ∙ sd)
  ]

  move_centroids_total :
      (k dim : ℕ) (vectors centroids sums : List (List F)) (counts : List ℕ)
      → 1 ≤ length vectors
      → All (λ v. length v ≡ dim) vectors
      → IsShape k dim centroids
      → IsShape k dim sums
      → length counts ≡ k
      → (out : List (List F)) × (move_centroids vectors centroids sums counts ≡ some out)
        × IsShape k dim out
  unfolding move_centroids
  move_centroids_total k dim vectors [] sums counts one h s t l = ([], refl, s)
  move_centroids_total k dim vectors (c ∷ cs) [] counts one h s t l =
      absurd (omega (arith, s.0, t.0))
  move_centroids_total k dim vectors (c ∷ cs) (sum ∷ sums) [] one h s t l =
      absurd (omega (arith, s.0, l))
  move_centroids_total zero dim vectors (c ∷ cs) (sum ∷ sums) (n ∷ counts) one h s t l =
      absurd (omega (arith, l))
  move_centroids_total (suc k) dim vectors (c ∷ cs) (sum ∷ sums) (n ∷ counts) one h s t l =
      let (moved, done, wide) = move_centroid_total dim vectors c sum n one h s.1.0 t.1.0 in
      let (rest, others, shape) =
        move_centroids_total k dim vectors cs sums counts one h (omega (arith, s.0), s.1.1)
          (omega (arith, t.0), t.1.1) (omega arith) in
      (moved ∷ rest, rw (done, others) refl, (ap suc shape.0, (wide, shape.1)))

  -- Every vector is assigned to one of the centroids.
  pub nearest_total :
      (k dim : ℕ) (centroids vectors : List (List F))
      → 1 ≤ k
      → IsShape k dim centroids
      → All (λ v. length v ≡ dim) vectors
      → (pids : List ℕ) × (traverse (nearest_partition centroids) vectors ≡ some pids)
        × (length pids ≡ length vectors)
        × All (λ pid. pid < k) pids
  unfolding nearest_partition
  nearest_total k dim centroids [] pos s h = ([], refl, refl, tt)
  nearest_total k dim centroids (v ∷ vectors) pos s h =
      let (pid, lt, found) =
        nearest_loop-lt 0 0 k fl.max_value centroids v (omega (arith, pos)) (omega (arith, s.0))
          (All-map_pred _ _ centroids (λ c e. h.0 ∙ sym e) s.1) in
      let (pids, rest, size, inside) = nearest_total k dim centroids vectors pos s h.1 in
      (pid ∷ pids, rw (found, rest) refl, ap suc size, (lt, inside))

  lloyd_total :
      (n dim k : ℕ) (vectors centroids : List (List F)) (assignments : List ℕ)
      → 1 ≤ k
      → 1 ≤ length vectors
      → All (λ v. length v ≡ dim) vectors
      → IsShape k dim centroids
      → (out : List (List F)) × (lloyd n dim k vectors centroids assignments ≡ some out)
        × IsShape k dim out
  unfolding lloyd
  lloyd_total zero dim k vectors centroids assignments pos one h s = (centroids, refl, s)
  lloyd_total (suc n) dim k vectors centroids assignments pos one h s =
      let (new, found, size, inside) = nearest_total k dim centroids vectors pos s h in
      elim (Bool-cases (differs assignments new)) [
        | inr t ↦ (centroids, rw (found, ◌>>=◌, t) refl, s)
        | inl t ↦
            let zeros = replicate k (replicate dim fl.zero_value) in
            let (totals, summed, shape, counted) =
              accumulate_total k dim zeros (replicate k 0) vectors new
                (
                  length-replicate k (replicate dim fl.zero_value),
                  All-replicate _ k (replicate dim fl.zero_value)
                      (length-replicate dim fl.zero_value),
                )
                (length-replicate k 0) size inside in
            let (moved, done, moved_shape) =
              move_centroids_total k dim vectors centroids totals.0 totals.1 one h s shape
                counted in
            let (out, rest, last) = lloyd_total n dim k vectors moved new pos one h moved_shape in
            (out, rw (found, ◌>>=◌, t, summed, done) rest, last)
      ]

  -- From at least as many vectors as centroids asked for, at least one, all of one dimension,
  -- whatever is drawn at random, k-means returns that many centroids of that dimension.
  pub kmeans-IsShape :
      (vectors : List (List F)) (dim k max_iters first : ℕ) (draw : ℕ → F)
      → 1 ≤ k
      → k ≤ length vectors
      → All (λ v. length v ≡ dim) vectors
      → (centroids : List (List F)) × (kmeans vectors k max_iters first draw ≡ some centroids)
        × IsShape k dim centroids
  unfolding kmeans
  kmeans-IsShape vectors dim k max_iters first draw pos le h =
      elim (Bool-cases (leb (length vectors) k)) [
        | inl t ↦ (
          take k vectors,
          rw t refl,
          (ground (arith, length-take k vectors), All-take _ k vectors h),
        )
        | inr t ↦
            let one : 1 ≤ length vectors = omega arith in
            let (v, at) = get_elem?-lt vectors 0 (omega (arith, one)) in
            let wide = All-get _ vectors 0 v h at in
            let (centroids, started, shape) = init_total vectors dim k first draw one h pos in
            let (out, done, last) =
              lloyd_total max_iters dim k vectors centroids (replicate (length vectors) 0) pos one h
                shape in
            (out, rw (t, at, started, wide) done, last)
      ]

  -- With no more vectors than centroids asked for, the centroids are the vectors.
  pub kmeans_few :
      (vectors : List (List F)) (k max_iters first : ℕ) (draw : ℕ → F)
      → length vectors ≤ k
      → kmeans vectors k max_iters first draw ≡ some vectors
  unfolding kmeans
  kmeans_few vectors k max_iters first draw h =
      let t : leb (length vectors) k ≡ true = ground arith in
      rw t (ap some (take_whole k vectors h))
