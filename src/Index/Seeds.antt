-- ===== src/Index/Seeds.antt =====
-- `kmeans_plus_plus_init` chooses as many vectors as were asked for.
use vdb_rs.Prelude.{
  ℕ, zero, suc, ◌+◌, ◌-◌, ◌%◌, ◌≤◌, ◌<◌, ◌≡◌, refl, ap, sym, ◌∙◌, List, [], ◌∷◌, ◌++◌, some, length,
  replicate, get_elem?-lt, if◌then◌else◌, All, All-append, All-get, arith, length-append,
  length-replicate, Bool-cases, inl, inr,
}
use native.Mathlib.Nat.{mod-lt}
use vdb_rs.Prelude.Float.{Float, flt, fle}
use vdb_rs.Index.Add.{distance_of_length}
use vdb_rs.Index.Kmeans.{shrink, choose, init_loop, kmeans_plus_plus_init}

module _ {F : Type 0} ⦃fl : Float F⦄ where
  -- So many vectors of this length.
  abbrev pub IsShape : ℕ → ℕ → List (List F) → Type 0
  IsShape n dim vs = (length vs ≡ n) × All (λ v. length v ≡ dim) vs

  shrink_total :
      (dim : ℕ) (last : List F) (vs : List (List F)) (dists : List F) (total : F)
      → length last ≡ dim
      → All (λ v. length v ≡ dim) vs
      → length dists ≡ length vs
      → (out : List F × F) × (shrink last vs dists total ≡ some out) × (length out.0 ≡ length vs)
  unfolding shrink
  shrink_total dim last [] dists total l h n = (([], total), refl, refl)
  shrink_total dim last (v ∷ vs) [] total l h n = absurd (omega arith)
  shrink_total dim last (v ∷ vs) (dist ∷ dists) total l h n =
      let (d, found) = distance_of_length v last (h.0 ∙ sym l) in
      let kept = if flt d dist then d else dist in
      let (rest, passed, size) =
        shrink_total dim last vs dists (fl.add total kept) l h.1 (omega arith) in
      ((kept ∷ rest.0, rest.1), rw (found, passed) refl, ap suc size)

  choose-lt :
      (i n : ℕ) (acc threshold : F) (dists : List F)
      → 1 ≤ n
      → i + length dists ≤ n
      → choose i acc threshold dists < n
  unfolding choose
  choose-lt i n acc threshold [] one h = omega arith
  choose-lt i n acc threshold (d ∷ dists) one h = elim (Bool-cases (fle threshold (fl.add acc d))) [
    | inl t ↦ rw t (omega arith)
    | inr t ↦ rw t (choose-lt (suc i) n (fl.add acc d) threshold dists one (omega arith))
  ]

  init_loop_total :
      (vectors : List (List F)) (dim : ℕ) (draw : ℕ → F) (n k : ℕ) (centroids : List (List F))
      (dists : List F)
      → 1 ≤ length vectors
      → All (λ v. length v ≡ dim) vectors
      → IsShape k dim centroids
      → 1 ≤ k
      → length dists ≡ length vectors
      → (out : List (List F)) × (init_loop vectors draw n centroids dists ≡ some out)
        × IsShape (k + n) dim out
  unfolding init_loop
  init_loop_total vectors dim draw zero k centroids dists one h s pos l =
      (centroids, refl, (omega (arith, s.0), s.1))
  init_loop_total vectors dim draw (suc n) k centroids dists one h s pos l =
      let (last, at_last) = get_elem?-lt centroids (length centroids - 1) (omega (arith, s.0)) in
      let wide = All-get _ centroids (length centroids - 1) last s.1 at_last in
      let (pass, passed, size) = shrink_total dim last vectors dists fl.zero_value wide h l in
      let place =
        if fle pass.1 fl.zero_value
        then length centroids % length vectors
        else choose 0 fl.zero_value (fl.mul (draw n) pass.1) pass.0 in
      let inside : place < length vectors = placed pass size in
      let (v, at_place) = get_elem?-lt vectors place inside in
      let (out, done, shape) =
        init_loop_total vectors dim draw n (k + 1) (centroids ++ v ∷ []) pass.0 one h
          (
            omega (arith, length-append centroids (v ∷ []), s.0),
            All-append _ centroids (v ∷ []) s.1 (All-get _ vectors place v h at_place, tt),
          )
          (omega arith) size in
      (out, rw (at_last, passed, at_place) done, (omega (arith, shape.0), shape.1))
    where
      placed :
          (pass : List F × F)
          → length pass.0 ≡ length vectors
          → (if fle pass.1 fl.zero_value
              then length centroids % length vectors
              else choose 0 fl.zero_value (fl.mul (draw n) pass.1) pass.0)
            < length vectors
      placed pass size = elim (Bool-cases (fle pass.1 fl.zero_value)) [
        | inl t ↦ rw t (mod-lt (length centroids) one)
        | inr t ↦ rw t (
            choose-lt 0 (length vectors) fl.zero_value (fl.mul (draw n) pass.1) pass.0 one
              (omega (arith, size)))
      ]

  pub init_total :
      (vectors : List (List F)) (dim k first : ℕ) (draw : ℕ → F)
      → 1 ≤ length vectors
      → All (λ v. length v ≡ dim) vectors
      → 1 ≤ k
      → (out : List (List F)) × (kmeans_plus_plus_init vectors k first draw ≡ some out)
        × IsShape k dim out
  unfolding kmeans_plus_plus_init
  init_total vectors dim k first draw one h pos =
      let (v, at_first) = get_elem?-lt vectors (first % length vectors) (mod-lt first one) in
      let wide = All-get _ vectors (first % length vectors) v h at_first in
      let (out, done, shape) =
        init_loop_total vectors dim draw (k - 1) 1 (v ∷ [])
          (replicate (length vectors) fl.max_value) one h (refl, (wide, tt)) (omega arith)
          (length-replicate (length vectors) fl.max_value) in
      (out, rw at_first done, (omega (arith, shape.0), shape.1))
