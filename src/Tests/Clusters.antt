-- ===== src/Tests/Clusters.antt =====
-- Vectors of 64 coordinates, for the theorems on k-means and on building an index.
use vdb_rs.Prelude.{
  ℕ, ◌<◌, ◌≡◌, refl, List, [], ◌∷◌, some, length, replicate, ltb, if◌then◌else◌, arith, All,
}
use vdb_rs.Index.Defs.{IvfRabitqIndex}
use vdb_rs.Index.Kmeans.{kmeans}
use vdb_rs.Index.Seeds.{IsShape}
use vdb_rs.Index.Clusters.{kmeans-IsShape}
use vdb_rs.Index.Build.{build}
use vdb_rs.Index.Built.{build-few}
use vdb_rs.Tests.Number.{Number, number_float}

abbrev vector : ℕ → List Number
vector n = replicate 64 (Number.num n)

abbrev draw : ℕ → Number
draw n = Number.num n

abbrev two : List (List Number)
two = vector 3 ∷ vector 8 ∷ []

abbrev five : List (List Number)
five = vector 1 ∷ vector 2 ∷ vector 9 ∷ two

abbrev isqrt : ℕ → ℕ
isqrt n = if ltb n 25 then 2 else 5

kmeans-IsShape_example :
    (centroids : List (List Number)) × (kmeans five 2 20 7 draw ≡ some centroids)
    × IsShape 2 64 centroids
kmeans-IsShape_example =
    kmeans-IsShape five 64 2 20 7 draw (omega arith) (omega arith)
      (refl, (refl, (refl, (refl, (refl, tt)))))

build-few_example :
    (idx : IvfRabitqIndex Number Number) × (build isqrt [] 7 draw two ≡ some idx)
    × (idx.raw ≡ two)
    × (length idx.partitions ≡ 4)
    × (idx.centroids ≡ two)
    × All (All (λ e. e.0 < 2)) idx.partitions
build-few_example =
    build-few isqrt [] 7 draw two 64 (omega arith) (omega arith) (refl, (refl, tt)) refl
