-- ===== src/Tests/Sizes.antt =====
-- A cached file, sizes and ranked lists for the theorems on src/mmap_index.rs, src/sys_info.rs and
-- src/hybrid.rs.
use vdb_rs.Prelude.{
  All, ℕ, zero, suc, ◌+◌, ◌^◌, ◌<◌, ◌⊎◌, inl, inr, Bool-cases, leb, ◌*◌, ◌≤◌, ◌≡◌, refl, false,
  List, [], ◌∷◌, some, none, take, drop, if◌then◌else◌, arith,
}
use vdb_rs.Prelude.Assoc.{nat_eq, lookup, insert}
use vdb_rs.Hybrid.{add_lists, add_ranks, add_score, reciprocal_rank_fusion}
use vdb_rs.Hybrid.Scores.{IsUnique, fused}
use vdb_rs.Hybrid.Ranking.{IsRanked, reciprocal_rank_fusion-IsRanked}
use vdb_rs.Tests.Number.{Number, number_float}
use mathlib.Core.List.{Permᴰ}
use native.Mathlib.Nat.{mul-le-mul}
use vdb_rs.Mmap.Chunks.{Storage, read}
use vdb_rs.Mmap.Read.{IsCoherent, read-exact}
use vdb_rs.SysInfo.{
  recommend_mmap_cache_bytes, recommend_mmap_cache_bytes-le, default_num_partitions,
  recommend_num_partitions, default_num_partitions-recommend,
}

abbrev bytes : List ℕ
bytes = 10 ∷ 11 ∷ 12 ∷ 13 ∷ 14 ∷ 15 ∷ 16 ∷ []

-- Chunks of three bytes, room for one of them, and none read yet.
abbrev storage : Storage
storage = record {
  file = bytes;
  chunk_size = 3;
  max_total_bytes = 3;
  chunks = [];
  lru = [];
  current_bytes = 0;
}

storage-IsCoherent : IsCoherent bytes 3 storage
unfolding lookup
storage-IsCoherent = record { same_file = refl; same_size = refl; chunk_of = λ idx chunk e. cc }

read-exact_example :
    (next : Storage) × IsCoherent bytes 3 next
    × (read (λ i. false) storage 1 5 ≡ some (next, take 5 (drop 1 bytes)))
read-exact_example =
    read-exact bytes 3 (λ i. false) storage 1 5 (omega arith) storage-IsCoherent (omega arith)

recommend_mmap_cache_bytes-le_example :
    (recommend_mmap_cache_bytes 8589934592 ≤ recommend_mmap_cache_bytes 34359738368)
    × ((17179869184 ≤ 34359738368)
        ⊎ ((recommend_mmap_cache_bytes 34359738368 * 2 ≤ 34359738368)
            × (34359738368 ≤ recommend_mmap_cache_bytes 34359738368 * 2 + 1)))
    × ((34359738368 < 17179869184)
        ⊎ ((recommend_mmap_cache_bytes 34359738368 * 100 ≤ 34359738368 * 85)
            × (34359738368 * 85 < recommend_mmap_cache_bytes 34359738368 * 100 + 100)))
recommend_mmap_cache_bytes-le_example =
    recommend_mmap_cache_bytes-le 8589934592 34359738368 (omega arith) (omega arith)

-- The integer part of the square root, counted up.
abbrev next_root : ℕ → ℕ → ℕ
next_root n root = if leb (suc root * suc root) (suc n) then suc root else root

unfoldable integer_root : ℕ → ℕ
integer_root zero = 0
integer_root (suc n) = next_root n (integer_root n)

next_root_floor :
    (n s : ℕ)
    → (s * s ≤ n) × (n < suc s * suc s)
    → (next_root n s * next_root n s ≤ suc n) × (suc n < suc (next_root n s) * suc (next_root n s))
next_root_floor n s h = elim (Bool-cases (leb (suc s * suc s) (suc n))) [
  | inl t ↦
      let more : suc s * suc s ≤ suc (suc s) * suc s =
        mul-le-mul {n₁ = suc s} {m₁ = suc s} {n₂ = suc (suc s)} {m₂ = suc s} (omega arith)
          (omega arith) in
      let most : suc (suc s) * suc s + suc (suc s) ≡ suc (suc s) * suc (suc s) = omega arith in
      rw t (ground arith, omega (arith, h.1, more, most))
  | inr t ↦ rw t (omega (arith, h.0), ground arith)
]

integer_root_floor :
    (n : ℕ)
    → (integer_root n * integer_root n ≤ n) × (n < suc (integer_root n) * suc (integer_root n))
unfolding integer_root
integer_root_floor zero = (omega arith, omega arith)
integer_root_floor (suc n) = next_root_floor n (integer_root n) (integer_root_floor n)

default_num_partitions-recommend_example :
    (default_num_partitions integer_root 100 ≡ recommend_num_partitions integer_root 100)
    × (4 ≤ recommend_num_partitions integer_root 100)
    × (recommend_num_partitions integer_root 100 ≤ 65536)
    × ((100 < 16)
        ⊎ ((2 ^ 32 ≤ 100)
            ⊎ ((recommend_num_partitions integer_root 100
                    * recommend_num_partitions integer_root 100
                  ≤ 100)
                × (100
                    < suc (recommend_num_partitions integer_root 100)
                      * suc (recommend_num_partitions integer_root 100)))))
default_num_partitions-recommend_example =
    default_num_partitions-recommend integer_root (λ m h. integer_root_floor m) 100

abbrev one_two : List (List (ℕ × Number))
one_two = ((1, Number.num 9) ∷ (2, Number.num 8) ∷ []) ∷ ((2, Number.num 3) ∷ []) ∷ []

scores_ordered : All (λ r. number_float.is_nan r.1 ≡ false) (add_lists 60 one_two [])
unfolding add_lists add_ranks add_score insert lookup
scores_ordered = (refl, (refl, tt))

reciprocal_rank_fusion-IsRanked_example :
    (ranked : List (ℕ × Number)) × (reciprocal_rank_fusion 60 one_two ≡ some ranked)
    × IsRanked ranked
    × Permᴰ ranked (add_lists 60 one_two [])
    × IsUnique (add_lists 60 one_two [])
    × (lookup 2 (add_lists 60 one_two []) ≡ fused 60 none (2 ∷ 1 ∷ []))
reciprocal_rank_fusion-IsRanked_example =
    reciprocal_rank_fusion-IsRanked 60 2 one_two scores_ordered
