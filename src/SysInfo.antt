-- ===== src/SysInfo.antt =====
-- src/sys_info.rs, and `default_num_partitions` of src/index_ivf_rq.rs. The square root of a number
-- of vectors, rounded down, is a parameter.
use native.Mathlib.Nat.{mul-le-mul}
use vdb_rs.Prelude.{
  ℕ, suc, ◌*◌, ◌+◌, ◌⊎◌, subst, sym, false, ◌/◌, ◌%◌, ◌^◌, ◌≤◌, ◌<◌, ◌≡◌, refl, min, max, Bool,
  true, Option, none, some, ltb, leb, if◌then◌else◌, arith, Bool-cases, inl, inr,
}

abbrev pub memory_threshold : ℕ
memory_threshold = 16 * 1024 * 1024 * 1024

-- The products wrap around at 64 bits.
unfoldable pub recommend_mmap_cache_bytes : ℕ → ℕ
recommend_mmap_cache_bytes memory_bytes =
    if ltb memory_bytes memory_threshold
    then memory_bytes * 50 % 2 ^ 64 / 100
    else memory_bytes * 85 % 2 ^ 64 / 100

unfoldable pub clamp : ℕ → ℕ → ℕ → ℕ
clamp n low high = min (max n low) high

pub record LatencyOptions : Type 0 where
  pub nprobe : ℕ
  pub refine_k : ℕ
  pub query_bits : ℕ
  pub fastscan : Bool

pub record RecommendedOptions : Type 0 where
  pub partitions : ℕ
  pub latency : LatencyOptions
  pub balanced : LatencyOptions
  pub recall : LatencyOptions
  pub mmap_cache_bytes : Option ℕ

unfoldable pub cache_bytes : Option ℕ → Option ℕ
unfolding recommend_mmap_cache_bytes
cache_bytes none = none
cache_bytes (some memory) = some (recommend_mmap_cache_bytes memory)

module _ (isqrt : ℕ → ℕ) where
  unfoldable pub recommend_num_partitions : ℕ → ℕ
  unfolding clamp
  recommend_num_partitions n = clamp (isqrt n) 4 65536

  unfoldable pub default_num_partitions : ℕ → ℕ
  unfolding clamp
  default_num_partitions n = if ltb n 4 then 4 else clamp (isqrt n) 4 65536

  -- `physical_memory` is what the system says.
  unfoldable pub recommend_search_options : Option ℕ → ℕ → ℕ → RecommendedOptions
  unfolding recommend_num_partitions clamp cache_bytes
  recommend_search_options physical_memory n k =
      let partitions = recommend_num_partitions n in
      record {
        partitions = partitions;
        latency = record { nprobe = 16; refine_k = k * 10; query_bits = 8; fastscan = true };
        balanced = record {
          nprobe =
              if ltb n 10000
              then min partitions 50
              else if ltb n 1000000
              then 50
              else clamp (partitions / 100) 100 300;
          refine_k = if ltb n 10000 then k * 20 else if ltb n 1000000 then 1000 else 5000;
          query_bits = 0;
          fastscan = true;
        };
        recall = record {
          nprobe = clamp (partitions / 10) 100 300;
          refine_k = 5000;
          query_bits = 0;
          fastscan = true;
        };
        mmap_cache_bytes = cache_bytes physical_memory;
      }

  -- Where the square root of a number below 2 ^ 52 is its integer part, the index and the
  -- recommendation choose the same number of partitions for every number of vectors, between 4 and
  -- 65536; from 16 vectors on and below 2 ^ 32 it is the integer part of the square root.
  pub default_num_partitions-recommend :
      ((m : ℕ) → m < 2 ^ 52 → (isqrt m * isqrt m ≤ m) × (m < suc (isqrt m) * suc (isqrt m)))
      → (n : ℕ)
      → (default_num_partitions n ≡ recommend_num_partitions n)
        × (4 ≤ recommend_num_partitions n)
        × (recommend_num_partitions n ≤ 65536)
        × ((n < 16)
            ⊎ ((2 ^ 32 ≤ n)
                ⊎ ((recommend_num_partitions n * recommend_num_partitions n ≤ n)
                    × (n < suc (recommend_num_partitions n) * suc (recommend_num_partitions n)))))
  unfolding default_num_partitions recommend_num_partitions clamp
  default_num_partitions-recommend floor n = (
    elim (Bool-cases (ltb n 4)) [
      | inl t ↦ rw t (small n (isqrt n) (floor n (ground arith)).0 (ground arith))
      | inr t ↦ rw t refl
    ],
    omega arith,
    omega arith,
    between (ltb n 16) refl (ltb n (2 ^ 32)) refl,
  )
    where
      middle : (m s : ℕ) → 16 ≤ m → m < 2 ^ 32 → s * s ≤ m → m < suc s * suc s → clamp s 4 65536 ≡ s
      middle m s low high le lt =
          let at_least : 4 ≤ s = elim (Bool-cases (leb 4 s)) [
            | inl t ↦ ground arith
            | inr t ↦
                let few : suc s * suc s ≤ 4 * 4 =
                  mul-le-mul {n₁ = suc s} {m₁ = suc s} {n₂ = 4} {m₂ = 4} (ground arith)
                    (ground arith) in
                absurd (omega arith)
          ] in
          let at_most : s ≤ 65536 = elim (Bool-cases (leb s 65536)) [
            | inl t ↦ ground arith
            | inr t ↦
                let many : 65537 * 65537 ≤ s * s =
                  mul-le-mul {n₁ = 65537} {m₁ = 65537} {n₂ = s} {m₂ = s} (ground arith)
                    (ground arith) in
                absurd (omega arith)
          ] in
          omega (arith, at_least, at_most)

      between :
          (t : Bool)
          → ltb n 16 ≡ t
          → (u : Bool) → ltb n (2 ^ 32) ≡ u
          → (n < 16)
            ⊎ ((2 ^ 32 ≤ n)
                ⊎ ((clamp (isqrt n) 4 65536 * clamp (isqrt n) 4 65536 ≤ n)
                    × (n < suc (clamp (isqrt n) 4 65536) * suc (clamp (isqrt n) 4 65536))))
      between true e u f = inl (ground arith)
      between false e false f = inr (inl (ground arith))
      between false e true f =
          let (le, lt) = floor n (ground arith) in
          let same = middle n (isqrt n) (ground arith) (ground arith) le lt in
          inr (inr (subst (λ r. (r * r ≤ n) × (n < suc r * suc r)) (sym same) (le, lt)))

      small : (m s : ℕ) → s * s ≤ m → m < 4 → 4 ≡ min (max s 4) 65536
      small m s h lt = elim (Bool-cases (leb s 4)) [
        | inl t ↦ ground arith
        | inr t ↦
            let big : 5 * 5 ≤ s * s =
              mul-le-mul {n₁ = 5} {m₁ = 5} {n₂ = s} {m₂ = s} (ground arith) (ground arith) in
            absurd (omega arith)
      ]

-- Below 2 ^ 57 bytes a larger memory never gets a smaller cache. Below 17179869184 bytes, 16 GiB, the
-- cache is half of the memory, rounded down; from there on it is 85 hundredths of it, rounded down.
pub recommend_mmap_cache_bytes-le :
    (less memory : ℕ)
    → less ≤ memory
    → memory < 2 ^ 57
    → (recommend_mmap_cache_bytes less ≤ recommend_mmap_cache_bytes memory)
      × ((17179869184 ≤ memory)
          ⊎ ((recommend_mmap_cache_bytes memory * 2 ≤ memory)
              × (memory ≤ recommend_mmap_cache_bytes memory * 2 + 1)))
      × ((memory < 17179869184)
          ⊎ ((recommend_mmap_cache_bytes memory * 100 ≤ memory * 85)
              × (memory * 85 < recommend_mmap_cache_bytes memory * 100 + 100)))
unfolding recommend_mmap_cache_bytes
recommend_mmap_cache_bytes-le less memory le h = (ground arith, ground arith, ground arith)
