-- ===== src/Hybrid/Ranking.antt =====
-- The fused lists come out ranked.
use mathlib.Core.List.{Permᴰ}
use mathlib.Core.List.Permᴰ
use vdb_rs.Prelude.{
  ℕ, ◌<◌, ◌≤◌, ◌⊎◌, ◌≡◌, refl, true, false, List, [], ◌∷◌, none, some, All, All-map_pred,
  Bool-cases, inl, inr, arith,
}
use vdb_rs.Prelude.Float.{Float}
use vdb_rs.Prelude.Panic.{any-false}
use vdb_rs.Prelude.Assoc.{nat_eq, lookup}
use vdb_rs.Hybrid.Scores.{IsUnique, all_places, fused, add_lists-IsUnique, lookup-add_lists}
use vdb_rs.Hybrid.Defs.{
  add_lists, ranks_before, rank_insert, rank_all, rank_scores, reciprocal_rank_fusion,
}

module _ {F : Type 0} ⦃fl : Float F⦄ where
  -- The higher score stands first, and of equal scores the lower identifier.
  abbrev pub IsRanked : List (ℕ × F) → Type 0
  IsRanked [] = Unit
  IsRanked (r ∷ l) =
      All (λ s. (fl.rank s.1 < fl.rank r.1) ⊎ ((fl.rank s.1 ≡ fl.rank r.1) × (r.0 ≤ s.0))) l
      × IsRanked l

  ranks_before_order :
      (a b : ℕ × F)
      → ranks_before a b ≡ true
      → (fl.rank b.1 < fl.rank a.1) ⊎ ((fl.rank b.1 ≡ fl.rank a.1) × (a.0 ≤ b.0))
  unfolding ranks_before
  ranks_before_order a b h = ground arith

  abbrev IsSorted : List (ℕ × F) → Type 0
  IsSorted [] = Unit
  IsSorted (r ∷ l) = All (λ s. ranks_before r s ≡ true) l × IsSorted l

  ranks_before_trans :
      (a b c : ℕ × F) → ranks_before a b ≡ true → ranks_before b c ≡ true → ranks_before a c ≡ true
  unfolding ranks_before
  ranks_before_trans a b c h k = ground arith

  ranks_before_total : (a b : ℕ × F) → ranks_before a b ≡ false → ranks_before b a ≡ true
  unfolding ranks_before
  ranks_before_total a b h = ground arith

  All-rank_insert :
      (P : ℕ × F → Type 0) (r : ℕ × F) (l : List (ℕ × F)) → P r → All P l → All P (rank_insert r l)
  unfolding rank_insert
  All-rank_insert P r [] h k = (h, tt)
  All-rank_insert P r (s ∷ l) h k = elim (Bool-cases (ranks_before r s)) [
    | inl t ↦ rw t (h, k)
    | inr t ↦ rw t (k.0, All-rank_insert P r l h k.1)
  ]

  rank_insert-IsSorted : (r : ℕ × F) (l : List (ℕ × F)) → IsSorted l → IsSorted (rank_insert r l)
  unfolding rank_insert
  rank_insert-IsSorted r [] h = (tt, tt)
  rank_insert-IsSorted r (s ∷ l) h = elim (Bool-cases (ranks_before r s)) [
    | inl t ↦ rw t ((t, All-map_pred _ _ l (λ c k. ranks_before_trans r s c t k) h.0), h)
    | inr t ↦ rw t (
      All-rank_insert (λ c. ranks_before s c ≡ true) r l (ranks_before_total r s t) h.0,
      rank_insert-IsSorted r l h.1,
    )
  ]

  rank_insert-perm : (r : ℕ × F) (l : List (ℕ × F)) → Permᴰ (rank_insert r l) (r ∷ l)
  unfolding rank_insert
  rank_insert-perm r [] = Permᴰ.refl _
  rank_insert-perm r (s ∷ l) = elim (Bool-cases (ranks_before r s)) [
    | inl t ↦ rw t (Permᴰ.refl _)
    | inr t ↦ rw t (Permᴰ.trans (Permᴰ.cons refl (rank_insert-perm r l)) (Permᴰ.swap refl refl))
  ]

  rank_all-IsSorted : (l : List (ℕ × F)) → IsSorted (rank_all l)
  unfolding rank_all
  rank_all-IsSorted [] = tt
  rank_all-IsSorted (r ∷ l) = rank_insert-IsSorted r (rank_all l) (rank_all-IsSorted l)

  IsSorted-IsRanked : (l : List (ℕ × F)) → IsSorted l → IsRanked l
  IsSorted-IsRanked [] h = tt
  IsSorted-IsRanked (r ∷ l) h =
      (All-map_pred _ _ l (λ s t. ranks_before_order r s t) h.0, IsSorted-IsRanked l h.1)

  rank_all-perm : (l : List (ℕ × F)) → Permᴰ (rank_all l) l
  unfolding rank_all
  rank_all-perm [] = Permᴰ.refl _
  rank_all-perm (r ∷ l) =
      Permᴰ.trans (rank_insert-perm r (rank_all l)) (Permᴰ.cons refl (rank_all-perm l))

  rank_scores_ordered :
      (l : List (ℕ × F)) → All (λ r. fl.is_nan r.1 ≡ false) l → rank_scores l ≡ some (rank_all l)
  unfolding rank_scores
  rank_scores_ordered l h = ground (arith, any-false l h)

  -- Where no fused score is NaN, the fusion by ranks returns all of the fused scores, the higher score
  -- first, and of equal scores the lower identifier. An identifier has one fused score if it stands
  -- in some list: the sum, in the order of the lists, of 1 / (k + place) over the places at which it
  -- stands, counted from 1.
  pub reciprocal_rank_fusion-IsRanked :
      (k id : ℕ) (lists : List (List (ℕ × F)))
      → All (λ r. fl.is_nan r.1 ≡ false) (add_lists k lists [])
      → (ranked : List (ℕ × F)) × (reciprocal_rank_fusion k lists ≡ some ranked)
        × IsRanked ranked
        × Permᴰ ranked (add_lists k lists [])
        × IsUnique (add_lists k lists [])
        × (lookup id (add_lists k lists []) ≡ fused k none (all_places id lists))
  unfolding reciprocal_rank_fusion lookup
  reciprocal_rank_fusion-IsRanked k id lists h =
      let scores = add_lists k lists [] in
      (
        rank_all scores,
        rank_scores_ordered scores h,
        IsSorted-IsRanked (rank_all scores) (rank_all-IsSorted scores),
        rank_all-perm scores,
        add_lists-IsUnique k lists [] tt,
        lookup-add_lists k id lists [],
      )
