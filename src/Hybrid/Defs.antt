-- ===== src/Hybrid/Defs.antt =====
-- `reciprocal_rank_fusion` and `weighted_fusion` of src/hybrid.rs.
use vdb_rs.Prelude.{
  ℕ, suc, Bool, ◌&&◌, ◌||◌, List, [], ◌∷◌, none, some, length, leb, ltb, any, if◌then◌else◌, ◌==◌,
}
use vdb_rs.Prelude.Assoc.{nat_eq, lookup, insert}
use vdb_rs.Prelude.Float.{Float}
use vdb_rs.Prelude.Panic.{Panics}
use vdb_rs.Stats.Defs.{get_or}

module _ {F : Type 0} ⦃fl : Float F⦄ where
  -- `*scores.entry(id).or_insert(0.0) += amount`
  unfoldable pub add_score : ℕ → F → List (ℕ × F) → List (ℕ × F)
  add_score id amount scores =
      insert id (fl.add (get_or (lookup id scores) fl.zero_value) amount) scores

  -- The entries of one list; `rank` counts from 1.
  unfoldable pub add_ranks : ℕ → ℕ → List (ℕ × F) → List (ℕ × F) → List (ℕ × F)
  unfolding add_score
  add_ranks k rank [] scores = scores
  add_ranks k rank ((id, score) ∷ list) scores =
      add_ranks k (suc rank) list
        (add_score id (fl.div (fl.of_ℕ 1) (fl.add (fl.of_ℕ k) (fl.of_ℕ rank))) scores)

  unfoldable pub add_lists : ℕ → List (List (ℕ × F)) → List (ℕ × F) → List (ℕ × F)
  unfolding add_ranks
  add_lists k [] scores = scores
  add_lists k (list ∷ lists) scores = add_lists k lists (add_ranks k 1 list scores)

  unfoldable pub add_weighted : F → List (ℕ × F) → List (ℕ × F) → List (ℕ × F)
  unfolding add_score
  add_weighted weight [] scores = scores
  add_weighted weight ((id, score) ∷ list) scores =
      add_weighted weight list (add_score id (fl.mul weight score) scores)

  unfoldable pub add_weighted_lists : List (F × List (ℕ × F)) → List (ℕ × F) → List (ℕ × F)
  unfolding add_weighted
  add_weighted_lists [] scores = scores
  add_weighted_lists ((weight, list) ∷ lists) scores =
      add_weighted_lists lists (add_weighted weight list scores)

  -- The comparison of the sort: the higher score first, then the lower identifier.
  unfoldable pub ranks_before : ℕ × F → ℕ × F → Bool
  ranks_before a b = ltb (fl.rank b.1) (fl.rank a.1) || (fl.rank a.1 == fl.rank b.1 && leb a.0 b.0)

  unfoldable pub rank_insert : ℕ × F → List (ℕ × F) → List (ℕ × F)
  unfolding ranks_before
  rank_insert r [] = r ∷ []
  rank_insert r (s ∷ l) = if ranks_before r s then r ∷ s ∷ l else s ∷ rank_insert r l

  unfoldable pub rank_all : List (ℕ × F) → List (ℕ × F)
  unfolding rank_insert
  rank_all [] = []
  rank_all (r ∷ l) = rank_insert r (rank_all l)

  -- The `unwrap` of the comparison panics on NaN where there are two results or more.
  unfoldable pub rank_scores : List (ℕ × F) → Panics (List (ℕ × F))
  unfolding rank_all
  rank_scores l = if leb 2 (length l) && any (λ r. fl.is_nan r.1) l then none else some (rank_all l)

  unfoldable pub reciprocal_rank_fusion : ℕ → List (List (ℕ × F)) → Panics (List (ℕ × F))
  unfolding add_lists rank_scores
  reciprocal_rank_fusion k lists = rank_scores (add_lists k lists [])

  unfoldable pub weighted_fusion : List (F × List (ℕ × F)) → Panics (List (ℕ × F))
  unfolding add_weighted_lists rank_scores
  weighted_fusion lists = rank_scores (add_weighted_lists lists [])
