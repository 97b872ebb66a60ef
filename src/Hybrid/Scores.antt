-- ===== src/Hybrid/Scores.antt =====
-- What the fusion by ranks adds up for each identifier.
use vdb_rs.Prelude.{
  ℕ, suc, ◌≡◌, ◌≢◌, refl, ap, sym, subst, ◌∙◌, List, [], ◌∷◌, ◌++◌, Option, some, All, Bool-cases,
  inl, inr, arith, ◌==◌, ==_iff, if◌then◌else◌,
}
use vdb_rs.Prelude.Assoc.{nat_eq, lookup, insert, lookup-insert}
use vdb_rs.Prelude.Float.{Float}
use vdb_rs.Stats.Defs.{get_or}
use vdb_rs.Hybrid.Defs.{add_score, add_ranks, add_lists}

module _ {F : Type 0} where
  -- The places at which an identifier stands in a list, counted from a number on, and in all lists,
  -- in each of which they count from 1.
  abbrev pub places : ℕ → ℕ → List (ℕ × F) → List ℕ
  places id place [] = []
  places id place ((i, score) ∷ list) =
      if i == id then place ∷ places id (suc place) list else places id (suc place) list

  abbrev pub all_places : ℕ → List (List (ℕ × F)) → List ℕ
  all_places id [] = []
  all_places id (list ∷ lists) = places id 1 list ++ all_places id lists

  -- No two entries have the same identifier.
  abbrev pub IsUnique : List (ℕ × F) → Type 0
  IsUnique [] = Unit
  IsUnique (r ∷ l) = All (λ s. r.0 ≢ s.0) l × IsUnique l

  All-insert :
      (P : ℕ → Type 0) (id : ℕ) (score : F) (scores : List (ℕ × F))
      → P id
      → All (λ s. P s.0) scores
      → All (λ s. P s.0) (insert id score scores)
  unfolding insert
  All-insert P id score [] p h = (p, tt)
  All-insert P id score ((i, old) ∷ scores) p h = elim (Bool-cases (i == id)) [
    | inl t ↦ rw t (p, h.1)
    | inr t ↦ rw t (h.0, All-insert P id score scores p h.1)
  ]

  insert-IsUnique :
      (id : ℕ) (score : F) (scores : List (ℕ × F))
      → IsUnique scores
      → IsUnique (insert id score scores)
  unfolding insert
  insert-IsUnique id score [] h = (tt, tt)
  insert-IsUnique id score ((i, old) ∷ scores) h = elim (Bool-cases (i == id)) [
    | inl t ↦
        let same : i ≡ id = (==_iff i id).0 t in
        rw t (subst (λ j. All (λ s. j ≢ s.0) scores) same h.0, h.1)
    | inr t ↦
        let other : i ≢ id = ground arith in
        rw t
          (All-insert (λ j. i ≢ j) id score scores other h.0, insert-IsUnique id score scores h.1)
  ]

module _ {F : Type 0} ⦃fl : Float F⦄ where
  -- A score with the shares of some places added to it.
  abbrev pub fused : ℕ → Option F → List ℕ → Option F
  fused k score [] = score
  fused k score (place ∷ others) =
      fused k
        (some (
          fl.add (get_or score fl.zero_value)
            (fl.div (fl.of_ℕ 1) (fl.add (fl.of_ℕ k) (fl.of_ℕ place)))))
        others

  fused-append :
      (k : ℕ) (xs ys : List ℕ) (score : Option F)
      → fused k score (xs ++ ys) ≡ fused k (fused k score xs) ys
  fused-append k [] ys score = refl
  fused-append k (x ∷ xs) ys score = fused-append k xs ys _

  lookup-add_ranks :
      (k id rank : ℕ) (list scores : List (ℕ × F))
      → lookup id (add_ranks k rank list scores) ≡ fused k (lookup id scores) (places id rank list)
  unfolding add_ranks add_score
  lookup-add_ranks k id rank [] scores = refl
  lookup-add_ranks k id rank ((i, score) ∷ list) scores =
      let share = fl.div (fl.of_ℕ 1) (fl.add (fl.of_ℕ k) (fl.of_ℕ rank)) in
      let new = fl.add (get_or (lookup i scores) fl.zero_value) share in
      lookup-add_ranks k id (suc rank) list (insert i new scores) ∙ elim (Bool-cases (i == id)) [
        | inl t ↦
            let same : i ≡ id = (==_iff i id).0 t in
            let found : lookup id (insert i new scores)
                ≡ some (fl.add (get_or (lookup id scores) fl.zero_value) share) =
              lookup-insert i id new scores
              ∙ rw t
                  (ap (λ j. some (fl.add (get_or (lookup j scores) fl.zero_value) share)) same) in
            rw t (ap (λ o. fused k o (places id (suc rank) list)) found)
        | inr t ↦
            let found : lookup id (insert i new scores) ≡ lookup id scores =
              lookup-insert i id new scores ∙ rw t refl in
            rw t (ap (λ o. fused k o (places id (suc rank) list)) found)
      ]

  pub lookup-add_lists :
      (k id : ℕ) (lists : List (List (ℕ × F))) (scores : List (ℕ × F))
      → lookup id (add_lists k lists scores) ≡ fused k (lookup id scores) (all_places id lists)
  unfolding add_lists
  lookup-add_lists k id [] scores = refl
  lookup-add_lists k id (list ∷ lists) scores =
      lookup-add_lists k id lists (add_ranks k 1 list scores)
      ∙ ap (λ o. fused k o (all_places id lists)) (lookup-add_ranks k id 1 list scores)
      ∙ sym (fused-append k (places id 1 list) (all_places id lists) (lookup id scores))

  add_ranks-IsUnique :
      (k rank : ℕ) (list scores : List (ℕ × F))
      → IsUnique scores
      → IsUnique (add_ranks k rank list scores)
  unfolding add_ranks add_score
  add_ranks-IsUnique k rank [] scores h = h
  add_ranks-IsUnique k rank ((i, score) ∷ list) scores h =
      add_ranks-IsUnique k (suc rank) list _ (insert-IsUnique i _ scores h)

  pub add_lists-IsUnique :
      (k : ℕ) (lists : List (List (ℕ × F))) (scores : List (ℕ × F))
      → IsUnique scores
      → IsUnique (add_lists k lists scores)
  unfolding add_lists
  add_lists-IsUnique k [] scores h = h
  add_lists-IsUnique k (list ∷ lists) scores h =
      add_lists-IsUnique k lists _ (add_ranks-IsUnique k 1 list scores h)
