-- ===== src/Prelude/Sort.antt =====
-- The standard library's stable sort, by the order of a key, and what it keeps.
use mathlib.Core.List.{Permᴰ}
use mathlib.Core.List.Permᴰ
use vdb_rs.Prelude.{
  ℕ, ◌≤◌, ◌≡◌, refl, List, [], ◌∷◌, length, All, ltb, if◌then◌else◌, arith, inl, inr, Bool-cases,
  All-map_pred, suc,
}
use native.Mathlib.Nat.{le_trans}

module _ {ℓ} {A : Type ℓ} (key : A → ℕ) where
  -- An element goes before the first one that is not smaller, so equal keys keep their order.
  unfoldable pub sorted_insert : A → List A → List A
  sorted_insert x [] = x ∷ []
  sorted_insert x (y ∷ ys) = if ltb (key y) (key x) then y ∷ sorted_insert x ys else x ∷ y ∷ ys

  unfoldable pub sort : List A → List A
  sort [] = []
  sort (x ∷ xs) = sorted_insert x (sort xs)

  abbrev pub IsSorted : List A → Type 0
  IsSorted [] = Unit
  IsSorted (x ∷ xs) = All (λ y. key x ≤ key y) xs × IsSorted xs

  All-sorted_insert {κ} :
      (P : A → Type κ) (x : A) (l : List A) → P x → All P l → All P (sorted_insert x l)
  unfolding sorted_insert
  All-sorted_insert P x [] h k = (h, tt)
  All-sorted_insert P x (y ∷ ys) h k = elim (Bool-cases (ltb (key y) (key x))) [
    | inl e ↦ rw e (k.0, All-sorted_insert P x ys h k.1)
    | inr e ↦ rw e (h, k)
  ]

  pub All-sort {κ} : (P : A → Type κ) (l : List A) → All P l → All P (sort l)
  unfolding sort
  All-sort P [] h = tt
  All-sort P (x ∷ xs) h = All-sorted_insert P x (sort xs) h.0 (All-sort P xs h.1)

  sorted_insert-perm : (x : A) (l : List A) → Permᴰ (sorted_insert x l) (x ∷ l)
  unfolding sorted_insert
  sorted_insert-perm x [] = (Permᴰ.refl _)
  sorted_insert-perm x (y ∷ ys) = elim (Bool-cases (ltb (key y) (key x))) [
    | inl e ↦ rw e (Permᴰ.trans (Permᴰ.cons refl (sorted_insert-perm x ys)) (Permᴰ.swap refl refl))
    | inr e ↦ rw e (Permᴰ.refl _)
  ]

  pub sort-perm : (l : List A) → Permᴰ (sort l) l
  unfolding sort
  sort-perm [] = (Permᴰ.refl _)
  sort-perm (x ∷ xs) = Permᴰ.trans (sorted_insert-perm x (sort xs)) (Permᴰ.cons refl (sort-perm xs))

  sorted_insert-IsSorted : (x : A) (l : List A) → IsSorted l → IsSorted (sorted_insert x l)
  unfolding sorted_insert
  sorted_insert-IsSorted x [] s = (tt, tt)
  sorted_insert-IsSorted x (y ∷ ys) s = elim (Bool-cases (ltb (key y) (key x))) [
    | inl e ↦ rw e (
      All-sorted_insert (λ z. key y ≤ key z) x ys (ground arith) s.0,
      sorted_insert-IsSorted x ys s.1,
    )
    | inr e ↦
        let h : key x ≤ key y = ground arith in
        rw e ((h, All-map_pred _ _ ys (λ a p. le_trans h p) s.0), s)
  ]

  pub sort-IsSorted : (l : List A) → IsSorted (sort l)
  unfolding sort
  sort-IsSorted [] = tt
  sort-IsSorted (x ∷ xs) = sorted_insert-IsSorted x (sort xs) (sort-IsSorted xs)

  pub length-sorted_insert : (x : A) (l : List A) → length (sorted_insert x l) ≡ suc (length l)
  unfolding sorted_insert
  length-sorted_insert x [] = refl
  length-sorted_insert x (y ∷ ys) = ground (arith, length-sorted_insert x ys)

  pub length-sort : (l : List A) → length (sort l) ≡ length l
  unfolding sort
  length-sort [] = refl
  length-sort (x ∷ xs) = omega (arith, length-sorted_insert x (sort xs), length-sort xs)
