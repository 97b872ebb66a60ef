-- ===== src/Prelude/Perms.antt =====
-- Filters, maps and concatenations under the library's permutations of lists.
use mathlib.Core.List.{Permᴰ}
use mathlib.Core.List.Permᴰ
use vdb_rs.Prelude.{
  ℕ, zero, suc, ◌+◌, ◌<◌, ◌≡◌, refl, ap, sym, Bool, true, false, List, [], ◌∷◌, ◌++◌, filter,
  length, All, Bool-cases, inl, inr, arith, append_assoc, subst,
}

-- The numbers below `n`, in order, from `i` on.
abbrev pub range_from : ℕ → ℕ → List ℕ
range_from i zero = []
range_from i (suc n) = i ∷ range_from (suc i) n

abbrev pub range : ℕ → List ℕ
range n = range_from 0 n

pub length-range_from : (i n : ℕ) → length (range_from i n) ≡ n
length-range_from i zero = refl
length-range_from i (suc n) = ap suc (length-range_from (suc i) n)

pub range_from-suc : (i n j : ℕ) → i + n ≡ j → range_from i (suc n) ≡ range_from i n ++ j ∷ []
range_from-suc i zero j h = let e : i ≡ j = omega arith in ap (λ k. k ∷ []) e
range_from-suc i (suc n) j h = ap (◌∷◌ i) (range_from-suc (suc i) n j (omega arith))

pub All-range_from {κ} :
    (P : ℕ → Type κ) (i n : ℕ) → ((k : ℕ) → k < i + n → P k) → All P (range_from i n)
All-range_from P i zero h = tt
All-range_from P i (suc n) h =
    (h i (omega arith), All-range_from P (suc i) n (λ k lt. h k (omega arith)))

module _ {ℓ} {A : Type ℓ} where
  pub perm_of_eq : {xs ys : List A} → xs ≡ ys → Permᴰ xs ys
  perm_of_eq {xs} e = subst (Permᴰ xs) e (Permᴰ.refl xs)

  pub perm_append : {xs ys us vs : List A} → Permᴰ xs ys → Permᴰ us vs → Permᴰ (xs ++ us) (ys ++ vs)
  perm_append {xs} {ys} {us} {vs} p q =
      Permᴰ.trans (Permᴰ.append_right us p) (Permᴰ.append_left ys q)

  pub filter-perm :
      (p : A → Bool) {xs ys : List A} → Permᴰ xs ys → Permᴰ (filter p xs) (filter p ys)
  filter-perm p Permᴰ.nil = Permᴰ.nil
  filter-perm p (Permᴰ.cons {a = x} {b = y} e h) = elim (Bool-cases (p y)) [
    | inl t ↦ rw (e, t) (Permᴰ.cons refl (filter-perm p h))
    | inr t ↦ rw (e, t) (filter-perm p h)
  ]
  filter-perm p (Permᴰ.swap {a = x} {b = y} {l = l} e e') = rw (e, e') (swapped _ _)
    where
      swapped : (u v : A) → Permᴰ (filter p (u ∷ v ∷ l)) (filter p (v ∷ u ∷ l))
      swapped u v = elim (Bool-cases (p u)) [
        | inl a ↦ elim (Bool-cases (p v)) [
          | inl b ↦ rw (a, b) (Permᴰ.swap refl refl)
          | inr b ↦ rw (a, b) (Permᴰ.refl _)
        ]
        | inr a ↦ elim (Bool-cases (p v)) [
          | inl b ↦ rw (a, b) (Permᴰ.refl _)
          | inr b ↦ rw (a, b) (Permᴰ.refl _)
        ]
      ]
  filter-perm p (Permᴰ.trans h k) = Permᴰ.trans (filter-perm p h) (filter-perm p k)

  pub All-perm {κ} : (P : A → Type κ) {xs ys : List A} → Permᴰ xs ys → All P xs → All P ys
  All-perm P Permᴰ.nil h = h
  All-perm P (Permᴰ.cons e p) h = (subst P e h.0, All-perm P p h.1)
  All-perm P (Permᴰ.swap e e') h = (subst P e' h.1.0, (subst P e h.0, h.1.1))
  All-perm P (Permᴰ.trans p q) h = All-perm P q (All-perm P p h)

  pub filter-true : (p : A → Bool) (xs : List A) → All (λ x. p x ≡ true) xs → filter p xs ≡ xs
  filter-true p [] h = refl
  filter-true p (x ∷ xs) h = rw h.0 (ap (◌∷◌ x) (filter-true p xs h.1))

  pub filter-false : (p : A → Bool) (xs : List A) → All (λ x. p x ≡ false) xs → filter p xs ≡ []
  filter-false p [] h = refl
  filter-false p (x ∷ xs) h = rw h.0 (filter-false p xs h.1)

module _ {ℓ κ} {A : Type ℓ} {B : Type κ} where
  abbrev pub flat_map : (A → List B) → List A → List B
  flat_map f [] = []
  flat_map f (x ∷ xs) = f x ++ flat_map f xs

  pub flat_map-perm :
      (f : A → List B) {xs ys : List A} → Permᴰ xs ys → Permᴰ (flat_map f xs) (flat_map f ys)
  flat_map-perm f Permᴰ.nil = Permᴰ.nil
  flat_map-perm f (Permᴰ.cons e p) = rw e (Permᴰ.append_left _ (flat_map-perm f p))
  flat_map-perm f (Permᴰ.swap {a = x} {b = y} {l = l} e e') = rw (e, e') (swapped _ _)
    where
      swapped : (u v : A) → Permᴰ (f u ++ (f v ++ flat_map f l)) (f v ++ (f u ++ flat_map f l))
      swapped u v = Permᴰ.trans (perm_of_eq (sym (append_assoc (f u) (f v) (flat_map f l)))) (
          Permᴰ.trans (Permᴰ.append_right (flat_map f l) (Permᴰ.append_comm (f u) (f v)))
            (perm_of_eq (append_assoc (f v) (f u) (flat_map f l))))
  flat_map-perm f (Permᴰ.trans p q) = Permᴰ.trans (flat_map-perm f p) (flat_map-perm f q)

  -- Elements whose image is empty may be dropped.
  pub flat_map-filter :
      (f : A → List B) (p : A → Bool) (xs : List A)
      → All (λ x. p x ≡ false → f x ≡ []) xs
      → flat_map f (filter p xs) ≡ flat_map f xs
  flat_map-filter f p [] h = refl
  flat_map-filter f p (x ∷ xs) h = elim (Bool-cases (p x)) [
    | inl t ↦ rw t (ap (◌++◌ (f x)) (flat_map-filter f p xs h.1))
    | inr t ↦ rw (t, h.0 t) (flat_map-filter f p xs h.1)
  ]
