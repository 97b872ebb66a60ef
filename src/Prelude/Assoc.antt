-- ===== src/Prelude/Assoc.antt =====
-- Equality tests as an interface, strings of code points, and maps as association lists.
use vdb_rs.Prelude.{
  ℕ, ◌≡◌, refl, ◌↔◌, Bool, true, false, ◌&&◌, ◌||◌, List, [], ◌∷◌, Option, none, some, arith,
  ◌==◌ as nat_beq, ==_iff, if◌then◌else◌, compare, Ordering,
}

pub record Eq {ℓ} (A : Type ℓ) : Type ℓ where
  pub same : A → A → Bool
  pub same_iff : (a b : A) → (same a b ≡ true) ↔ (a ≡ b)

-- A string as the list of its code points.
abbrev pub Str : Type 0
Str = List ℕ

unfoldable pub str_eq : Str → Str → Bool
str_eq [] [] = true
str_eq (a ∷ s) (b ∷ t) = nat_beq a b && str_eq s t
str_eq _ _ = false

pub str_eq_iff : (s t : Str) → (str_eq s t ≡ true) ↔ (s ≡ t)
unfolding str_eq
str_eq_iff [] [] = ground arith
str_eq_iff [] (b ∷ t) = ground arith
str_eq_iff (a ∷ s) [] = ground arith
str_eq_iff (a ∷ s) (b ∷ t) = ground (arith, str_eq_iff s t)

-- `Ord for str`: the first difference decides, and a prefix is smaller.
unfoldable pub str_cmp : Str → Str → Ordering
str_cmp [] [] = Ordering.eq
str_cmp [] (b ∷ t) = Ordering.lt
str_cmp (a ∷ s) [] = Ordering.gt
str_cmp (a ∷ s) (b ∷ t) = elim (compare a b) [
  | Ordering.eq ↦ str_cmp s t
  | Ordering.lt ↦ Ordering.lt
  | _ ↦ Ordering.gt
]

pub str_cmp-eq_iff : (s t : Str) → (str_cmp s t ≡ Ordering.eq) ↔ (s ≡ t)
unfolding str_cmp
str_cmp-eq_iff [] [] = ground arith
str_cmp-eq_iff [] (b ∷ t) = ground arith
str_cmp-eq_iff (a ∷ s) [] = ground arith
str_cmp-eq_iff (a ∷ s) (b ∷ t) = ground (arith, str_cmp-eq_iff s t)

infix 50 ◌==◌
abbrev pub ◌==◌ {ℓ} : {A : Type ℓ} ⦃e : Eq A⦄ → A → A → Bool
◌==◌ ⦃e⦄ = e.same

instance abbrev pub string_eq : Eq Str
string_eq = record { same = str_eq; same_iff = str_eq_iff }

instance abbrev pub nat_eq : Eq ℕ
nat_eq = record { same = nat_beq; same_iff = ==_iff }

module _ {ℓ} {K : Type ℓ} ⦃e : Eq K⦄ where
  pub eq_refl : (a : K) → a == a ≡ true
  eq_refl a = (e.same_iff a a).1 refl

  unfoldable pub contains : List K → K → Bool
  contains [] k = false
  contains (x ∷ xs) k = x == k || contains xs k

module _ {ℓ κ} {K : Type ℓ} {V : Type κ} ⦃e : Eq K⦄ where
  unfoldable pub insert : K → V → List (K × V) → List (K × V)
  insert key value [] = (key, value) ∷ []
  insert key value ((name, old) ∷ rest) =
      if name == key then (key, value) ∷ rest else (name, old) ∷ insert key value rest

  unfoldable pub remove : K → List (K × V) → List (K × V)
  remove key [] = []
  remove key ((name, old) ∷ rest) =
      if name == key then remove key rest else (name, old) ∷ remove key rest

  unfoldable pub lookup : K → List (K × V) → Option V
  lookup key [] = none
  lookup key ((name, value) ∷ rest) = if name == key then some value else lookup key rest

  pub lookup-insert :
      (key other : K) (value : V) (entries : List (K × V))
      → lookup other (insert key value entries)
        ≡ (if key == other then some value else lookup other entries)
  unfolding lookup insert
  lookup-insert key other value [] = refl
  lookup-insert key other value ((name, old) ∷ rest) = ground (
    arith,
    e.same_iff name other,
    e.same_iff name key,
    e.same_iff key other,
    lookup-insert key other value rest,
  )

  pub lookup-remove :
      (key other : K) (entries : List (K × V))
      → lookup other (remove key entries) ≡ (if key == other then none else lookup other entries)
  unfolding lookup remove
  lookup-remove key other [] = ground arith
  lookup-remove key other ((name, old) ∷ rest) = ground (
    arith,
    e.same_iff name other,
    e.same_iff name key,
    e.same_iff key other,
    lookup-remove key other rest,
  )
