-- ===== src/Prelude/Panic.antt =====
-- Code that may panic: `none` is a panic (a failed `assert!`, an index out of range, the `unwrap`
-- of a comparison with NaN).
use vdb_rs.Prelude.{
  ℕ, ◌≡◌, refl, Bool, true, false, ◌&&◌, List, [], ◌∷◌, Option, none, some, length, leb, any, All,
  if◌then◌else◌, map, arith,
}
use vdb_rs.Prelude.Float.{Float}
use vdb_rs.Prelude.Sort.{sort}

abbrev pub Panics {ℓ} : Type ℓ → Type ℓ
Panics A = Option A

infixl 5 ◌>>=◌ ◌>>◌
abbrev pub ◌>>=◌ {ℓ κ} : {A : Type ℓ} {B : Type κ} → Panics A → (A → Panics B) → Panics B
some a >>= f = f a
none >>= f = none

abbrev pub ◌>>◌ {ℓ} : {B : Type ℓ} → Panics (Unit {0}) → Panics B → Panics B
m >> k = m >>= λ _. k

abbrev pub assert : Bool → Panics (Unit {0})
assert true = some tt
assert false = none

-- A loop that collects the results of its rounds.
abbrev pub traverse {ℓ κ} : {A : Type ℓ} {B : Type κ} → (A → Panics B) → List A → Panics (List B)
traverse f [] = some []
traverse f (x ∷ xs) = f x >>= λ y. traverse f xs >>= λ ys. some (y ∷ ys)

pub traverse-map {ℓ κ} :
    {A : Type ℓ} {B : Type κ} (f : A → Panics B) (g : A → B) (xs : List A)
    → All (λ x. f x ≡ some (g x)) xs
    → traverse f xs ≡ some (map g xs)
traverse-map f g [] h = refl
traverse-map f g (x ∷ xs) h = rw (h.0, traverse-map f g xs h.1)

-- Pairs of an identifier and a distance, sorted by `partial_cmp(..).unwrap()` on the distance. A
-- sort of two elements or more compares each of them, and panics if one is NaN.
module _ {F : Type 0} ⦃fl : Float F⦄ where
  abbrev pub dist_key : ℕ × F → ℕ
  dist_key r = fl.rank r.1

  unfoldable pub sort_by_dist : List (ℕ × F) → Panics (List (ℕ × F))
  sort_by_dist l =
      if leb 2 (length l) && any (λ r. fl.is_nan r.1) l then none else some (sort dist_key l)

  pub any-false :
      (l : List (ℕ × F)) → All (λ r. fl.is_nan r.1 ≡ false) l → any (λ r. fl.is_nan r.1) l ≡ false
  any-false [] h = refl
  any-false (r ∷ l) h = rw h.0 (any-false l h.1)

  -- With no NaN among the distances the sort returns.
  pub sort_by_dist_ordered :
      (l : List (ℕ × F))
      → All (λ r. fl.is_nan r.1 ≡ false) l
      → sort_by_dist l ≡ some (sort dist_key l)
  unfolding sort_by_dist
  sort_by_dist_ordered l h = ground (arith, any-false l h)
