-- ===== src/Prelude/Float.antt =====
-- The floating-point numbers as an interface, for `f32` and `f64` alike. The order is IEEE 754's:
-- a comparison with NaN answers nothing, and any other two values compare as their places in the
-- finite, linear order of the format, in which -0 and +0 share one place. Arithmetic has no laws.
use vdb_rs.Prelude.{
  ℕ, ◌≤◌, ◌≡◌, Bool, true, false, ◌||◌, Option, none, some, if◌then◌else◌, compare, Ordering,
}

pub record Float (F : Type 0) : Type 0 where
  pub is_nan : F → Bool
  pub is_finite : F → Bool
  pub rank : F → ℕ
  -- `MAX`, the largest finite value, and `MIN`, its negative.
  pub max_value : F
  pub min_value : F
  pub zero_value : F
  pub add : F → F → F
  pub sub : F → F → F
  pub mul : F → F → F
  pub div : F → F → F
  pub sqrt : F → F
  pub abs : F → F
  pub round : F → F
  -- `n as f32`, and `x as u8`, which saturates.
  pub of_ℕ : ℕ → F
  pub to_u8 : F → ℕ
  pub max_ordered : is_nan max_value ≡ false
  pub min_ordered : is_nan min_value ≡ false
  pub finite_ordered : (a : F) → is_finite a ≡ true → is_nan a ≡ false
  pub finite_range :
      (a : F) → is_finite a ≡ true → (rank min_value ≤ rank a) × (rank a ≤ rank max_value)

module _ {F : Type 0} ⦃fl : Float F⦄ where
  -- `a.partial_cmp(&b)`
  abbrev pub partial_cmp : F → F → Option Ordering
  partial_cmp a b =
      if fl.is_nan a || fl.is_nan b then none else some (compare (fl.rank a) (fl.rank b))

  -- `a < b`, `a <= b` and `a == b`; the source's `a > b` is `flt b a`.
  abbrev pub flt : F → F → Bool
  flt a b = elim (partial_cmp a b) [
    | some o ↦ elim o [ Ordering.lt ↦ true | _ ↦ false ]
    | none ↦ false
  ]

  abbrev pub fle : F → F → Bool
  fle a b = elim (partial_cmp a b) [
    | some o ↦ elim o [ Ordering.gt ↦ false | _ ↦ true ]
    | none ↦ false
  ]

  abbrev pub feq : F → F → Bool
  feq a b = elim (partial_cmp a b) [
    | some o ↦ elim o [ Ordering.eq ↦ true | _ ↦ false ]
    | none ↦ false
  ]
