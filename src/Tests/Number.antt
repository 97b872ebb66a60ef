-- ===== src/Tests/Number.antt =====
-- Numbers for the examples: NaN and the natural numbers, of which those up to a million are finite,
-- where a difference is the distance of the two.
use vdb_rs.Prelude.{ℕ, ◌+◌, ◌-◌, ◌*◌, ◌/◌, ◌≤◌, ◌≡◌, refl, Bool, true, false, min, leb, arith}
use vdb_rs.Prelude.Float.{Float}

pub data Number : Type 0 where
  nan : Number
  num : ℕ → Number

abbrev lift : (ℕ → ℕ → ℕ) → Number → Number → Number
lift f (Number.num a) (Number.num b) = Number.num (f a b)
lift f _ _ = Number.nan

abbrev nat_of : Number → ℕ
nat_of Number.nan = 0
nat_of (Number.num a) = a

abbrev is_not_number : Number → Bool
is_not_number Number.nan = true
is_not_number (Number.num a) = false

abbrev is_small : Number → Bool
is_small Number.nan = false
is_small (Number.num a) = leb a 1000000

pub small_ordered : (a : Number) → is_small a ≡ true → is_not_number a ≡ false
small_ordered Number.nan h = ground arith
small_ordered (Number.num a) h = refl

pub small_range : (a : Number) → is_small a ≡ true → (0 ≤ nat_of a) × (nat_of a ≤ 1000000)
small_range Number.nan h = ground arith
small_range (Number.num a) h = (omega arith, ground arith)

instance abbrev pub number_float : Float Number
number_float = record {
  is_nan = is_not_number;
  is_finite = is_small;
  rank = nat_of;
  max_value = Number.num 1000000;
  min_value = Number.num 0;
  zero_value = Number.num 0;
  add = lift (λ a b. a + b);
  sub = lift (λ a b. (a - b) + (b - a));
  mul = lift (λ a b. a * b);
  div = lift (λ a b. a / b);
  sqrt = λ a. a;
  abs = λ a. a;
  round = λ a. a;
  of_ℕ = Number.num;
  to_u8 = λ a. min (nat_of a) 255;
  max_ordered = refl;
  min_ordered = refl;
  finite_ordered = small_ordered;
  finite_range = small_range;
}
