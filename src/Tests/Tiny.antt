-- ===== src/Tests/Tiny.antt =====
-- A format of three values, NaN, 0 and 1, whose arithmetic saturates, with its bits.
use vdb_rs.Prelude.{
  ℕ, ◌+◌, ◌-◌, ◌*◌, ◌/◌, ◌^◌, ◌≤◌, ◌<◌, ◌≡◌, refl, Bool, true, false, not, arith, if◌then◌else◌,
  ◌==◌,
}
use vdb_rs.Prelude.Float.{Float}
use vdb_rs.Prelude.Wire.{Wire}

pub data Tiny : Type 0 where
  nan none one : Tiny

abbrev pub of_nat : ℕ → Tiny
of_nat n = if n == 0 then Tiny.none else Tiny.one

abbrev pub nat_of : Tiny → ℕ
nat_of Tiny.nan = 0
nat_of Tiny.none = 0
nat_of Tiny.one = 1

abbrev pub lift : (ℕ → ℕ → ℕ) → Tiny → Tiny → Tiny
lift f Tiny.nan b = Tiny.nan
lift f a Tiny.nan = Tiny.nan
lift f a b = of_nat (f (nat_of a) (nat_of b))

abbrev pub is_not_number : Tiny → Bool
is_not_number Tiny.nan = true
is_not_number _ = false

pub tiny_ordered : (a : Tiny) → not (is_not_number a) ≡ true → is_not_number a ≡ false
tiny_ordered a h = ground arith

pub tiny_range : (a : Tiny) → not (is_not_number a) ≡ true → (0 ≤ nat_of a) × (nat_of a ≤ 1)
tiny_range Tiny.nan h = ground arith
tiny_range Tiny.none h = (omega arith, omega arith)
tiny_range Tiny.one h = (omega arith, omega arith)

instance abbrev pub tiny_float : Float Tiny
tiny_float = record {
  is_nan = is_not_number;
  is_finite = λ a. not (is_not_number a);
  rank = nat_of;
  max_value = Tiny.one;
  min_value = Tiny.none;
  zero_value = Tiny.none;
  add = lift (λ a b. a + b);
  sub = lift (λ a b. a - b);
  mul = lift (λ a b. a * b);
  div = lift (λ a b. a / b);
  sqrt = λ a. a;
  abs = λ a. a;
  round = λ a. a;
  of_ℕ = of_nat;
  to_u8 = nat_of;
  max_ordered = refl;
  min_ordered = refl;
  finite_ordered = tiny_ordered;
  finite_range = tiny_range;
}

abbrev pub bits_of : Tiny → ℕ
bits_of Tiny.none = 0
bits_of Tiny.one = 0x3F800000
bits_of Tiny.nan = 0x7FC00000

abbrev pub of_bits : ℕ → Tiny
of_bits n = if n == 0 then Tiny.none else if n == 0x3F800000 then Tiny.one else Tiny.nan

pub bits_of-lt : (x : Tiny) → bits_of x < 2 ^ 32
bits_of-lt Tiny.none = omega arith
bits_of-lt Tiny.one = omega arith
bits_of-lt Tiny.nan = omega arith

pub of_bits-bits_of : (x : Tiny) → of_bits (bits_of x) ≡ x
of_bits-bits_of Tiny.none = refl
of_bits-bits_of Tiny.one = refl
of_bits-bits_of Tiny.nan = refl

abbrev pub tiny_wire : Wire Tiny
tiny_wire = record {
  to_bits = bits_of;
  from_bits = of_bits;
  to_bits-lt = bits_of-lt;
  from_bits-to_bits = of_bits-bits_of;
}
