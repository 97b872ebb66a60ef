-- ===== src/Prelude/Bytes.antt =====
-- Little-endian words: `to_le_bytes` and `from_le_bytes` of the unsigned integers, for any width.
use vdb_rs.Prelude.{
  ℕ, zero, suc, ◌+◌, ◌*◌, ◌/◌, ◌%◌, ◌^◌, ◌<◌, ◌≡◌, refl, ap, List, [], ◌∷◌, arith, length, All,
}
use native.Mathlib.Nat.{pow-suc}

-- The `n` low bytes of `x`, the lowest first.
unfoldable pub to_le_bytes : ℕ → ℕ → List ℕ
to_le_bytes zero x = []
to_le_bytes (suc n) x = (x % 256) ∷ to_le_bytes n (x / 256)

unfoldable pub from_le_bytes : List ℕ → ℕ
from_le_bytes [] = 0
from_le_bytes (b ∷ bs) = b + 256 * from_le_bytes bs

-- A list of bytes: every number is below 256.
abbrev pub IsBytes : List ℕ → Type 0
IsBytes = All (λ b. b < 256)

pub length-to_le_bytes : (n x : ℕ) → length (to_le_bytes n x) ≡ n
unfolding to_le_bytes
length-to_le_bytes zero x = refl
length-to_le_bytes (suc n) x = ap suc (length-to_le_bytes n (x / 256))

pub to_le_bytes-IsBytes : (n x : ℕ) → IsBytes (to_le_bytes n x)
unfolding to_le_bytes
to_le_bytes-IsBytes zero x = tt
to_le_bytes-IsBytes (suc n) x = (omega arith, to_le_bytes-IsBytes n (x / 256))

div-lt-pow : (n x : ℕ) → x < 256 ^ suc n → x / 256 < 256 ^ n
div-lt-pow n x h = let e = pow-suc 256 n in omega (arith, e)

-- A number that fits in `n` bytes is read back.
pub from_le_bytes-to_le_bytes : (n x : ℕ) → x < 256 ^ n → from_le_bytes (to_le_bytes n x) ≡ x
unfolding to_le_bytes from_le_bytes
from_le_bytes-to_le_bytes zero x h = omega arith
from_le_bytes-to_le_bytes (suc n) x h =
    omega (arith, from_le_bytes-to_le_bytes n (x / 256) (div-lt-pow n x h))

-- What `n` bytes say is below 256 ^ n.
pub from_le_bytes-lt : (bs : List ℕ) → IsBytes bs → from_le_bytes bs < 256 ^ length bs
unfolding from_le_bytes
from_le_bytes-lt [] h = omega arith
from_le_bytes-lt (b ∷ bs) h = omega (arith, h.0, from_le_bytes-lt bs h.1, pow-suc 256 (length bs))
