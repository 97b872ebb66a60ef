-- ===== src/Storage/Width.antt =====
-- The checksum of bytes fits in 32 bits.
use native.Mathlib.Nat.{pow-suc}
use Prim.Native.Nat.{bit_xor, bit_xor-bitwise, digits, differ}
use vdb_rs.Prelude.{ℕ, zero, suc, ◌/◌, ◌%◌, ◌^◌, ◌≤◌, ◌<◌, List, [], ◌∷◌, arith, subst, sym}
use vdb_rs.Prelude.Bytes.{IsBytes}
use vdb_rs.Storage.Checksum.{
  crc32, crc32_init, crc32_update, crc32_finalize, crc32_rounds, crc32_round,
}

differ-le : (x y : ℕ) → x < 2 → y < 2 → differ x y ≤ 1
differ-le zero y h k = omega arith
differ-le (suc x) zero h k = omega arith
differ-le (suc zero) (suc zero) h k = omega arith
differ-le (suc zero) (suc (suc y)) h k = absurd (omega arith)
differ-le (suc (suc x)) (suc y) h k = absurd (omega arith)

digits-lt : (n m a b : ℕ) → a < 2 ^ n → b < 2 ^ n → digits (λ b. b) differ m a b < 2 ^ n
digits-lt n zero a b h k = k
digits-lt n (suc m) zero b h k = k
digits-lt zero (suc m) (suc a) b h k = absurd (omega arith)
digits-lt (suc n) (suc m) (suc a) b h k = omega (
  arith,
  pow-suc 2 n,
  differ-le (suc a % 2) (b % 2) (omega arith) (omega arith),
  digits-lt n m (suc a / 2) (b / 2) (omega (arith, h, pow-suc 2 n)) (omega (arith, k, pow-suc 2 n)),
)

bit_xor-lt : (n a b : ℕ) → a < 2 ^ n → b < 2 ^ n → bit_xor a b < 2 ^ n
bit_xor-lt n a b h k =
    subst (λ x. x < 2 ^ n) (sym (λ i. bit_xor-bitwise a b i)) (digits-lt n a a b h k)

crc32_rounds-lt : (n crc : ℕ) → crc < 2 ^ 32 → crc32_rounds n crc < 2 ^ 32
unfolding crc32_rounds crc32_round
crc32_rounds-lt zero crc h = h
crc32_rounds-lt (suc n) crc h =
    crc32_rounds-lt n (crc32_round crc)
      (ground (arith, bit_xor-lt 32 (crc / 2) 0xEDB88320 (omega arith) (omega arith)))

crc32_update-lt :
    (crc : ℕ) (bytes : List ℕ) → crc < 2 ^ 32 → IsBytes bytes → crc32_update crc bytes < 2 ^ 32
unfolding crc32_update
crc32_update-lt crc [] h k = h
crc32_update-lt crc (b ∷ bytes) h k =
    crc32_update-lt (crc32_rounds 8 (bit_xor crc b)) bytes
      (crc32_rounds-lt 8 (bit_xor crc b) (bit_xor-lt 32 crc b h (omega (arith, k.0)))) k.1

pub crc32-lt : (bytes : List ℕ) → IsBytes bytes → crc32 bytes < 2 ^ 32
unfolding crc32 crc32_finalize
crc32-lt bytes h =
    bit_xor-lt 32 (crc32_update crc32_init bytes) 0xFFFFFFFF
      (crc32_update-lt crc32_init bytes (omega arith) h) (omega arith)
