-- ===== src/Storage/Checksum.antt =====
-- `crc32` of src/storage.rs, and `verify_checksum_streaming` of src/mmap_index.rs, which feeds the
-- file to it piece by piece.
use Prim.Native.Nat.{bit_xor}
use vdb_rs.Prelude.{
  ℕ, zero, suc, ◌+◌, ◌-◌, ◌/◌, ◌%◌, ◌^◌, Bool, ◌&&◌, ◌||◌, List, [], ◌∷◌, Option, none, some,
  length, take, drop, min, max, ltb, if◌then◌else◌, ◌==◌,
}
use vdb_rs.Storage.Fields.{read_le}

-- One of the eight rounds of a byte.
unfoldable pub crc32_round : ℕ → ℕ
crc32_round crc = if crc % 2 == 1 then bit_xor (crc / 2) 0xEDB88320 else crc / 2

unfoldable pub crc32_rounds : ℕ → ℕ → ℕ
unfolding crc32_round
crc32_rounds zero crc = crc
crc32_rounds (suc n) crc = crc32_rounds n (crc32_round crc)

abbrev pub crc32_init : ℕ
crc32_init = 0xFFFFFFFF

unfoldable pub crc32_update : ℕ → List ℕ → ℕ
unfolding crc32_rounds
crc32_update crc [] = crc
crc32_update crc (byte ∷ bytes) = crc32_update (crc32_rounds 8 (bit_xor crc byte)) bytes

unfoldable pub crc32_finalize : ℕ → ℕ
crc32_finalize crc = bit_xor crc 0xFFFFFFFF

unfoldable pub crc32 : List ℕ → ℕ
unfolding crc32_update crc32_finalize
crc32 bytes = crc32_finalize (crc32_update crc32_init bytes)

-- `fill(0)` of the places from `start` to `end`.
unfoldable pub fill_zero : ℕ → ℕ → List ℕ → List ℕ
fill_zero start end [] = []
fill_zero zero zero (b ∷ bs) = b ∷ bs
fill_zero zero (suc end) (b ∷ bs) = 0 ∷ fill_zero zero end bs
fill_zero (suc start) zero (b ∷ bs) = b ∷ bs
fill_zero (suc start) (suc end) (b ∷ bs) = b ∷ fill_zero start end bs

-- The piece at `offset`, with the bytes that it shares with the stored checksum set to zero.
unfoldable pub mask_piece : ℕ → ℕ → ℕ → List ℕ → List ℕ
unfolding fill_zero
mask_piece checksum_start checksum_end offset piece =
    let seg_end = offset + length piece in
    if ltb checksum_start seg_end && ltb offset checksum_end
    then fill_zero (max checksum_start offset - offset) (min checksum_end seg_end - offset) piece
    else piece

-- The `while` over the pieces of at most `size` bytes, by fuel: `rest` is the file from `offset` on.
unfoldable pub checksum_loop : ℕ → ℕ → ℕ → ℕ → ℕ → ℕ → List ℕ → Option ℕ
unfolding mask_piece
checksum_loop fuel size checksum_start checksum_end offset crc [] = some crc
checksum_loop zero size checksum_start checksum_end offset crc (b ∷ rest) = none
checksum_loop (suc fuel) size checksum_start checksum_end offset crc (b ∷ rest) =
    checksum_loop fuel size checksum_start checksum_end (offset + length (take size (b ∷ rest)))
      (crc32_update crc (mask_piece checksum_start checksum_end offset (take size (b ∷ rest))))
      (drop size (b ∷ rest))

-- The pass over the file and the comparison, for the place of the stored checksum: `none` for a read
-- beyond the file, else whether the checksums agree. If the end has wrapped around, the bytes are
-- asked of a chunk beyond the file, which is an error as well.
unfoldable pub verify_between : ℕ → ℕ → ℕ → List ℕ → Option Bool
unfolding checksum_loop crc32_finalize read_le
verify_between size checksum_start checksum_end file =
    let pass =
      checksum_loop (length file) size checksum_start checksum_end 148 crc32_init (drop 148 file) in
    elim pass [
      | none ↦ none
      | some crc ↦
          if ltb (length file) checksum_end || ltb checksum_end checksum_start
          then none
          else some (crc32_finalize crc == read_le checksum_start 4 file)
    ]

-- The sums with the offset wrap around at 64 bits.
unfoldable pub verify_checksum_streaming : ℕ → ℕ → List ℕ → Option Bool
unfolding verify_between
verify_checksum_streaming size manifest_offset file =
    let start = (manifest_offset + 8) % 2 ^ 64 in
    verify_between size start ((start + 4) % 2 ^ 64) file
