-- ===== src/Storage/Streaming.antt =====
-- The checksum fed piece by piece is the checksum of the whole file.
use vdb_rs.Prelude.{
  ℕ, zero, suc, ◌+◌, ◌-◌, ◌≤◌, ◌≡◌, refl, ap, sym, ◌∙◌, ◌&&◌, ◌||◌, ◌%◌, ◌^◌, ◌<◌, List, [], ◌∷◌,
  ◌++◌, none, some, length, take, drop, min, ltb, leb, if◌then◌else◌, arith, length-drop,
  take-append-drop, Bool-cases, inl, inr, ◌==◌,
}
use Prim.Native.Nat.{bit_xor}
use vdb_rs.Storage.Fields.{read_le}
use vdb_rs.Storage.Checksum.{
  crc32_rounds, crc32, crc32_init, verify_checksum_streaming, verify_between, crc32_update,
  fill_zero, mask_piece, checksum_loop,
}

pub crc32_update-append :
    (crc : ℕ) (xs ys : List ℕ) → crc32_update crc (xs ++ ys) ≡ crc32_update (crc32_update crc xs) ys
unfolding crc32_update
crc32_update-append crc [] ys = refl
crc32_update-append crc (x ∷ xs) ys = crc32_update-append (crc32_rounds 8 (bit_xor crc x)) xs ys

-- The bytes from `offset` on, with zeros at the places from `s` up to `e`.
unfoldable pub zeroed : ℕ → ℕ → ℕ → List ℕ → List ℕ
zeroed s e offset [] = []
zeroed s e offset (b ∷ bs) =
    (if leb s offset && ltb offset e then 0 else b) ∷ zeroed s e (suc offset) bs

zeroed-append :
    (s e offset : ℕ) (xs ys : List ℕ)
    → zeroed s e offset (xs ++ ys) ≡ zeroed s e offset xs ++ zeroed s e (offset + length xs) ys
unfolding zeroed
zeroed-append s e offset [] ys =
    let q : offset ≡ offset + 0 = omega arith in ap (λ o. zeroed s e o ys) q
zeroed-append s e offset (x ∷ xs) ys =
    let q : suc offset + length xs ≡ offset + suc (length xs) = omega arith in
    ap (◌∷◌ (if leb s offset && ltb offset e then 0 else x)) (
      zeroed-append s e (suc offset) xs ys
      ∙ ap (λ o. zeroed s e (suc offset) xs ++ zeroed s e o ys) q)

zeroed-past : (s e offset : ℕ) (bs : List ℕ) → e ≤ offset → zeroed s e offset bs ≡ bs
unfolding zeroed
zeroed-past s e offset [] h = refl
zeroed-past s e offset (b ∷ bs) h = ground (arith, zeroed-past s e (suc offset) bs)

zeroed-before : (s e offset : ℕ) (bs : List ℕ) → offset + length bs ≤ s → zeroed s e offset bs ≡ bs
unfolding zeroed
zeroed-before s e offset [] h = refl
zeroed-before s e offset (b ∷ bs) h = ground (arith, zeroed-before s e (suc offset) bs)

pub fill_zero-zeroed :
    (s e offset a c : ℕ) (bs : List ℕ)
    → s ≤ e
    → a ≡ s - offset
    → c ≡ min (e - offset) (length bs)
    → fill_zero a c bs ≡ zeroed s e offset bs
unfolding fill_zero zeroed
fill_zero-zeroed s e offset a c [] h p q = refl
fill_zero-zeroed s e offset zero zero (b ∷ bs) h p q =
    sym (zeroed-past s e offset (b ∷ bs) (omega arith))
fill_zero-zeroed s e offset zero (suc c) (b ∷ bs) h p q =
    let ih : fill_zero zero c bs ≡ zeroed s e (suc offset) bs =
      fill_zero-zeroed s e (suc offset) zero c bs h (omega arith) (omega arith) in
    ground arith
fill_zero-zeroed s e offset (suc a) zero (b ∷ bs) h p q = absurd (omega arith)
fill_zero-zeroed s e offset (suc a) (suc c) (b ∷ bs) h p q =
    let ih : fill_zero a c bs ≡ zeroed s e (suc offset) bs =
      fill_zero-zeroed s e (suc offset) a c bs h (omega arith) (omega arith) in
    ground arith

mask_piece-zeroed :
    (s e offset : ℕ) (bs : List ℕ) → s ≤ e → mask_piece s e offset bs ≡ zeroed s e offset bs
unfolding mask_piece
mask_piece-zeroed s e offset bs h = elim (Bool-cases (ltb s (offset + length bs) && ltb offset e)) [
  | inl t ↦ rw t (fill_zero-zeroed s e offset _ _ bs h (omega arith) (ground arith))
  | inr t ↦ elim (Bool-cases (ltb offset e)) [
    | inl u ↦ rw t (sym (zeroed-before s e offset bs (ground arith)))
    | inr u ↦ rw t (sym (zeroed-past s e offset bs (ground arith)))
  ]
]

crc32_update-zeroed_nil : (crc s e offset : ℕ) → crc32_update crc (zeroed s e offset []) ≡ crc
unfolding crc32_update zeroed
crc32_update-zeroed_nil crc s e offset = refl

-- With pieces of at least one byte, and fuel for as many as there are bytes, the loop ends, and its
-- result is the checksum of the whole file from `offset` on with zeros in place of the stored
-- checksum: neither the size of the pieces nor where they cut that field matters.
pub checksum_loop-whole :
    (fuel size s e offset crc : ℕ) (rest : List ℕ)
    → 1 ≤ size
    → s ≤ e
    → length rest ≤ fuel
    → checksum_loop fuel size s e offset crc rest ≡ some (crc32_update crc (zeroed s e offset rest))
unfolding checksum_loop
checksum_loop-whole fuel size s e offset crc [] one h f =
    ap some (sym (crc32_update-zeroed_nil crc s e offset))
checksum_loop-whole zero size s e offset crc (b ∷ rest) one h f = absurd (omega arith)
checksum_loop-whole (suc fuel) size s e offset crc (b ∷ rest) one h f =
    let piece = take size (b ∷ rest) in
    let left = drop size (b ∷ rest) in
    let whole : zeroed s e offset (b ∷ rest)
        ≡ zeroed s e offset piece ++ zeroed s e (offset + length piece) left =
      ap (zeroed s e offset) (sym (take-append-drop size (b ∷ rest)))
      ∙ zeroed-append s e offset piece left in
    let next = offset + length piece in
    ap (λ m. checksum_loop fuel size s e next (crc32_update crc m) left)
      (mask_piece-zeroed s e offset piece h)
    ∙ checksum_loop-whole fuel size s e next (crc32_update crc (zeroed s e offset piece)) left one h
        (omega (arith, length-drop size (b ∷ rest)))
    ∙ ap some (sym (crc32_update-append crc (zeroed s e offset piece) (zeroed s e next left)))
    ∙ ap (λ m. some (crc32_update crc m)) (sym whole)

verify_between-whole :
    (size start : ℕ) (file : List ℕ)
    → 1 ≤ size
    → verify_between size start (start + 4) file ≡ (
        if ltb (length file) (start + 4)
        then none
        else some (crc32 (zeroed start (start + 4) 148 (drop 148 file)) == read_le start 4 file))
unfolding verify_between crc32
verify_between-whole size start file one =
    let test : (ltb (length file) (start + 4) || ltb (start + 4) start)
        ≡ ltb (length file) (start + 4) =
      ground arith in
    rw
      (
        checksum_loop-whole (length file) size start (start + 4) 148 crc32_init (drop 148 file) one
            (omega arith) (omega (arith, length-drop 148 file)),
        verify_between,
        test,
      )
      refl

-- With a buffer of any size but zero, where the four bytes of the stored checksum do not run over
-- the end of 64 bits, a file passes exactly if they say the checksum of all that follows the header,
-- computed with zeros in their place; a file that ends before those bytes is an error. The place of
-- those bytes is eight after the offset, around the end of 64 bits.
pub verify_checksum_streaming-whole :
    (size manifest_offset : ℕ) (file : List ℕ)
    → 1 ≤ size
    → (manifest_offset + 8) % 2 ^ 64 + 4 < 2 ^ 64
    → let start = (manifest_offset + 8) % 2 ^ 64 in
      verify_checksum_streaming size manifest_offset file ≡ (
        if ltb (length file) (start + 4)
        then none
        else some (crc32 (zeroed start (start + 4) 148 (drop 148 file)) == read_le start 4 file))
unfolding verify_checksum_streaming
verify_checksum_streaming-whole size manifest_offset file one fits =
    let start = (manifest_offset + 8) % 2 ^ 64 in
    let end : (start + 4) % 2 ^ 64 ≡ start + 4 = omega arith in
    ap (λ e. verify_between size start e file) end ∙ verify_between-whole size start file one
