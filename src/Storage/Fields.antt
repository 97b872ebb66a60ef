-- ===== src/Storage/Fields.antt =====
-- Little-endian fields one after the other, and reading one of them at its offset.
use vdb_rs.Prelude.{
  ℕ, zero, suc, ◌+◌, ◌^◌, ◌<◌, ◌≡◌, refl, ap, ◌∙◌, List, [], ◌∷◌, ◌++◌, some, length, take, drop,
  drop-add, get_elem?, arith, length-append, take-append, drop-append, append_assoc,
}
use vdb_rs.Prelude.Bytes.{to_le_bytes, from_le_bytes, length-to_le_bytes, from_le_bytes-to_le_bytes}

-- `u64::from_le_bytes(buf[at..at + width])` for a field of eight bytes, and its like.
unfoldable pub read_le : ℕ → ℕ → List ℕ → ℕ
read_le at width buf = from_le_bytes (take width (drop at buf))

-- Widths and values, written in order.
unfoldable pub le_fields : List (ℕ × ℕ) → List ℕ
le_fields [] = []
le_fields ((width, value) ∷ fields) = to_le_bytes width value ++ le_fields fields

abbrev pub size_of : List (ℕ × ℕ) → ℕ
size_of [] = 0
size_of ((width, value) ∷ fields) = width + size_of fields

pub length-le_fields : (fields : List (ℕ × ℕ)) → length (le_fields fields) ≡ size_of fields
unfolding le_fields
length-le_fields [] = refl
length-le_fields ((width, value) ∷ fields) = omega (
  arith,
  length-append (to_le_bytes width value) (le_fields fields),
  length-to_le_bytes width value,
  length-le_fields fields,
)

-- The offset of a field: the widths of those before it.
abbrev pub offset_of : ℕ → List (ℕ × ℕ) → ℕ
offset_of zero fields = 0
offset_of (suc i) [] = 0
offset_of (suc i) ((width, value) ∷ fields) = width + offset_of i fields

pub read_le-skip :
    (front : List ℕ) (m n width : ℕ) (buf : List ℕ)
    → length front ≡ m
    → read_le (m + n) width (front ++ buf) ≡ read_le n width buf
unfolding read_le
read_le-skip front m n width buf h =
    rw (drop-add m n (m + n) (front ++ buf) refl, drop-append m front buf h) refl

-- A field whose value fits is read back at its offset, whatever follows.
pub read_le-le_fields :
    (fields : List (ℕ × ℕ)) (i width value : ℕ) (rest : List ℕ)
    → get_elem? fields i ≡ some (width, value)
    → value < 256 ^ width
    → read_le (offset_of i fields) width (le_fields fields ++ rest) ≡ value
unfolding le_fields read_le
read_le-le_fields [] i width value rest e h = cc
read_le-le_fields ((w, v) ∷ fields) zero width value rest e h =
    let same_width : w ≡ width = cc in
    let same_value : v ≡ value = cc in
    rw
      (
        append_assoc (to_le_bytes w v) (le_fields fields) rest,
        ← same_width,
        take-append w (to_le_bytes w v) (le_fields fields ++ rest) (length-to_le_bytes w v),
      )
      (from_le_bytes-to_le_bytes w v (ground arith) ∙ same_value)
read_le-le_fields ((w, v) ∷ fields) (suc i) width value rest e h =
    ap (read_le (w + offset_of i fields) width)
      (append_assoc (to_le_bytes w v) (le_fields fields) rest)
    ∙ read_le-skip (to_le_bytes w v) w (offset_of i fields) width (le_fields fields ++ rest)
        (length-to_le_bytes w v)
    ∙ read_le-le_fields fields i width value rest e h

-- The same, with the offset as a number.
pub read_le-at :
    (fields : List (ℕ × ℕ)) (i offset width value : ℕ) (rest : List ℕ)
    → offset_of i fields ≡ offset
    → get_elem? fields i ≡ some (width, value)
    → value < 256 ^ width
    → read_le offset width (le_fields fields ++ rest) ≡ value
read_le-at fields i offset width value rest o e h =
    rw (← o) (read_le-le_fields fields i width value rest e h)
