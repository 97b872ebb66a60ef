-- ===== src/Storage/Masking.antt =====
-- The stored checksum of an index file set to zero.
use vdb_rs.Prelude.{
  ℕ, zero, suc, ◌+◌, ◌≡◌, refl, ap, sym, ◌∙◌, List, [], ◌∷◌, ◌++◌, length, take, drop, replicate,
  arith, length-append, append-nil, append_assoc, drop-append, take-append,
}
use vdb_rs.Prelude.Bytes.{to_le_bytes, length-to_le_bytes}
use vdb_rs.Storage.Fields.{le_fields}
use vdb_rs.Storage.Header.{Manifest, serialize_manifest}
use vdb_rs.Storage.Checksum.{fill_zero}
use vdb_rs.Storage.Layout.{start}

-- `fill(0)` beyond a front part, and of a whole part.
fill_zero-append :
    (front rest : List ℕ) (s e start end : ℕ)
    → length front + s ≡ start
    → length front + e ≡ end
    → fill_zero start end (front ++ rest) ≡ front ++ fill_zero s e rest
unfolding fill_zero
fill_zero-append [] rest s e start end hs he =
    let p : start ≡ s = omega (arith, hs) in let q : end ≡ e = omega (arith, he) in rw (p, q) refl
fill_zero-append (b ∷ front) rest s e zero end hs he = absurd (omega arith)
fill_zero-append (b ∷ front) rest s e (suc start) zero hs he = absurd (omega arith)
fill_zero-append (b ∷ front) rest s e (suc start) (suc end) hs he =
    ap (◌∷◌ b) (fill_zero-append front rest s e start end (omega arith) (omega arith))

fill_zero-all :
    (part rest : List ℕ) (n : ℕ)
    → length part ≡ n
    → fill_zero 0 n (part ++ rest) ≡ replicate n 0 ++ rest
unfolding fill_zero
fill_zero-all [] [] zero h = refl
fill_zero-all [] (b ∷ rest) zero h = refl
fill_zero-all [] rest (suc n) h = absurd (omega arith)
fill_zero-all (b ∷ part) rest zero h = absurd (omega arith)
fill_zero-all (b ∷ part) rest (suc n) h = ap (◌∷◌ 0) (fill_zero-all part rest n (omega arith))

-- A manifest with its checksum cleared.
pub fill_zero-manifest :
    (front : List ℕ) (version checksum start end : ℕ)
    → length front + 8 ≡ start
    → length front + 12 ≡ end
    → fill_zero start end
        (front ++ serialize_manifest (record { version = version; checksum = checksum }))
      ≡ front ++ serialize_manifest (record { version = version; checksum = 0 })
unfolding serialize_manifest le_fields to_le_bytes
fill_zero-manifest front version checksum start end hs he =
    let v = to_le_bytes 8 version in
    let c = to_le_bytes 4 checksum in
    let z : List ℕ = replicate 4 0 in
    let regroup : (x : List ℕ) → front ++ ((v ++ (x ++ [])) ++ z) ≡ (front ++ v) ++ (x ++ z) = λ x.
      ap (λ y. front ++ ((v ++ y) ++ z)) (append-nil x)
      ∙ ap (◌++◌ front) (append_assoc v x z)
      ∙ sym (append_assoc front v (x ++ z)) in
    let eight = length-append front v in
    ap (fill_zero start end) (regroup c)
    ∙ fill_zero-append (front ++ v) (c ++ z) 0 4 start end
        (omega (arith, eight, length-to_le_bytes 8 version, hs))
        (omega (arith, eight, length-to_le_bytes 8 version, he))
    ∙ ap (◌++◌ (front ++ v)) (fill_zero-all c z 4 (length-to_le_bytes 4 checksum))
    ∙ sym (regroup (replicate 4 0))

-- The bytes of the checksum in a manifest.
pub take-drop-manifest :
    (m : Manifest) → take 4 (drop 8 (serialize_manifest m)) ≡ to_le_bytes 4 m.checksum
unfolding serialize_manifest le_fields
take-drop-manifest m =
    let v = to_le_bytes 8 m.version in
    let c = to_le_bytes 4 m.checksum in
    let z : List ℕ = replicate 4 0 in
    ap (λ l. take 4 (drop 8 l)) (append_assoc v (c ++ []) z)
    ∙ ap (take 4) (drop-append 8 v ((c ++ []) ++ z) (length-to_le_bytes 8 m.version))
    ∙ ap (take 4) (append_assoc c [] z)
    ∙ take-append 4 c z (length-to_le_bytes 4 m.checksum)
