-- ===== src/Storage/Rejects.antt =====
-- What `load_index` and `load_index_mmap` refuse.
use vdb_rs.Prelude.{
  ℕ, min, ◌+◌, ◌-◌, ◌%◌, ◌^◌, ◌≤◌, ◌<◌, ◌≡◌, refl, ap, sym, ◌∙◌, true, false, ◌&&◌, leb, ltb, List,
  Option, none, some, length, take, drop, arith, Bool, Bool-cases, inl, inr, ◌==◌, ==_iff,
  length-take, length-drop, take-take, take-drop-take, drop-add,
}
use mathlib.Core.Option
use vdb_rs.Prelude.Assoc.{str_eq, str_eq_iff}
use vdb_rs.Prelude.Bytes.{from_le_bytes}
use vdb_rs.Prelude.Float.{Float}
use vdb_rs.Prelude.Wire.{Wire}
use vdb_rs.Index.Defs.{IvfRabitqIndex}
use vdb_rs.Storage.Fields.{read_le}
use vdb_rs.Storage.Header.{
  Header, Manifest, header_size, manifest_size, deserialize_header, deserialize_manifest,
}
use vdb_rs.Storage.Checksum.{crc32, fill_zero}
use vdb_rs.Storage.Checksum.{verify_checksum_streaming}
use vdb_rs.Storage.Streaming.{zeroed, fill_zero-zeroed, verify_checksum_streaming-whole}
use vdb_rs.Storage.Io.{Io, IoError, ◌>>=◌, ensure, or_err, read_at}
use vdb_rs.Storage.Save.{PayloadJson, magic, format_version}
use vdb_rs.Storage.Load.{check_header, body_checksum, read_parts, load_index}

-- A step that succeeded, and what came of it.
>>=-ok {ℓ κ} :
    {A : Type ℓ} {B : Type κ} (m : Io A) (f : A → Io B) (b : B)
    → (m >>= f) ≡ Io.ok b
    → (a : A) × (m ≡ Io.ok a) × (f a ≡ Io.ok b)
>>=-ok (Io.ok a) f b h = (a, refl, h)
>>=-ok (Io.err e) f b h = cc
>>=-ok Io.panic f b h = cc

ensure_ok : (t : Bool) (e : IoError) (u : Unit {0}) → ensure t e ≡ Io.ok u → t ≡ true
ensure_ok true e u h = refl
ensure_ok false e u h = cc

read_at_ok :
    (offset len : ℕ) (file part : List ℕ)
    → read_at offset len file ≡ Io.ok part
    → (part ≡ take len (drop offset file)) × (length part ≡ len)
unfolding read_at
read_at_ok offset len file part h =
    elim (Bool-cases (length (take len (drop offset file)) == len)) [
      | inl t ↦
          let same : Io.ok (take len (drop offset file)) ≡ Io.ok part = rw t at h in
          let equal : take len (drop offset file) ≡ part = cc in
          (sym equal, ap length (sym equal) ∙ ground arith)
      | inr t ↦ let no : Io.err IoError.unexpected_eof ≡ Io.ok part = rw t at h in cc
    ]

or_err_ok : {A : Type 0} (e : IoError) (o : Option A) (a : A) → or_err e o ≡ Io.ok a → o ≡ some a
or_err_ok e none a h = cc
or_err_ok e (some b) a h = let same : b ≡ a = cc in ap some same

deserialize_header-some :
    (buf : List ℕ) (header : Header)
    → deserialize_header buf ≡ some header
    → (header.magic ≡ take 8 buf)
      × (header.version ≡ read_le 8 4 buf)
      × (header.manifest_offset ≡ read_le 132 8 buf)
unfolding deserialize_header
deserialize_header-some buf header h = elim (Bool-cases (ltb (length buf) header_size)) [
  | inl t ↦ let no : none ≡ some header = rw t at h in cc
  | inr t ↦
      let fields : Header → List ℕ × ℕ × ℕ = λ x. (x.magic, x.version, x.manifest_offset) in
      let same : Option.map fields (some header)
          ≡ some (take 8 buf, read_le 8 4 buf, read_le 132 8 buf) =
        ap (Option.map fields) (sym (rw t at h)) in
      (cc, cc, cc)
]

deserialize_manifest-some :
    (buf : List ℕ) (manifest : Manifest)
    → deserialize_manifest buf ≡ some manifest
    → manifest.checksum ≡ read_le 8 4 buf
unfolding deserialize_manifest
deserialize_manifest-some buf manifest h = elim (Bool-cases (ltb (length buf) manifest_size)) [
  | inl t ↦ let no : none ≡ some manifest = rw t at h in cc
  | inr t ↦
      let checksum : Manifest → ℕ = λ x. x.checksum in
      let same : Option.map checksum (some manifest) ≡ some (read_le 8 4 buf) =
        ap (Option.map checksum) (sym (rw t at h)) in
      cc
]

-- A header that passes has the magic and the version, and its fields are at their places.
check_header_ok :
    (buf : List ℕ) (header : Header)
    → check_header buf ≡ Io.ok header
    → (take 8 buf ≡ magic) × (read_le 8 4 buf ≡ 1) × (header.manifest_offset ≡ read_le 132 8 buf)
unfolding check_header
check_header_ok buf header h =
    let (found, decoded, rest) =
      >>=-ok (or_err IoError.bad_header (deserialize_header buf)) _ header h in
    let (u, has_magic, more) =
      >>=-ok (ensure (str_eq found.magic magic) IoError.bad_magic) _ header rest in
    let (w, has_version, last) =
      >>=-ok (ensure (found.version == format_version) IoError.unsupported_version) _ header more in
    passed found (or_err_ok IoError.bad_header (deserialize_header buf) found decoded)
      (ensure_ok (str_eq found.magic magic) IoError.bad_magic u has_magic)
      (ensure_ok (found.version == format_version) IoError.unsupported_version w has_version) last
  where
    passed :
        (found : Header)
        → deserialize_header buf ≡ some found
        → str_eq found.magic magic ≡ true
        → (found.version == format_version) ≡ true
        → Io.ok found ≡ Io.ok header
        → (take 8 buf ≡ magic)
          × (read_le 8 4 buf ≡ 1)
          × (header.manifest_offset ≡ read_le 132 8 buf)
    passed found d m v l =
        let (a, b, c) = deserialize_header-some buf found d in
        let same : found ≡ header = cc in
        (
          sym a ∙ (str_eq_iff found.magic magic).0 m,
          sym b ∙ (==_iff found.version 1).0 v,
          ap (λ x. x.manifest_offset) (sym same) ∙ c,
        )

within_ok : (a b n : ℕ) → (leb a b && leb b n) ≡ true → (a ≤ b) × (b ≤ n)
within_ok a b n h = (ground arith, ground arith)

body_checksum_ok :
    (manifest_offset computed : ℕ) (file : List ℕ)
    → manifest_offset + 16 ≤ length file
    → length file < 2 ^ 64
    → body_checksum manifest_offset (drop header_size file) ≡ Io.ok computed
    → let start = manifest_offset + 8 in
      computed ≡ crc32 (zeroed start (start + 4) 148 (drop 148 file))
unfolding body_checksum
body_checksum_ok manifest_offset computed file within fits h =
    let body = drop header_size file in
    let rel = (manifest_offset + (2 ^ 64 - header_size)) % 2 ^ 64 in
    let start = (rel + 8) % 2 ^ 64 in
    let end = (rel + 12) % 2 ^ 64 in
    elim (Bool-cases (leb start end && leb end (length body))) [
      | inl t ↦
          let same : Io.ok (crc32 (fill_zero start end body)) ≡ Io.ok computed = rw t at h in
          let equal : crc32 (fill_zero start end body) ≡ computed = cc in
          let n : length body ≡ length file - header_size = length-drop header_size file in
          let inside = within_ok start end (length body) t in
          let s : start ≡ manifest_offset + 8 - 148 = omega arith in
          let e : end ≡ min (manifest_offset + 8 + 4 - 148) (length body) = omega arith in
          sym equal
          ∙ ap crc32 (
              fill_zero-zeroed (manifest_offset + 8) (manifest_offset + 8 + 4) 148 start end body
                (omega arith) s e)
      | inr t ↦ let no : Io.panic ≡ Io.ok computed = rw t at h in cc
    ]

read_le-take :
    (at width n : ℕ) (file : List ℕ)
    → at + width ≤ n
    → read_le at width (take n file) ≡ read_le at width file
unfolding read_le
read_le-take at width n file h = ap from_le_bytes (take-drop-take width at n file h)

read_le-drop : (n : ℕ) (l : List ℕ) → read_le 8 4 (drop n l) ≡ read_le (n + 8) 4 l
unfolding read_le
read_le-drop n l = ap (λ x. from_le_bytes (take 4 x)) (sym (drop-add n 8 (n + 8) l refl))

-- The stored checksum, in the manifest as it was read and in the file.
stored_checksum :
    (offset : ℕ) (file last : List ℕ)
    → last ≡ take manifest_size (drop offset file)
    → read_le 8 4 last ≡ read_le (offset + 8) 4 file
stored_checksum offset file last e =
    ap (read_le 8 4) e
    ∙ read_le-take 8 4 manifest_size (drop offset file) (omega arith)
    ∙ read_le-drop offset file

-- What passed every test of `load_index` passes the streaming check.
accepted :
    (size : ℕ) (file buf last : List ℕ) (header : Header) (manifest : Manifest) (computed : ℕ)
    → 1 ≤ size
    → length file < 2 ^ 64
    → read_at 0 header_size file ≡ Io.ok buf
    → check_header buf ≡ Io.ok header
    → body_checksum header.manifest_offset (drop header_size file) ≡ Io.ok computed
    → read_at header.manifest_offset manifest_size file ≡ Io.ok last
    → deserialize_manifest last ≡ some manifest
    → (computed == manifest.checksum) ≡ true
    → (take 8 file ≡ magic)
      × (read_le 8 4 file ≡ 1)
      × (verify_checksum_streaming size (read_le 132 8 file) file ≡ some true)
accepted size file buf last header manifest computed one fits head checked summed tail decoded
      equal =
    let (first, long) = read_at_ok 0 header_size file buf head in
    let (m, v, o) = check_header_ok buf header checked in
    let (end, wide) = read_at_ok header.manifest_offset manifest_size file last tail in
    let within : header.manifest_offset + 16 ≤ length file = ground (
      arith,
      ap length end,
      length-take manifest_size (drop header.manifest_offset file),
      length-drop header.manifest_offset file,
      wide,
    ) in
    let sum = body_checksum_ok header.manifest_offset computed file within fits summed in
    let stored =
      deserialize_manifest-some last manifest decoded
      ∙ stored_checksum header.manifest_offset file last end in
    let place : header.manifest_offset ≡ read_le 132 8 file =
      o ∙ ap (read_le 132 8) first ∙ read_le-take 132 8 header_size file (omega arith) in
    let same : computed ≡ manifest.checksum = (==_iff computed manifest.checksum).0 equal in
    let offset = header.manifest_offset in
    let test : (crc32 (zeroed (offset + 8) (offset + 8 + 4) 148 (drop 148 file))
          == read_le (offset + 8) 4 file)
        ≡ true =
      (==_iff (crc32 (zeroed (offset + 8) (offset + 8 + 4) 148 (drop 148 file)))
          (read_le (offset + 8) 4 file)).1
        (sym sum ∙ same ∙ stored) in
    let place_mod : (offset + 8) % 2 ^ 64 ≡ offset + 8 = omega (arith, within, fits) in
    let inside : ltb (length file) (offset + 8 + 4) ≡ false =
      lt_false (length file) offset within in
    (
      sym (take-take 8 header_size file (omega arith)) ∙ ap (take 8) (sym first) ∙ m,
      sym (read_le-take 8 4 header_size file (omega arith)) ∙ ap (read_le 8 4) (sym first) ∙ v,
      ap (λ n. verify_checksum_streaming size n file) (sym place)
          ∙ verify_checksum_streaming-whole size offset file one (omega (arith, within, fits))
          ∙ rw (place_mod, inside, test) refl,
    )
  where
    lt_false : (n o : ℕ) → o + 16 ≤ n → ltb n (o + 8 + 4) ≡ false
    lt_false n o h = ground arith

module _ {F N : Type 0} ⦃fl : Float F⦄ ⦃fn : Float N⦄ (wire : Wire F) (json : PayloadJson N) where
  -- A file of less than 2 ^ 64 bytes that `load_index` accepts begins with the magic and the version
  -- 1, and its manifest holds the checksum of what follows the header: `verify_checksum_streaming`
  -- accepts it too, with a buffer of any size but zero.
  pub load_index-verify_checksum_streaming :
      (size : ℕ) (file : List ℕ) (index : IvfRabitqIndex F N)
      → 1 ≤ size
      → length file < 2 ^ 64
      → load_index wire json file ≡ Io.ok index
      → (take 8 file ≡ magic)
        × (read_le 8 4 file ≡ 1)
        × (verify_checksum_streaming size (read_le 132 8 file) file ≡ some true)
  unfolding load_index
  load_index-verify_checksum_streaming size file index one fits h =
      let (buf, head, h1) = >>=-ok (read_at 0 header_size file) _ index h in
      let (header, checked, h2) = >>=-ok (check_header buf) _ index h1 in
      let (parts, found, h3) =
        >>=-ok (read_parts wire json (λ offset len. read_at offset len file) header) _ index h2 in
      let (computed, summed, h4) =
        >>=-ok (body_checksum header.manifest_offset (drop header_size file)) _ index h3 in
      let (last, tail, h5) =
        >>=-ok (read_at header.manifest_offset manifest_size file) _ index h4 in
      let (manifest, decoded, h6) =
        >>=-ok (or_err IoError.bad_manifest (deserialize_manifest last)) _ index h5 in
      let (u, equal, h7) =
        >>=-ok (ensure (computed == manifest.checksum) IoError.checksum_mismatch) _ index h6 in
      accepted size file buf last header manifest computed one fits head checked summed tail
        (or_err_ok IoError.bad_manifest (deserialize_manifest last) manifest decoded)
        (ensure_ok (computed == manifest.checksum) IoError.checksum_mismatch u equal)
