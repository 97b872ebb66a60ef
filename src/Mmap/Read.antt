-- ===== src/Mmap/Read.antt =====
-- A read through the cache gives the bytes of the file.
use native.Mathlib.Nat.{div-mul-le_self, lt-div-mul-add}
use vdb_rs.Prelude.{
  ℕ, zero, suc, ◌+◌, ◌-◌, ◌*◌, ◌/◌, ◌≤◌, ◌<◌, ◌≡◌, refl, ap, sym, ◌∙◌, min, Bool, false, ◌&&◌, List,
  ◌++◌, some, length, take, drop, any, ltb, ◌==◌, arith, Bool-cases, Option-cases, inl, inr, subst,
  drop-add, take-drop-take, take-split,
}
use vdb_rs.Prelude.Assoc.{nat_eq, lookup, insert, remove, lookup-insert, lookup-remove}
use vdb_rs.Mmap.Chunks.{
  Storage, touch, pop_back, evict_one, evict, map_chunk, load_chunk, get_chunk, read_loop, read,
}

-- The storage is that of the file, cut at this size, and every chunk in the cache holds the bytes of
-- the file.
pub record IsCoherent (file : List ℕ) (size : ℕ) (st : Storage) : Type 0 where
  pub same_file : st.file ≡ file
  pub same_size : st.chunk_size ≡ size
  pub chunk_of :
      (idx : ℕ) (chunk : List ℕ)
      → lookup idx st.chunks ≡ some chunk
      → chunk ≡ map_chunk file size idx

module _ (file : List ℕ) (size : ℕ) where
  touch-IsCoherent :
      (st : Storage) (idx : ℕ) → IsCoherent file size st → IsCoherent file size (touch st idx)
  unfolding touch
  touch-IsCoherent st idx h = elim (Bool-cases (any (λ i. i == idx) st.lru)) [
    | inl t ↦
        rw t (record { same_file = h.same_file; same_size = h.same_size; chunk_of = h.chunk_of })
    | inr t ↦ rw t h
  ]

  remove_chunk :
      (st : Storage) (gone idx : ℕ) (chunk : List ℕ)
      → IsCoherent file size st
      → lookup idx (remove gone st.chunks) ≡ some chunk
      → chunk ≡ map_chunk file size idx
  remove_chunk st gone idx chunk h e =
      h.chunk_of idx chunk (ground (arith, lookup-remove gone idx st.chunks))

  evict_one-IsCoherent :
      (in_use : ℕ → Bool) (st : Storage) (idx : ℕ) (lru : List ℕ)
      → IsCoherent file size st
      → IsCoherent file size (evict_one in_use st idx lru)
  unfolding evict_one
  evict_one-IsCoherent in_use st idx lru h = elim (Option-cases (lookup idx st.chunks)) [
    | inl e ↦
        rw (e, evict_one)
          (record { same_file = h.same_file; same_size = h.same_size; chunk_of = h.chunk_of })
    | inr (chunk, e) ↦ elim (Bool-cases (in_use idx)) [
      | inl t ↦
          rw (e, t, evict_one)
            (record { same_file = h.same_file; same_size = h.same_size; chunk_of = h.chunk_of })
      | inr t ↦
          rw (e, t, evict_one)
            (record {
              same_file = h.same_file;
              same_size = h.same_size;
              chunk_of = λ i c q. remove_chunk st idx i c h q;
            })
    ]
  ]

  evict-IsCoherent :
      (fuel : ℕ) (in_use : ℕ → Bool) (examined chunk_len : ℕ) (st : Storage)
      → IsCoherent file size st
      → IsCoherent file size (evict fuel in_use examined chunk_len st)
  unfolding evict
  evict-IsCoherent zero in_use examined chunk_len st h = h
  evict-IsCoherent (suc fuel) in_use examined chunk_len st h =
      elim (Bool-cases
        (ltb st.max_total_bytes (st.current_bytes + chunk_len) && ltb examined (length st.lru))) [
          | inr t ↦ rw t h
          | inl t ↦ elim (Option-cases (pop_back st.lru)) [
            | inl e ↦ rw (t, e) h
            | inr (popped, e) ↦
                rw (t, e)
                  (evict-IsCoherent fuel in_use (suc examined) chunk_len
                    (evict_one in_use st popped.0 popped.1)
                    (evict_one-IsCoherent in_use st popped.0 popped.1 h))
          ]
        ]

  insert_chunk :
      (st : Storage) (new idx : ℕ) (chunk : List ℕ)
      → IsCoherent file size st
      → lookup idx (insert new (map_chunk file size new) st.chunks) ≡ some chunk
      → chunk ≡ map_chunk file size idx
  insert_chunk st new idx chunk h e = elim (Bool-cases (new == idx)) [
    | inl t ↦
        let same : new ≡ idx = ground arith in
        let found : some (map_chunk file size new) ≡ some chunk =
          ground (arith, lookup-insert new idx (map_chunk file size new) st.chunks) in
        cc
    | inr t ↦
        h.chunk_of idx chunk
          (ground (arith, lookup-insert new idx (map_chunk file size new) st.chunks))
  ]

  load_chunk-IsCoherent :
      (in_use : ℕ → Bool) (st : Storage) (idx : ℕ)
      → IsCoherent file size st
      → IsCoherent file size (load_chunk in_use st idx).0
        × ((load_chunk in_use st idx).1 ≡ map_chunk file size idx)
  unfolding load_chunk
  load_chunk-IsCoherent in_use st idx h =
      let chunk = map_chunk st.file st.chunk_size idx in
      let mapped : chunk ≡ map_chunk file size idx = cc (h.same_file, h.same_size) in
      let room = evict (length st.lru) in_use 0 (length chunk) st in
      let r : IsCoherent file size room =
        evict-IsCoherent (length st.lru) in_use 0 (length chunk) st h in
      (
        record {
          same_file = r.same_file;
          same_size = r.same_size;
          chunk_of = λ i c q.
              insert_chunk room idx i c r
                (subst (λ z. lookup i (insert idx z room.chunks) ≡ some c) mapped q);
        },
        mapped,
      )

  -- A chunk that is asked for is the file's, and the cache stays coherent, whatever is evicted.
  get_chunk-IsCoherent :
      (in_use : ℕ → Bool) (st : Storage) (idx : ℕ)
      → IsCoherent file size st
      → IsCoherent file size (get_chunk in_use st idx).0
        × ((get_chunk in_use st idx).1 ≡ map_chunk file size idx)
  unfolding get_chunk
  get_chunk-IsCoherent in_use st idx h = elim (Option-cases (lookup idx st.chunks)) [
    | inr (chunk, e) ↦ rw (e, get_chunk) (touch-IsCoherent st idx h, h.chunk_of idx chunk e)
    | inl e ↦ rw (e, get_chunk) (load_chunk-IsCoherent in_use st idx h)
  ]

  -- A part of a chunk is that part of the file.
  part_of_chunk :
      (idx at len : ℕ)
      → at + len ≤ size
      → idx * size + at + len ≤ length file
      → take len (drop at (map_chunk file size idx)) ≡ take len (drop (idx * size + at) file)
  unfolding map_chunk
  part_of_chunk idx at len h k =
      take-drop-take len at (min (idx * size + size) (length file) - idx * size)
        (drop (idx * size) file) (omega arith)
      ∙ ap (take len) (sym (drop-add (idx * size) at (idx * size + at) file refl))

  read_loop-exact :
      (fuel : ℕ) (in_use : ℕ → Bool) (st : Storage) (offset len : ℕ)
      → 1 ≤ size
      → len ≤ fuel
      → offset + len ≤ length file
      → IsCoherent file size st
      → (next : Storage) × IsCoherent file size next
        × (read_loop fuel in_use st offset len ≡ some (next, take len (drop offset file)))
  unfolding read_loop
  read_loop-exact fuel in_use st offset zero one f bound h = (st, h, refl)
  read_loop-exact zero in_use st offset (suc len) one f bound h = absurd (omega arith)
  read_loop-exact (suc fuel) in_use st offset (suc len) one f bound h =
      let idx = offset / st.chunk_size in
      let at = offset - idx * st.chunk_size in
      let n = min (st.chunk_size - at) (suc len) in
      let got = get_chunk in_use st idx in
      let kept = get_chunk-IsCoherent in_use st idx h in
      let low : idx * st.chunk_size ≤ offset = div-mul-le_self offset st.chunk_size in
      let high : offset < idx * st.chunk_size + st.chunk_size =
        lt-div-mul-add {a = offset} {b = st.chunk_size} (omega (arith, h.same_size)) in
      let scaled : idx * st.chunk_size ≡ idx * size = ap (◌*◌ idx) h.same_size in
      let part : take n (drop at got.1) ≡ take n (drop offset file) =
        ap (λ c. take n (drop at c)) kept.1
        ∙ part_of_chunk idx at n (omega (arith, low, high, h.same_size))
            (omega (arith, low, high, scaled))
        ∙ ap (λ o. take n (drop o file)) (omega (arith, low, scaled)) in
      let (next, coherent, rest) =
        read_loop-exact fuel in_use got.0 (offset + n) (suc len - n) one (omega (arith, low, high))
          (omega (arith, low, high)) kept.0 in
      let whole : take n (drop at got.1) ++ take (suc len - n) (drop (offset + n) file)
          ≡ take (suc len) (drop offset file) =
        ap (◌++◌ (take n (drop at got.1)))
          (ap (take (suc len - n)) (drop-add offset n (offset + n) file refl))
        ∙ ap (λ p. p ++ take (suc len - n) (drop n (drop offset file))) part
        ∙ sym (take-split n (suc len - n) (suc len) (drop offset file) (omega arith)) in
      (next, coherent, rw (rest, read_loop) (ap (λ z. some (next, z)) whole))

  -- A read within the file from a coherent storage with chunks of at least one byte returns, and gives
  -- exactly the bytes of the file, however they are cut into chunks, whichever chunks are cached or
  -- evicted, and whichever are in use; the storage stays coherent.
  pub read-exact :
      (in_use : ℕ → Bool) (st : Storage) (offset len : ℕ)
      → 1 ≤ size
      → IsCoherent file size st
      → offset + len ≤ length file
      → (next : Storage) × IsCoherent file size next
        × (read in_use st offset len ≡ some (next, take len (drop offset file)))
  unfolding read
  read-exact in_use st offset len one h bound =
      let fits : ltb (length st.file) (offset + len) ≡ false = ground (arith, h.same_file) in
      rw fits (read_loop-exact len in_use st offset len one (omega arith) bound h)
