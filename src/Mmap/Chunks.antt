-- ===== src/Mmap/Chunks.antt =====
-- `ChunkedMmapStorage` of src/mmap_index.rs: `read`, `get_chunk` and `touch`. A chunk is the list of
-- its bytes, and mapping it gives those of the file. The front of the queue is the head of `lru`.
use vdb_rs.Prelude.{
  ℕ, zero, suc, ◌+◌, ◌-◌, ◌*◌, ◌/◌, min, Bool, ◌&&◌, List, [], ◌∷◌, ◌++◌, Option, none, some,
  length, take, drop, any, ltb, if◌then◌else◌, ◌==◌,
}
use vdb_rs.Prelude.Assoc.{nat_eq, lookup, insert, remove}

pub record Storage : Type 0 where
  pub file : List ℕ
  pub chunk_size : ℕ
  pub max_total_bytes : ℕ
  pub chunks : List (ℕ × List ℕ)
  pub lru : List ℕ
  pub current_bytes : ℕ

-- `touch`: the chunk goes to the front of the queue, if it is there.
unfoldable pub remove_first : ℕ → List ℕ → List ℕ
remove_first idx [] = []
remove_first idx (i ∷ lru) = if i == idx then lru else i ∷ remove_first idx lru

unfoldable pub touch : Storage → ℕ → Storage
unfolding remove_first
touch st idx =
    if any (λ i. i == idx) st.lru then record st { lru = idx ∷ remove_first idx st.lru } else st

unfoldable pub pop_back : List ℕ → Option (ℕ × List ℕ)
pop_back [] = none
pop_back (i ∷ lru) = elim (pop_back lru) [
  | none ↦ some (i, [])
  | some popped ↦ some (popped.0, i ∷ popped.1)
]

-- One round of the eviction. `in_use` says of which chunks a reader holds a reference.
unfoldable pub evict_one : (ℕ → Bool) → Storage → ℕ → List ℕ → Storage
evict_one in_use st idx lru = elim (lookup idx st.chunks) [
  | none ↦ record st { lru = lru }
  | some chunk ↦ if in_use idx then record st { lru = idx ∷ lru } else record st {
    chunks = remove idx st.chunks;
    lru = lru;
    current_bytes = st.current_bytes - length chunk;
  }
]

-- The `while` of the eviction. Each round examines one more, so as many rounds as the queue is long
-- are enough.
unfoldable pub evict : ℕ → (ℕ → Bool) → ℕ → ℕ → Storage → Storage
unfolding evict_one
evict zero in_use examined chunk_len st = st
evict (suc fuel) in_use examined chunk_len st =
    if ltb st.max_total_bytes (st.current_bytes + chunk_len) && ltb examined (length st.lru)
    then elim (pop_back st.lru) [
      | none ↦ st
      | some popped ↦
          evict fuel in_use (suc examined) chunk_len (evict_one in_use st popped.0 popped.1)
    ]
    else st

-- `MmapChunk::map` of the chunk's range.
unfoldable pub map_chunk : List ℕ → ℕ → ℕ → List ℕ
map_chunk file chunk_size idx =
    let chunk_start = idx * chunk_size in
    let chunk_end = min (chunk_start + chunk_size) (length file) in
    take (chunk_end - chunk_start) (drop chunk_start file)

-- The part of `get_chunk` for a chunk that is not in the cache.
unfoldable pub load_chunk : (ℕ → Bool) → Storage → ℕ → Storage × List ℕ
unfolding evict map_chunk
load_chunk in_use st idx =
    let chunk = map_chunk st.file st.chunk_size idx in
    let room = evict (length st.lru) in_use 0 (length chunk) st in
    (
      record room {
        chunks = insert idx chunk room.chunks;
        lru = idx ∷ room.lru;
        current_bytes = room.current_bytes + length chunk;
      },
      chunk,
    )

unfoldable pub get_chunk : (ℕ → Bool) → Storage → ℕ → Storage × List ℕ
unfolding touch load_chunk
get_chunk in_use st idx = elim (lookup idx st.chunks) [
  | some chunk ↦ (touch st idx, chunk)
  | none ↦ load_chunk in_use st idx
]

-- The `while` of `read`, by fuel: `len` bytes are left, from `offset` on.
unfoldable pub read_loop : ℕ → (ℕ → Bool) → Storage → ℕ → ℕ → Option (Storage × List ℕ)
unfolding get_chunk
read_loop fuel in_use st offset zero = some (st, [])
read_loop zero in_use st offset (suc len) = none
read_loop (suc fuel) in_use st offset (suc len) =
    let chunk_idx = offset / st.chunk_size in
    let in_chunk_off = offset - chunk_idx * st.chunk_size in
    let to_read = min (st.chunk_size - in_chunk_off) (suc len) in
    let got = get_chunk in_use st chunk_idx in
    elim (read_loop fuel in_use got.0 (offset + to_read) (suc len - to_read)) [
      | none ↦ none
      | some rest ↦ some (rest.0, take to_read (drop in_chunk_off got.1) ++ rest.1)
    ]

-- `none` is the error. Where the sum wraps around at 64 bits, the source asks for a chunk beyond the
-- file, which is an error as well.
unfoldable pub read : (ℕ → Bool) → Storage → ℕ → ℕ → Option (Storage × List ℕ)
unfolding read_loop
read in_use st offset len =
    if ltb (length st.file) (offset + len) then none else read_loop len in_use st offset len
