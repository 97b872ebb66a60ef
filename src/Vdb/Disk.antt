-- ===== src/Vdb/Disk.antt =====
-- A directory: the bytes of each file by its name, and the changes that src/vdb.rs makes to it.
use vdb_rs.Prelude.{ℕ, List, [], ◌∷◌, none, some}
use vdb_rs.Prelude.Assoc.{Str, string_eq, lookup, insert, remove}

abbrev pub Disk : Type 0
Disk = List (Str × List ℕ)

-- `fs::write` of a whole file, and `fs::rename`.
pub data DiskOp : Type 0 where
  write : Str → List ℕ → DiskOp
  rename : Str → Str → DiskOp

-- A rename without its file changes nothing.
unfoldable pub apply : DiskOp → Disk → Disk
apply (DiskOp.write name bytes) disk = insert name bytes disk
apply (DiskOp.rename from to) disk = elim (lookup from disk) [
  | none ↦ disk
  | some bytes ↦ insert to bytes (remove from disk)
]

unfoldable pub apply_all : List DiskOp → Disk → Disk
unfolding apply
apply_all [] disk = disk
apply_all (op ∷ ops) disk = apply_all ops (apply op disk)

-- What an interruption leaves: it comes before a change, in the middle of a write, of which any
-- part may be there, or after a change and before the end. A rename is done or not done.
pub data Interrupted : List DiskOp → Disk → Disk → Type 0 where
  before : {ops : List DiskOp} {disk : Disk} → Interrupted ops disk disk
  torn :
      {ops : List DiskOp} {disk : Disk} {name : Str} {bytes : List ℕ} (part : List ℕ)
      → Interrupted (DiskOp.write name bytes ∷ ops) disk (insert name part disk)
  after :
      {op : DiskOp} {ops : List DiskOp} {disk left : Disk}
      → Interrupted ops (apply op disk) left
      → Interrupted (op ∷ ops) disk left
