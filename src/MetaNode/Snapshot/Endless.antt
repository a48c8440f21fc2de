-- ===== src/MetaNode/Snapshot/Endless.antt =====
-- Next of metanode/partition_item.go over files of extents to delete.
use cfs.Base.{ℕ, zero, suc, ◌<◌, ◌≡◌, List, [], ◌∷◌, none, Result, ok, refl, arith}
use cfs.Bytes.{Bytes}
use cfs.GoogleBtree.{BtreePackage}
use cfs.MetaNode.MetaItem
use cfs.MetaNode.MetaItem.{MetaItem}
use cfs.MetaNode.Snapshot.Iterator.{MetaItemIterator, next, drain}

-- The same data, so many times.
abbrev pub copies : ℕ → Bytes → List Bytes
copies zero item = []
copies (suc n) item = item ∷ copies n item

-- A file of extents to delete, as Next sends it.
abbrev pub file_data : Bytes → Bytes → Bytes
file_data name body = MetaItem.marshal_binary record { op = 19; k = name; v = body }

module _ ⦃L : BtreePackage⦄ (read_file : Bytes → Result Bytes) (name : Bytes) (names : List Bytes)
    (body : Bytes) (readable : read_file name ≡ ok body) where
  abbrev first_file : Bytes
  first_file = file_data name body

  -- After the inodes, every call delivers the first file, and leaves it the first.
  next-first_file :
      (si : MetaItemIterator)
      → si.file_list ≡ name ∷ names
      → si.ino_len < si.cur
      → ((next read_file si).0 ≡ (first_file, none))
        × ((next read_file si).1.file_list ≡ name ∷ names)
        × ((next read_file si).1.ino_len < (next read_file si).1.cur)
  unfolding next
  next-first_file si files over =
      (ground (arith, readable), ground (arith, readable), ground (arith, readable))

  -- An iterator that has sent its inodes, and whose first file of extents to delete can be read,
  -- never ends: any number of calls of Next deliver the first file, so many times, and none of
  -- them fails.
  pub drain-endless :
      (fuel : ℕ) (si : MetaItemIterator)
      → si.file_list ≡ name ∷ names
      → si.ino_len < si.cur
      → drain fuel read_file si ≡ (copies fuel (file_data name body), none)
  unfolding drain
  drain-endless zero si files over = refl
  drain-endless (suc fuel) si files over =
      let step = next-first_file si files over in
      let later = drain-endless fuel (next read_file si).1 step.1 step.2 in
      ground (arith, step.0, later)
