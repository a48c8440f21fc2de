-- ===== src/MetaNode/Inode/Size.antt =====
-- The size of a file and the end of its last extent.
use cfs.Base.{ℕ, ◌≤◌, ltb, if◌then◌else◌, List, [], ◌∷◌, arith}
use cfs.GoogleBtree.{BtreePackage}
use cfs.Proto.ExtentKey.{ExtentKey}
use cfs.MetaNode.Extents
use cfs.MetaNode.Inode.{Inode, append_loop, append_extents}

module _ ⦃L : BtreePackage⦄ where
  append_loop-size :
      (exts : List ExtentKey) (i : Inode)
      → Extents.size i.extents ≤ i.size
      → (Extents.size (append_loop i exts).1.extents ≤ (append_loop i exts).1.size)
        × (i.size ≤ (append_loop i exts).1.size)
  unfolding append_loop
  append_loop-size [] i h = (h, omega arith)
  append_loop-size (ext ∷ exts) i h =
      let e = (Extents.append i.extents ext).1 in
      let s = Extents.size e in
      let i' = record i { extents = e; size = if ltb i.size s then s else i.size } in
      let rest = append_loop-size exts i' (ground arith) in (rest.0, ground (arith, rest.1))

  -- Where the size of a file is at or above the end of its last extent, AppendExtents keeps it
  -- there, and does not lower it.
  pub append_extents-size :
      (exts : List ExtentKey) (i : Inode) (ct : ℕ)
      → Extents.size i.extents ≤ i.size
      → (Extents.size (append_extents i exts ct).1.extents ≤ (append_extents i exts ct).1.size)
        × (i.size ≤ (append_extents i exts ct).1.size)
  unfolding append_extents
  append_extents-size exts i ct h = append_loop-size exts i h
