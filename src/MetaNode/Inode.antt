-- ===== src/MetaNode/Inode.antt =====
-- metanode/inode.go: inodes, their methods and their binary form. Signed fields hold their
-- two's-complement bit pattern; the lock is not modelled, every method is one step.
pub mod Order
pub mod Lookup
pub mod Size
pub mod Codec
pub mod RoundTrip
pub mod Truncate
use cfs.Base.{
  ℕ, zero, suc, ◌+◌, ◌-◌, ◌*◌, ◌/◌, ◌%◌, ◌^◌, ◌==◌, Bool, true, false, ltb, List, [], ◌∷◌, ◌++◌,
  Option, none, some, if◌then◌else◌,
}
use cfs.Bytes.{Bytes}
use cfs.GoogleBtree.{BtreePackage}
use cfs.Proto.{u32, u64, is_dir, has_bit, attr_mode, attr_uid, attr_gid}
use cfs.Proto.ExtentKey.{ExtentKey, extent_item}
use cfs.MetaNode.BTree.{BTree, delete, max_item, write_back}
use cfs.MetaNode.Extents
use cfs.MetaNode.Extents.{ExtentsTree, new_extents_tree}

module _ ⦃L : BtreePackage⦄ where
  pub record Inode : Type 0 where
    pub inode : ℕ
    pub type : ℕ
    pub uid : ℕ
    pub gid : ℕ
    pub size : ℕ
    pub generation : ℕ
    pub create_time : ℕ
    pub access_time : ℕ
    pub modify_time : ℕ
    pub link_target : Bytes
    pub nlink : ℕ
    pub flag : ℕ
    pub reserved : ℕ
    pub extents : ExtentsTree

  -- NewInode at the time `ts`.
  unfoldable pub new_inode : ℕ → ℕ → ℕ → Inode
  new_inode ino t ts = record {
    inode = ino;
    type = t;
    uid = 0;
    gid = 0;
    size = 0;
    generation = 1;
    create_time = ts;
    access_time = ts;
    modify_time = ts;
    link_target = [];
    nlink = if is_dir t then 2 else 1;
    flag = 0;
    reserved = 0;
    extents = new_extents_tree;
  }

  -- IncNLink, on a uint32.
  unfoldable pub inc_nlink : Inode → Inode
  inc_nlink i = record i { nlink = u32 (i.nlink + 1) }

  -- DecNLink: a directory keeps 2 links, a file 0.
  unfoldable pub dec_nlink : Inode → Inode
  dec_nlink i =
      if is_dir i.type
      then (if ltb 2 i.nlink then record i { nlink = i.nlink - 1 } else i)
      else (if ltb 0 i.nlink then record i { nlink = i.nlink - 1 } else i)

  -- IsTempFile
  abbrev pub is_temp_file : Inode → Bool
  is_temp_file i = i.nlink == 0

  -- IsEmptyDir
  abbrev pub is_empty_dir : Inode → Bool
  is_empty_dir i = i.nlink == 2

  -- SetDeleteMark: `Flag |= 1 << 0`, which sets the lowest bit.
  unfoldable pub set_delete_mark : Inode → Inode
  set_delete_mark i = record i { flag = i.flag / 2 * 2 + 1 }

  -- ShouldDelete: `Flag & (1 << 0) == 1 << 0`.
  abbrev pub should_delete : Inode → Bool
  should_delete i = i.flag % 2 == 1

  -- SetAttr: the first test reads `mode`, the others `valid`.
  unfoldable pub set_attr : Inode → ℕ → ℕ → ℕ → ℕ → Inode
  set_attr i valid mode uid gid = record i {
    type = if has_bit mode attr_mode then mode else i.type;
    uid = if has_bit valid attr_uid then uid else i.uid;
    gid = if has_bit valid attr_gid then gid else i.gid;
  }

  -- The loop of AppendExtents: the extents that were displaced, and the inode with the new ones.
  unfoldable pub append_loop : Inode → List ExtentKey → List ExtentKey × Inode
  append_loop i [] = ([], i)
  append_loop i (ext ∷ exts) =
      let (del_items, extents) = Extents.append i.extents ext in
      let size = Extents.size extents in
      let (items, i') =
        append_loop
          (record i { extents = extents; size = if ltb i.size size then size else i.size }) exts in
      (del_items ++ items, i')

  -- AppendExtents
  unfoldable pub append_extents : Inode → List ExtentKey → ℕ → List ExtentKey × Inode
  unfolding append_loop
  append_extents i exts ct =
      let (items, i') = append_loop i exts in
      (items, record i' { generation = u64 (i'.generation + 1); modify_time = ct })

  -- The loop of ExtentsTruncate.
  unfoldable pub delete_all : ExtentsTree → List ExtentKey → ExtentsTree
  delete_all e [] = e
  delete_all e (ext ∷ exts) = delete_all (delete e ext).1 exts

  -- The last extent is cut at `length`: a write to the key that the tree holds.
  unfoldable pub cut_last : ExtentsTree → ℕ → Option ExtentKey → ExtentsTree
  cut_last e length none = e
  cut_last e length (some ext) =
      if ltb length (Extents.end_of ext)
      then write_back e (record ext { size = u32 (u64 (length + 2 ^ 64 - ext.file_offset)) })
      else e

  -- ExtentsTruncate
  unfoldable pub extents_truncate : Inode → List ExtentKey → ℕ → ℕ → Inode
  unfolding delete_all cut_last
  extents_truncate i exts length ct =
      let e = delete_all i.extents exts in
      record i {
        extents = cut_last e length (max_item e);
        size = length;
        modify_time = ct;
        generation = u64 (i.generation + 1);
      }
