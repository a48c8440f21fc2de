-- ===== src/MetaNode/Partition/Files.antt =====
-- The life of a file: attributes, eviction and removal.
use cfs.Base.{
  ℕ, zero, suc, ◌<◌, ◌≡◌, ◌==◌, ◌&&◌, Option-cases, inl, inr, Bool, true, false, some, none,
  if◌then◌else◌, arith, refl, List, [], ◌∷◌, ◌++◌, All, length, length-append,
}
use cfs.Bytes.{Bytes, put_uint, read_uint}
use cfs.Bytes.RoundTrip.{read_uint-put_uint, length-put_uint}
use cfs.GoogleBtree.{BtreePackage}
use cfs.Proto.{is_dir, has_bit, op_not_exist_err, IsU64}
use cfs.MetaNode.BTree.{get}
use cfs.MetaNode.Inode.{Inode, new_inode, dec_nlink, should_delete, set_delete_mark, set_attr}
use cfs.MetaNode.Inode.Order.{inode_item}
use cfs.MetaNode.Inode.Lookup.{get_found, get-number, get-write_number, get-delete_number}
use cfs.MetaNode.Partition.{MetaPartition}
use cfs.MetaNode.Partition.InodeOps.{
  SetattrRequest, unlinked, fsm_create_link_inode, fsm_unlink_inode, fsm_evict_inode, fsm_set_attr,
  has_inode, get_inode, internal_delete, internal_delete_inode, delete_loop,
}
use cfs.MetaNode.Partition.Links.{unlink_file}

module _ ⦃L : BtreePackage⦄ (mp : MetaPartition) (k i : Inode)
    (found : get mp.inode_tree k ≡ some i) where
  -- Evicting a live file marks it if it has no link left, and else changes no inode.
  pub evict_file :
      should_delete i ≡ false
      → is_dir i.type ≡ false
      → (j : Inode)
      → get (fsm_evict_inode mp k).1.inode_tree j ≡ (
          if (k.inode == j.inode) && (i.nlink == 0)
          then some (set_delete_mark i)
          else get mp.inode_tree j)
  unfolding fsm_evict_inode set_delete_mark
  evict_file live file j = ground (
    arith,
    get_found mp.inode_tree k i found,
    get-write_number mp.inode_tree (set_delete_mark i) j,
  )

  -- A marked inode is not found, read, linked or unlinked: these operations answer that it does
  -- not exist and change nothing.
  pub marked_gone :
      (now : ℕ)
      → should_delete i ≡ true
      → (has_inode mp k ≡ false)
        × (get_inode mp now k ≡ ((op_not_exist_err, none), mp))
        × (fsm_create_link_inode mp k ≡ ((op_not_exist_err, none), mp))
        × (fsm_unlink_inode mp k ≡ ((op_not_exist_err, none), mp))
  unfolding has_inode get_inode fsm_create_link_inode fsm_unlink_inode
  marked_gone now m = (ground arith, ground arith, ground arith, ground arith)

module _ ⦃L : BtreePackage⦄ (mp : MetaPartition) (k i : Inode)
    (found : get mp.inode_tree k ≡ some i) (live : should_delete i ≡ false)
    (file : is_dir i.type ≡ false) (last : i.nlink ≡ 1) where
  abbrev unlinked_once : MetaPartition
  unlinked_once = (fsm_unlink_inode mp k).1

  abbrev evicted : MetaPartition
  evicted = (fsm_evict_inode unlinked_once k).1

  unlinked_once-found : get unlinked_once.inode_tree k ≡ some (unlinked i k.modify_time)
  unlinked_once-found = ground (arith, (unlink_file mp k i found live file).1 k)

  evicted-found : get evicted.inode_tree k ≡ some (set_delete_mark (unlinked i k.modify_time))
  unfolding dec_nlink
  evicted-found = ground (
    arith,
    evict_file unlinked_once k (unlinked i k.modify_time) unlinked_once-found (ground arith)
        (ground arith) k,
  )

  -- After the unlink of a live file with one link and its eviction no client finds the file, and
  -- it can be linked or unlinked no more.
  pub evict-unlink_gone :
      (now : ℕ)
      → (has_inode evicted k ≡ false)
        × (get_inode evicted now k ≡ ((op_not_exist_err, none), evicted))
        × (fsm_create_link_inode evicted k ≡ ((op_not_exist_err, none), evicted))
        × (fsm_unlink_inode evicted k ≡ ((op_not_exist_err, none), evicted))
  unfolding set_delete_mark
  evict-unlink_gone now =
      marked_gone evicted k (set_delete_mark (unlinked i k.modify_time)) evicted-found now
        (ground arith)

module _ ⦃L : BtreePackage⦄ (mp : MetaPartition) (now : ℕ) (req : SetattrRequest) where
  -- A request whose mask asks for the mode alone changes no inode if the lowest bit of the new
  -- mode is 0.
  pub set_attr-mode_lost :
      req.valid ≡ 1
      → has_bit req.mode 0 ≡ false
      → (j : Inode) → get (fsm_set_attr mp now req).inode_tree j ≡ get mp.inode_tree j
  unfolding fsm_set_attr
  set_attr-mode_lost valid even j = elim (Option-cases (get mp.inode_tree key)) [
    | inl e ↦ ground arith
    | inr (i, e) ↦ ground (
      arith,
      e,
      same i,
      get-write_number mp.inode_tree i j,
      get_found mp.inode_tree key i e,
      get-number mp.inode_tree key j,
    )
  ]
    where
      key : Inode
      key = new_inode req.inode req.mode now

      same : (i : Inode) → set_attr i req.valid req.mode req.uid req.gid ≡ i
      same i = unfold set_attr in ground (arith, valid, even)

module _ ⦃L : BtreePackage⦄ where
  -- The bytes that the leader sends: the keys of the inodes one after another.
  abbrev pub keys : List ℕ → Bytes
  keys [] = []
  keys (n ∷ ns) = put_uint 8 n ++ keys ns

  abbrev pub listed : List ℕ → ℕ → Bool
  listed [] x = false
  listed (n ∷ ns) x = let later = listed ns x in if n == x then true else later

  delete_loop-keys :
      (fuel : ℕ) (ns : List ℕ) (mp : MetaPartition) (ino : Inode)
      → All IsU64 ns
      → length (keys ns) < fuel
      → ((delete_loop fuel mp ino (keys ns)).0 ≡ none)
        × ((j : Inode)
            → get (delete_loop fuel mp ino (keys ns)).1.inode_tree j
              ≡ (if listed ns j.inode then none else get mp.inode_tree j))
  unfolding delete_loop internal_delete_inode
  delete_loop-keys zero ns mp ino h l = absurd (omega arith)
  delete_loop-keys (suc fuel) [] mp ino h l = unfold read_uint in (refl, λ j. refl)
  delete_loop-keys (suc fuel) (n ∷ ns) mp ino (p, h) l =
      let ino' = record ino { inode = n } in
      let rest =
        delete_loop-keys fuel ns (internal_delete_inode mp ino') ino' h
          (omega (arith, length-append (put_uint 8 n) (keys ns), length-put_uint 8 n)) in
      rw (read_uint-put_uint 8 n (keys ns) p, delete_loop)
        (rest.0, λ j. ground (arith, rest.1 j, get-delete_number mp.inode_tree ino' j))

  -- internalDelete on the bytes of a list of uint64 inode numbers ends without an error and
  -- removes these numbers from the inode tree, and no other.
  pub internal_delete-keys :
      (mp : MetaPartition) (now : ℕ) (ns : List ℕ)
      → All IsU64 ns
      → ((internal_delete mp now (keys ns)).0 ≡ none)
        × ((j : Inode)
            → get (internal_delete mp now (keys ns)).1.inode_tree j
              ≡ (if listed ns j.inode then none else get mp.inode_tree j))
  unfolding internal_delete
  internal_delete-keys mp now ns h =
      delete_loop-keys (suc (length (keys ns))) ns mp (new_inode 0 0 now) h (omega arith)
