-- ===== src/MetaNode/Partition/Follows.antt =====
-- How an operation of the log may change the inode that a number stands for, as a relation of the
-- trees before and after it.
pub mod Inodes
pub mod Dentries
use cfs.Base.{
  ℕ, length, zero, suc, ◌⊎◌, ◌≡◌, ◌==◌, Bool, true, false, Option, some, none, if◌then◌else◌, arith,
  refl, sym, ◌∙◌, Bool-cases, Option-cases, Result-cases, ok, err, inl, inr, ==_iff, List, [], ◌∷◌,
  Error,
}
use cfs.Bytes.{Bytes, read_uint}
use cfs.GoogleBtree.{BtreePackage}
use cfs.Proto.{is_dir}
use cfs.MetaNode.BTree.{BTree, get, delete, write_back, ascend, ascend_greater_or_equal}
use cfs.MetaNode.Inode.{
  Inode, new_inode, inc_nlink, dec_nlink, should_delete, set_delete_mark, set_attr, append_extents,
  append_loop, extents_truncate,
}
use cfs.MetaNode.Inode.Order.{inode_item}
use cfs.MetaNode.Inode.Lookup.{get_found, get-number, get-write_number, get-delete_number}
use cfs.MetaNode.Extents.{key_at}
use cfs.Proto.ExtentKey.{ExtentKey, extent_item}
use cfs.MetaNode.Dentry.{Dentry}
use cfs.MetaNode.Partition.{MetaPartition}
use cfs.MetaNode.Partition.InodeOps.{
  SetattrRequest, unlinked, fsm_create_link_inode, fsm_unlink_inode, fsm_append_extents,
  fsm_extents_truncate, fsm_evict_inode, fsm_set_attr, internal_delete, internal_delete_inode,
  delete_loop,
}
use cfs.MetaNode.Partition.DentryOps.{fsm_create_dentry, fsm_delete_dentry, fsm_update_dentry}

module _ ⦃L : BtreePackage⦄ where
  abbrev pub Follows : Option Inode → Option Inode → Type 0
  Follows none none = Unit
  Follows none (some i') = ⊥
  Follows (some i) none = Unit
  Follows (some i) (some i') = should_delete i ≡ true → i' ≡ i

  Follows-refl : (o : Option Inode) → Follows o o
  Follows-refl none = tt
  Follows-refl (some i) = λ h. refl

  Follows-trans : (o p q : Option Inode) → Follows o p → Follows p q → Follows o q
  Follows-trans none none none h k = tt
  Follows-trans none none (some i'') h k = k
  Follows-trans none (some i') q h k = absurd h
  Follows-trans (some i) none none h k = tt
  Follows-trans (some i) none (some i'') h k = absurd k
  Follows-trans (some i) (some i') none h k = tt
  Follows-trans (some i) (some i') (some i'') h k = λ m. k (rw (h m) m) ∙ h m

  Follows-removed : (o : Option Inode) → Follows o none
  Follows-removed none = tt
  Follows-removed (some i) = tt

  -- The inode of every number follows.
  abbrev pub Evolves : BTree Inode → BTree Inode → Type 0
  Evolves t t' = (k : Inode) → Follows (get t k) (get t' k)

  pub Evolves-refl : (t : BTree Inode) → Evolves t t
  Evolves-refl t k = Follows-refl (get t k)

  pub Evolves-trans : (t t' t'' : BTree Inode) → Evolves t t' → Evolves t' t'' → Evolves t t''
  Evolves-trans t t' t'' h h' k = Follows-trans (get t k) (get t' k) (get t'' k) (h k) (h' k)

  pub Evolves-delete : (t : BTree Inode) (i : Inode) → Evolves t (delete t i).1
  Evolves-delete t i k = elim (Bool-cases (i.inode == k.inode)) [
    | inl e ↦ rw (get-delete_number t i k, e) (Follows-removed (get t k))
    | inr e ↦ rw (get-delete_number t i k, e) (Follows-refl (get t k))
  ]

  -- A write to an inode that was found and is not marked.
  pub Evolves-write_back :
      (t : BTree Inode) (key i i' : Inode)
      → get t key ≡ some i
      → should_delete i ≡ false
      → i'.inode ≡ i.inode
      → Evolves t (write_back t i')
  Evolves-write_back t key i i' found live same k = elim (Bool-cases (i'.inode == k.inode)) [
    | inl e ↦
        rw
          (
            get-write_number t i' k,
            e,
            get-number t k key
                (sym ((==_iff i'.inode k.inode).0 e) ∙ same ∙ sym (get_found t key i found)),
            found,
          )
          (λ m. cc)
    | inr e ↦ rw (get-write_number t i' k, e) (Follows-refl (get t k))
  ]

  -- The shape of most operations: nothing is written unless a live inode is found.
  pub Evolves-cases :
      (t t' : BTree Inode) (key : Inode)
      → (get t key ≡ none → t' ≡ t)
      → ((i : Inode) → get t key ≡ some i → should_delete i ≡ true → t' ≡ t)
      → ((i : Inode) → get t key ≡ some i → should_delete i ≡ false → Evolves t t')
      → Evolves t t'
  Evolves-cases t t' key absent marked live = elim (Option-cases (get t key)) [
    | inl e ↦ rw (absent e) (Evolves-refl t)
    | inr (i, e) ↦ elim (Bool-cases (should_delete i)) [
      | inl m ↦ rw (marked i e m) (Evolves-refl t)
      | inr l ↦ live i e l
    ]
  ]
