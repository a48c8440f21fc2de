-- ===== src/MetaNode/Partition/Entries.antt =====
-- Making and deleting directory entries: fsmCreateDentry and fsmDeleteDentry.
use cfs.Base.{
  ap, ◌∙◌, ℕ, ◌+◌, ◌<◌, ◌≤◌, ◌^◌, ◌≡◌, ◌==◌, Bool, true, false, not, ◌&&◌, Option, some, none,
  if◌then◌else◌, arith, Option-cases, inl, inr,
}
use cfs.GoogleBtree.{BtreePackage, equiv}
use cfs.Proto.{u32, Status, is_dir, op_ok, op_not_exist_err, op_exist_err, op_arg_mismatch_err}
use cfs.MetaNode.BTree.{get}
use cfs.MetaNode.BTree.Laws.{
  get-equiv, delete-result, replace_or_insert_absent, replace_or_insert_present,
  get-replace_or_insert, get-delete,
}
use cfs.MetaNode.Dentry.{Dentry}
use cfs.MetaNode.Dentry.Order.{dentry_item, less_irrefl}
use cfs.MetaNode.Inode.{Inode, new_inode, inc_nlink, dec_nlink, should_delete}
use cfs.MetaNode.Inode.Order.{inode_item}
use cfs.MetaNode.Inode.Lookup.{get_found, get-number, get-write_number}
use cfs.MetaNode.Partition.{MetaPartition}
use cfs.MetaNode.Partition.DentryOps.{fsm_create_dentry, fsm_delete_dentry}

module _ ⦃L : BtreePackage⦄ where
  -- Whether an inode can hold entries, and the status where it cannot.
  abbrev pub holds_entries : Option Inode → Bool
  holds_entries none = false
  holds_entries (some par) = not (should_delete par) && is_dir par.type

  abbrev pub refusal : Option Inode → Status
  refusal none = op_not_exist_err
  refusal (some par) = if should_delete par then op_not_exist_err else op_arg_mismatch_err

-- IncNLink, where the count does not overflow.
pub inc_nlink_counted :
    ⦃L : BtreePackage⦄ (i : Inode)
    → i.nlink + 1 < 2 ^ 32
    → inc_nlink i ≡ record i { nlink = i.nlink + 1 }
unfolding inc_nlink
inc_nlink_counted i c =
    let exact : u32 (i.nlink + 1) ≡ i.nlink + 1 = omega arith in
    ap (λ (n : ℕ). record i { nlink = n }) exact

module _ ⦃L : BtreePackage⦄ (mp : MetaPartition) (now : ℕ) (dentry : Dentry) where
  -- A request of a client whose parent is missing, marked as deleted or no directory is refused
  -- with the status of that case, and the partition stays as it is.
  pub create_dentry_refused :
      holds_entries (get mp.inode_tree (new_inode dentry.parent_id 0 now)) ≡ false
      → fsm_create_dentry mp now dentry false
        ≡ (refusal (get mp.inode_tree (new_inode dentry.parent_id 0 now)), mp)
  unfolding fsm_create_dentry
  create_dentry_refused h =
      elim (Option-cases (get mp.inode_tree (new_inode dentry.parent_id 0 now))) [
        | inl e ↦ ground (arith, e)
        | inr (par, e) ↦ ground (arith, e)
      ]

module _ ⦃L : BtreePackage⦄ (mp : MetaPartition) (now : ℕ) (dentry : Dentry) (par : Inode)
    (parent : get mp.inode_tree (new_inode dentry.parent_id 0 now) ≡ some par)
    (live : should_delete par ≡ false) (dir : is_dir par.type ≡ true) where
  -- An entry that is there already in a live directory stays: a request of a client changes
  -- nothing, and the status tells whether the types agree.
  pub create_dentry_exists :
      (d : Dentry)
      → get mp.dentry_tree dentry ≡ some d
      → fsm_create_dentry mp now dentry false
        ≡ (if dentry.type == d.type then op_exist_err else op_arg_mismatch_err, mp)
  unfolding fsm_create_dentry
  create_dentry_exists d h = ground (arith, replace_or_insert_present mp.dentry_tree dentry d h)

  -- A new entry is found under its name, its parent has the links that IncNLink leaves, and every
  -- other entry and inode is as it was.
  pub create_dentry_absent :
      get mp.dentry_tree dentry ≡ none
      → ((fsm_create_dentry mp now dentry false).0 ≡ op_ok)
        × ((e : Dentry)
            → get (fsm_create_dentry mp now dentry false).1.dentry_tree e
              ≡ (if equiv dentry_item dentry e then some dentry else get mp.dentry_tree e))
        × ((j : Inode)
            → get (fsm_create_dentry mp now dentry false).1.inode_tree j
              ≡ (if dentry.parent_id == j.inode then some (inc_nlink par) else get mp.inode_tree j))
  unfolding fsm_create_dentry inc_nlink new_inode
  create_dentry_absent h = (
    ground (arith, replace_or_insert_absent mp.dentry_tree dentry h),
    λ e. ground (
      arith,
      replace_or_insert_absent mp.dentry_tree dentry h,
      get-replace_or_insert mp.dentry_tree dentry e false,
    ),
    λ j. ground (
      arith,
      replace_or_insert_absent mp.dentry_tree dentry h,
      get_found mp.inode_tree _ par parent,
      get-write_number mp.inode_tree (inc_nlink par) j,
    ),
  )

  -- A new entry that a client requests in a live directory, whose link count does not overflow,
  -- succeeds and is found under its name; the parent has its count raised by one and is else as it
  -- was, and so is every other entry and inode.
  pub create_dentry_new :
      get mp.dentry_tree dentry ≡ none
      → par.nlink + 1 < 2 ^ 32
      → ((fsm_create_dentry mp now dentry false).0 ≡ op_ok)
        × ((e : Dentry)
            → get (fsm_create_dentry mp now dentry false).1.dentry_tree e
              ≡ (if equiv dentry_item dentry e then some dentry else get mp.dentry_tree e))
        × ((j : Inode)
            → get (fsm_create_dentry mp now dentry false).1.inode_tree j ≡ (
                if dentry.parent_id == j.inode
                then some (record par { nlink = par.nlink + 1 })
                else get mp.inode_tree j))
  create_dentry_new h c =
      let (status, entries, inodes) = create_dentry_absent h in
      (
        status,
        entries,
        λ j.
            inodes j
            ∙ ap (λ p. if dentry.parent_id == j.inode then some p else get mp.inode_tree j)
                (inc_nlink_counted par c),
      )

module _ ⦃L : BtreePackage⦄ (mp : MetaPartition) (now : ℕ) (dentry d : Dentry)
    (found : get mp.dentry_tree dentry ≡ some d) where
  -- Deleting an entry that is there returns it and removes it and no other.
  pub delete_dentry_entries :
      ((fsm_delete_dentry mp now dentry).0 ≡ (op_ok, d))
      × ((e : Dentry)
          → get (fsm_delete_dentry mp now dentry).1.dentry_tree e
            ≡ (if equiv dentry_item dentry e then none else get mp.dentry_tree e))
  unfolding fsm_delete_dentry
  delete_dentry_entries = (
    ground (arith, delete-result mp.dentry_tree dentry, found),
    λ e.
        ground
          (arith, delete-result mp.dentry_tree dentry, found, get-delete mp.dentry_tree dentry e),
  )

  -- When an entry that is there is deleted, its parent, if not marked as deleted, loses a link as
  -- DecNLink takes it, and no other inode changes.
  pub delete_dentry_parent :
      (par : Inode)
      → get mp.inode_tree (new_inode dentry.parent_id 0 now) ≡ some par
      → (j : Inode)
      → get (fsm_delete_dentry mp now dentry).1.inode_tree j ≡ (
          if (dentry.parent_id == j.inode) && not (should_delete par)
          then some (dec_nlink par)
          else get mp.inode_tree j)
  unfolding fsm_delete_dentry dec_nlink new_inode
  delete_dentry_parent par parent j = ground (
    arith,
    delete-result mp.dentry_tree dentry,
    found,
    get_found mp.inode_tree _ par parent,
    get-write_number mp.inode_tree (dec_nlink par) j,
  )

  -- The deletion writes to no inode but the parent.
  pub delete_dentry_others :
      (j : Inode)
      → (dentry.parent_id == j.inode) ≡ false
      → get (fsm_delete_dentry mp now dentry).1.inode_tree j ≡ get mp.inode_tree j
  unfolding fsm_delete_dentry dec_nlink new_inode
  delete_dentry_others j other =
      elim (Option-cases (get mp.inode_tree (new_inode dentry.parent_id 0 now))) [
        | inl e ↦ ground (arith, delete-result mp.dentry_tree dentry, found, e)
        | inr (par, e) ↦ ground (
          arith,
          delete-result mp.dentry_tree dentry,
          found,
          e,
          get_found mp.inode_tree _ par e,
          get-write_number mp.inode_tree (dec_nlink par) j,
        )
      ]

module _ ⦃L : BtreePackage⦄ (mp : MetaPartition) (now later : ℕ) (dentry : Dentry) (par : Inode)
    (parent : get mp.inode_tree (new_inode dentry.parent_id 0 now) ≡ some par)
    (live : should_delete par ≡ false) (dir : is_dir par.type ≡ true)
    (absent : get mp.dentry_tree dentry ≡ none) (counted : par.nlink + 1 < 2 ^ 32)
    (linked : 2 ≤ par.nlink) where
  abbrev created : MetaPartition
  created = (fsm_create_dentry mp now dentry false).1

  created_entry : get created.dentry_tree dentry ≡ some dentry
  created_entry = ground (
    arith,
    (create_dentry_absent mp now dentry par parent live dir absent).1 dentry,
    less_irrefl dentry,
  )

  created_parent :
      get created.inode_tree (new_inode dentry.parent_id 0 later) ≡ some (inc_nlink par)
  unfolding new_inode
  created_parent = ground (
    arith,
    (create_dentry_absent mp now dentry par parent live dir absent).2
        (new_inode dentry.parent_id 0 later),
  )

  -- Deleting the entry that was just created answers every lookup of entries and inodes as before
  -- it, if the parent is a live directory with at least two links whose count does not overflow.
  pub delete-create_dentry :
      ((e : Dentry)
        → get (fsm_delete_dentry created later dentry).1.dentry_tree e ≡ get mp.dentry_tree e)
      × ((j : Inode)
          → get (fsm_delete_dentry created later dentry).1.inode_tree j ≡ get mp.inode_tree j)
  unfolding inc_nlink dec_nlink new_inode
  delete-create_dentry =
      let new = create_dentry_absent mp now dentry par parent live dir absent in
      (
        λ e. ground (
          arith,
          new.1 e,
          (delete_dentry_entries created later dentry dentry created_entry).1 e,
          get-equiv mp.dentry_tree dentry e,
        ),
        λ j. ground (
          arith,
          new.2 j,
          delete_dentry_parent created later dentry dentry created_entry (inc_nlink par)
              created_parent j,
          get-number mp.inode_tree j (new_inode dentry.parent_id 0 now),
        ),
      )
