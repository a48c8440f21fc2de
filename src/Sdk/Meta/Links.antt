-- ===== src/Sdk/Meta/Links.antt =====
-- Link of sdk/meta/api.go, on a volume of one partition.
use cfs.Base.{
  ℕ, ◌+◌, ◌%◌, ◌^◌, ◌<◌, ◌≡◌, ◌≢◌, ◌==◌, true, false, none, some, if◌then◌else◌, arith, refl, ◌∙◌,
  ap,
}
use cfs.Bytes.{Bytes}
use cfs.GoogleBtree.{BtreePackage, equiv}
use cfs.Proto.{is_dir, op_exist_err}
use cfs.MetaNode.BTree.{get, write_back}
use cfs.MetaNode.Dentry.{Dentry}
use cfs.MetaNode.Dentry.Order.{dentry_item}
use cfs.MetaNode.Inode.{Inode, new_inode, inc_nlink, should_delete}
use cfs.MetaNode.Inode.Order.{inode_item}
use cfs.MetaNode.Partition.{MetaPartition}
use cfs.MetaNode.Partition.DentryOps.{fsm_create_dentry}
use cfs.MetaNode.Partition.Entries.{create_dentry_exists, inc_nlink_counted, create_dentry_absent}
use cfs.MetaNode.Requests.{inode_info}
use cfs.Sdk.Meta.{eexist, enoent, parse_status}
use cfs.Sdk.Meta.Partition.{MetaWrapper, get_partition_by_inode}
use cfs.Sdk.Meta.Partition
use cfs.Sdk.Meta.Api.{done, fails, refused, is_exist, link, link_entry}
use cfs.Sdk.Meta.Answers.{at_partition-known, ilink-live, get-linked, dcreate-entry}
use cfs.Sdk.Meta.OnePartition.{one_partition}

-- The entry that Link requests.
abbrev pub link_dentry : ⦃L : BtreePackage⦄ → ℕ → Bytes → ℕ → Inode → Dentry
link_dentry parent_id name ino i = record {
  parent_id = parent_id;
  name = name;
  inode = ino;
  type = i.type;
}

module _ ⦃L : BtreePackage⦄ (now : ℕ) (w : MetaPartition) (ino : ℕ) (i : Inode)
    (found : get w.inode_tree (new_inode ino 0 now) ≡ some i) (live : should_delete i ≡ false) where
  -- The partition after the link is added.
  abbrev pub linked : MetaPartition
  linked = record w { inode_tree = write_back w.inode_tree (inc_nlink i) }

  module _ (mw : MetaWrapper) (parent_mp mp : Partition.MetaPartition) (parent_id : ℕ)
      (name : Bytes) (par : Inode)
      (parent_known : get_partition_by_inode mw parent_id ≡ some parent_mp)
      (known : get_partition_by_inode mw ino ≡ some mp) (other : parent_id ≢ ino) where
    link-linked :
        link (one_partition now) mw w parent_id name ino
        ≡ link_entry
            (one_partition now)
            mw
            linked
            parent_mp
            mp
            parent_id
            name
            ino
            (some (inode_info (inc_nlink i)))
    unfolding link refused
    link-linked =
        at_partition-known (one_partition now) mw parent_id enoent w parent_mp _ parent_known
        ∙ at_partition-known (one_partition now) mw ino enoent w mp _ known
        ∙ rw (ilink-live now w ino i found live mp) refl

    module _ (parent : get w.inode_tree (new_inode parent_id 0 now) ≡ some par)
        (par_live : should_delete par ≡ false) (dir : is_dir par.type ≡ true) where
      linked-parent : get linked.inode_tree (new_inode parent_id 0 now) ≡ some par
      unfolding new_inode
      linked-parent =
          ground
            (arith, get-linked now w ino i found live (new_inode parent_id 0 now), parent, other)

      -- A name that is taken.
      link-exists :
          (d : Dentry)
          → get w.dentry_tree (link_dentry parent_id name ino i) ≡ some d
          → d.type ≡ i.type
          → link (one_partition now) mw w parent_id name ino ≡ (fails eexist, linked)
      unfolding link_entry parse_status refused is_exist inc_nlink
      link-exists d there same =
          let refusal : fsm_create_dentry linked now (link_dentry parent_id name ino i) false
              ≡ (op_exist_err, linked) =
            create_dentry_exists linked now (link_dentry parent_id name ino i) par linked-parent
              par_live dir d there
            ∙ ground (arith, same) in
          link-linked
          ∙ rw (dcreate-entry now linked parent_mp parent_id name ino i.type other, refusal) refl

      -- A new name.
      link-new :
          get w.dentry_tree (link_dentry parent_id name ino i) ≡ none
          → (link (one_partition now) mw w parent_id name ino ≡ (
            done (some (inode_info (inc_nlink i))),
            (fsm_create_dentry linked now (link_dentry parent_id name ino i) false).1,
          ))
      unfolding link_entry parse_status refused is_exist inc_nlink
      link-new absent =
          let new =
            create_dentry_absent linked now (link_dentry parent_id name ino i) par linked-parent
              par_live dir absent in
          link-linked
          ∙ rw (dcreate-entry now linked parent_mp parent_id name ino i.type other, new.0) refl

      -- On one partition that answers every request, Link of a live file under a name that another
      -- entry of its type has in a live directory fails with EEXIST; the file keeps the link that
      -- was added, its count is one more on 32 bits, and nothing else of it, no other inode and no
      -- entry changes.
      pub link-exists_counted :
          (d : Dentry)
          → get w.dentry_tree (link_dentry parent_id name ino i) ≡ some d
          → d.type ≡ i.type
          → ((link (one_partition now) mw w parent_id name ino).0 ≡ fails eexist)
            × ((j : Inode)
                → get (link (one_partition now) mw w parent_id name ino).1.inode_tree j ≡ (
                    if ino == j.inode
                    then some (record i { nlink = (i.nlink + 1) % 2 ^ 32 })
                    else get w.inode_tree j))
            × ((link (one_partition now) mw w parent_id name ino).1.dentry_tree ≡ w.dentry_tree)
      unfolding inc_nlink
      link-exists_counted d there same =
          rw (link-exists d there same) (refl, get-linked now w ino i found live, refl)

      -- On one partition that answers every request, Link of a live inode under a new name in
      -- another inode, a live directory, where neither link count overflows, succeeds and answers
      -- the inode: the entry is found under the name, the counts of the inode and of the directory
      -- are raised by one, nothing else of the two changes, and no other inode or entry does.
      pub link-new_entry :
          get w.dentry_tree (link_dentry parent_id name ino i) ≡ none
          → i.nlink + 1 < 2 ^ 32
          → par.nlink + 1 < 2 ^ 32
          → ((link (one_partition now) mw w parent_id name ino).0
              ≡ done (some (inode_info (record i { nlink = i.nlink + 1 }))))
            × ((e : Dentry)
                → get (link (one_partition now) mw w parent_id name ino).1.dentry_tree e ≡ (
                    if equiv dentry_item (link_dentry parent_id name ino i) e
                    then some (link_dentry parent_id name ino i)
                    else get w.dentry_tree e))
            × ((j : Inode)
                → get (link (one_partition now) mw w parent_id name ino).1.inode_tree j ≡ (
                    if parent_id == j.inode
                    then some (record par { nlink = par.nlink + 1 })
                    else if ino == j.inode
                    then some (record i { nlink = i.nlink + 1 })
                    else get w.inode_tree j))
      link-new_entry absent counted par_counted =
          let new =
            create_dentry_absent linked now (link_dentry parent_id name ino i) par linked-parent
              par_live dir absent in
          let own = inc_nlink_counted i counted in
          let of_par = inc_nlink_counted par par_counted in
          rw (link-new absent) (
            ap (λ n. done (some (inode_info n))) own,
            new.1,
            λ j.
                new.2 j
                ∙ ap (λ o. if parent_id == j.inode then some (inc_nlink par) else o)
                    (get-linked now w ino i found live j)
                ∙ ap
                    (λ p.
                      if parent_id == j.inode
                      then some p
                      else if ino == j.inode
                      then some (inc_nlink i)
                      else get w.inode_tree j)
                    of_par
                ∙ ap
                    (λ p.
                      if parent_id == j.inode
                      then some (record par { nlink = par.nlink + 1 })
                      else if ino == j.inode
                      then some p
                      else get w.inode_tree j)
                    own,
          )
