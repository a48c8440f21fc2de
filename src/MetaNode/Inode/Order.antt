-- ===== src/MetaNode/Inode/Order.antt =====
-- The order of the inode tree: by number. Two inodes are one item of the tree exactly when their
-- numbers agree.
use cfs.Base.{◌≡◌, Bool, true, false, ◌⊎◌, ◌==◌, ltb, arith}
use cfs.GoogleBtree.{BtreeItem, BtreePackage, equiv}
use cfs.MetaNode.Inode.{Inode}

module _ ⦃L : BtreePackage⦄ where
  -- Less
  abbrev pub less : Inode → Inode → Bool
  less i than = ltb i.inode than.inode

  pub less_irrefl : (a : Inode) → less a a ≡ false
  less_irrefl a = ground arith

  pub less_trans : (a b c : Inode) → less a b ≡ true → less b c ≡ true → less a c ≡ true
  less_trans a b c h k = ground arith

  pub less_weak : (a b c : Inode) → less a c ≡ true → (less a b ≡ true) ⊎ (less b c ≡ true)
  less_weak a b c h = ground arith

  instance abbrev pub inode_item : BtreeItem Inode
  inode_item = record {
    less = less;
    less_irrefl = less_irrefl;
    less_trans = less_trans;
    less_weak = less_weak;
  }

  pub equiv_number : (a b : Inode) → equiv inode_item a b ≡ (a.inode == b.inode)
  equiv_number a b = ground arith
