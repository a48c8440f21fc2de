-- ===== src/MetaNode/Dentry/Order.antt =====
-- The order of the dentry tree: by parent, then by name. Two dentries are one item of the tree
-- exactly when parent and name agree.
use cfs.Base.{ℕ, ◌≡◌, refl, true, false, ◌⊎◌, inl, inr, [], ◌∷◌, arith}
use cfs.Bytes.{Bytes}
use cfs.GoogleBtree.{BtreeItem, equiv}
use cfs.MetaNode.Dentry.{Dentry, name_less, less}

name_less_irrefl : (a : Bytes) → name_less a a ≡ false
unfolding name_less
name_less_irrefl [] = refl
name_less_irrefl (x ∷ xs) = ground (arith, name_less_irrefl xs)

pub name_less-empty : (a : Bytes) → name_less a [] ≡ false
unfolding name_less
name_less-empty [] = refl
name_less-empty (x ∷ xs) = refl

name_less_trans :
    (a b c : Bytes) → name_less a b ≡ true → name_less b c ≡ true → name_less a c ≡ true
unfolding name_less
name_less_trans [] [] c h k = k
name_less_trans [] (y ∷ ys) [] h k = k
name_less_trans [] (y ∷ ys) (z ∷ zs) h k = refl
name_less_trans (x ∷ xs) [] c h k = cc
name_less_trans (x ∷ xs) (y ∷ ys) [] h k = k
name_less_trans (x ∷ xs) (y ∷ ys) (z ∷ zs) h k = ground (arith, name_less_trans xs ys zs)

-- Of two names one is less, unless they are equal.
name_less_total : (a b : Bytes) → name_less a b ≡ false → name_less b a ≡ false → a ≡ b
unfolding name_less
name_less_total [] [] h k = refl
name_less_total [] (y ∷ ys) h k = cc
name_less_total (x ∷ xs) [] h k = cc
name_less_total (x ∷ xs) (y ∷ ys) h k = ground (arith, name_less_total xs ys)

name_less_weak :
    (a b c : Bytes) → name_less a c ≡ true → (name_less a b ≡ true) ⊎ (name_less b c ≡ true)
unfolding name_less
name_less_weak [] [] c h = inr h
name_less_weak [] (y ∷ ys) c h = inl refl
name_less_weak (x ∷ xs) b [] h = cc
name_less_weak (x ∷ xs) [] (z ∷ zs) h = inr refl
name_less_weak (x ∷ xs) (y ∷ ys) (z ∷ zs) h = ground (arith, name_less_weak xs ys zs)

pub less_irrefl : (a : Dentry) → less a a ≡ false
unfolding less
less_irrefl a = ground (arith, name_less_irrefl a.name)

pub less_trans : (a b c : Dentry) → less a b ≡ true → less b c ≡ true → less a c ≡ true
unfolding less
less_trans a b c h k = ground (arith, name_less_trans a.name b.name c.name)

pub less_weak : (a b c : Dentry) → less a c ≡ true → (less a b ≡ true) ⊎ (less b c ≡ true)
unfolding less
less_weak a b c h = ground (arith, name_less_weak a.name b.name c.name)

instance abbrev pub dentry_item : BtreeItem Dentry
dentry_item = record {
  less = less;
  less_irrefl = less_irrefl;
  less_trans = less_trans;
  less_weak = less_weak;
}

pub equiv-same_name :
    (a b : Dentry) → equiv dentry_item a b ≡ true → (a.parent_id ≡ b.parent_id) × (a.name ≡ b.name)
unfolding less
equiv-same_name a b h = (ground arith, ground (arith, name_less_total a.name b.name))

pub same_name-equiv :
    (a b : Dentry) → a.parent_id ≡ b.parent_id → a.name ≡ b.name → equiv dentry_item a b ≡ true
unfolding less
same_name-equiv a b h k = ground (arith, name_less_irrefl a.name)

-- The place of an entry does not depend on the inode that it names.
pub equiv_inode :
    (d e : Dentry) (x : ℕ) → equiv dentry_item (record d { inode = x }) e ≡ equiv dentry_item d e
unfolding less
equiv_inode d e x = refl
