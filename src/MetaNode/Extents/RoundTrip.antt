-- ===== src/MetaNode/Extents/RoundTrip.antt =====
-- The extents of an inode, written and read: MarshalBinary and UnmarshalBinary of
-- metanode/extents.go.
use cfs.Base.{
  ℕ, zero, suc, ◌≤◌, true, List, [], ◌∷◌, ◌++◌, none, ◌≡◌, refl, arith, All, length, length-append,
  ok, ◌∙◌,
}
use cfs.Bytes.{Bytes, read_uint}
use cfs.GoogleBtree.{BtreePackage}
use cfs.Proto.ExtentKey
use cfs.Proto.ExtentKey.{ExtentKey, extent_item}
use cfs.Proto.ExtentKey.RoundTrip.{Fits, unmarshal_binary-marshal_binary, length-marshal_binary}
use cfs.MetaNode.BTree.{ascend, replace_or_insert}
use cfs.MetaNode.BTree.Laws.{ascend-IsAscending}
use cfs.MetaNode.BTree.Rebuilt.{rebuilt, ascend-rebuilt}
use cfs.MetaNode.Extents.{
  ExtentsTree, marshal_keys, marshal_binary, unmarshal_loop, unmarshal_binary,
}

module _ ⦃L : BtreePackage⦄ where
  -- One round of the loop on a key that can be read.
  unmarshal_loop-ok :
      (fuel : ℕ) (buf : Bytes) (e : ExtentsTree) {ext : ExtentKey} {rest : Bytes}
      → ExtentKey.unmarshal_binary buf ≡ ok (ext, rest)
      → unmarshal_loop (suc fuel) buf e ≡ unmarshal_loop fuel rest (replace_or_insert e ext true).1
  unfolding unmarshal_loop ExtentKey.unmarshal_binary read_uint
  unmarshal_loop-ok fuel [] e h = cc
  unmarshal_loop-ok fuel (b ∷ buf) e h = rw (h, unmarshal_loop)

  -- The rounds over written keys insert them one after another.
  unmarshal_loop-marshal_keys :
      (fuel : ℕ) (xs : List ExtentKey) (e : ExtentsTree)
      → All Fits xs
      → length (marshal_keys xs) ≤ fuel
      → unmarshal_loop fuel (marshal_keys xs) e ≡ (none, rebuilt e xs)
  unfolding unmarshal_loop marshal_keys rebuilt
  unmarshal_loop-marshal_keys zero [] e h l = refl
  unmarshal_loop-marshal_keys (suc fuel) [] e h l = refl
  unmarshal_loop-marshal_keys zero (x ∷ xs) e h l = absurd (
      omega (
        arith,
        length-append (ExtentKey.marshal_binary x) (marshal_keys xs),
        length-marshal_binary x,
      ))
  unmarshal_loop-marshal_keys (suc fuel) (x ∷ xs) e (p, h) l =
      unmarshal_loop-ok fuel (ExtentKey.marshal_binary x ++ marshal_keys xs) e
        (unmarshal_binary-marshal_binary x (marshal_keys xs) p)
      ∙ unmarshal_loop-marshal_keys fuel xs (replace_or_insert e x true).1 h (
          omega (
            arith,
            length-append (ExtentKey.marshal_binary x) (marshal_keys xs),
            length-marshal_binary x,
          ))

  -- What MarshalBinary wrote for extents whose keys fit their words is read into a tree without
  -- extents without an error, and leaves there the same keys in the same order.
  pub unmarshal_binary-marshal_binary_tree :
      (e e₀ : ExtentsTree)
      → ascend e₀ ≡ []
      → All Fits (ascend e)
      → ((unmarshal_binary e₀ (marshal_binary e)) ≡ (none, rebuilt e₀ (ascend e)))
        × (ascend (rebuilt e₀ (ascend e)) ≡ ascend e)
  unfolding unmarshal_binary marshal_binary
  unmarshal_binary-marshal_binary_tree e e₀ h fits = (
    unmarshal_loop-marshal_keys _ (ascend e) e₀ fits (omega arith),
    ascend-rebuilt e₀ (ascend e) (rw h (ascend-IsAscending e)) ∙ rw h,
  )
