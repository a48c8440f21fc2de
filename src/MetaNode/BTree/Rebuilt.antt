-- ===== src/MetaNode/BTree/Rebuilt.antt =====
-- A tree that is filled with ascending items, one after another.
use cfs.Base.{◌≡◌, true, List, [], ◌∷◌, ◌++◌, refl, arith, append_assoc, append-nil, sym, ◌∙◌}
use cfs.GoogleBtree.{BtreeItem, BtreePackage, insert_sorted, IsAscending, Above}
use cfs.MetaNode.BTree.{BTree, ascend, replace_or_insert}
use cfs.MetaNode.BTree.Laws.{ascend-replace}

module _ {A : Type 0} ⦃o : BtreeItem A⦄ where
  -- Inserting above every item puts the item last.
  Above-last : (x a : A) (ys xs : List A) → Above o x (ys ++ a ∷ xs) → o.less x a ≡ true
  Above-last x a [] xs (p, h) = p
  Above-last x a (y ∷ ys) xs (p, h) = Above-last x a ys xs h

  insert_sorted-last :
      (a : A) (ys xs : List A) → IsAscending o (ys ++ a ∷ xs) → insert_sorted o a ys ≡ ys ++ a ∷ []
  insert_sorted-last a [] xs h = refl
  insert_sorted-last a (y ∷ ys) xs (p, h) = ground (
    arith,
    insert_sorted-last a ys xs h,
    Above-last y a ys xs p,
    o.less_trans a y a,
    o.less_irrefl a,
  )

module _ ⦃L : BtreePackage⦄ {A : Type 0} ⦃o : BtreeItem A⦄ where
  unfoldable pub rebuilt : BTree A → List A → BTree A
  rebuilt t [] = t
  rebuilt t (x ∷ xs) = rebuilt (replace_or_insert t x true).1 xs

  pub ascend-rebuilt :
      (t : BTree A) (xs : List A)
      → IsAscending o (ascend t ++ xs)
      → ascend (rebuilt t xs) ≡ ascend t ++ xs
  unfolding rebuilt
  ascend-rebuilt t [] h = sym (append-nil (ascend t))
  ascend-rebuilt t (x ∷ xs) h =
      let step : ascend (replace_or_insert t x true).1 ≡ ascend t ++ x ∷ [] =
        ascend-replace t x ∙ insert_sorted-last x (ascend t) xs h in
      ascend-rebuilt (replace_or_insert t x true).1 xs
        (rw (step, append_assoc (ascend t) (x ∷ []) xs) h)
      ∙ rw step (append_assoc (ascend t) (x ∷ []) xs)
