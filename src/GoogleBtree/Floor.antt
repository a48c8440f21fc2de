-- ===== src/GoogleBtree/Floor.antt =====
-- DescendLessOrEqual with a callback that returns false: the item at or below a pivot.
use cfs.Base.{
  ◌≡◌, not, Option, List, [], ◌∷◌, ◌++◌, filter, get_last?, reverse, reverse-cons, head?, refl, ap,
  ◌∙◌, sym,
}
use cfs.GoogleBtree.{BtreeItem, BtreePackage}
use cfs.MetaNode.BTree.{BTree, ascend}

module _ ⦃L : BtreePackage⦄ {A : Type 0} ⦃o : BtreeItem A⦄ where
  -- The first item that DescendLessOrEqual visits.
  unfoldable pub floor : BTree A → A → Option A
  floor t pivot = head? (L.descend_less_or_equal A o t pivot)

module _ {A : Type 0} where
  head?-skip : (xs : List A) (x y : A) → head? ((xs ++ x ∷ []) ++ y ∷ []) ≡ head? (xs ++ x ∷ [])
  head?-skip [] x y = refl
  head?-skip (z ∷ xs) x y = refl

  head?-reverse : (xs : List A) → head? (reverse xs) ≡ get_last? xs
  head?-reverse [] = refl
  head?-reverse (x ∷ []) = refl
  head?-reverse (x ∷ y ∷ xs) =
      ap head? (reverse-cons x (y ∷ xs))
      ∙ ap (λ l. head? (l ++ x ∷ [])) (reverse-cons y xs)
      ∙ head?-skip (reverse xs) y x
      ∙ ap head? (sym (reverse-cons y xs))
      ∙ head?-reverse (y ∷ xs)

module _ ⦃L : BtreePackage⦄ {A : Type 0} ⦃o : BtreeItem A⦄ where
  pub floor-ascend :
      (t : BTree A) (pivot : A)
      → floor t pivot ≡ get_last? (filter (λ x. not (o.less pivot x)) (ascend t))
  unfolding floor ascend
  floor-ascend t pivot =
      rw (L.descend_less_or_equal-ascend A o t pivot)
        (head?-reverse (filter (λ x. not (o.less pivot x)) (L.ascend A o t)))
