-- ===== src/GoogleBtree/Order.antt =====
-- Looking up an item among ascending items after an insertion or a removal.
use cfs.Base.{◌≡◌, Bool, true, some, none, List, [], ◌∷◌, find, filter, arith, if◌then◌else◌}
use cfs.GoogleBtree.{BtreeItem, equiv, insert_sorted, remove, Above, IsAscending}

module _ {A : Type 0} (o : BtreeItem A) where
  -- Items that are one item of a tree are told apart from a third by neither.
  pub equiv_cong : (k j x : A) → equiv o k j ≡ true → equiv o k x ≡ equiv o j x
  equiv_cong k j x h = ground (
    arith,
    o.less_weak k j x,
    o.less_weak x j k,
    o.less_weak k x j,
    o.less_weak j x k,
    o.less_weak j k x,
    o.less_weak x k j,
  )

  pub find-insert_sorted :
      (a k : A) (xs : List A)
      → find (equiv o k) (insert_sorted o a xs)
        ≡ (if equiv o a k then some a else find (equiv o k) xs)
  find-insert_sorted a k [] = ground arith
  find-insert_sorted a k (x ∷ xs) = ground (
    arith,
    find-insert_sorted a k xs,
    o.less_weak a x k,
    o.less_weak k x a,
    o.less_weak a k x,
    o.less_weak x k a,
    o.less_weak x a k,
    o.less_weak k a x,
  )

  pub find-remove :
      (a k : A) (xs : List A)
      → find (equiv o k) (remove o a xs) ≡ (if equiv o a k then none else find (equiv o k) xs)
  find-remove a k [] = ground arith
  find-remove a k (x ∷ xs) = ground (
    arith,
    find-remove a k xs,
    o.less_weak a x k,
    o.less_weak k x a,
    o.less_weak a k x,
    o.less_weak x k a,
    o.less_weak x a k,
    o.less_weak k a x,
  )

  Above-trans : (a x : A) (xs : List A) → o.less a x ≡ true → Above o x xs → Above o a xs
  Above-trans a x [] h k = tt
  Above-trans a x (y ∷ ys) h (p, k) = (o.less_trans a x y h p, Above-trans a x ys h k)

  Above-equiv : (a x : A) (xs : List A) → equiv o a x ≡ true → Above o x xs → Above o a xs
  Above-equiv a x [] h k = tt
  Above-equiv a x (y ∷ ys) h (p, k) = (ground (arith, o.less_weak x a y), Above-equiv a x ys h k)

  Above-insert_sorted :
      (b a : A) (xs : List A) → o.less b a ≡ true → Above o b xs → Above o b (insert_sorted o a xs)
  Above-insert_sorted b a [] h k = (h, tt)
  Above-insert_sorted b a (x ∷ xs) h (p, k) = ground (arith, Above-insert_sorted b a xs h k)

  pub IsAscending-insert_sorted :
      (a : A) (xs : List A) → IsAscending o xs → IsAscending o (insert_sorted o a xs)
  IsAscending-insert_sorted a [] h = (tt, tt)
  IsAscending-insert_sorted a (x ∷ xs) (p, h) = ground (
    arith,
    Above-trans a x xs,
    Above-equiv a x xs,
    Above-insert_sorted x a xs,
    IsAscending-insert_sorted a xs h,
  )

  pub Above-filter : (p : A → Bool) (a : A) (xs : List A) → Above o a xs → Above o a (filter p xs)
  Above-filter p a [] h = tt
  Above-filter p a (x ∷ xs) (h, k) = ground (arith, Above-filter p a xs k)

  pub IsAscending-filter :
      (p : A → Bool) (xs : List A) → IsAscending o xs → IsAscending o (filter p xs)
  IsAscending-filter p [] h = tt
  IsAscending-filter p (x ∷ xs) (h, k) =
      ground (arith, Above-filter p x xs h, IsAscending-filter p xs k)
