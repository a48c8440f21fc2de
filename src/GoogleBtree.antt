-- ===== src/GoogleBtree.antt =====
-- The ordered tree of util/btree, a copy of Google's btree package, as an interface: the calls that
-- the program makes of it, with the documented behaviour of each as a law over the list of items
-- that Ascend visits. The package itself is not modelled.
pub mod Order
pub mod SortedList
pub mod Floor
use cfs.Base.{
  ℕ, ◌≡◌, ◌⊎◌, Bool, true, false, ◌&&◌, not, Option, List, [], ◌∷◌, filter, find, get_last?, length,
  reverse, if◌then◌else◌,
}

-- btree.Item: `less` is a strict weak order, as its documentation demands.
pub record BtreeItem (A : Type 0) : Type 0 where
  pub less : A → A → Bool
  pub less_irrefl : (a : A) → less a a ≡ false
  pub less_trans : (a b c : A) → less a b ≡ true → less b c ≡ true → less a c ≡ true
  pub less_weak : (a b c : A) → less a c ≡ true → (less a b ≡ true) ⊎ (less b c ≡ true)

module _ {A : Type 0} (o : BtreeItem A) where
  -- Two items are the same item of a tree if neither is less than the other.
  abbrev pub equiv : A → A → Bool
  equiv a b = not (o.less a b) && not (o.less b a)

  -- `a` among ascending items, in place of the item that it is equal to.
  abbrev pub insert_sorted : A → List A → List A
  insert_sorted a [] = a ∷ []
  insert_sorted a (x ∷ xs) =
      let rest = insert_sorted a xs in
      if o.less a x then a ∷ x ∷ xs else if o.less x a then x ∷ rest else a ∷ xs

  -- The items without the one that `a` is equal to.
  abbrev pub remove : A → List A → List A
  remove a xs = filter (λ x. not (equiv a x)) xs

  -- Every item is above `a`.
  abbrev pub Above : A → List A → Type 0
  Above a [] = Unit
  Above a (x ∷ xs) = (o.less a x ≡ true) × Above a xs

  abbrev pub IsAscending : List A → Type 0
  IsAscending [] = Unit
  IsAscending (x ∷ xs) = Above x xs × IsAscending xs

-- The package: `insert` is ReplaceOrInsert, whose result is what `get` returned before.
pub record BtreePackage : Type 1 where
  pub Tree : (A : Type 0) → BtreeItem A → Type 0
  pub new : (A : Type 0) (o : BtreeItem A) → Tree A o
  pub get : (A : Type 0) (o : BtreeItem A) → Tree A o → A → Option A
  pub insert : (A : Type 0) (o : BtreeItem A) → Tree A o → A → Tree A o
  pub delete : (A : Type 0) (o : BtreeItem A) → Tree A o → A → Tree A o
  pub ascend : (A : Type 0) (o : BtreeItem A) → Tree A o → List A
  pub ascend_range : (A : Type 0) (o : BtreeItem A) → Tree A o → A → A → List A
  pub ascend_greater_or_equal : (A : Type 0) (o : BtreeItem A) → Tree A o → A → List A
  pub descend_less_or_equal : (A : Type 0) (o : BtreeItem A) → Tree A o → A → List A
  pub max_item : (A : Type 0) (o : BtreeItem A) → Tree A o → Option A
  pub len : (A : Type 0) (o : BtreeItem A) → Tree A o → ℕ
  pub ascend-IsAscending :
      (A : Type 0) (o : BtreeItem A) (t : Tree A o) → IsAscending o (ascend A o t)
  pub ascend-new : (A : Type 0) (o : BtreeItem A) → ascend A o (new A o) ≡ []
  pub ascend-insert :
      (A : Type 0) (o : BtreeItem A) (t : Tree A o) (a : A)
      → ascend A o (insert A o t a) ≡ insert_sorted o a (ascend A o t)
  pub ascend-delete :
      (A : Type 0) (o : BtreeItem A) (t : Tree A o) (a : A)
      → ascend A o (delete A o t a) ≡ remove o a (ascend A o t)
  pub get-ascend :
      (A : Type 0) (o : BtreeItem A) (t : Tree A o) (k : A)
      → get A o t k ≡ find (equiv o k) (ascend A o t)
  pub ascend_range-ascend :
      (A : Type 0) (o : BtreeItem A) (t : Tree A o) (lo hi : A)
      → ascend_range A o t lo hi ≡ filter (λ x. not (o.less x lo) && o.less x hi) (ascend A o t)
  pub ascend_greater_or_equal-ascend :
      (A : Type 0) (o : BtreeItem A) (t : Tree A o) (pivot : A)
      → ascend_greater_or_equal A o t pivot ≡ filter (λ x. not (o.less x pivot)) (ascend A o t)
  pub descend_less_or_equal-ascend :
      (A : Type 0) (o : BtreeItem A) (t : Tree A o) (pivot : A)
      → descend_less_or_equal A o t pivot
        ≡ reverse (filter (λ x. not (o.less pivot x)) (ascend A o t))
  pub max_item-ascend :
      (A : Type 0) (o : BtreeItem A) (t : Tree A o) → max_item A o t ≡ get_last? (ascend A o t)
  pub len-ascend : (A : Type 0) (o : BtreeItem A) (t : Tree A o) → len A o t ≡ length (ascend A o t)
