-- ===== src/MetaNode/FreeList.antt =====
-- metanode/free_list.go: the queue of inodes that wait to be freed. The lock is not modelled.
use cfs.Base.{List, [], ◌∷◌, ◌++◌, Option, none, some, ◌≡◌, refl}

module _ {A : Type 0} where
  -- Pop: the first item, and the list without it.
  unfoldable pub pop : List A → Option A × List A
  pop [] = (none, [])
  pop (item ∷ list) = (some item, list)

  -- Push, at the back.
  unfoldable pub push : List A → A → List A
  push list ino = list ++ ino ∷ []

  -- GetFront
  unfoldable pub get_front : List A → Option A
  get_front [] = none
  get_front (item ∷ list) = some item

  -- FrontMoveToBack
  unfoldable pub front_move_to_back : List A → List A
  front_move_to_back [] = []
  front_move_to_back (item ∷ list) = list ++ item ∷ []

module _ {A : Type 0} where
  -- Moving the front to the back is a Pop and a Push of what it returned, which is what GetFront
  -- shows; an empty list stays empty.
  pub front_move_to_back-pop :
      (list : List A)
      → ((get_front list ≡ (pop list).0)
          × (front_move_to_back list
              ≡ elim (pop list).0 [ none ↦ list | some ino ↦ push (pop list).1 ino ]))
  unfolding pop push get_front front_move_to_back
  front_move_to_back-pop [] = (refl, refl)
  front_move_to_back-pop (item ∷ list) = (refl, refl)

  -- A queue that held items gives them out before one that is pushed, and an empty one gives that
  -- out at once.
  pub pop-push :
      (list : List A) (ino : A)
      → pop (push list ino) ≡ elim (pop list).0 [
        | none ↦ (some ino, [])
        | some item ↦ (some item, push (pop list).1 ino)
      ]
  unfolding pop push
  pop-push [] ino = refl
  pop-push (item ∷ list) ino = refl
