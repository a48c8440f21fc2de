-- ===== src/MetaNode/Inode/Truncate.antt =====
-- What a truncation leaves of the extents of a file: Inode.ExtentsTruncate on the keys that
-- fsmExtentsTruncate collects.
pub mod Search
use cfs.Base.{
  ℕ, ◌+◌, ◌-◌, ◌≤◌, ◌<◌, ◌^◌, ◌≡◌, ◌==◌, Bool, true, false, not, ltb, leb, Option, some, none,
  if◌then◌else◌, arith, refl, List, [], ◌∷◌, find, filter, get_last?, Option-cases, Bool-cases,
  ==_iff, inl, inr, ◌∙◌, sym, ap,
}
use cfs.GoogleBtree.{BtreePackage, equiv, Above, IsAscending}
use cfs.Proto.{IsU32, u64, u32}
use cfs.Proto.ExtentKey.{ExtentKey, extent_item, less}
use cfs.MetaNode.BTree.{BTree, get, delete, write_back, max_item, ascend, ascend_greater_or_equal}
use cfs.MetaNode.BTree.Laws.{
  get-delete, get-write_back, get-ascend, ascend-IsAscending, max_item-ascend,
  ascend_greater_or_equal-ascend,
}
use cfs.MetaNode.Extents.{ExtentsTree, key_at, end_of}
use cfs.MetaNode.Inode.{Inode, delete_all, cut_last, extents_truncate}
use cfs.MetaNode.Inode.Truncate.Search.{
  at, below, at-Above, at-find, last-Above, find-last, found-le-last, last_nonempty, find-no_last,
  cut_size,
}

module _ ⦃L : BtreePackage⦄ where
  get-delete_all :
      (dels : List ExtentKey) (e : ExtentsTree) (x : ℕ)
      → get (delete_all e dels) (key_at x) ≡ (if at x dels then none else get e (key_at x))
  unfolding delete_all
  get-delete_all [] e x = refl
  get-delete_all (d ∷ ds) e x =
      ground (arith, get-delete_all ds (delete e d).1 x, get-delete e d (key_at x))

  -- What lies at or above `length` is deleted, and nothing else.
  get-delete_above :
      (e : ExtentsTree) (length x : ℕ)
      → get (delete_all e (ascend_greater_or_equal e (key_at length))) (key_at x)
        ≡ below length (get e (key_at x))
  get-delete_above e length x =
      rw
        (
          get-delete_all (ascend_greater_or_equal e (key_at length)) e x,
          ascend_greater_or_equal-ascend e (key_at length),
          get-ascend e (key_at x),
        )
        (at-find length x (ascend e) (ascend-IsAscending e))

  -- No two extents overlap, and none reaches past the last uint64.
  pub record IsDisjoint (e : ExtentsTree) : Type 0 where
    pub apart :
        (x y : ℕ) (a b : ExtentKey)
        → get e (key_at x) ≡ some a
        → get e (key_at y) ≡ some b
        → x < y
        → a.file_offset + a.size ≤ y
    pub bounded :
        (x : ℕ) (a : ExtentKey) → get e (key_at x) ≡ some a → a.file_offset + a.size < 2 ^ 64
    pub sized : (x : ℕ) (a : ExtentKey) → get e (key_at x) ≡ some a → IsU32 a.size

  -- What a truncation to `length` leaves of the extent at an offset.
  abbrev pub cut : ℕ → Option ExtentKey → Option ExtentKey
  cut length none = none
  cut length (some a) =
      if ltb a.file_offset length
      then some (
          if ltb length (a.file_offset + a.size)
          then record a { size = length - a.file_offset }
          else a)
      else none

  max_item-found :
      (e : ExtentsTree) (m : ExtentKey)
      → max_item e ≡ some m
      → get e (key_at m.file_offset) ≡ some m
  max_item-found e m h =
      rw (get-ascend e (key_at m.file_offset))
        (find-last m (ascend e) (ascend-IsAscending e) (rw max_item-ascend at h))

  max_item-greatest :
      (e : ExtentsTree) (m a : ExtentKey) (x : ℕ)
      → max_item e ≡ some m
      → get e (key_at x) ≡ some a
      → (a.file_offset ≡ x) × (x ≤ m.file_offset)
  max_item-greatest e m a x h f =
      found-le-last x a m (ascend e) (ascend-IsAscending e) (rw max_item-ascend at h)
        (rw get-ascend at f)

  max_item-empty : (e : ExtentsTree) (x : ℕ) → max_item e ≡ none → get e (key_at x) ≡ none
  max_item-empty e x h =
      rw (get-ascend e (key_at x)) (find-no_last x (ascend e) (rw max_item-ascend at h))

  -- Of extents that do not overlap and lie below `length`, only the last can reach past it.
  cut_last-cut :
      (e : ExtentsTree) (length x : ℕ)
      → IsDisjoint e
      → length < 2 ^ 64
      → ((y : ℕ) (a : ExtentKey) → get e (key_at y) ≡ some a → a.file_offset < length)
      → get (cut_last e length (max_item e)) (key_at x) ≡ cut length (get e (key_at x))
  unfolding cut_last
  cut_last-cut e length x d fits under = elim (Option-cases (max_item e)) [
    | inl none_left ↦ rw none_left (rw (max_item-empty e x none_left))
    | inr (m, last) ↦ rw last (elim (Option-cases (get e (key_at x))) [
      | inl gone ↦ ground (
        arith,
        gone,
        max_item-found e m last,
        d.bounded m.file_offset m,
        get-write_back e (record m { size = u32 (u64 (length + 2 ^ 64 - m.file_offset)) })
            (key_at x),
      )
      | inr (a, there) ↦ elim (Bool-cases (x == m.file_offset)) [
        | inl at_last ↦ ground (
          arith,
          there,
          max_item-found e m last,
          same a there m last at_last,
          under m.file_offset m,
          d.bounded m.file_offset m,
          d.sized m.file_offset m,
          cut_size m.file_offset m.size length fits,
          get-write_back e (record m { size = u32 (u64 (length + 2 ^ 64 - m.file_offset)) })
              (key_at x),
        )
        | inr before ↦ ground (
          arith,
          there,
          max_item-found e m last,
          max_item-greatest e m a x last there,
          d.apart x m.file_offset a m,
          under m.file_offset m,
          get-write_back e (record m { size = u32 (u64 (length + 2 ^ 64 - m.file_offset)) })
              (key_at x),
        )
      ]
    ])
  ]
    where
      same :
          (a : ExtentKey)
          → get e (key_at x) ≡ some a
          → (m : ExtentKey) → max_item e ≡ some m
          → (x == m.file_offset) ≡ true
          → a ≡ m
      same a there m last at_last =
          let p : some a ≡ some m =
            sym there
            ∙ ap (λ y. get e (key_at y)) ((==_iff x m.file_offset).0 at_last)
            ∙ max_item-found e m last in
          cc

  below-some :
      (length : ℕ) (o : Option ExtentKey) (a : ExtentKey)
      → below length o ≡ some a
      → (o ≡ some a) × (a.file_offset < length)
  below-some length none a h = cc
  below-some length (some b) a h = (ground arith, ground arith)

  cut-below : (length : ℕ) (o : Option ExtentKey) → cut length (below length o) ≡ cut length o
  cut-below length none = refl
  cut-below length (some a) = ground arith

  deleted-IsDisjoint :
      (e : ExtentsTree) (length : ℕ)
      → IsDisjoint e
      → IsDisjoint (delete_all e (ascend_greater_or_equal e (key_at length)))
  deleted-IsDisjoint e length d = record {
    apart = λ x y a b p q. d.apart x y a b (old x a p) (old y b q);
    bounded = λ x a p. d.bounded x a (old x a p);
    sized = λ x a p. d.sized x a (old x a p);
  }
    where
      old :
          (x : ℕ) (a : ExtentKey)
          → get (delete_all e (ascend_greater_or_equal e (key_at length))) (key_at x) ≡ some a
          → get e (key_at x) ≡ some a
      old x a p = (below-some length (get e (key_at x)) a (rw get-delete_above at p)).0

  -- ExtentsTruncate to a length below 2 ^ 64, on extents whose sizes fit a uint32, which end below
  -- 2 ^ 64 and do not overlap, deletes what lies at or above the length, cuts the extent across it
  -- at it, keeps the rest, and sets the size to the length.
  pub get-extents_truncate :
      (i : Inode) (length ct x : ℕ)
      → IsDisjoint i.extents
      → length < 2 ^ 64
      → (get
            (extents_truncate i
              (ascend_greater_or_equal i.extents (key_at length))
              length
              ct).extents
            (key_at x)
          ≡ cut length (get i.extents (key_at x)))
        × ((extents_truncate i (ascend_greater_or_equal i.extents (key_at length)) length ct).size
            ≡ length)
  unfolding extents_truncate
  get-extents_truncate i length ct x d fits =
      let e = delete_all i.extents (ascend_greater_or_equal i.extents (key_at length)) in
      (
        cut_last-cut e length x (deleted-IsDisjoint i.extents length d) fits (λ y a p.
              (below-some length (get i.extents (key_at y)) a (rw get-delete_above at p)).1)
            ∙ ap (cut length) (get-delete_above i.extents length x)
            ∙ cut-below length (get i.extents (key_at x)),
        refl,
      )
