-- ===== src/MetaNode/Extents/Append.antt =====
-- Append of metanode/extents.go, by what is at each offset.
use cfs.Base.{
  ℕ, ◌==◌, Bool, ◌&&◌, not, true, false, List, [], ◌∷◌, Option, none, some, if◌then◌else◌, ◌≡◌,
  refl, arith, filter, ◌∙◌, find, ltb,
}
use cfs.GoogleBtree.{BtreePackage, equiv, Above, IsAscending}
use cfs.Proto.ExtentKey.{ExtentKey, extent_item}
use cfs.MetaNode.BTree.{get, delete, ascend, ascend_range}
use cfs.MetaNode.BTree.Laws.{
  get-delete, get-replace_or_insert, get-ascend, ascend_range-ascend, ascend-IsAscending,
}
use cfs.MetaNode.Extents.{ExtentsTree, key_at, end_of, same_extent, drop_others, append}

-- Some key of the list is of another extent than `ext` and lies at the offset `x`.
abbrev hits : ExtentKey → ℕ → List ExtentKey → Bool
hits ext x [] = false
hits ext x (item ∷ rest) =
    let later = hits ext x rest in
    if not (same_extent item ext) && (item.file_offset == x) then true else later

module _ ⦃L : BtreePackage⦄ where
  -- The displaced keys are those of other extents, in order.
  drop_others-items :
      (ext : ExtentKey) (del_items : List ExtentKey) (e : ExtentsTree)
      → (drop_others ext del_items e).0 ≡ filter (λ i. not (same_extent i ext)) del_items
  unfolding drop_others
  drop_others-items ext [] e = refl
  drop_others-items ext (item ∷ rest) e =
      ground
        (arith, drop_others-items ext rest (if same_extent item ext then e else (delete e item).1))

  get-drop_others :
      (ext : ExtentKey) (del_items : List ExtentKey) (e : ExtentsTree) (x : ℕ)
      → get (drop_others ext del_items e).1 (key_at x)
        ≡ (if hits ext x del_items then none else get e (key_at x))
  unfolding drop_others
  get-drop_others ext [] e x = refl
  get-drop_others ext (item ∷ rest) e x = ground (
    arith,
    get-drop_others ext rest (if same_extent item ext then e else (delete e item).1) x,
    get-delete e item (key_at x),
  )

-- The key `i` lies in the range that `key` covers, and is of another extent.
abbrev pub displaced : ExtentKey → ExtentKey → Bool
displaced key i =
    not (ltb i.file_offset key.file_offset)
    && ltb i.file_offset (end_of key)
    && not (same_extent i key)

-- What stays of the key at an offset that is not the offset of `key`.
abbrev pub kept : ExtentKey → Option ExtentKey → Option ExtentKey
kept key none = none
kept key (some i) = if displaced key i then none else some i

-- The test of AscendRange.
abbrev in_range : ExtentKey → ExtentKey → Bool
in_range key i = not (ltb i.file_offset key.file_offset) && ltb i.file_offset (end_of key)

displaced-filter :
    (key : ExtentKey) (xs : List ExtentKey)
    → filter (λ i. not (same_extent i key)) (filter (in_range key) xs) ≡ filter (displaced key) xs
displaced-filter key [] = refl
displaced-filter key (y ∷ ys) = ground (arith, displaced-filter key ys)

hits-Above :
    (key i : ExtentKey) (xs : List ExtentKey)
    → Above extent_item i xs
    → hits key i.file_offset (filter (in_range key) xs) ≡ false
hits-Above key i [] h = refl
hits-Above key i (y ∷ ys) (p, h) = ground (arith, hits-Above key i ys h)

-- Among ascending keys there is one at most at `x`, so the loop deletes it exactly if it is
-- displaced.
hits-find :
    (key : ExtentKey) (x : ℕ) (xs : List ExtentKey)
    → IsAscending extent_item xs
    → (if hits key x (filter (in_range key) xs)
        then none
        else find (equiv extent_item (key_at x)) xs)
      ≡ kept key (find (equiv extent_item (key_at x)) xs)
hits-find key x [] h = refl
hits-find key x (y ∷ ys) (p, h) = ground (arith, hits-find key x ys h, hits-Above key y ys p)

module _ ⦃L : BtreePackage⦄ where
  get-drop_in_range :
      (e : ExtentsTree) (key : ExtentKey) (x : ℕ)
      → get (drop_others key (ascend_range e key (key_at (end_of key))) e).1 (key_at x)
        ≡ kept key (get e (key_at x))
  get-drop_in_range e key x =
      rw
        (
          get-drop_others key (ascend_range e key (key_at (end_of key))) e x,
          ascend_range-ascend e key (key_at (end_of key)),
          get-ascend e (key_at x),
        )
        (hits-find key x (ascend e) (ascend-IsAscending e))

  -- After Append the key is at its own offset, and every other offset holds what it held unless
  -- that lay in the range of the key and belonged to another extent.
  pub get-append :
      (e : ExtentsTree) (key : ExtentKey) (x : ℕ)
      → get (append e key).1 (key_at x)
        ≡ (if key.file_offset == x then some key else kept key (get e (key_at x)))
  unfolding append
  get-append e key x = ground (
    arith,
    get-replace_or_insert (drop_others key (ascend_range e key (key_at (end_of key))) e).1 key
        (key_at x) true,
    get-drop_in_range e key x,
  )

  -- Append returns the keys of other extents in the range of the new key, in order.
  pub append-items :
      (e : ExtentsTree) (key : ExtentKey) → (append e key).0 ≡ filter (displaced key) (ascend e)
  unfolding append
  append-items e key =
      drop_others-items key (ascend_range e key (key_at (end_of key))) e
      ∙ rw (ascend_range-ascend e key (key_at (end_of key))) (displaced-filter key (ascend e))
