-- ===== src/Sdk/ExtentCache/Refreshed.antt =====
-- Refresh of sdk/data/stream/extent_cache.go: the cache as a map from offsets to extents.
use cfs.Base.{
  ℕ, ◌<◌, ◌⊎◌, ◌≡◌, ◌==◌, ◌&&◌, not, leb, true, false, List, [], ◌∷◌, ◌++◌, none, ok, arith, refl,
  ◌∙◌, ap,
}
use cfs.GoogleBtree.{BtreePackage, IsAscending}
use cfs.Proto.ExtentKey.{ExtentKey, extent_item}
use cfs.MetaNode.BTree.{BTree, new_btree, ascend, replace_or_insert}
use cfs.MetaNode.BTree.Laws.{ascend-new_btree}
use cfs.MetaNode.BTree.Rebuilt.{rebuilt, ascend-rebuilt}
use cfs.Sdk.ExtentCache.{ExtentCache, insert_all, update, refresh, get, list}
use cfs.Sdk.ExtentCache.Chain.{Chained, EndsInt, serving}
use cfs.Sdk.ExtentCache.Reads.{IsSound, get-serving}

module _ ⦃L : BtreePackage⦄ where
  insert_all-rebuilt :
      (t : BTree ExtentKey) (eks : List ExtentKey) → insert_all t eks ≡ rebuilt t eks
  unfolding insert_all rebuilt
  insert_all-rebuilt t [] = refl
  insert_all-rebuilt t (ek ∷ eks) = insert_all-rebuilt (replace_or_insert t ek true).1 eks

  module _ (cache : ExtentCache) (gen size : ℕ) (eks : List ExtentKey)
      (newer : (cache.gen ≡ 0) ⊎ (cache.gen < gen)) (sorted : IsAscending extent_item eks) where
    abbrev refreshed : ExtentCache
    refreshed = (refresh cache (ok (gen, size, eks))).1

    refresh-update :
        refresh cache (ok (gen, size, eks))
        ≡ (none, record cache { gen = gen; size = size; root = insert_all new_btree eks })
    unfolding refresh update
    refresh-update =
        let stale : (not (cache.gen == 0) && leb gen cache.gen) ≡ false = ground (arith, newer) in
        rw (stale, update) refl

    ascend-refreshed : ascend refreshed.root ≡ eks
    ascend-refreshed =
        ap (λ r. ascend r.1.root) refresh-update
        ∙ ap ascend (insert_all-rebuilt new_btree eks)
        ∙ ascend-rebuilt new_btree eks (rw ascend-new_btree sorted)
        ∙ ap (λ l. l ++ eks) ascend-new_btree

    -- Refresh with a newer generation, or of a cache that has none, and with ascending extents
    -- that do not overlap and end below 2 ^ 63, succeeds: the cache is then the map that sends
    -- each offset to the extent that covers it, List returns the extents as they were given, and
    -- the generation and the size are the new ones.
    pub refresh-serving :
        Chained eks
        → EndsInt eks
        → ((refresh cache (ok (gen, size, eks))).0 ≡ none)
          × ((x : ℕ) → get (refresh cache (ok (gen, size, eks))).1 x ≡ serving x eks)
          × (list (refresh cache (ok (gen, size, eks))).1 ≡ eks)
          × ((refresh cache (ok (gen, size, eks))).1.gen ≡ gen)
          × ((refresh cache (ok (gen, size, eks))).1.size ≡ size)
    unfolding list
    refresh-serving chained ends =
        let sound : IsSound refreshed = record {
          apart = rw ascend-refreshed chained;
          bounded = rw ascend-refreshed ends;
        } in
        (
          ap (λ r. r.0) refresh-update,
          λ x. get-serving refreshed sound x ∙ ap (serving x) ascend-refreshed,
          ascend-refreshed,
          ap (λ r. r.1.gen) refresh-update,
          ap (λ r. r.1.size) refresh-update,
        )
