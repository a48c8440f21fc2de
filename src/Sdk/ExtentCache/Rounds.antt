-- ===== src/Sdk/ExtentCache/Rounds.antt =====
-- The callback of PrepareReadRequests, and the extent that each offset of a read is sent to.
use cfs.Base.{
  ℕ, ◌+◌, ◌≤◌, ◌<◌, ◌≡◌, true, false, ltb, List, [], ◌∷◌, Option, none, some, arith, refl,
  Bool-cases, inl, inr, ◌∙◌, ap,
}
use cfs.Bytes.{Bytes}
use cfs.Int64.{IsInt, int_add-add, int_lt-ltb, int_le-leb}
use cfs.Proto.ExtentKey.{ExtentKey, extent_item}
use cfs.Sdk.ExtentCache.{ExtentRequest, read_round, rounds, finish, new_extent_request}
use cfs.Sdk.ExtentCache.Chain.{Chained, EndsInt, After, serving, serving-After}
use cfs.Sdk.ExtentCache.Requests.{
  key_of, key_of-request, key_of-append, finish-append, finish-done, finish-hole,
}

-- The callback, on natural numbers.
module _ (offset end : ℕ) (bytes : Bytes) (start : ℕ) (k : ExtentKey) (fits : IsInt end)
    (below : IsInt start) (ends : IsInt (k.file_offset + k.size)) where
  read_round-past :
      end ≤ k.file_offset
      → start < k.file_offset
      → read_round offset end bytes start k ≡ ([], start, false)
  unfolding read_round
  read_round-past p q = ground (arith, int_lt-ltb start k.file_offset, int_le-leb end k.file_offset)

  read_round-gap_last :
      start < k.file_offset
      → k.file_offset < end
      → end < k.file_offset + k.size
      → read_round offset end bytes start k ≡ (
        new_extent_request offset bytes start k.file_offset none
            ∷ new_extent_request offset bytes k.file_offset end (some k)
            ∷ [],
        end,
        false,
      )
  unfolding read_round
  read_round-gap_last p q r = ground (
    arith,
    int_lt-ltb start k.file_offset,
    int_le-leb end k.file_offset,
    int_add-add k.file_offset k.size ends,
    int_lt-ltb end (k.file_offset + k.size),
  )

  read_round-gap :
      start < k.file_offset
      → k.file_offset < end
      → k.file_offset + k.size ≤ end
      → read_round offset end bytes start k ≡ (
        new_extent_request offset bytes start k.file_offset none
            ∷ new_extent_request offset bytes k.file_offset (k.file_offset + k.size) (some k)
            ∷ [],
        k.file_offset + k.size,
        true,
      )
  unfolding read_round
  read_round-gap p q r = ground (
    arith,
    int_lt-ltb start k.file_offset,
    int_le-leb end k.file_offset,
    int_add-add k.file_offset k.size ends,
    int_lt-ltb end (k.file_offset + k.size),
  )

  read_round-last :
      k.file_offset ≤ start
      → start < k.file_offset + k.size
      → end ≤ k.file_offset + k.size
      → read_round offset end bytes start k
        ≡ (new_extent_request offset bytes start end (some k) ∷ [], end, false)
  unfolding read_round
  read_round-last p q r = ground (
    arith,
    int_lt-ltb start k.file_offset,
    int_add-add k.file_offset k.size ends,
    int_lt-ltb start (k.file_offset + k.size),
    int_le-leb end (k.file_offset + k.size),
  )

  read_round-through :
      k.file_offset ≤ start
      → start < k.file_offset + k.size
      → k.file_offset + k.size < end
      → read_round offset end bytes start k ≡ (
        new_extent_request offset bytes start (k.file_offset + k.size) (some k) ∷ [],
        k.file_offset + k.size,
        true,
      )
  unfolding read_round
  read_round-through p q r = ground (
    arith,
    int_lt-ltb start k.file_offset,
    int_add-add k.file_offset k.size ends,
    int_lt-ltb start (k.file_offset + k.size),
    int_le-leb end (k.file_offset + k.size),
  )

  read_round-before :
      k.file_offset ≤ start
      → k.file_offset + k.size ≤ start
      → read_round offset end bytes start k ≡ ([], start, true)
  unfolding read_round
  read_round-before p q = ground (
    arith,
    int_lt-ltb start k.file_offset,
    int_add-add k.file_offset k.size ends,
    int_lt-ltb start (k.file_offset + k.size),
  )

module _ (offset end : ℕ) (bytes : Bytes) (x : ℕ) (fits : IsInt end) (before : x < end) where
  abbrev served_by : ℕ → List ExtentKey → Option (Option ExtentKey)
  served_by start ks =
      key_of x (finish offset end bytes (rounds (read_round offset end bytes) start ks))

  served_more :
      (start start' : ℕ) (k : ExtentKey) (ks : List ExtentKey) (added : List ExtentRequest)
      → read_round offset end bytes start k ≡ (added, start', true)
      → served_by start (k ∷ ks)
        ≡ elim (key_of x added) [ none ↦ served_by start' ks | some j ↦ some j ]
  unfolding rounds
  served_more start start' k ks added e =
      rw (e, rounds)
        (ap (key_of x) (
            finish-append offset end bytes added (rounds (read_round offset end bytes) start' ks).0
              (rounds (read_round offset end bytes) start' ks).1)
          ∙ key_of-append x added
              (finish offset end bytes (rounds (read_round offset end bytes) start' ks)))

  served_stop :
      (start start' : ℕ) (k : ExtentKey) (ks : List ExtentKey) (added : List ExtentRequest)
      → read_round offset end bytes start k ≡ (added, start', false)
      → served_by start (k ∷ ks) ≡ key_of x (finish offset end bytes (added, start'))
  unfolding rounds
  served_stop start start' k ks added e = rw (e, rounds) refl

  module _ (start : ℕ) (k : ExtentKey) (ks : List ExtentKey) (a : After (k.file_offset + k.size) ks)
      (ends : IsInt (k.file_offset + k.size)) (from : start ≤ x) where
    served_past :
        start < k.file_offset
        → end ≤ k.file_offset
        → served_by start (k ∷ ks) ≡ some (serving x (k ∷ ks))
    served_past p q =
        served_stop start start k ks []
          (read_round-past offset end bytes start k fits (omega arith) ends q p)
        ∙ ap (key_of x) (finish-hole offset start end bytes fits (omega arith))
        ∙ ground (
          arith,
          key_of-request offset bytes start end none x [] fits,
          serving-After (k.file_offset + k.size) x ks a,
        )

    served_gap_last :
        start < k.file_offset
        → k.file_offset < end
        → end < k.file_offset + k.size
        → served_by start (k ∷ ks) ≡ some (serving x (k ∷ ks))
    served_gap_last p q r =
        served_stop start end k ks _
          (read_round-gap_last offset end bytes start k fits (omega arith) ends p q r)
        ∙ ap (key_of x) (finish-done offset end bytes _ fits)
        ∙ ground (
          arith,
          key_of-request offset bytes start k.file_offset none x
              (new_extent_request offset bytes k.file_offset end (some k) ∷ []),
          key_of-request offset bytes k.file_offset end (some k) x [] fits,
          serving-After (k.file_offset + k.size) x ks a,
        )

    served_last :
        k.file_offset ≤ start
        → start < k.file_offset + k.size
        → end ≤ k.file_offset + k.size
        → served_by start (k ∷ ks) ≡ some (serving x (k ∷ ks))
    served_last p q r =
        served_stop start end k ks _
          (read_round-last offset end bytes start k fits (omega arith) ends p q r)
        ∙ ap (key_of x) (finish-done offset end bytes _ fits)
        ∙ ground (arith, key_of-request offset bytes start end (some k) x [] fits)

    module _ (later : (start' : ℕ) → start' ≤ x → served_by start' ks ≡ some (serving x ks)) where
      served_gap :
          start < k.file_offset
          → k.file_offset < end
          → k.file_offset + k.size ≤ end
          → served_by start (k ∷ ks) ≡ some (serving x (k ∷ ks))
      served_gap p q r =
          served_more start (k.file_offset + k.size) k ks _
            (read_round-gap offset end bytes start k fits (omega arith) ends p q r)
          ∙ ground (
            arith,
            key_of-request offset bytes start k.file_offset none x (
                new_extent_request offset bytes k.file_offset (k.file_offset + k.size) (some k)
                ∷ []),
            key_of-request offset bytes k.file_offset (k.file_offset + k.size) (some k) x [] ends,
            serving-After (k.file_offset + k.size) x ks a,
            later (k.file_offset + k.size),
          )

      served_through :
          k.file_offset ≤ start
          → start < k.file_offset + k.size
          → k.file_offset + k.size < end
          → served_by start (k ∷ ks) ≡ some (serving x (k ∷ ks))
      served_through p q r =
          served_more start (k.file_offset + k.size) k ks _
            (read_round-through offset end bytes start k fits (omega arith) ends p q r)
          ∙ ground (
            arith,
            key_of-request offset bytes start (k.file_offset + k.size) (some k) x [] ends,
            later (k.file_offset + k.size),
          )

      served_before :
          k.file_offset ≤ start
          → k.file_offset + k.size ≤ start
          → served_by start (k ∷ ks) ≡ some (serving x (k ∷ ks))
      served_before p q =
          served_more start start k ks []
            (read_round-before offset end bytes start k fits (omega arith) ends p q)
          ∙ ground (arith, later start)

      served_round : served_by start (k ∷ ks) ≡ some (serving x (k ∷ ks))
      served_round = elim (Bool-cases (ltb start k.file_offset)) [
        | inl p ↦ elim (Bool-cases (ltb k.file_offset end)) [
          | inl q ↦ elim (Bool-cases (ltb end (k.file_offset + k.size))) [
            | inl r ↦ served_gap_last (ground arith) (ground arith) (ground arith)
            | inr r ↦ served_gap (ground arith) (ground arith) (ground arith)
          ]
          | inr q ↦ served_past (ground arith) (ground arith)
        ]
        | inr p ↦ elim (Bool-cases (ltb start (k.file_offset + k.size))) [
          | inl q ↦ elim (Bool-cases (ltb (k.file_offset + k.size) end)) [
            | inl r ↦ served_through (ground arith) (ground arith) (ground arith)
            | inr r ↦ served_last (ground arith) (ground arith) (ground arith)
          ]
          | inr q ↦ served_before (ground arith) (ground arith)
        ]
      ]

  -- Each offset from `start` on is served by the extent that covers it.
  pub served :
      (start : ℕ) (ks : List ExtentKey)
      → Chained ks
      → EndsInt ks
      → start ≤ x
      → served_by start ks ≡ some (serving x ks)
  unfolding rounds
  served start [] c i l =
      rw (finish-hole offset start end bytes fits (omega arith))
        (ground (arith, key_of-request offset bytes start end none x [] fits))
  served start (k ∷ ks) (a, c) (i, is) l = served_round start k ks a i l (λ s h. served s ks c is h)
