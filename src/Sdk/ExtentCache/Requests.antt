-- ===== src/Sdk/ExtentCache/Requests.antt =====
-- What a request is made of, and the request that an offset belongs to.
use cfs.Base.{
  ℕ, ◌+◌, ◌-◌, ◌≤◌, ◌<◌, ◌≡◌, ltb, leb, ◌&&◌, List, [], ◌∷◌, ◌++◌, Option, none, some,
  if◌then◌else◌, arith, refl, Bool-cases, inl, inr, append_assoc,
}
use cfs.Bytes.{Bytes}
use cfs.Int64.{IsInt, int_sub-sub, int_lt, int_lt-ltb}
use cfs.Proto.ExtentKey.{ExtentKey}
use cfs.Sdk.ExtentCache.{ExtentRequest, new_extent_request, slice, finish}

module _ (offset : ℕ) (bytes : Bytes) (lo hi : ℕ) (ek : Option ExtentKey) where
  pub new_extent_request-file_offset : (new_extent_request offset bytes lo hi ek).file_offset ≡ lo
  unfolding new_extent_request
  new_extent_request-file_offset = refl

  pub new_extent_request-size :
      IsInt hi → lo ≤ hi → (new_extent_request offset bytes lo hi ek).size ≡ hi - lo
  unfolding new_extent_request
  new_extent_request-size h l = int_sub-sub hi lo h l

  pub new_extent_request-bytes :
      IsInt hi
      → offset ≤ lo
      → lo ≤ hi
      → (new_extent_request offset bytes lo hi ek).bytes ≡ slice bytes (lo - offset) (hi - offset)
  unfolding new_extent_request
  new_extent_request-bytes h k l =
      rw (int_sub-sub lo offset (omega arith) k, int_sub-sub hi offset h (omega arith)) refl

  pub new_extent_request-extent_key : (new_extent_request offset bytes lo hi ek).extent_key ≡ ek
  unfolding new_extent_request
  new_extent_request-extent_key = refl

-- The key of the request that an offset belongs to, if it belongs to one.
abbrev pub key_of : ℕ → List ExtentRequest → Option (Option ExtentKey)
key_of x [] = none
key_of x (r ∷ rs) =
    let later = key_of x rs in
    if leb r.file_offset x && ltb x (r.file_offset + r.size) then some r.extent_key else later

pub key_of-request :
    (offset : ℕ) (bytes : Bytes) (lo hi : ℕ) (ek : Option ExtentKey) (x : ℕ)
    (rs : List ExtentRequest)
    → IsInt hi
    → lo ≤ hi
    → key_of x (new_extent_request offset bytes lo hi ek ∷ rs)
      ≡ (if leb lo x && ltb x hi then some ek else key_of x rs)
key_of-request offset bytes lo hi ek x rs h l = ground (
  arith,
  new_extent_request-file_offset offset bytes lo hi ek,
  new_extent_request-size offset bytes lo hi ek h l,
  new_extent_request-extent_key offset bytes lo hi ek,
)

pub key_of-append :
    (x : ℕ) (rs qs : List ExtentRequest)
    → key_of x (rs ++ qs) ≡ elim (key_of x rs) [ none ↦ key_of x qs | some k ↦ some k ]
key_of-append x [] qs = refl
key_of-append x (r ∷ rs) qs = ground (arith, key_of-append x rs qs)

pub finish-append :
    (offset end : ℕ) (bytes : Bytes) (rs qs : List ExtentRequest) (start : ℕ)
    → finish offset end bytes (rs ++ qs, start) ≡ rs ++ finish offset end bytes (qs, start)
unfolding finish
finish-append offset end bytes rs qs start = elim (Bool-cases (int_lt start end)) [
  | inl e ↦ rw e (append_assoc rs qs (new_extent_request offset bytes start end none ∷ []))
  | inr e ↦ rw e refl
]

pub finish-done :
    (offset end : ℕ) (bytes : Bytes) (rs : List ExtentRequest)
    → IsInt end
    → finish offset end bytes (rs, end) ≡ rs
unfolding finish
finish-done offset end bytes rs h = ground (arith, int_lt-ltb end end h h)

pub finish-hole :
    (offset start end : ℕ) (bytes : Bytes)
    → IsInt end
    → start < end
    → finish offset end bytes ([], start) ≡ new_extent_request offset bytes start end none ∷ []
unfolding finish
finish-hole offset start end bytes h l = ground (arith, int_lt-ltb start end)
