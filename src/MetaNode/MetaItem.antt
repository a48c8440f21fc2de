-- ===== src/MetaNode/MetaItem.antt =====
-- metanode/partition_item.go, MetaItem: an item of a snapshot and its binary form.
use cfs.Base.{ℕ, ◌≡◌, [], ◌++◌, none, length, ok, refl}
use cfs.Bytes.{Bytes, Get, put_uint}
use cfs.Bytes.Fill.{Fill, fill, field, frame, ◌>>◌, field_then, frame_then, frame_last}
use cfs.Proto.{IsU32, u32}
use native.Mathlib.Nat.{mod-eq_of_lt}

pub record MetaItem : Type 0 where
  pub op : ℕ
  pub k : Bytes
  pub v : Bytes

-- MarshalBinary
unfoldable pub marshal_binary : MetaItem → Bytes
marshal_binary s =
    put_uint 4 s.op
    ++ (put_uint 4 (u32 (length s.k)) ++ (s.k ++ (put_uint 4 (u32 (length s.v)) ++ s.v)))

-- All bytes of a part.
all_of : Get Bytes
all_of buf = ok (buf, [])

-- UnmarshalBinary. An item that fails is given up by the caller.
unfoldable pub unmarshal_binary : Fill MetaItem
unfolding all_of
unmarshal_binary = do
  field 4 (λ v s. record s { op = v })
  frame (fill all_of (λ v s. record s { k = v }))
  frame (fill all_of (λ v s. record s { v = v }))

-- The operation and the lengths of key and value fit a uint32.
pub record Fits (s : MetaItem) : Type 0 where
  pub op_fits : IsU32 s.op
  pub k_fits : IsU32 (length s.k)
  pub v_fits : IsU32 (length s.v)

-- An item whose operation and lengths fit a uint32 is read back from what MarshalBinary wrote,
-- whatever the item held before.
pub unmarshal_binary-marshal_binary_item :
    (s₀ s : MetaItem) → Fits s → unmarshal_binary s₀ (marshal_binary s) ≡ (none, s, [])
unfolding unmarshal_binary marshal_binary fill
unmarshal_binary-marshal_binary_item s₀ s h =
    rw (mod-eq_of_lt h.k_fits, mod-eq_of_lt h.v_fits, field_then 4 s.op _ _ s₀ _ h.op_fits)
      (rw
        (frame_then _ _ (record s₀ { op = s.op }) (record s₀ { op = s.op; k = s.k }) s.k _ []
          h.k_fits (unfold all_of in refl))
        (frame_last _ (record s₀ { op = s.op; k = s.k }) s s.v [] h.v_fits (unfold all_of in refl)))
