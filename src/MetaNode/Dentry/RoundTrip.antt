-- ===== src/MetaNode/Dentry/RoundTrip.antt =====
-- The binary form of a dentry, written and read: Marshal and Unmarshal of metanode/dentry.go.
use cfs.Base.{◌+◌, ◌≡◌, none, arith, length, length-append, [], ◌<◌, ◌^◌}
use cfs.Bytes.{put_uint}
use cfs.Bytes.RoundTrip.{length-put_uint}
use cfs.Bytes.Fill.{fill, field_then, field_last, frame_then, frame_last}
use native.Mathlib.Nat.{mod-eq_of_lt}
use cfs.Proto.{IsU32, IsU64}
use cfs.MetaNode.Dentry.{
  Dentry, marshal_key, marshal_value, unmarshal_key, unmarshal_value, marshal, unmarshal,
}

-- Every field fits its machine word; the length of the key is written as a uint32.
pub record Fits (d : Dentry) : Type 0 where
  pub parent_id_fits : IsU64 d.parent_id
  pub inode_fits : IsU64 d.inode
  pub type_fits : IsU32 d.type
  pub name_fits : IsU32 (8 + length d.name)

module _ (d₀ d : Dentry) (h : Fits d) where
  pub unmarshal_key-marshal_key :
      unmarshal_key d₀ (marshal_key d)
      ≡ (none, record d₀ { parent_id = d.parent_id; name = d.name }, [])
  unfolding unmarshal_key marshal_key fill
  unmarshal_key-marshal_key = rw (field_then 8 d.parent_id _ _ d₀ d.name h.parent_id_fits)

  pub unmarshal_value-marshal_value :
      unmarshal_value d₀ (marshal_value d)
      ≡ (none, record d₀ { inode = d.inode; type = d.type }, [])
  unfolding unmarshal_value marshal_value
  unmarshal_value-marshal_value =
      rw (field_then 8 d.inode _ _ d₀ (put_uint 4 d.type) h.inode_fits)
        (field_last 4 d.type _ _ h.type_fits)

pub length-marshal_key : (d : Dentry) → length (marshal_key d) ≡ 8 + length d.name
unfolding marshal_key
length-marshal_key d = simp (length-append, length-put_uint)

pub length-marshal_value : (d : Dentry) → length (marshal_value d) ≡ 12
unfolding marshal_value
length-marshal_value d = simp (length-append, length-put_uint)

-- A dentry whose fields fit their words is read back whole from what Marshal wrote, whatever the
-- dentry held before.
pub unmarshal-marshal_dentry : (d₀ d : Dentry) → Fits d → unmarshal d₀ (marshal d) ≡ (none, d, [])
unfolding unmarshal marshal
unmarshal-marshal_dentry d₀ d h =
    let fits : length (marshal_key d) < 2 ^ 32 = omega (arith, length-marshal_key d, h.name_fits) in
    let short : length (marshal_value d) < 2 ^ 32 = omega (arith, length-marshal_value d) in
    rw (mod-eq_of_lt fits, mod-eq_of_lt short)
      (rw
        (frame_then unmarshal_key _ d₀ _ (marshal_key d) _ _ fits
          (unmarshal_key-marshal_key d₀ d h))
        (frame_last unmarshal_value _ _ (marshal_value d) _ short (
          unmarshal_value-marshal_value (record d₀ { parent_id = d.parent_id; name = d.name }) d
            h)))
