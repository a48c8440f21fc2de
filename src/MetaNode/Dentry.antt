-- ===== src/MetaNode/Dentry.antt =====
-- metanode/dentry.go: directory entries, their order in the dentry tree and their binary form.
pub mod Order
pub mod Lookup
pub mod RoundTrip
use cfs.Base.{
  ℕ, zero, ◌==◌, Bool, ◌&&◌, ◌||◌, true, false, ltb, Error, List, [], ◌∷◌, ◌++◌, Option, none, some,
  length, ok, err,
}
use cfs.Bytes.{Bytes, put_uint, buffer_read, Get}
use cfs.Bytes.Fill.{Fill, fill, field, frame, ◌>>◌}
use cfs.Proto.{u32}

-- `name` is the string's bytes.
pub record Dentry : Type 0 where
  pub parent_id : ℕ
  pub name : Bytes
  pub inode : ℕ
  pub type : ℕ

-- Go's `<` on strings.
unfoldable pub name_less : Bytes → Bytes → Bool
name_less [] [] = false
name_less [] (c ∷ cs) = true
name_less (b ∷ bs) [] = false
name_less (b ∷ bs) (c ∷ cs) = let rest = name_less bs cs in ltb b c || ((b == c) && rest)

-- Less
unfoldable pub less : Dentry → Dentry → Bool
unfolding name_less
less d dentry =
    ltb d.parent_id dentry.parent_id
    || ((d.parent_id == dentry.parent_id) && name_less d.name dentry.name)

-- MarshalKey
unfoldable pub marshal_key : Dentry → Bytes
marshal_key d = put_uint 8 d.parent_id ++ d.name

-- UnmarshalKey: the name is all that follows the parent.
rest_of : Get Bytes
rest_of buf = ok (buf, [])

unfoldable pub unmarshal_key : Fill Dentry
unfolding rest_of
unmarshal_key = do
  field 8 (λ v d. record d { parent_id = v })
  fill rest_of (λ name d. record d { name = name })

-- MarshalValue
unfoldable pub marshal_value : Dentry → Bytes
marshal_value d = put_uint 8 d.inode ++ put_uint 4 d.type

-- UnmarshalValue
unfoldable pub unmarshal_value : Fill Dentry
unmarshal_value = do field 8 (λ v d. record d { inode = v }); field 4 (λ v d. record d { type = v })

-- Marshal: key and value, each behind its length as a uint32.
unfoldable pub marshal : Dentry → Bytes
marshal d =
    put_uint 4 (u32 (length (marshal_key d)))
    ++ (marshal_key d ++ (put_uint 4 (u32 (length (marshal_value d))) ++ marshal_value d))

-- Unmarshal
unfoldable pub unmarshal : Fill Dentry
unmarshal = do frame unmarshal_key; frame unmarshal_value
