-- ===== src/Bytes/Fill.antt =====
-- Decoders that fill the fields of a value one after another and stop at the first error, with the
-- fields before it written: the shape of every Unmarshal method.
use cfs.Base.{
  ℕ, ◌≡◌, Option, none, some, Error, Result, ok, err, ◌++◌, ◌^◌, ◌<◌, length, [], append-nil,
}
use cfs.Bytes.{Bytes, Get, put_uint, read_uint, buffer_read}
use cfs.Bytes.RoundTrip.{read_uint-put_uint, buffer_read-append}

-- The error, the value as far as it was filled, and the rest of the buffer.
abbrev pub Fill : Type 0 → Type 0
Fill S = S → Bytes → Option Error × S × Bytes

module _ {S : Type 0} where
  abbrev pub continue : Option Error × S × Bytes → Fill S → Option Error × S × Bytes
  continue (none, s, buf) k = k s buf
  continue (some e, s, buf) k = (some e, s, buf)

  infixl 5 ◌>>◌
  abbrev pub ◌>>◌ : Fill S → Fill S → Fill S
  ◌>>◌ m k s buf = continue (m s buf) k

  -- What a read returned, stored by `set`.
  abbrev pub stored :
      {A : Type 0} → (A → S → S) → S → Bytes → Result (A × Bytes) → Option Error × S × Bytes
  stored set s buf (ok (a, rest)) = (none, set a s, rest)
  stored set s buf (err e) = (some e, s, buf)

  unfoldable pub fill : {A : Type 0} → Get A → (A → S → S) → Fill S
  fill get set s buf = stored set s buf (get buf)

  -- binary.Read into a field of `n` bytes.
  unfoldable pub field : ℕ → (ℕ → S → S) → Fill S
  unfolding fill
  field n set = fill (read_uint n) set

  -- A part behind its length: a uint32, then that many bytes by Buffer.Read, which `part` decodes in
  -- a buffer of their own.
  abbrev on_bytes : Fill S → S → Bytes → Result (Bytes × Bytes) → Option Error × S × Bytes
  on_bytes part s buf (err e) = (some e, s, buf)
  on_bytes part s buf (ok (bytes, rest)) = let (e, s', left) = part s bytes in (e, s', rest)

  abbrev on_length : Fill S → S → Bytes → Result (ℕ × Bytes) → Option Error × S × Bytes
  on_length part s buf (err e) = (some e, s, buf)
  on_length part s buf (ok (n, rest)) = on_bytes part s rest (buffer_read n rest)

  unfoldable pub frame : Fill S → Fill S
  frame part s buf = on_length part s buf (read_uint 4 buf)

  -- One step of a chain, on bytes that were written for it.
  pub fill_then :
      {A : Type 0} (get : Get A) (set : A → S → S) (k : Fill S) (s : S) (buf : Bytes) {a : A}
      {rest : Bytes}
      → get buf ≡ ok (a, rest)
      → (fill get set >> k) s buf ≡ k (set a s) rest
  unfolding fill
  fill_then get set k s buf h = rw h

  pub field_then :
      (n v : ℕ) (set : ℕ → S → S) (k : Fill S) (s : S) (rest : Bytes)
      → v < 256 ^ n
      → (field n set >> k) s (put_uint n v ++ rest) ≡ k (set v s) rest
  unfolding field
  field_then n v set k s rest h = fill_then (read_uint n) set k s _ (read_uint-put_uint n v rest h)

  pub frame-append :
      (part : Fill S) (s s' : S) (xs rest left : Bytes)
      → length xs < 2 ^ 32
      → part s xs ≡ (none, s', left)
      → frame part s (put_uint 4 (length xs) ++ (xs ++ rest)) ≡ (none, s', rest)
  unfolding frame
  frame-append part s s' xs rest left h p =
      rw (read_uint-put_uint 4 (length xs) (xs ++ rest) h, buffer_read-append xs rest, p)

  pub frame_then :
      (part k : Fill S) (s s' : S) (xs rest left : Bytes)
      → length xs < 2 ^ 32
      → part s xs ≡ (none, s', left)
      → (frame part >> k) s (put_uint 4 (length xs) ++ (xs ++ rest)) ≡ k s' rest
  frame_then part k s s' xs rest left h p = rw (frame-append part s s' xs rest left h p)

  -- The last field of a buffer.
  pub field_last :
      (n v : ℕ) (set : ℕ → S → S) (s : S)
      → v < 256 ^ n
      → field n set s (put_uint n v) ≡ (none, set v s, [])
  unfolding field fill
  field_last n v set s h = rw (rw append-nil at (read_uint-put_uint n v [] h))

  -- The last frame of a buffer.
  pub frame_last :
      (part : Fill S) (s s' : S) (xs left : Bytes)
      → length xs < 2 ^ 32
      → part s xs ≡ (none, s', left)
      → frame part s (put_uint 4 (length xs) ++ xs) ≡ (none, s', [])
  frame_last part s s' xs left h p = rw append-nil at (frame-append part s s' xs [] left h p)
