-- ===== src/Serialization/RoundTrip.antt =====
-- What the `read_` functions of src/serialization.rs give back.
use nkn_sdk_rust.Prelude.{
  ℕ, ◌≤◌, ◌<◌, ◌≡◌, refl, [], ◌∷◌, ◌++◌, ok, panicked, Bool, true, false, arith, length, Bytes,
  IsU64, IsU32, IsU16, is_utf8, append_assoc, Bool-cases, inl, inr, leb, if◌then◌else◌,
}
use nkn_sdk_rust.Serialization.Buffers.{BytesMut}
use nkn_sdk_rust.Serialization.{
  drain, var_u64_buf, read_u8, write_u8, read_u16, write_u16, read_u32, write_u32, read_u64,
  write_u64, write_bool, read_bool, write_var_u64, read_var_u64, write_var_bytes, read_var_bytes,
  write_var_str, read_var_str,
}
use nkn_sdk_rust.Serialization.Uints.{
  drain-append, var_u64_buf_byte, var_u64_buf_u16, var_u64_buf_u32, var_u64_buf_u64,
  read_u16-put_u16, read_u32-put_u32, read_u64-put_u64,
}

-- `read_bool` gives back the flag that `write_bool` appended, and leaves what follows.
read_bool-write_bool :
    (b : Bool) (rest : Bytes) → read_bool (write_bool [] b ++ rest) ≡ ok (b, rest)
unfolding read_bool write_bool read_u8
read_bool-write_bool true rest = refl
read_bool-write_bool false rest = refl

module _ (m : BytesMut) where
  -- The fixed-width readers give back the word that was written, and leave what follows.
  read_words-write_words :
      (a b c d : ℕ) (rest : Bytes)
      → IsU16 b
      → IsU32 c
      → IsU64 d
      → (read_u8 (write_u8 [] a ++ rest) ≡ ok (a, rest))
        × (read_u16 m (write_u16 m [] b ++ rest) ≡ ok (b, rest))
        × (read_u32 m (write_u32 m [] c ++ rest) ≡ ok (c, rest))
        × (read_u64 m (write_u64 m [] d ++ rest) ≡ ok (d, rest))
  unfolding read_u8 write_u8 write_u16 write_u32 write_u64
  read_words-write_words a b c d rest hb hc hd = (
    refl,
    read_u16-put_u16 m b rest hb,
    read_u32-put_u32 m c rest hc,
    read_u64-put_u64 m d rest hd,
  )

  read_var_u64_buf :
      (v : ℕ) (rest : Bytes)
      → 0xFD ≤ v
      → IsU64 v
      → read_var_u64 m (var_u64_buf m v ++ rest) ≡ ok (v, rest)
  unfolding read_var_u64 read_u8
  read_var_u64_buf v rest lo h = elim (Bool-cases (leb v 0xFFFF)) [
    | inl b ↦ rw (var_u64_buf_u16 m v lo (ground arith)) (read_u16-put_u16 m v rest (ground arith))
    | inr b ↦ elim (Bool-cases (leb v 0xFFFFFFFF)) [
      | inl c ↦
          rw (var_u64_buf_u32 m v (ground arith) (ground arith))
            (read_u32-put_u32 m v rest (ground arith))
      | inr c ↦ rw (var_u64_buf_u64 m v (ground arith)) (read_u64-put_u64 m v rest h)
    ]
  ]

  -- `read_var_u64` gives back every `u64` of at least 0xFD that `write_var_u64` wrote, and leaves
  -- what follows.
  read_var_u64-write_var_u64 :
      (v : ℕ) (rest : Bytes)
      → 0xFD ≤ v
      → IsU64 v
      → read_var_u64 m (write_var_u64 m [] v ++ rest) ≡ ok (v, rest)
  unfolding write_var_u64
  read_var_u64-write_var_u64 v rest lo h = read_var_u64_buf v rest lo h

  -- A number below 0xFD is not read back: its byte is skipped, and the next byte is returned in its
  -- place, or the reader panics if none follows.
  read_var_u64_skips :
      (v : ℕ) (rest : Bytes)
      → v < 0xFD
      → read_var_u64 m (write_var_u64 m [] v ++ rest) ≡ read_u8 rest
  unfolding write_var_u64 read_var_u64 read_u8
  read_var_u64_skips v rest h = rw (var_u64_buf_byte m v h) (ground arith)

  -- `read_var_str` gives back a valid UTF-8 text of at least 0xFD bytes that `write_var_str` wrote,
  -- and panics on such a text that is not valid UTF-8.
  read_var_str-write_var_str :
      (s rest : Bytes)
      → 0xFD ≤ length s
      → IsU64 (length s)
      → read_var_str m (write_var_str m [] s ++ rest)
        ≡ (if is_utf8 s then ok (s, rest) else panicked)
  unfolding read_var_str read_var_bytes write_var_str write_var_u64
  read_var_str-write_var_str s rest lo h =
      rw (append_assoc (var_u64_buf m (length s)) s rest) (
        rw (read_var_u64_buf (length s) (s ++ rest) lo h)
          (rw (drain-append (length s) s rest refl)))

  -- A byte string shorter than 0xFD is not read back: the reader takes the string's first byte for
  -- its length. Of a non-empty string it returns what that byte counts, from the bytes behind it.
  read_var_bytes_misreads :
      (b : ℕ) (v rest : Bytes)
      → length (b ∷ v) < 0xFD
      → read_var_bytes m (write_var_bytes m [] (b ∷ v) ++ rest) ≡ drain b (v ++ rest)
  unfolding read_var_bytes write_var_bytes write_var_u64 read_var_u64 read_u8
  read_var_bytes_misreads b v rest h = rw (var_u64_buf_byte m (length (b ∷ v)) h) (ground arith)
