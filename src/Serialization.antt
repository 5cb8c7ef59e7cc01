-- ===== src/Serialization.antt =====
-- src/serialization.rs: fixed-width words, variable-length integers, byte strings, texts and flags
-- on a byte vector. A `read_` function takes what it reads off the front of the vector and returns
-- the rest; it panics where `drain` is out of range.
pub mod Buffers
pub mod Uints
pub mod Decoder
pub mod RoundTrip
mod Runs
use nkn_sdk_rust.Prelude.{
  ℕ, ◌%◌, ◌^◌, Bool, true, false, not, List, [], ◌∷◌, ◌++◌, Outcome, ok, panicked, ◌>>=◌, ltb, leb,
  ◌==◌, if◌then◌else◌, length, take, drop, Bytes, is_utf8,
}
use Buffers.{BytesMut}

-- `bytes.drain(..n)`
abbrev pub drain : ℕ → Bytes → Outcome (Bytes × Bytes)
drain n bytes = if leb n (length bytes) then ok (take n bytes, drop n bytes) else panicked

unfoldable pub write_u8 : Bytes → ℕ → Bytes
write_u8 bytes v = bytes ++ (v ∷ [])

-- `bytes.drain(0..1).next().unwrap()`
pub read_u8 : Bytes → Outcome (ℕ × Bytes)
read_u8 [] = panicked
read_u8 (b ∷ bytes) = ok (b, bytes)

unfoldable pub write_bool : Bytes → Bool → Bytes
unfolding write_u8
write_bool bytes true = write_u8 bytes 1
write_bool bytes false = write_u8 bytes 0

pub read_bool : Bytes → Outcome (Bool × Bytes)
read_bool bytes = do (b, rest) ← read_u8 bytes; ok (not (b == 0), rest)

-- The words go through a buffer of the `bytes` crate.
module _ (m : BytesMut) where
  open m use {put_u8, put_u16, put_u32, put_u64, get_u16, get_u32, get_u64, truncate}

  pub write_u16 : Bytes → ℕ → Bytes
  write_u16 bytes v = bytes ++ put_u16 v

  pub read_u16 : Bytes → Outcome (ℕ × Bytes)
  read_u16 bytes = do (buf, rest) ← drain 2 bytes; ok (get_u16 buf, rest)

  unfoldable pub write_u32 : Bytes → ℕ → Bytes
  write_u32 bytes v = bytes ++ put_u32 v

  pub read_u32 : Bytes → Outcome (ℕ × Bytes)
  read_u32 bytes = do (buf, rest) ← drain 4 bytes; ok (get_u32 buf, rest)

  pub write_u64 : Bytes → ℕ → Bytes
  write_u64 bytes v = bytes ++ put_u64 v

  pub read_u64 : Bytes → Outcome (ℕ × Bytes)
  read_u64 bytes = do (buf, rest) ← drain 8 bytes; ok (get_u64 buf, rest)

  -- The buffer of `write_var_u64`, with the casts `as u8`, `as u16` and `as u32`.
  pub var_u64_buf : ℕ → Bytes
  var_u64_buf v =
      if ltb v 0xFD
      then truncate 1 (put_u8 (v % 2 ^ 8))
      else if leb v 0xFFFF
      then truncate 3 (put_u8 0xFD ++ put_u16 (v % 2 ^ 16))
      else if leb v 0xFFFFFFFF
      then truncate 5 (put_u8 0xFE ++ put_u32 (v % 2 ^ 32))
      else put_u8 0xFF ++ put_u64 v

  pub write_var_u64 : Bytes → ℕ → Bytes
  write_var_u64 bytes v = bytes ++ var_u64_buf v

  -- The last branch reads one more byte in place of `size`.
  pub read_var_u64 : Bytes → Outcome (ℕ × Bytes)
  read_var_u64 bytes = do
    (size, rest) ← read_u8 bytes
    if size == 0xFD
        then read_u16 rest
        else if size == 0xFE
        then read_u32 rest
        else if size == 0xFF
        then read_u64 rest
        else read_u8 rest

  pub write_var_bytes : Bytes → Bytes → Bytes
  write_var_bytes bytes v = write_var_u64 bytes (length v) ++ v

  pub read_var_bytes : Bytes → Outcome (Bytes × Bytes)
  read_var_bytes bytes = do (len, rest) ← read_var_u64 bytes; drain len rest

  pub write_var_str : Bytes → Bytes → Bytes
  write_var_str bytes v = write_var_u64 bytes (length v) ++ v

  pub read_var_str : Bytes → Outcome (Bytes × Bytes)
  read_var_str bytes = do
    (v, rest) ← read_var_bytes bytes
    if is_utf8 v then ok (v, rest) else panicked
