-- ===== src/Serialization/Uints.antt =====
-- The four shapes of what `write_var_u64` writes, and reading one word back.
use nkn_sdk_rust.Prelude.{
  ℕ, ◌≤◌, ◌<◌, ◌≡◌, List, [], ◌∷◌, ◌++◌, ok, arith, length, length-append, take-append, drop-append,
  IsU16, IsU32, IsU64,
}
use nkn_sdk_rust.Serialization.Buffers.{BytesMut}
use nkn_sdk_rust.Serialization.{drain, var_u64_buf, read_u16, read_u32, read_u64}

-- Taking a known front off.
pub drain-append :
    (n : ℕ) (front rest : List ℕ) → length front ≡ n → drain n (front ++ rest) ≡ ok (front, rest)
drain-append n front rest h =
    ground (arith, length-append front rest, take-append n front rest, drop-append n front rest)

module _ (m : BytesMut) where
  open m use {put_u8, put_u16, put_u32, put_u64, put_u8_lem, truncate_short}
  open m use {length-put_u16, length-put_u32, length-put_u64}
  open m use {get_u16-put_u16, get_u32-put_u32, get_u64-put_u64}

  pub var_u64_buf_byte : (v : ℕ) → v < 0xFD → var_u64_buf m v ≡ v ∷ []
  unfolding var_u64_buf
  var_u64_buf_byte v h = ground (arith, put_u8_lem v, truncate_short 1 (v ∷ []))

  pub var_u64_buf_u16 : (v : ℕ) → 0xFD ≤ v → v ≤ 0xFFFF → var_u64_buf m v ≡ 0xFD ∷ put_u16 v
  unfolding var_u64_buf
  var_u64_buf_u16 v lo hi =
      ground (arith, put_u8_lem 0xFD, length-put_u16 v, truncate_short 3 (0xFD ∷ put_u16 v))

  pub var_u64_buf_u32 : (v : ℕ) → 0xFFFF < v → v ≤ 0xFFFFFFFF → var_u64_buf m v ≡ 0xFE ∷ put_u32 v
  unfolding var_u64_buf
  var_u64_buf_u32 v lo hi =
      ground (arith, put_u8_lem 0xFE, length-put_u32 v, truncate_short 5 (0xFE ∷ put_u32 v))

  pub var_u64_buf_u64 : (v : ℕ) → 0xFFFFFFFF < v → var_u64_buf m v ≡ 0xFF ∷ put_u64 v
  unfolding var_u64_buf
  var_u64_buf_u64 v lo = ground (arith, put_u8_lem 0xFF)

  pub read_u16-put_u16 :
      (v : ℕ) (rest : List ℕ) → IsU16 v → read_u16 m (put_u16 v ++ rest) ≡ ok (v, rest)
  unfolding read_u16
  read_u16-put_u16 v rest h =
      rw (drain-append 2 (put_u16 v) rest (length-put_u16 v)) (rw (get_u16-put_u16 v h))

  pub read_u32-put_u32 :
      (v : ℕ) (rest : List ℕ) → IsU32 v → read_u32 m (put_u32 v ++ rest) ≡ ok (v, rest)
  unfolding read_u32
  read_u32-put_u32 v rest h =
      rw (drain-append 4 (put_u32 v) rest (length-put_u32 v)) (rw (get_u32-put_u32 v h))

  pub read_u64-put_u64 :
      (v : ℕ) (rest : List ℕ) → IsU64 v → read_u64 m (put_u64 v ++ rest) ≡ ok (v, rest)
  unfolding read_u64
  read_u64-put_u64 v rest h =
      rw (drain-append 8 (put_u64 v) rest (length-put_u64 v)) (rw (get_u64-put_u64 v h))
