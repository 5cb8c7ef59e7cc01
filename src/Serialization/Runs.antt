-- ===== src/Serialization/Runs.antt =====
-- src/serialization.rs at concrete inputs, over big-endian buffers.
use nkn_sdk_rust.Prelude.{
  ◌≡◌, refl, [], ◌∷◌, ◌++◌, ok, panicked, true, arith, Bytes, is_utf8, replicate,
}
use nkn_sdk_rust.Serialization.Buffers.{big_endian}
use nkn_sdk_rust.Serialization.{var_u64_buf, read_u8, write_var_u64, read_var_u64}
use nkn_sdk_rust.Serialization.Decoder.{decode_var_u64, decode_var_u64-write_var_u64}

write_var_u64_300 : write_var_u64 big_endian (7 ∷ []) 300 ≡ 7 ∷ 0xFD ∷ 1 ∷ 44 ∷ []
unfolding write_var_u64 var_u64_buf
write_var_u64_300 = refl

read_var_u64_five : read_var_u64 big_endian (write_var_u64 big_endian [] 5) ≡ panicked
unfolding read_var_u64 read_u8 write_var_u64 var_u64_buf
read_var_u64_five = refl

is_utf8_two_bytes : is_utf8 (0xc3 ∷ 0xa9 ∷ b'a' ∷ []) ≡ true
unfolding is_utf8
is_utf8_two_bytes = refl

abbrev long : Bytes
long = replicate 300 b'a'

decode_var_u64-write_var_u64_example :
    decode_var_u64 big_endian (write_var_u64 big_endian [] 5 ++ 9 ∷ []) ≡ ok (5, 9 ∷ [])
decode_var_u64-write_var_u64_example =
    decode_var_u64-write_var_u64 big_endian 5 (9 ∷ []) (omega arith)
