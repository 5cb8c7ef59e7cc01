-- ===== src/Serialization/Buffers.antt =====
-- `BytesMut` of the `bytes` crate, as src/serialization.rs uses it: what a fresh buffer holds after
-- a `put_`, what a `get_` reads from a buffer of its width, and `truncate`.
use native.Mathlib.Nat.{pow-suc}
use nkn_sdk_rust.Prelude.{
  ℕ, zero, suc, ◌+◌, ◌*◌, ◌/◌, ◌%◌, ◌^◌, ◌≤◌, ◌<◌, ◌≡◌, refl, ◌∙◌, [], ◌∷◌, ◌++◌, arith, length,
  take, take_all, Bytes, IsU8, IsU16, IsU32, IsU64,
}

-- The documented laws: `put_u8` appends the byte, a `get_` reads back what the `put_` of its width
-- wrote in that many bytes, and `truncate` leaves a buffer that is short enough.
pub record BytesMut : Type 0 where
  pub put_u8 : ℕ → Bytes
  pub put_u16 : ℕ → Bytes
  pub put_u32 : ℕ → Bytes
  pub put_u64 : ℕ → Bytes
  pub get_u16 : Bytes → ℕ
  pub get_u32 : Bytes → ℕ
  pub get_u64 : Bytes → ℕ
  pub truncate : ℕ → Bytes → Bytes
  pub put_u8_lem : (v : ℕ) → IsU8 v → put_u8 v ≡ v ∷ []
  pub length-put_u16 : (v : ℕ) → length (put_u16 v) ≡ 2
  pub length-put_u32 : (v : ℕ) → length (put_u32 v) ≡ 4
  pub length-put_u64 : (v : ℕ) → length (put_u64 v) ≡ 8
  pub get_u16-put_u16 : (v : ℕ) → IsU16 v → get_u16 (put_u16 v) ≡ v
  pub get_u32-put_u32 : (v : ℕ) → IsU32 v → get_u32 (put_u32 v) ≡ v
  pub get_u64-put_u64 : (v : ℕ) → IsU64 v → get_u64 (put_u64 v) ≡ v
  pub truncate_short : (n : ℕ) (buf : Bytes) → length buf ≤ n → truncate n buf ≡ buf

-- The big-endian words, `n` bytes wide.
abbrev pub be_bytes : ℕ → ℕ → Bytes
be_bytes zero v = []
be_bytes (suc n) v = be_bytes n (v / 256) ++ (v % 256 ∷ [])

abbrev pub be_value : ℕ → Bytes → ℕ
be_value acc [] = acc
be_value acc (b ∷ bs) = be_value (acc * 256 + b) bs

be_value-append :
    (acc : ℕ) (bs : Bytes) (b : ℕ) → be_value acc (bs ++ b ∷ []) ≡ be_value acc bs * 256 + b
be_value-append acc [] b = refl
be_value-append acc (x ∷ bs) b = be_value-append (acc * 256 + x) bs b

pub be_value-be_bytes : (n v : ℕ) → v < 256 ^ n → be_value 0 (be_bytes n v) ≡ v
be_value-be_bytes zero v h = omega arith
be_value-be_bytes (suc n) v h =
    let smaller : v / 256 < 256 ^ n = omega (arith, pow-suc 256 n) in
    be_value-append 0 (be_bytes n (v / 256)) (v % 256)
    ∙ omega (arith, be_value-be_bytes n (v / 256) smaller)

pub put_u8_big_endian : (v : ℕ) → IsU8 v → ◌≡◌ {A = Bytes} ((v % 256) ∷ []) (v ∷ [])
put_u8_big_endian v h = ground arith

abbrev pub cut : ℕ → Bytes → Bytes
cut n buf = take n buf

-- The crate's words are big-endian.
abbrev pub big_endian : BytesMut
big_endian = record {
  put_u8 = λ v. (v % 256) ∷ [];
  put_u16 = be_bytes 2;
  put_u32 = be_bytes 4;
  put_u64 = be_bytes 8;
  get_u16 = be_value 0;
  get_u32 = be_value 0;
  get_u64 = be_value 0;
  truncate = cut;
  put_u8_lem = put_u8_big_endian;
  length-put_u16 = λ v. refl;
  length-put_u32 = λ v. refl;
  length-put_u64 = λ v. refl;
  get_u16-put_u16 = be_value-be_bytes 2;
  get_u32-put_u32 = be_value-be_bytes 4;
  get_u64-put_u64 = be_value-be_bytes 8;
  truncate_short = take_all;
}
