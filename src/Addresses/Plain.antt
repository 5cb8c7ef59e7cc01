-- ===== src/Addresses/Plain.antt =====
-- An instance of the interface of Addresses/Crates.antt for runs: hex digits as the crate writes
-- them, a box that only adds its tag, the first 32 bytes for a hash, and keys that are agreed on by
-- adding them up.
use nkn_sdk_rust.Prelude.{
  ℕ, ◌+◌, ◌-◌, ◌*◌, ◌/◌, ◌%◌, ◌<◌, ◌==◌, ltb, leb, if◌then◌else◌, ◌≡◌, refl, ap, false, ◌&&◌, [],
  ◌∷◌, ◌++◌, Option, none, some, Bytes, IsU8, All, take, drop, replicate, arith,
}
use nkn_sdk_rust.Addresses.Crates.{Crypto}

abbrev digit : ℕ → ℕ
digit d = if ltb d 10 then d + 48 else d + 87

abbrev value : ℕ → Option ℕ
value ch =
    if leb 48 ch && leb ch 57
    then some (ch - 48)
    else if leb 97 ch && leb ch 102
    then some (ch - 87)
    else none

abbrev pub hex : Bytes → Bytes
hex [] = []
hex (b ∷ bs) = digit (b / 16) ∷ digit (b % 16) ∷ hex bs

abbrev both : Option ℕ → Option ℕ → Option Bytes → Option Bytes
both (some a) (some b) (some bs) = some ((a * 16 + b) ∷ bs)
both (some a) (some b) none = none
both (some a) none rest = none
both none b rest = none

abbrev unhex : Bytes → Option Bytes
unhex [] = some []
unhex (a ∷ []) = none
unhex (a ∷ (b ∷ rest)) = both (value a) (value b) (unhex rest)

value-digit : (d : ℕ) → d < 16 → value (digit d) ≡ some d
value-digit d h = ground arith

pub unhex-hex : (bs : Bytes) → All IsU8 bs → unhex (hex bs) ≡ some bs
unhex-hex [] h = refl
unhex-hex (b ∷ bs) h =
    let high = value-digit (b / 16) (omega (arith, h.0)) in
    let low = value-digit (b % 16) (omega arith) in
    rw high (rw low (rw (unhex-hex bs h.1) (ap (λ x. some (x ∷ bs)) (omega arith))))

digit_no_dot : (d : ℕ) → (digit d == 46) ≡ false
digit_no_dot d = ground arith

pub hex_no_dot : (bs : Bytes) → All (λ b. (b == 46) ≡ false) (hex bs)
hex_no_dot [] = tt
hex_no_dot (b ∷ bs) = (digit_no_dot (b / 16), (digit_no_dot (b % 16), hex_no_dot bs))

-- Adding byte by byte.
abbrev sum_bytes : Bytes → Bytes → Bytes
sum_bytes [] ys = ys
sum_bytes (x ∷ xs) [] = x ∷ xs
sum_bytes (x ∷ xs) (y ∷ ys) = ((x + y) % 256) ∷ sum_bytes xs ys

abbrev pub tag : Bytes
tag = replicate 16 0

abbrev pub plain : Crypto
plain = record {
  hex_encode = hex;
  hex_decode = unhex;
  sha256 = take 32;
  keypair_sign = λ key message. some (take 64 message);
  to_curve25519_pk = λ key. some key;
  precompute = sum_bytes;
  seal = λ message nonce key. tag ++ message;
  open_sealed = λ sealed nonce key. some (drop 16 sealed);
  hex_decode-encode = unhex-hex;
  hex_encode_no_dot = hex_no_dot;
  open-seal = λ message nonce key. refl;
  length-seal = λ message nonce key. omega arith;
}
