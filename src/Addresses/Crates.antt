-- ===== src/Addresses/Crates.antt =====
-- What src/utils.rs, src/client.rs and src/crypto.rs take from the crates `hex`, `rust-crypto`,
-- `sodiumoxide` and `ed25519_dalek`, with what those promise: hex digits are read back and hold no
-- dot, some bytes are a key pair that signs, and a sealed box opens with its nonce and key, and carries a 16-byte tag.
use Prim.Native.Nat.{◌+◌}
use mathlib.Core.Path.{◌≡◌}
use mathlib.Core.Bool.{false}
use mathlib.Core.Option.{Option, some}
use nkn_sdk_rust.Prelude.Tests.{◌==◌}
use nkn_sdk_rust.Prelude.Lists.{length, All}
use nkn_sdk_rust.Prelude.Words.{Bytes, IsU8}

pub record Crypto : Type 0 where
  pub hex_encode : Bytes → Bytes
  pub hex_decode : Bytes → Option Bytes
  pub sha256 : Bytes → Bytes
  pub keypair_sign : Bytes → Bytes → Option Bytes
  pub to_curve25519_pk : Bytes → Option Bytes
  pub precompute : Bytes → Bytes → Bytes
  pub seal : Bytes → Bytes → Bytes → Bytes
  pub open_sealed : Bytes → Bytes → Bytes → Option Bytes
  pub hex_decode-encode : (bs : Bytes) → All IsU8 bs → hex_decode (hex_encode bs) ≡ some bs
  pub hex_encode_no_dot : (bs : Bytes) → All (λ b. (b == 46) ≡ false) (hex_encode bs)
  pub open-seal : (m n k : Bytes) → open_sealed (seal m n k) n k ≡ some m
  pub length-seal : (m n k : Bytes) → length (seal m n k) ≡ length m + 16
