-- ===== src/Wallet/Crates.antt =====
-- What src/wallet.rs and src/account.rs take from the crates for hashes, AES, scrypt and curves, with
-- what those promise: AES with a 32-byte key and a 16-byte vector takes whole blocks of 16 bytes and
-- gives them back, and scrypt fills its 32 bytes. `scrypt_params` is whether `ScryptParams::new` takes
-- its arguments; else it panics.
use Prim.Native.Nat.{ℕ, ◌%◌}
use mathlib.Core.Path.{◌≡◌}
use mathlib.Core.Option.{Option, some}
use nkn_sdk_rust.Prelude.Lists.{length, All}
use nkn_sdk_rust.Prelude.Words.{Bytes, IsU8}

-- The cipher of whole blocks, which opens to them.
pub record IsCipher (decrypt : Bytes → Option Bytes) (sealed : Option Bytes) (input : Bytes)
    : Type 0 where
  pub cipher : Bytes
  pub made : sealed ≡ some cipher
  pub bytes : All IsU8 cipher
  pub opens : decrypt cipher ≡ some input

pub record WalletCrates : Type 0 where
  pub hex_encode : Bytes → Bytes
  pub hex_decode : Bytes → Option Bytes
  pub sha256 : Bytes → Bytes
  pub ripemd160 : Bytes → Bytes
  pub bs58_encode : Bytes → Bytes
  pub aes_encrypt : Bytes → Bytes → Bytes → Option Bytes
  pub aes_decrypt : Bytes → Bytes → Bytes → Option Bytes
  pub scrypt_params : ℕ → ℕ → ℕ → Option (Unit {0})
  pub scrypt : Bytes → Bytes → ℕ → ℕ → ℕ → Bytes
  pub public_key_of : Bytes → Bytes
  pub hex_decode-encode : (bs : Bytes) → All IsU8 bs → hex_decode (hex_encode bs) ≡ some bs
  pub aes_lem :
      (input key iv : Bytes)
      → All IsU8 input
      → length input % 16 ≡ 0
      → length key ≡ 32
      → length iv ≡ 16
      → IsCipher (λ cipher. aes_decrypt cipher key iv) (aes_encrypt input key iv) input
  pub length-scrypt : (password salt : Bytes) (n r p : ℕ) → length (scrypt password salt n r p) ≡ 32
