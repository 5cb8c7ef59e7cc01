-- ===== src/Tx/Signing.antt =====
-- How a transaction is signed: `serialize_unsigned` of src/tx.rs, src/signature.rs, src/program.rs,
-- `create_signature_program_context`, `ed25519_sign` and `ed25519_verify` of src/crypto.rs, and
-- `sign_transaction` of src/wallet.rs. What the code asks of a 64-byte key, a public key or a
-- signature that is not one is a panic.
use nkn_sdk_rust.Prelude.{
  ℕ, zero, suc, ◌/◌, ◌%◌, ◌≡◌, Bool, true, List, [], ◌∷◌, ◌++◌, Option, some, Outcome, ok, ◌>>=◌,
  Bytes, length, unwrap,
}
use nkn_sdk_rust.Prelude.Int.{to_u64}
use nkn_sdk_rust.Wallet.Crates.{WalletCrates}
use nkn_sdk_rust.Wallet.{Wallet, create_signature_program_code, to_code_hash}
use nkn_sdk_rust.Tx.{UnsignedTx, Program, Transaction, Prost}
use nkn_sdk_rust.Tx.Building.{encode}

-- A signature under the pair of a seed and its public key, which verifies.
pub record IsSigned (signed : Option Bytes) (verify : Bytes → Option Bool) : Type 0 where
  pub signature : Bytes
  pub made : signed ≡ some signature
  pub size : length signature ≡ 64
  pub verifies : verify signature ≡ some true

-- The crate `ed25519_dalek`, with the public keys of the wallet's crates: `keypair_sign` is
-- `Keypair::from_bytes` and `sign`, and `verify` is `PublicKey::from_bytes`, `Signature::from_bytes`
-- and `verify`; `none` where the bytes are not a key or a signature.
pub record Ed25519 (public_key_of : Bytes → Bytes) : Type 0 where
  pub keypair_sign : Bytes → Bytes → Option Bytes
  pub verify : Bytes → Bytes → Bytes → Option Bool
  pub verify-keypair_sign :
      (seed message : Bytes)
      → length seed ≡ 32
      → IsSigned
          (keypair_sign (seed ++ public_key_of seed) message)
          (λ signature. verify (public_key_of seed) message signature)

-- `to_le_bytes` of a number of `n` bytes.
abbrev pub le_bytes : ℕ → ℕ → Bytes
le_bytes zero v = []
le_bytes (suc n) v = v % 256 ∷ le_bytes n (v / 256)

-- `ProgramContext`
pub record ProgramContext : Type 0 where
  pub code : Bytes
  pub parameters : Bytes
  pub program_hash : Bytes
  pub owner_public_key_hash : Bytes

unfoldable pub new_program : ProgramContext → Bytes → Program
new_program ct signature = record {
  code = ct.code;
  parameter = (length signature % 256) ∷ signature;
}

unfoldable pub set_programs : List Program → Transaction → Transaction
set_programs programs tx = record tx { pb_tx = record tx.pb_tx { programs = programs } }

-- What follows the encoded transaction in the bytes that are signed.
unfoldable pub unsigned_tail : UnsignedTx → Bytes
unsigned_tail u =
    le_bytes 8 u.nonce
    ++ (le_bytes 8 (to_u64 u.fee) ++ ((length u.attributes % 256) ∷ u.attributes))

unfoldable pub serialize_unsigned : Prost → Transaction → Outcome Bytes
serialize_unsigned p tx = do
  unsigned ← unwrap tx.pb_tx.unsigned_tx
  ok (encode p tx ++ unsigned_tail unsigned)

module _ (p : Prost) (c : WalletCrates) where
  open c use {sha256, public_key_of}

  unfoldable pub create_signature_program_context : Bytes → ProgramContext
  create_signature_program_context owner =
      let code : Bytes = create_signature_program_code c owner in
      record {
        code = code;
        parameters = 0 ∷ [];
        program_hash = to_code_hash c code;
        owner_public_key_hash = to_code_hash c owner;
      }

  unfoldable pub get_hash_for_signing : Transaction → Outcome Bytes
  get_hash_for_signing tx = do bytes ← serialize_unsigned p tx; ok (sha256 bytes)

  module _ (e : Ed25519 public_key_of) where
    open e use {keypair_sign, verify}

    unfoldable pub ed25519_sign : Bytes → Bytes → Outcome Bytes
    ed25519_sign message private_key = unwrap (keypair_sign private_key message)

    unfoldable pub ed25519_verify : Bytes → Bytes → Bytes → Outcome Bool
    ed25519_verify message public_key signature = unwrap (verify public_key message signature)

    -- `sign` of src/signature.rs.
    unfoldable pub sign : Transaction → Bytes → Outcome Bytes
    unfolding get_hash_for_signing ed25519_sign
    sign tx private_key = do hash ← get_hash_for_signing tx; ed25519_sign hash private_key

    unfoldable pub verify_signature : Transaction → Bytes → Bytes → Outcome Bool
    unfolding get_hash_for_signing ed25519_verify
    verify_signature tx public_key signature = do
      hash ← get_hash_for_signing tx
      ed25519_verify hash public_key signature

    -- `Wallet::sign`
    unfoldable pub wallet_sign : Wallet → Bytes → Outcome Bytes
    unfolding ed25519_sign
    wallet_sign w message = ed25519_sign message (w.account.private_key ++ w.account.public_key)

    unfoldable pub sign_transaction : Wallet → Transaction → Outcome Transaction
    unfolding wallet_sign create_signature_program_context
    sign_transaction w tx = do
      bytes ← serialize_unsigned p tx
      signature ← wallet_sign w (sha256 bytes)
      let program : Program =
          new_program (create_signature_program_context w.account.public_key) signature
      ok (set_programs (program ∷ []) tx)
