-- ===== src/Tx/Runs.antt =====
-- Transactions of src/tx.rs that are made, read and signed.
use nkn_sdk_rust.Prelude.{◌≡◌, ◌≢◌, refl, true, some, [], ◌∷◌, ok, Bytes, replicate, length}
use nkn_sdk_rust.Prelude.Int.{pos}
use nkn_sdk_rust.Wallet.Bare.{bare, config, seed, account}
use nkn_sdk_rust.Wallet.{Wallet, from_seed, to_code_hash, create_signature_program_code}
use nkn_sdk_rust.Tx.{transfer_asset_type, UnsignedTx, Transaction}
use nkn_sdk_rust.Tx.Wire.{wire}
use nkn_sdk_rust.Tx.Building.{
  encode, pack_payload, new_msg_tx, new_nanopay, new_transfer_asset, new_sigchain, new_generate_id,
  new_subscribe, new_unsubscribe, new_nanopay_payload, new_transfer_asset_payload,
  new_sigchain_payload, new_generate_id_payload, new_subscribe_payload, new_unsubscribe_payload,
}
use nkn_sdk_rust.Tx.Signing.{
  Ed25519, set_programs, serialize_unsigned, sign_transaction, verify_signature, wallet_sign,
  ed25519_sign, create_signature_program_context, new_program,
}
use nkn_sdk_rust.Tx.Reading.{read_contents, contents, read_contents-new}
use nkn_sdk_rust.Tx.Verifying.{
  verify_signature-sign_transaction, serialize_unsigned-sign_transaction,
}

-- Signatures of one kind.
abbrev mark : Ed25519 bare.public_key_of
mark = record {
  keypair_sign = λ key message. some (replicate 64 (length message));
  verify = λ public_key message signature. some true;
  verify-keypair_sign = λ seed message size. record {
    signature = replicate 64 (length message);
    made = refl;
    size = refl;
    verifies = refl;
  };
}

abbrev wallet : Wallet
wallet = record {
  config = config;
  account = account;
  wallet_data = record {
    version = 2;
    iv = [];
    master_key = [];
    seed_encrypted = [];
    address = [];
    scrypt = config.scrypt;
  };
}

abbrev gift : Transaction
gift = new_transfer_asset wire (replicate 20 1) (replicate 20 2) (pos 5) 77 (pos 1) (b'a' ∷ [])

abbrev unsigned_gift : UnsignedTx
unsigned_gift = record {
  payload = some (
      pack_payload wire transfer_asset_type
        (new_transfer_asset_payload (replicate 20 1) (replicate 20 2) (pos 5)));
  nonce = 77;
  fee = pos 1;
  attributes = b'a' ∷ [];
}

abbrev alice : Bytes
alice = replicate 20 1

abbrev bob : Bytes
bob = replicate 20 2

abbrev topic : Bytes
topic = b't' ∷ []

abbrev note : Bytes
note = b'a' ∷ []

read_contents-new_example :
    (read_contents wire (encode wire (new_nanopay wire note alice bob 3 (pos 5) 77 100))
      ≡ ok (contents (new_nanopay_payload alice bob 3 (pos 5) 77 100) 0 (pos 0) note))
    × (read_contents wire (encode wire (new_transfer_asset wire alice bob (pos 5) 77 (pos 1) note))
        ≡ ok (contents (new_transfer_asset_payload alice bob (pos 5)) 77 (pos 1) note))
    × (read_contents wire (encode wire (new_sigchain wire note alice bob 77))
        ≡ ok (contents (new_sigchain_payload alice bob) 77 (pos 0) note))
    × (read_contents wire
          (encode wire (new_generate_id wire alice bob (pos 5) (pos 0) 77 (pos 1) note))
        ≡ ok (contents (new_generate_id_payload alice bob (pos 5) (pos 0)) 77 (pos 1) note))
    × (read_contents wire (encode wire (new_subscribe wire note alice bob topic 100 [] 77 (pos 1)))
        ≡ ok (contents (new_subscribe_payload alice bob topic 100 []) 77 (pos 1) note))
    × (read_contents wire (encode wire (new_unsubscribe wire note alice bob topic 77 (pos 1)))
        ≡ ok (contents (new_unsubscribe_payload alice bob topic) 77 (pos 1) note))
read_contents-new_example =
    read_contents-new wire alice bob topic 3 77 100 (pos 5) (pos 1) (pos 0) [] note

verify_signature-sign_transaction_example :
    (signature : Bytes) × (signed : Transaction) × (sign_transaction wire bare mark wallet gift
      ≡ ok signed)
    × (set_programs [] signed ≡ gift)
    × (signed.pb_tx.programs
        ≡ record {
          code = create_signature_program_code bare account.public_key;
          parameter = 64 ∷ signature;
        }
          ∷ [])
    × (to_code_hash bare (create_signature_program_code bare account.public_key)
        ≡ account.program_hash)
    × (verify_signature wire bare mark (set_programs [] signed) account.public_key signature
        ≡ ok true)
unfolding new_transfer_asset new_msg_tx from_seed
verify_signature-sign_transaction_example =
    verify_signature-sign_transaction wire bare mark seed wallet gift unsigned_gift refl refl refl
      refl

abbrev signed_gift : Transaction
signed_gift =
    set_programs
      (record {
        code = create_signature_program_code bare account.public_key;
        parameter = 64 ∷ replicate 64 32;
      }
        ∷ [])
      gift

serialize_unsigned-sign_transaction_example :
    serialize_unsigned wire signed_gift ≢ serialize_unsigned wire gift
unfolding new_transfer_asset new_msg_tx sign_transaction wallet_sign ed25519_sign
    create_signature_program_context new_program serialize_unsigned set_programs
    create_signature_program_code encode
serialize_unsigned-sign_transaction_example =
    serialize_unsigned-sign_transaction wire bare mark wallet gift signed_gift refl refl
