-- ===== src/Wallet.antt =====
-- src/wallet.rs with the account of src/account.rs and the program hash of src/crypto.rs: a wallet
-- keeps the seed of an account, encrypted with a master key that is encrypted with a password.
pub mod Crates
pub mod Bare
pub mod Opening
mod Runs
use nkn_sdk_rust.Prelude.{
  ℕ, ◌==◌, if◌then◌else◌, not, List, [], ◌∷◌, ◌++◌, Option, none, some, Outcome, ok, err, panicked,
  ◌>>=◌, ◌>>◌, Bytes, length, take, unwrap, refuse_if,
}
use nkn_sdk_rust.Prelude.Maps.{bytes_beq}
use Crates.{WalletCrates}

pub record ScryptConfig : Type 0 where
  pub log_n : ℕ
  pub r : ℕ
  pub p : ℕ
  pub salt : Bytes

pub record WalletConfig : Type 0 where
  pub seed_rpc_server : List Bytes
  pub rpc_timeout : ℕ
  pub rcp_concurrency : ℕ
  pub password : Bytes
  pub iv : Bytes
  pub master_key : Bytes
  pub scrypt : ScryptConfig

pub record WalletData : Type 0 where
  pub version : ℕ
  pub iv : Bytes
  pub master_key : Bytes
  pub seed_encrypted : Bytes
  pub address : Bytes
  pub scrypt : ScryptConfig

pub record Account : Type 0 where
  pub private_key : Bytes
  pub public_key : Bytes
  pub program_hash : Bytes

pub record Wallet : Type 0 where
  pub config : WalletConfig
  pub account : Account
  pub wallet_data : WalletData

module _ (c : WalletCrates) where
  open c use {hex_encode, hex_decode, sha256, ripemd160, bs58_encode, aes_encrypt, aes_decrypt}
  open c use {scrypt_params, scrypt, public_key_of}

  unfoldable pub create_signature_program_code : Bytes → Bytes
  create_signature_program_code public_key = 32 ∷ (public_key ++ (0xAC ∷ []))

  unfoldable pub to_code_hash : Bytes → Bytes
  to_code_hash code = ripemd160 (sha256 code)

  unfoldable pub code_hash_to_address : Bytes → Bytes
  code_hash_to_address hash =
      let body : Bytes = 0x02 ∷ 0xb8 ∷ 0x25 ∷ hash in
      bs58_encode (body ++ take 4 (sha256 (sha256 body)))

  -- `Account::from_seed`. The size of a seed is in its type.
  unfoldable pub from_seed : Bytes → Outcome Account
  from_seed seed = do
    refuse_if (not (length seed == 32)) "Invalid seed length"
    let public_key : Bytes = public_key_of seed
    let account : Account = record {
      private_key = seed;
      public_key = public_key;
      program_hash = to_code_hash (create_signature_program_code public_key);
    }
    ok account

  abbrev pub address : Account → Bytes
  address account = code_hash_to_address account.program_hash

  -- `scrypt_kdf` of src/crypto.rs.
  unfoldable pub scrypt_kdf : Bytes → ScryptConfig → Outcome Bytes
  scrypt_kdf password config = do
    unwrap (scrypt_params config.log_n config.r config.p)
    salt ← unwrap (hex_decode config.salt)
    ok (scrypt password salt config.log_n config.r config.p)

  -- `WalletData::new`
  unfoldable pub new_wallet_data : Account → WalletConfig → Outcome WalletData
  new_wallet_data account config = do
    password_key ← scrypt_kdf config.password config.scrypt
    master_key_cipher ← unwrap (aes_encrypt config.master_key password_key config.iv)
    seed_cipher ← unwrap (aes_encrypt account.private_key config.master_key config.iv)
    let made : WalletData = record {
      version = 2;
      iv = hex_encode config.iv;
      master_key = hex_encode master_key_cipher;
      seed_encrypted = hex_encode seed_cipher;
      address = address account;
      scrypt = config.scrypt;
    }
    ok made

  unfoldable pub decrypt_master_key : WalletData → Bytes → Outcome Bytes
  decrypt_master_key d password = do
    password_key ← scrypt_kdf password d.scrypt
    iv ← unwrap (hex_decode d.iv)
    master_key_cipher ← unwrap (hex_decode d.master_key)
    unwrap (aes_decrypt master_key_cipher password_key iv)

  -- `try_into().unwrap()` of the seed to its array.
  abbrev pub seed_array : Bytes → Outcome Bytes
  seed_array seed = if length seed == 32 then ok seed else panicked

  unfoldable pub decrypt_account : WalletData → Bytes → Outcome Account
  unfolding decrypt_master_key
  decrypt_account d password = do
    master_key ← decrypt_master_key d password
    iv ← unwrap (hex_decode d.iv)
    seed_cipher ← unwrap (hex_decode d.seed_encrypted)
    decrypted ← unwrap (aes_decrypt seed_cipher master_key iv)
    seed ← seed_array decrypted
    from_seed seed

  -- `Wallet::new`
  unfoldable pub new_wallet : Account → WalletConfig → Outcome Wallet
  new_wallet account config = do
    made ← new_wallet_data account config
    ok (record { config = config; account = account; wallet_data = made })

  -- `Wallet::from_json`, from the data on that were read, or `none` where the JSON is not valid.
  unfoldable pub from_json : Option WalletData → WalletConfig → Outcome Wallet
  from_json none config = err "Invalid JSON"
  from_json (some d) config = do
    master_key ← decrypt_master_key d config.password
    account ← decrypt_account d config.password
    refuse_if (not (bytes_beq (address account) d.address)) "Wrong password"
    ok (record {
      config = record config { master_key = master_key };
      account = account;
      wallet_data = d;
    })
