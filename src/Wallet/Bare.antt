-- ===== src/Wallet/Bare.antt =====
-- The crates of src/wallet.rs with texts and ciphers that are the bytes themselves, and an account.
use nkn_sdk_rust.Prelude.{refl, [], ◌∷◌, Bytes, some, replicate, take}
use nkn_sdk_rust.Wallet.Crates.{WalletCrates}
use nkn_sdk_rust.Wallet.{WalletConfig, Account, to_code_hash, create_signature_program_code}

abbrev pub bare : WalletCrates
bare = record {
  hex_encode = λ bs. bs;
  hex_decode = λ bs. some bs;
  sha256 = take 32;
  ripemd160 = take 20;
  bs58_encode = λ bs. bs;
  aes_encrypt = λ input key iv. some input;
  aes_decrypt = λ input key iv. some input;
  scrypt_params = λ n r p. some tt;
  scrypt = λ password salt n r p. replicate 32 1;
  public_key_of = λ seed. seed;
  hex_decode-encode = λ bs h. refl;
  aes_lem = λ input key iv bytes blocks long size. record {
    cipher = input;
    made = refl;
    bytes = bytes;
    opens = refl;
  };
  length-scrypt = λ password salt n r p. refl;
}

abbrev pub config : WalletConfig
config = record {
  seed_rpc_server = [];
  rpc_timeout = 10;
  rcp_concurrency = 1;
  password = b'p' ∷ [];
  iv = replicate 16 3;
  master_key = replicate 32 4;
  scrypt = record { log_n = 15; r = 8; p = 1; salt = 5 ∷ [] };
}

abbrev pub seed : Bytes
seed = replicate 32 9

abbrev pub account : Account
account = record {
  private_key = seed;
  public_key = seed;
  program_hash = to_code_hash bare (create_signature_program_code bare seed);
}
