-- ===== src/Wallet/Opening.antt =====
-- A wallet of src/wallet.rs that is written and read again.
use nkn_sdk_rust.Prelude.{
  ◌%◌, ◌≡◌, refl, true, some, ok, Bytes, length, All, IsU8, arith, bytes_beq_iff,
}
use nkn_sdk_rust.Wallet.Crates.{WalletCrates}
use nkn_sdk_rust.Prelude.Maps.{bytes_beq}
use nkn_sdk_rust.Wallet.{
  WalletConfig, WalletData, Account, Wallet, from_seed, scrypt_kdf, new_wallet_data,
  decrypt_master_key, decrypt_account, new_wallet, from_json, address,
}

whole : (bs : Bytes) → length bs ≡ 32 → length bs % 16 ≡ 0
whole bs h = omega (arith, h)

bytes_beq_refl : (bs : Bytes) → bytes_beq bs bs ≡ true
bytes_beq_refl bs = (bytes_beq_iff bs bs).1 refl

module _ (c : WalletCrates) where
  open c use {
    hex_encode, hex_decode, hex_decode-encode, aes_lem, scrypt, length-scrypt, scrypt_params,
  }

  -- A configuration with keys of their sizes, parameters that scrypt takes, and a salt in hex.
  pub record IsUsable (config : WalletConfig) : Type 0 where
    pub salt : Bytes
    pub has_params : scrypt_params config.scrypt.log_n config.scrypt.r config.scrypt.p ≡ some tt
    pub has_salt : hex_decode config.scrypt.salt ≡ some salt
    pub iv_bytes : All IsU8 config.iv
    pub iv_size : length config.iv ≡ 16
    pub key_bytes : All IsU8 config.master_key
    pub key_size : length config.master_key ≡ 32

  from_seed_keeps :
      (seed : Bytes) (account : Account)
      → from_seed c seed ≡ ok account
      → account.private_key ≡ seed
  unfolding from_seed
  from_seed_keeps seed account made = ground arith

  from_json_opens :
      (d : WalletData) (other : WalletConfig) (account : Account) (key : Bytes)
      → decrypt_master_key c d other.password ≡ ok key
      → decrypt_account c d other.password ≡ ok account
      → address c account ≡ d.address
      → from_json c (some d) other
        ≡ ok (record {
          config = record other { master_key = key };
          account = account;
          wallet_data = d;
        })
  unfolding from_json
  from_json_opens d other account key opened found right =
      rw opened (rw found (rw right (rw (bytes_beq_refl d.address) refl)))

  -- A wallet that is made of an account can be opened from its data with its password, by a
  -- configuration that need agree on nothing else: account, master key and data are as they were.
  pub from_json-new_wallet :
      (seed : Bytes) (account : Account) (config other : WalletConfig)
      → IsUsable config
      → All IsU8 seed
      → length seed ≡ 32
      → from_seed c seed ≡ ok account
      → other.password ≡ config.password
      → (w : Wallet) × (new_wallet c account config ≡ ok w)
        × (from_json c (some w.wallet_data) other
            ≡ ok (record w { config = record other { master_key = config.master_key } }))
  unfolding new_wallet new_wallet_data decrypt_account decrypt_master_key scrypt_kdf
  from_json-new_wallet seed account config other u bytes size made same =
      let key = scrypt config.password u.salt config.scrypt.log_n config.scrypt.r config.scrypt.p in
      let long =
        length-scrypt config.password u.salt config.scrypt.log_n config.scrypt.r config.scrypt.p in
      let m =
        aes_lem config.master_key key config.iv u.key_bytes (whole config.master_key u.key_size)
          long u.iv_size in
      let s =
        aes_lem seed config.master_key config.iv bytes (whole seed size) u.key_size u.iv_size in
      let mine : account.private_key ≡ seed = from_seed_keeps seed account made in
      let iv = hex_decode-encode config.iv u.iv_bytes in
      let mk = hex_decode-encode m.cipher m.bytes in
      let sk = hex_decode-encode s.cipher s.bytes in
      let d : WalletData = record {
        version = 2;
        iv = hex_encode config.iv;
        master_key = hex_encode m.cipher;
        seed_encrypted = hex_encode s.cipher;
        address = address c account;
        scrypt = config.scrypt;
      } in
      let w : Wallet = record { config = config; account = account; wallet_data = d } in
      let created : new_wallet_data c account config ≡ ok d =
        rw u.has_params (rw u.has_salt (rw m.made (rw mine (rw s.made refl)))) in
      let opened : decrypt_master_key c d other.password ≡ ok config.master_key =
        rw same (rw u.has_params (rw u.has_salt (rw iv (rw mk (rw m.opens refl))))) in
      let found : decrypt_account c d other.password ≡ ok account =
        rw opened (rw iv (rw sk (rw s.opens (rw size made)))) in
      (w, rw created refl, from_json_opens d other account config.master_key opened found refl)
