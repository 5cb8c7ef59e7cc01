-- ===== src/Wallet/Runs.antt =====
-- src/wallet.rs at a concrete account, with texts and ciphers that are the bytes themselves.
use nkn_sdk_rust.Prelude.{◌≡◌, refl, [], ◌∷◌, some, ok, replicate, arith}
use nkn_sdk_rust.Wallet.Bare.{bare, config, seed, account}
use nkn_sdk_rust.Wallet.{WalletConfig, Wallet, from_seed, new_wallet, from_json}
use nkn_sdk_rust.Wallet.Opening.{IsUsable, from_json-new_wallet}

abbrev other : WalletConfig
other = record config { master_key = []; iv = [] }

usable : IsUsable bare config
usable = record {
  salt = 5 ∷ [];
  has_params = refl;
  has_salt = refl;
  iv_bytes = ground arith;
  iv_size = refl;
  key_bytes = ground arith;
  key_size = refl;
}

from_json-new_wallet_example :
    (w : Wallet) × (new_wallet bare account config ≡ ok w)
    × (from_json bare (some w.wallet_data) other
        ≡ ok (record w { config = record other { master_key = replicate 32 4 } }))
unfolding from_seed
from_json-new_wallet_example =
    from_json-new_wallet bare seed account config other usable (ground arith) refl refl refl
