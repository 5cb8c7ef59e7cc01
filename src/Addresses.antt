-- ===== src/Addresses.antt =====
-- src/utils.rs: client addresses and the cache of shared keys, with the calls of src/crypto.rs that
-- they make. A text is its UTF-8 bytes. The third-party crates are the interface of
-- Addresses/Crates.antt.
pub mod Crates
pub mod Lossy
pub mod Parsing
pub mod Cache
pub mod Plain
mod Runs
use nkn_sdk_rust.Prelude.{
  ℕ, ◌==◌, if◌then◌else◌, List, [], ◌∷◌, ◌++◌, map, Option, none, some, Outcome, ok, err, panicked,
  ◌>>=◌, ◌>>◌, String, Bytes, length, Map, lookup, insert, bytes_eq, Bool, true, false, unwrap,
  refuse_if, ltb, not,
}
use Crates.{Crypto}
use Lossy.{from_utf8_lossy}

abbrev pub dot : ℕ
dot = 46

-- `split('.')`: the first piece, and the others.
abbrev pub cut : Bytes → Bytes × List Bytes
cut [] = ([], [])
cut (b ∷ bs) =
    let (first, others) = cut bs in if b == dot then ([], first ∷ others) else (b ∷ first, others)

-- `last().unwrap()` of a split, `[..len - 1]` and `join(".")`.
abbrev pub last : Bytes → List Bytes → Bytes
last first [] = first
last first (x ∷ xs) = last x xs

abbrev pub init : Bytes → List Bytes → List Bytes
init first [] = []
init first (x ∷ xs) = first ∷ init x xs

abbrev pub join : List Bytes → Bytes
join [] = []
join (x ∷ []) = x
join (x ∷ (y ∷ ys)) = x ++ (dot ∷ join (y ∷ ys))

abbrev pub is_empty_bytes : Bytes → Bool
is_empty_bytes [] = true
is_empty_bytes (b ∷ bs) = false

unfoldable pub add_identifier_prefix : Bytes → Bytes → Bytes
add_identifier_prefix base prefix =
    if is_empty_bytes prefix
    then base
    else if is_empty_bytes base
    then prefix
    else prefix ++ (dot ∷ base)

module _ (c : Crypto) where
  open c use {hex_encode, hex_decode, sha256, to_curve25519_pk, precompute, seal, open_sealed}

  unfoldable pub make_address_string : Bytes → Bytes → Bytes
  make_address_string public_key [] = hex_encode public_key
  make_address_string public_key (b ∷ bs) = (b ∷ bs) ++ (dot ∷ hex_encode public_key)

  abbrev pub key_of_size : Bytes → Outcome Bytes
  key_of_size key = if length key == 32 then ok key else err "Invalid public key string"

  abbrev pub hex_key : Bytes → Outcome Bytes
  hex_key text = elim (hex_decode text) [
    | none ↦ err "Invalid public key string converting to hex"
    | some key ↦ key_of_size key
  ]

  -- The hash of the whole address, the key of its last piece, and the text before it.
  unfoldable pub parse_client_address : Bytes → Outcome (Bytes × (Bytes × Bytes))
  parse_client_address address =
      let (first, others) = cut address in
      do key ← hex_key (last first others); ok (sha256 address, (key, join (init first others)))

  -- `ed25519_public_key_to_curve25519_public_key` of src/crypto.rs panics on a bad key.
  abbrev compute_key : Bytes → Bytes → Bytes → Map Bytes Bytes → Outcome (Bytes × Map Bytes Bytes)
  compute_key name public_key secret keys = do
    curve_public_key ← unwrap (to_curve25519_pk public_key)
    let shared_key = precompute curve_public_key secret
    ok (shared_key, insert name shared_key keys)

  -- The cache is kept under the lossy text of the key.
  unfoldable pub get_or_compute_shared_key :
      Bytes → Bytes → Map Bytes Bytes → Outcome (Bytes × Map Bytes Bytes)
  get_or_compute_shared_key public_key secret keys =
      elim (lookup (from_utf8_lossy public_key) keys) [
        | some shared_key ↦ ok (shared_key, keys)
        | none ↦ do
          refuse_if (not (length public_key == 32)) "invalid public key size"
          compute_key (from_utf8_lossy public_key) public_key secret keys
      ]

  -- A key that is no key pair is a panic.
  abbrev pub ed25519_sign : Bytes → Bytes → Outcome Bytes
  ed25519_sign message private_key = unwrap (c.keypair_sign private_key message)

  -- `encrypt` and `decrypt` of src/crypto.rs: a nonce has 24 bytes and a key 32, or they panic.
  unfoldable pub encrypt : Bytes → Bytes → Bytes → Outcome Bytes
  encrypt message nonce key =
      if length nonce == 24
      then (if length key == 32 then ok (seal message nonce key) else panicked)
      else panicked

  abbrev pub opened : Option Bytes → Outcome Bytes
  opened none = err ""
  opened (some message) = ok message

  unfoldable pub decrypt : Bytes → Bytes → Bytes → Outcome Bytes
  decrypt sealed nonce key =
      if length nonce == 24
      then (if length key == 32 then opened (open_sealed sealed nonce key) else panicked)
      else panicked
