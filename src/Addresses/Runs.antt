-- ===== src/Addresses/Runs.antt =====
-- src/utils.rs at concrete addresses and keys.
use nkn_sdk_rust.Prelude.{◌≡◌, ◌≢◌, refl, [], ◌∷◌, ok, Bytes, bytes_eq, replicate, arith}
use nkn_sdk_rust.Addresses.Plain.{plain}
use nkn_sdk_rust.Addresses.Lossy.{from_utf8_lossy}
use nkn_sdk_rust.Addresses.{
  dot, make_address_string, parse_client_address, get_or_compute_shared_key,
}
use nkn_sdk_rust.Addresses.Parsing.{parse_client_address-make_address_string}
use nkn_sdk_rust.Addresses.Cache.{get_or_compute_shared_key_collides}

abbrev key_a : Bytes
key_a = replicate 32 0xfe

abbrev key_b : Bytes
key_b = replicate 32 0xff

abbrev name : Bytes
name = b'a' ∷ (dot ∷ (b'b' ∷ []))

parse_client_address-make_address_string_example :
    parse_client_address plain (make_address_string plain key_a name)
    ≡ ok (plain.sha256 (make_address_string plain key_a name), (key_a, name))
parse_client_address-make_address_string_example =
    parse_client_address-make_address_string plain key_a name (ground arith) refl

abbrev secret : Bytes
secret = replicate 32 7

-- Two keys, neither of which is UTF-8, have one text of replacement characters.
same_text : from_utf8_lossy key_b ≡ from_utf8_lossy key_a
unfolding from_utf8_lossy
same_text = refl

cached :
    get_or_compute_shared_key plain key_a secret []
    ≡ ok
        (plain.precompute key_a secret, (from_utf8_lossy key_a, plain.precompute key_a secret) ∷ [])
unfolding get_or_compute_shared_key from_utf8_lossy
cached = refl

get_or_compute_shared_key_collides_example :
    get_or_compute_shared_key plain key_b secret
      ((from_utf8_lossy key_a, plain.precompute key_a secret) ∷ [])
    ≡ ok
        (plain.precompute key_a secret, (from_utf8_lossy key_a, plain.precompute key_a secret) ∷ [])
get_or_compute_shared_key_collides_example =
    get_or_compute_shared_key_collides plain key_a key_b secret [] cached same_text

different_keys : plain.precompute key_b secret ≢ plain.precompute key_a secret
different_keys = ground arith
