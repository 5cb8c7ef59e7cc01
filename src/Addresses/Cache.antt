-- ===== src/Addresses/Cache.antt =====
-- The cache of `get_or_compute_shared_key` of src/utils.rs.
use nkn_sdk_rust.Prelude.{
  ◌≡◌, ap, ◌∙◌, ok, Bytes, Map, lookup, insert, lookup-insert, bytes_eq, bytes_beq_iff, none, some,
  arith,
}
use nkn_sdk_rust.Addresses.Crates.{Crypto}
use nkn_sdk_rust.Addresses.Lossy.{from_utf8_lossy}
use nkn_sdk_rust.Addresses.{get_or_compute_shared_key}

module _ (c : Crypto) where
  open c use {to_curve25519_pk, precompute}

  -- What the cache should give for a key.
  abbrev pub IsKey : Bytes → Bytes → Bytes → Type 0
  IsKey public_key secret shared =
      (curve : Bytes) × (to_curve25519_pk public_key ≡ some curve)
      × (precompute curve secret ≡ shared)

  -- A call that returns on a key that is not cached computed that key's secret, and only added it.
  get_or_compute_shared_key_lem :
      (public_key secret : Bytes) (keys : Map Bytes Bytes) {shared : Bytes}
      {after : Map Bytes Bytes}
      → lookup (from_utf8_lossy public_key) keys ≡ none
      → get_or_compute_shared_key c public_key secret keys ≡ ok (shared, after)
      → IsKey public_key secret shared × (after ≡ insert (from_utf8_lossy public_key) shared keys)
  unfolding get_or_compute_shared_key
  get_or_compute_shared_key_lem public_key secret keys absent returned = ground arith

  get_or_compute_shared_key_found :
      (public_key secret : Bytes) (keys : Map Bytes Bytes) {shared : Bytes}
      {after : Map Bytes Bytes}
      → get_or_compute_shared_key c public_key secret keys ≡ ok (shared, after)
      → lookup (from_utf8_lossy public_key) after ≡ some shared
  unfolding get_or_compute_shared_key
  get_or_compute_shared_key_found public_key secret keys {shared = k} returned =
      let name = from_utf8_lossy public_key in
      ground (arith, lookup-insert name name k keys, bytes_beq_iff name name)

  -- After a call that returned, a call for any key with the same lossy text returns the first key's
  -- secret, whichever key it is for, and leaves the cache.
  pub get_or_compute_shared_key_collides :
      (public_key other secret : Bytes) (keys : Map Bytes Bytes) {shared : Bytes}
      {after : Map Bytes Bytes}
      → get_or_compute_shared_key c public_key secret keys ≡ ok (shared, after)
      → from_utf8_lossy other ≡ from_utf8_lossy public_key
      → get_or_compute_shared_key c other secret after ≡ ok (shared, after)
  unfolding get_or_compute_shared_key
  get_or_compute_shared_key_collides public_key other secret keys {shared = k} {after = m} returned
        same =
      let found =
        ap (λ name. lookup name m) same
        ∙ get_or_compute_shared_key_found public_key secret keys returned in
      ground (arith, found)
