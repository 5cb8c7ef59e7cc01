-- ===== src/Multiclient/Names.antt =====
-- What `MultiClient::send_data` of src/multiclient.rs does with names.
use nkn_sdk_rust.Prelude.{
  ℕ, ◌≡◌, ◌≢◌, refl, List, [], ◌∷◌, Bytes, All, panicked, none, length, ◌<◌, arith, Option,
}
use nkn_sdk_rust.Serialization.Buffers.{BytesMut}
use nkn_sdk_rust.Addresses.Crates.{Crypto}
use nkn_sdk_rust.Addresses.{cut, last}
use nkn_sdk_rust.Client.{Encoding, Random}
use nkn_sdk_rust.Client.Payloads.{process_dest, processed_dests, process_dests}
use nkn_sdk_rust.Inbound.Asking.{MessageConfig}
use nkn_sdk_rust.Multiclient.{SubClient, no_registrant, send_data}
use nkn_sdk_rust.Prelude.Int.{ℤ}

-- A destination whose last piece is shorter than the hex digits of a key.
abbrev pub IsName : Bytes → Type 0
IsName dest = length (last (cut dest).0 (cut dest).1) < 64

nobody_found : (dest : Bytes) → IsName dest → process_dest no_registrant dest ≡ none
unfolding process_dest
nobody_found dest name = ground (arith, name)

none_processed : (dests : List Bytes) → All IsName dests → processed_dests no_registrant dests ≡ []
unfolding processed_dests
none_processed [] names = refl
none_processed (dest ∷ dests) names = rw (nobody_found dest names.0) (none_processed dests names.1)

-- `MultiClient::send_data` sends to no name: it asks for the owners with a configuration without servers,
-- so that every name is left out, and where there are only names it panics.
send_data-names :
    (m : BytesMut) (c : Crypto) (p : Encoding) (get_registrant : Bytes → Option Bytes)
    (nonces : ℕ → ℕ) (rnd : Random) (msg_id : Bytes) (clients : List (ℤ × SubClient))
    (dests : List Bytes) (text : Bytes) (config : MessageConfig)
    → dests ≢ []
    → All IsName dests
    → send_data m c p get_registrant nonces rnd msg_id clients dests text config ≡ panicked
unfolding send_data process_dests
send_data-names m c p get_registrant nonces rnd msg_id clients [] text config some_dest names =
    absurd (some_dest refl)
send_data-names m c p get_registrant nonces rnd msg_id clients (dest ∷ dests) text config some_dest
      names =
    rw (none_processed (dest ∷ dests) names) refl
