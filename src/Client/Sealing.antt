-- ===== src/Client/Sealing.antt =====
-- `encrypt_payload` and `decrypt_payload` of src/client.rs together.
use nkn_sdk_rust.Prelude.{
  ℕ, suc, ◌≡◌, refl, ap, ◌∙◌, List, [], ◌∷◌, ◌++◌, ok, Bytes, Map, true, arith, take-append,
  drop-append, unwrap_ok,
}
use nkn_sdk_rust.Prelude.Results.{>>=-eq-ok}
use nkn_sdk_rust.Addresses.Crates.{Crypto}
use nkn_sdk_rust.Addresses.{encrypt, decrypt}
use nkn_sdk_rust.Client.{Payload, Message, Encoding, Random}
use nkn_sdk_rust.Client.Payloads.{
  dest_key, encrypt_for, encrypt_payload, open_message, decrypt_payload,
}

module _ (c : Crypto) (p : Encoding) where
  open p use {encode_payload, encode_message}
  open c use {open_sealed, seal, open-seal, length-seal}

  -- `msg` is marked as encrypted, and with the key `shared`, `decrypt_payload` opens it to `raw`.
  abbrev pub Opens : Bytes → Message → Bytes → Type 0
  Opens raw msg shared = (msg.encrypted ≡ true) × (open_message c p msg shared ≡ ok raw)

  -- One message for each destination, in order, under the key that the sender has with it.
  pub data Sent (raw secret : Bytes)
      : Map Bytes Bytes → List Bytes → List Bytes → Map Bytes Bytes → Type 0 where
    nobody :
        {keys after : Map Bytes Bytes} {msgs : List Bytes}
        → msgs ≡ []
        → after ≡ keys
        → Sent raw secret keys [] msgs after
    and_to :
        {keys keys' after : Map Bytes Bytes} {dest shared : Bytes} {msg : Message}
        {dests msgs all : List Bytes}
        → dest_key c p dest secret keys ≡ ok (shared, keys')
        → Opens raw msg shared
        → Sent raw secret keys' dests msgs after
        → all ≡ encode_message msg ∷ msgs
        → Sent raw secret keys (dest ∷ dests) all after

  -- A message that opens with the key of its source is decrypted.
  pub decrypt_payload-Opens :
      (raw shared : Bytes) (msg : Message) (source secret : Bytes) (keys : Map Bytes Bytes)
      {after : Map Bytes Bytes}
      → Opens raw msg shared
      → dest_key c p source secret keys ≡ ok (shared, after)
      → decrypt_payload c p msg source secret keys ≡ ok (raw, after)
  unfolding decrypt_payload
  decrypt_payload-Opens raw shared msg source secret keys opens found = rw found (rw opens.1 refl)

  -- With one key for the payload.
  direct :
      (raw nonce shared : Bytes) {sealed : Bytes}
      → encrypt c raw nonce shared ≡ ok sealed
      → decrypt c sealed nonce shared ≡ ok raw
  unfolding encrypt decrypt
  direct raw nonce shared done = ground (arith, open-seal raw nonce shared)

  encrypt-nonempty : (raw nonce shared : Bytes) → encrypt c raw nonce shared ≡ ok [] → ⊥
  unfolding encrypt
  encrypt-nonempty raw nonce shared done = ground (arith, length-seal raw nonce shared)

  abbrev message_of : Bytes → Bytes → Bytes → Message
  message_of sealed nonce encrypted_key = record {
    payload = sealed;
    encrypted = true;
    nonce = nonce;
    encrypted_key = encrypted_key;
  }

  via_key :
      (raw shared sealed encrypted_key : Bytes) (rnd : Random) (i : ℕ)
      → encrypt c raw rnd.msg_nonce rnd.key ≡ ok sealed
      → encrypt c rnd.key (rnd.key_nonce i) shared ≡ ok encrypted_key
      → open_message c p (message_of sealed (rnd.key_nonce i ++ rnd.msg_nonce) encrypted_key) shared
        ≡ ok raw
  via_key raw shared sealed [] rnd i h k =
      absurd (encrypt-nonempty rnd.key (rnd.key_nonce i) shared k)
  via_key raw shared sealed (b ∷ bs) rnd i h k =
      rw (take-append 24 (rnd.key_nonce i) rnd.msg_nonce (rnd.length-key_nonce i)) (
        rw (drop-append 24 (rnd.key_nonce i) rnd.msg_nonce (rnd.length-key_nonce i)) (
          rw (direct rnd.key (rnd.key_nonce i) shared k)
            (rw (direct raw rnd.msg_nonce rnd.key h) refl)))

  encrypt_for-Sent :
      (raw secret sealed : Bytes) (rnd : Random) (i : ℕ) (dests : List Bytes)
      (keys : Map Bytes Bytes) {msgs : List Bytes} {after : Map Bytes Bytes}
      → encrypt c raw rnd.msg_nonce rnd.key ≡ ok sealed
      → encrypt_for c p rnd secret sealed i dests keys ≡ ok (msgs, after)
      → Sent raw secret keys dests msgs after
  unfolding encrypt_for
  encrypt_for-Sent raw secret sealed rnd i [] keys h returned = nobody (cc) (cc)
  encrypt_for-Sent raw secret sealed rnd i (dest ∷ dests) keys {after = after} h returned =
      let ((shared, keys'), found, r) = >>=-eq-ok (dest_key c p dest secret keys) _ returned in
      let (key, k, r') = >>=-eq-ok (encrypt c rnd.key (rnd.key_nonce i) shared) _ r in
      let ((msgs, rest), e, r'') =
        >>=-eq-ok (encrypt_for c p rnd secret sealed (suc i) dests keys') _ r' in
      let same : rest ≡ after = cc in
      let msg = message_of sealed (rnd.key_nonce i ++ rnd.msg_nonce) key in
      and_to {msg = msg} found (refl, via_key raw shared sealed key rnd i h k)
        (encrypt_for-Sent raw secret sealed rnd (suc i) dests keys' h
          (e ∙ ap (λ m. ok (msgs, m)) same))
        (cc)

  -- Every message that `encrypt_payload` makes, be it for one destination or for several, is opened
  -- to the payload with the key that the sender has with that destination; the messages are in the
  -- destinations' order, none is left out, and the cache is passed on from each to the next.
  pub encrypt_payload-Sent :
      (payload : Payload) (dests : List Bytes) (rnd : Random) (secret : Bytes)
      (keys : Map Bytes Bytes) {msgs : List Bytes} {after : Map Bytes Bytes}
      → encrypt_payload c p payload dests rnd secret keys ≡ ok (msgs, after)
      → Sent (encode_payload payload) secret keys dests msgs after
  unfolding encrypt_payload
  encrypt_payload-Sent payload [] rnd secret keys returned = absurd (cc)
  encrypt_payload-Sent payload (dest ∷ []) rnd secret keys returned =
      let ((shared, keys'), found, r) = >>=-eq-ok (dest_key c p dest secret keys) _ returned in
      let (sealed, e, r') =
        >>=-eq-ok (encrypt c (encode_payload payload) rnd.msg_nonce shared) _ r in
      let opened = ap unwrap_ok (direct (encode_payload payload) rnd.msg_nonce shared e) in
      let msg = message_of sealed rnd.msg_nonce [] in
      and_to {msg = msg} found (refl, opened) (nobody refl (cc)) (cc)
  encrypt_payload-Sent payload (dest ∷ (dest2 ∷ dests)) rnd secret keys returned =
      let (sealed, e, r) =
        >>=-eq-ok (encrypt c (encode_payload payload) rnd.msg_nonce rnd.key) _ returned in
      encrypt_for-Sent (encode_payload payload) secret sealed rnd 0 (dest ∷ (dest2 ∷ dests)) keys e
        r
