-- ===== src/Client/Payloads.antt =====
-- `process_dests`, `create_payloads`, `encrypt_payload` and `decrypt_payload` of src/client.rs. The
-- cache of shared keys is passed from call to call; what an error leaves in it is not modelled.
use nkn_sdk_rust.Prelude.{
  ℕ, suc, List, [], ◌∷◌, ◌++◌, Outcome, ok, err, panicked, ◌>>=◌, Bytes, length, take, drop, Map,
  Bool, true, false, Option, none, some, ltb, if◌then◌else◌, unwrap_ok,
}
use nkn_sdk_rust.Addresses.Crates.{Crypto}
use nkn_sdk_rust.Addresses.{
  parse_client_address, get_or_compute_shared_key, encrypt, decrypt, cut, last, init, join,
  is_empty_bytes,
}
use nkn_sdk_rust.Client.{Payload, Message, Encoding, Random}

-- `get_registrant` asks the RPC servers for the owner of a name: `none` is their error.
module _ (get_registrant : Bytes → Option Bytes) where
  -- A destination as it is sent, or none where it is skipped.
  unfoldable pub process_dest : Bytes → Option Bytes
  process_dest dest =
      let (first, others) = cut dest in
      if ltb (length (last first others)) 64
      then (elim (get_registrant (last first others)) [
        | none ↦ none
        | some registrant ↦
            if is_empty_bytes registrant
            then none
            else some (join (init first others ++ (registrant ∷ [])))
      ])
      else some (join (init first others ++ (last first others ∷ [])))

  abbrev pub and_dest : Option Bytes → List Bytes → List Bytes
  and_dest none dests = dests
  and_dest (some dest) dests = dest ∷ dests

  unfoldable pub processed_dests : List Bytes → List Bytes
  processed_dests [] = []
  processed_dests (dest ∷ dests) = and_dest (process_dest dest) (processed_dests dests)

  abbrev refuse_none : List Bytes → Outcome (List Bytes)
  refuse_none [] = err "invalid destination"
  refuse_none (dest ∷ dests) = ok (dest ∷ dests)

  unfoldable pub process_dests : List Bytes → Outcome (List Bytes)
  unfolding processed_dests
  process_dests [] = ok []
  process_dests (dest ∷ dests) = refuse_none (processed_dests (dest ∷ dests))

module _ (c : Crypto) (p : Encoding) where
  open p use {encode_payload, encode_message}

  -- The key of a destination.
  unfoldable pub dest_key : Bytes → Bytes → Map Bytes Bytes → Outcome (Bytes × Map Bytes Bytes)
  dest_key dest secret keys = do
    (hash, (public_key, identifier)) ← parse_client_address c dest
    get_or_compute_shared_key c public_key secret keys

  -- The loop over several destinations: `sealed` is the payload under the random key, which is
  -- sealed for each.
  unfoldable pub encrypt_for :
      Random
      → Bytes
      → Bytes
      → ℕ
      → List Bytes
      → Map Bytes Bytes
      → Outcome (List Bytes × Map Bytes Bytes)
  encrypt_for rnd secret sealed i [] keys = ok ([], keys)
  encrypt_for rnd secret sealed i (dest ∷ dests) keys = do
    (shared, keys') ← dest_key dest secret keys
    encrypted_key ← encrypt c rnd.key (rnd.key_nonce i) shared
    (msgs, keys'') ← encrypt_for rnd secret sealed (suc i) dests keys'
    let pb_message : Message = record {
      payload = sealed;
      encrypted = true;
      nonce = rnd.key_nonce i ++ rnd.msg_nonce;
      encrypted_key = encrypted_key;
    }
    ok (encode_message pb_message ∷ msgs, keys'')

  unfoldable pub encrypt_payload :
      Payload
      → List Bytes
      → Random
      → Bytes
      → Map Bytes Bytes
      → Outcome (List Bytes × Map Bytes Bytes)
  encrypt_payload payload [] rnd secret keys = panicked
  encrypt_payload payload (dest ∷ []) rnd secret keys = do
    (shared, keys') ← dest_key dest secret keys
    sealed ← encrypt c (encode_payload payload) rnd.msg_nonce shared
    let pb_message : Message = record {
      payload = sealed;
      encrypted = true;
      nonce = rnd.msg_nonce;
      encrypted_key = [];
    }
    ok (encode_message pb_message ∷ [], keys')
  encrypt_payload payload (dest ∷ (dest2 ∷ dests)) rnd secret keys = do
    sealed ← encrypt c (encode_payload payload) rnd.msg_nonce rnd.key
    encrypt_for rnd secret sealed 0 (dest ∷ (dest2 ∷ dests)) keys

  unfoldable pub create_payloads :
      List Bytes
      → Payload
      → Bool
      → Random
      → Bytes
      → Map Bytes Bytes
      → Outcome (List Bytes × Map Bytes Bytes)
  create_payloads dests payload true rnd secret keys = encrypt_payload payload dests rnd secret keys
  create_payloads dests payload false rnd secret keys =
      let pb_message : Message = record {
        payload = encode_payload payload;
        encrypted = false;
        nonce = [];
        encrypted_key = [];
      } in
      ok (encode_message pb_message ∷ [], keys)

  -- Opening with the key at hand. The slices of a short nonce panic, as `decrypt` does.
  abbrev pub open_message : Message → Bytes → Outcome Bytes
  open_message msg shared = elim msg.encrypted_key [
    | [] ↦ unwrap_ok (decrypt c msg.payload msg.nonce shared)
    | b ∷ bs ↦ do
      key ← unwrap_ok (decrypt c (b ∷ bs) (take 24 msg.nonce) shared)
      unwrap_ok (decrypt c msg.payload (drop 24 msg.nonce) key)
  ]

  unfoldable pub decrypt_payload :
      Message → Bytes → Bytes → Map Bytes Bytes → Outcome (Bytes × Map Bytes Bytes)
  decrypt_payload msg source secret keys = do
    (shared, keys') ← dest_key source secret keys
    payload ← open_message msg shared
    ok (payload, keys')
