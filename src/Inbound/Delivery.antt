-- ===== src/Inbound/Delivery.antt =====
-- What `encrypt_payload` of one client sends, and `handle_message` of src/client.rs of the other gets.
use nkn_sdk_rust.Prelude.{
  unwrap, if◌then◌else◌, ◌≡◌, refl, ap, ◌∙◌, List, [], ◌∷◌, Outcome, ok, some, Bytes, Map, true,
  false, Bool,
}
use nkn_sdk_rust.Addresses.Crates.{Crypto}
use nkn_sdk_rust.Client.{Payload, Message, Encoding, Random, inbound_message}
use nkn_sdk_rust.Client.Payloads.{dest_key, encrypt_payload, decrypt_payload}
use nkn_sdk_rust.Client.Sealing.{Opens, Sent, and_to, encrypt_payload-Sent, decrypt_payload-Opens}
use nkn_sdk_rust.Inbound.{
  after, put, deliver, open_inbound, receive, ClientState, Decoding, Handled, done, payload_data,
  spawn_receipt, received, Received, waits_for_room, handle_inbound, handle_binary, handle_message,
}

pub after-ok {ℓ} :
    {A : Type ℓ} {o : Outcome A} {value : A} (s : ClientState) (next : A → Handled)
    → o ≡ ok value
    → after o s next ≡ next value
after-ok s next e = ap (λ o. after o s next) e

-- Who has not closed, and has taken all messages off, gets what is no reply.
deliver_open :
    (hex_encode : Bytes → Bytes) (reply_to_id src contents : Bytes) (encrypted : Bool)
    (payload : Payload) (s : ClientState)
    → s.closed ≡ false
    → s.messages ≡ []
    → reply_to_id ≡ []
    → encrypted ≡ true
    → deliver hex_encode reply_to_id (received src encrypted payload contents) s
      ≡ done (record s { messages = received src true payload contents ∷ [] })
deliver_open hex_encode reply_to_id src contents encrypted payload s is_open taken new sealed =
    rw (new, sealed)
      (ap
          (λ b.
            if b
            then done s
            else put 1 s.messages (received src true payload contents) s
                (λ queue. record s { messages = queue }))
          is_open
        ∙ ap
            (λ ms.
              put 1 ms (received src true payload contents) s
                (λ queue. record s { messages = queue }))
            taken)

-- A receipt changes nothing else.
pub spawn_receipt_same :
    (prev_hash : Bytes) (s : ClientState)
    → ((spawn_receipt prev_hash s).closed ≡ s.closed)
      × ((spawn_receipt prev_hash s).shared_keys ≡ s.shared_keys)
      × ((spawn_receipt prev_hash s).messages ≡ s.messages)
spawn_receipt_same [] s = (refl, refl, refl)
spawn_receipt_same (b ∷ bs) s = (refl, refl, refl)

-- The key that source and destination share, found by both.
pub record IsShared (c : Crypto) (p : Encoding) (dest : Bytes) (dest_secret : Bytes)
    (dest_keys : Map Bytes Bytes) (src : Bytes) (src_secret : Bytes) (src_keys : Map Bytes Bytes)
    : Type 0 where
  pub shared : Bytes
  pub sender_keys : Map Bytes Bytes
  pub receiver_keys : Map Bytes Bytes
  pub sender_finds : dest_key c p dest src_secret src_keys ≡ ok (shared, sender_keys)
  pub receiver_finds : dest_key c p src dest_secret dest_keys ≡ ok (shared, receiver_keys)

module _ (c : Crypto) (p : Encoding) (d : Decoding p) where
  open_inbound-Opens :
      (secret src shared raw : Bytes) (msg : Message) (keys : Map Bytes Bytes)
      {after : Map Bytes Bytes}
      → Opens c p raw msg shared
      → dest_key c p src secret keys ≡ ok (shared, after)
      → open_inbound c p d secret msg src keys ≡ ok (raw, after)
  open_inbound-Opens secret src shared raw msg keys opens found =
      ap (λ b. if b then decrypt_payload c p msg src secret keys else ok (msg.payload, keys))
        opens.0
      ∙ decrypt_payload-Opens c p raw shared msg src secret keys opens found

  -- A message that opens with the receiver's key for its source is delivered.
  receive-Opens :
      (secret src prev_hash contents shared : Bytes) (payload : Payload) (msg : Message)
      (s : ClientState) {keys : Map Bytes Bytes}
      → Opens c p (p.encode_payload payload) msg shared
      → dest_key c p src secret s.shared_keys ≡ ok (shared, keys)
      → s.closed ≡ false
      → s.messages ≡ []
      → payload.reply_to_id ≡ []
      → payload_data d payload ≡ ok contents
      → receive c p d secret
          (record { src = src; payload = p.encode_message msg; prev_hash = prev_hash })
          s
        ≡ done (record s { shared_keys = keys; messages = received src true payload contents ∷ [] })
  unfolding receive
  receive-Opens secret src prev_hash contents shared payload msg s opens found is_open taken new
        read =
      let opened =
        open_inbound-Opens secret src shared (p.encode_payload payload) msg s.shared_keys opens
          found in
      after-ok s _ (ap unwrap (d.decode_message-encode_message msg))
      ∙ after-ok s _ opened
      ∙ after-ok _ _ (ap unwrap (d.decode_payload-encode_payload payload))
      ∙ after-ok _ _ read
      ∙ deliver_open c.hex_encode payload.reply_to_id src contents msg.encrypted payload _ is_open
          taken new opens.0

  Sent-and_to :
      {raw secret raw_msg dest : Bytes} {keys after : Map Bytes Bytes} {dests msgs : List Bytes}
      → Sent c p raw secret keys (dest ∷ dests) (raw_msg ∷ msgs) after
      → (shared : Bytes) × (keys' : Map Bytes Bytes) × (msg : Message) × (dest_key c p dest secret
            keys
          ≡ ok (shared, keys'))
        × Opens c p raw msg shared
        × (raw_msg ≡ p.encode_message msg)
  Sent-and_to (and_to {shared = shared} {msg = msg} found opens rest all) =
      (shared, _, msg, found, opens, cc)

  -- A payload that `encrypt_payload` seals for one or more destinations reaches the first of them as it
  -- was, if it is a data payload, no reply, and both sides find the key that they share: once the node
  -- passes the message on with the sender's address, `handle_message` of a client that is not closed, and
  -- whose channel for messages is empty, puts the payload's data, kind, id and source into it, and adds
  -- the receipt that the node asks for to its receipts; but for the cache of keys, it changes nothing
  -- else.
  pub handle_message-encrypt_payload :
      (payload : Payload) (dest src : Bytes) (more : List Bytes) (rnd : Random)
      (src_secret dest_secret : Bytes) (src_keys : Map Bytes Bytes) {raw : Bytes}
      {rest : List Bytes} {after : Map Bytes Bytes} (s : ClientState)
      (keypair salt bytes message prev_hash contents : Bytes)
      (key : IsShared c p dest dest_secret s.shared_keys src src_secret src_keys)
      → encrypt_payload c p payload (dest ∷ more) rnd src_secret src_keys ≡ ok (raw ∷ rest, after)
      → payload_data d payload ≡ ok contents
      → payload.reply_to_id ≡ []
      → d.decode_client bytes ≡ some (some inbound_message, message)
      → d.decode_inbound message ≡ some (record { src = src; payload = raw; prev_hash = prev_hash })
      → s.closed ≡ false
      → s.messages ≡ []
      → handle_message c p d dest_secret keypair salt false bytes s
        ≡ done (record (spawn_receipt prev_hash s) {
          shared_keys = key.receiver_keys;
          messages = received src true payload contents ∷ [];
        })
  unfolding handle_message handle_binary handle_inbound
  handle_message-encrypt_payload payload dest src more rnd src_secret dest_secret src_keys s keypair
        salt bytes message prev_hash contents key sealed read new framed inbound is_open taken =
      let (shared, keys', msg, found, opens, is_raw) =
        Sent-and_to
          (encrypt_payload-Sent c p payload (dest ∷ more) rnd src_secret src_keys sealed) in
      let one : shared ≡ key.shared = cc in
      let t = spawn_receipt prev_hash s in
      let (same_closed, same_keys, same_messages) = spawn_receipt_same prev_hash s in
      let finds : dest_key c p src dest_secret t.shared_keys ≡ ok (shared, key.receiver_keys) =
        rw (same_keys, one) key.receiver_finds in
      let delivered =
        receive-Opens dest_secret src prev_hash contents shared payload msg t opens finds
          (same_closed ∙ is_open) (same_messages ∙ taken) new read in
      ap (λ b. if b then done s else handle_binary c p d dest_secret bytes s) is_open
      ∙ after-ok s _ (ap unwrap framed)
      ∙ after-ok s _ (ap unwrap inbound)
      ∙ ap
          (λ r.
            receive c p d dest_secret (record { src = src; payload = r; prev_hash = prev_hash }) t)
          is_raw
      ∙ delivered

  -- Where a message was not taken off yet, a message that opens waits for room.
  receive_full :
      (secret src prev_hash contents shared : Bytes) (payload : Payload) (msg : Message)
      (s : ClientState) (first : Received) {keys : Map Bytes Bytes}
      → Opens c p (p.encode_payload payload) msg shared
      → dest_key c p src secret s.shared_keys ≡ ok (shared, keys)
      → s.closed ≡ false
      → s.messages ≡ first ∷ []
      → payload.reply_to_id ≡ []
      → payload_data d payload ≡ ok contents
      → receive c p d secret
          (record { src = src; payload = p.encode_message msg; prev_hash = prev_hash })
          s
        ≡ record { state = record s { shared_keys = keys }; result = waits_for_room }
  unfolding receive
  receive_full secret src prev_hash contents shared payload msg s first opens found is_open full new
        read =
      let opened =
        open_inbound-Opens secret src shared (p.encode_payload payload) msg s.shared_keys opens
          found in
      after-ok s _ (ap unwrap (d.decode_message-encode_message msg))
      ∙ after-ok s _ opened
      ∙ after-ok _ _ (ap unwrap (d.decode_payload-encode_payload payload))
      ∙ after-ok _ _ read
      ∙ rw (new, is_open) (rw full refl)
