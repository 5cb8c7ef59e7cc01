-- ===== src/Inbound/Replies.antt =====
-- What becomes of the replies that `Client::send` of src/client.rs waits for.
use nkn_sdk_rust.Prelude.{
  ◌*◌, ◌≡◌, ◌≢◌, refl, sym, ap, ◌∙◌, true, false, List, [], ◌∷◌, ok, some, none, Option, Bytes, Map,
  lookup, remove, bytes_eq, is_utf8, unwrap, if◌then◌else◌, lookup-insert, lookup-remove,
  bytes_beq_iff, length, arith,
}
use nkn_sdk_rust.Addresses.Crates.{Crypto}
use nkn_sdk_rust.Client.{Payload, Message, Encoding, inbound_message}
use nkn_sdk_rust.Inbound.Delivery.{after-ok, spawn_receipt_same}
use nkn_sdk_rust.Inbound.{
  take_channel, spawn_receipt, handle_message, handle_binary, handle_inbound, ClientState, Received,
  InboundMessage, Decoding, done, open_inbound, payload_data, receive, answer, deliver, received,
}
use nkn_sdk_rust.Inbound.Asking.{await_reply}

-- A text of two digits for each byte is no text of those bytes.
hex_differs :
    (hex_encode : Bytes → Bytes) (id : Bytes)
    → length (hex_encode id) ≡ 2 * length id
    → id ≢ []
    → hex_encode id ≢ id
hex_differs hex_encode [] two some_id same = absurd (some_id refl)
hex_differs hex_encode (b ∷ bs) two some_id same =
    let again : length (b ∷ bs) ≡ 2 * length (b ∷ bs) = sym (ap length same) ∙ two in
    absurd (omega (arith, again))

lookup-remove_other :
    (key id : Bytes) (m : Map Bytes (Unit {0})) → key ≢ id → lookup id (remove key m) ≡ lookup id m
lookup-remove_other key id m other = ground (arith, lookup-remove key id m, bytes_beq_iff key id)

take_channel_waits :
    (key id : Bytes) (o : Option (Unit {0})) (s : ClientState)
    → key ≢ id
    → (lookup id (take_channel key o s).response_channels ≡ lookup id s.response_channels)
      × ((take_channel key o s).messages ≡ s.messages)
take_channel_waits key id none s other = (refl, refl)
take_channel_waits key id (some u) s other =
    (lookup-remove_other key id s.response_channels other, refl)

-- A reply goes to `answer`.
deliver_reply :
    (hex_encode : Bytes → Bytes) (id : Bytes) (msg : Received) (s : ClientState)
    → id ≢ []
    → deliver hex_encode id msg s ≡ done (answer (hex_encode id) msg s)
deliver_reply hex_encode [] msg s some_id = absurd (some_id refl)
deliver_reply hex_encode (b ∷ bs) msg s some_id = refl

-- Who waits for the reply to `id`, with the messages `msgs` so far.
pub record IsWaiting (id : Bytes) (msgs : List Received) (s : ClientState) : Type 0 where
  pub waits : lookup id s.response_channels ≡ some tt
  pub same : s.messages ≡ msgs

await_reply-IsWaiting :
    (id : Bytes) (s : ClientState)
    → is_utf8 id ≡ true
    → IsWaiting id s.messages (await_reply id false s).state
unfolding await_reply
await_reply-IsWaiting id s text = rw text (record {
  waits = rw (lookup-insert id id tt s.response_channels) (rw ((bytes_beq_iff id id).1 refl) refl);
  same = refl;
})

await_reply_same :
    (id : Bytes) (s : ClientState)
    → is_utf8 id ≡ true
    → ((await_reply id false s).state.closed ≡ s.closed)
      × ((await_reply id false s).state.shared_keys ≡ s.shared_keys)
unfolding await_reply
await_reply_same id s text = rw text (refl, refl)

spawn_receipt-IsWaiting :
    (prev_hash id : Bytes) (msgs : List Received) (s : ClientState)
    → IsWaiting id msgs s
    → IsWaiting id msgs (spawn_receipt prev_hash s)
spawn_receipt-IsWaiting [] id msgs s h = h
spawn_receipt-IsWaiting (b ∷ bs) id msgs s h = record { waits = h.waits; same = h.same }

deliver-IsWaiting :
    (hex_encode : Bytes → Bytes) (id : Bytes) (msgs : List Received) (msg : Received)
    (s : ClientState)
    → length (hex_encode id) ≡ 2 * length id
    → id ≢ []
    → IsWaiting id msgs s
    → IsWaiting id msgs (deliver hex_encode id msg s).state
deliver-IsWaiting hex_encode id msgs msg s two some_id h =
    let (waits, same) =
      take_channel_waits (hex_encode id) id (lookup (hex_encode id) s.response_channels) s
        (hex_differs hex_encode id two some_id) in
    rw (deliver_reply hex_encode id msg s some_id)
      (record { waits = waits ∙ h.waits; same = same ∙ h.same })

module _ (c : Crypto) (p : Encoding) (d : Decoding p) (secret : Bytes) where
  receive-IsWaiting :
      (id : Bytes) (s : ClientState) (inbound : InboundMessage) (msg : Message) (payload : Payload)
      (bytes contents : Bytes) (msgs : List Received) {keys : Map Bytes Bytes}
      → length (c.hex_encode id) ≡ 2 * length id
      → id ≢ []
      → d.decode_message inbound.payload ≡ some msg
      → open_inbound c p d secret msg inbound.src s.shared_keys ≡ ok (bytes, keys)
      → d.decode_payload bytes ≡ some payload
      → payload_data d payload ≡ ok contents
      → payload.reply_to_id ≡ id
      → IsWaiting id msgs s
      → IsWaiting id msgs (receive c p d secret inbound s).state
  unfolding receive
  receive-IsWaiting id s inbound msg payload bytes contents msgs {keys} two some_id framed opened
        decoded read reply h =
      let received_it = received inbound.src msg.encrypted payload contents in
      let u : ClientState = record s { shared_keys = keys } in
      let waiting : IsWaiting id msgs u = record { waits = h.waits; same = h.same } in
      let run : receive c p d secret inbound s ≡ deliver c.hex_encode id received_it u =
        after-ok s _ (ap unwrap framed)
        ∙ after-ok s _ opened
        ∙ after-ok _ _ (ap unwrap decoded)
        ∙ after-ok _ _ read
        ∙ ap (λ r. deliver c.hex_encode r received_it u) reply in
      rw run (deliver-IsWaiting c.hex_encode id msgs received_it u two some_id waiting)

  -- The reply to a message that was sent is lost. When `handle_message` of an open client has opened and
  -- read it, it is neither added to the messages of the client nor taken for what the sender waits for,
  -- which goes on waiting: the channel stands under the text of the message's id, and is looked for under
  -- its hex digits. The id is a text of at least one byte, as `send` takes it.
  pub handle_message-IsWaiting :
      (id : Bytes) (before : ClientState) (inbound : InboundMessage) (msg : Message)
      (payload : Payload) (keypair salt raw message bytes contents : Bytes) {keys : Map Bytes Bytes}
      → length (c.hex_encode id) ≡ 2 * length id
      → id ≢ []
      → is_utf8 id ≡ true
      → before.closed ≡ false
      → d.decode_client raw ≡ some (some inbound_message, message)
      → d.decode_inbound message ≡ some inbound
      → d.decode_message inbound.payload ≡ some msg
      → open_inbound c p d secret msg inbound.src before.shared_keys ≡ ok (bytes, keys)
      → d.decode_payload bytes ≡ some payload
      → payload_data d payload ≡ ok contents
      → payload.reply_to_id ≡ id
      → IsWaiting id before.messages
          (handle_message c p d secret keypair salt false raw
            (await_reply id false before).state).state
  unfolding handle_message handle_binary handle_inbound
  handle_message-IsWaiting id before inbound msg payload keypair salt raw message bytes contents
        {keys} two some_id text is_open framed decoded_in decoded opened payload_is read reply =
      let s = (await_reply id false before).state in
      let t = spawn_receipt inbound.prev_hash s in
      let (closed, keys_same) = await_reply_same id before text in
      let (t_closed, t_keys, t_messages) = spawn_receipt_same inbound.prev_hash s in
      let opens : open_inbound c p d secret msg inbound.src t.shared_keys ≡ ok (bytes, keys) =
        rw (t_keys ∙ keys_same) opened in
      let run : handle_message c p d secret keypair salt false raw s
          ≡ receive c p d secret inbound t =
        ap (λ b. if b then done s else handle_binary c p d secret raw s) (closed ∙ is_open)
        ∙ after-ok s _ (ap unwrap framed)
        ∙ after-ok s _ (ap unwrap decoded_in) in
      let waiting =
        spawn_receipt-IsWaiting inbound.prev_hash id before.messages s
          (await_reply-IsWaiting id before text) in
      rw run (
        receive-IsWaiting id t inbound msg payload bytes contents before.messages two some_id
          decoded opens payload_is read reply waiting)
