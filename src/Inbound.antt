-- ===== src/Inbound.antt =====
-- The receiving side of src/client.rs: `handle_message`, `send_receipt`, and the waiting for replies of
-- `Client::send` and `Client::send_data`. The shared cells of a client are a record that each handler
-- gets and gives; what it sends into a channel is added to a list of what was not taken off yet, and where
-- that is full, it waits. A task that is spawned for a receipt
-- is a list entry too, and runs by itself.
pub mod Asking
pub mod Delivery
pub mod Replies
pub mod Frame
mod Runs
use nkn_sdk_rust.Prelude.{
  ℕ, ◌+◌, ◌==◌, if◌then◌else◌, Bool, true, false, not, List, [], ◌∷◌, ◌++◌, Option, none, some,
  Outcome, ok, err, panicked, ◌>>=◌, ◌>>◌, Bytes, Map, lookup, insert, remove, bytes_eq, is_utf8,
  unwrap, String, ◌≡◌, ltb, length,
}
use nkn_sdk_rust.Prelude.Int.{ℤ}
use nkn_sdk_rust.Serialization.Buffers.{BytesMut}
use nkn_sdk_rust.Sigchain.{SigChainElem, serialize_unsigned}
use nkn_sdk_rust.Addresses.Crates.{Crypto}
use nkn_sdk_rust.Addresses.{is_empty_bytes, ed25519_sign}
use nkn_sdk_rust.Client.{
  Payload, Message, Encoding, ClientMessage, ClientMessageType, outbound_message, inbound_message,
  receipt, compression_none,
}
use nkn_sdk_rust.Client.Payloads.{decrypt_payload}
use nkn_sdk_rust.Errors.{NknError, success, wrong_node, from}

-- `Node` of src/rpc.rs.
pub record Node : Type 0 where
  pub addr : Bytes
  pub rpc_addr : Bytes
  pub pubkey : Bytes
  pub id : Bytes

-- `Message` of src/message.rs, without the channel for its reply.
pub record Received : Type 0 where
  pub src : Bytes
  pub contents : Bytes
  pub kind : ℕ
  pub encrypted : Bool
  pub message_id : Bytes
  pub no_reply : Bool

-- `StSaltAndSignature` of src/utils.rs.
pub record SaltAndSignature : Type 0 where
  pub client_salt : Bytes
  pub signature : Bytes

-- The cells and channels of a client. A response channel holds nothing and is known to the map alone.
pub record ClientState : Type 0 where
  pub closed : Bool
  pub node : Option Node
  pub sig_chain_block_hash : Option Bytes
  pub shared_keys : Map Bytes Bytes
  pub response_channels : Map Bytes (Unit {0})
  pub connected : List Node
  pub messages : List Received
  pub challenges : List SaltAndSignature
  pub receipts : List Bytes

-- What a JSON text from the node has, by the accesses that the handler makes.
pub data Action : Type 0 where
  set_client : Action
  update_sig_chain_block_hash : Action
  auth_challenge : Action
  other_action : Action

pub record ServerText : Type 0 where
  pub action : Option Action
  pub error : Option ℤ
  pub set_client_hash : Option Bytes
  pub result : Option Bytes
  pub challenge : Option Bytes

-- `InboundMessage` of protos/clientmessage.proto.
pub record InboundMessage : Type 0 where
  pub src : Bytes
  pub payload : Bytes
  pub prev_hash : Bytes

-- The decoders of `prost` and `serde_json`. What was encoded is decoded as it was.
pub record Decoding (p : Encoding) : Type 0 where
  pub parse_json : Bytes → Option ServerText
  pub decode_client : Bytes → Option (Option ClientMessageType × Bytes)
  pub decode_inbound : Bytes → Option InboundMessage
  pub decode_message : Bytes → Option Message
  pub decode_payload : Bytes → Option Payload
  pub decode_text : Bytes → Option Bytes
  pub decode_message-encode_message : (m : Message) → decode_message (p.encode_message m) ≡ some m
  pub decode_payload-encode_payload : (m : Payload) → decode_payload (p.encode_payload m) ≡ some m

-- How a handler ends, if it does not wait for room in a channel.
pub data Ending : Type 0 where
  ended : Outcome (Unit {0}) → Ending
  waits_for_room : Ending

-- What a handler leaves, and how it ends.
pub record Handled : Type 0 where
  pub state : ClientState
  pub result : Ending

abbrev pub done : ClientState → Handled
done s = record { state = s; result = ended (ok tt) }

-- A send into a channel with so much room.
abbrev pub put : {A : Type 0} → ℕ → List A → A → ClientState → (List A → ClientState) → Handled
put room queue a s next =
    if ltb (length queue) room
    then done (next (queue ++ (a ∷ [])))
    else (record { state = s; result = waits_for_room })

-- Going on with a value, or ending with the panic or the error.
abbrev pub after {ℓ} : {A : Type ℓ} → Outcome A → ClientState → (A → Handled) → Handled
after (ok value) s next = next value
after (err message) s next = record { state = s; result = ended (err message) }
after panicked s next = record { state = s; result = ended panicked }

abbrev pub is_success : NknError → Bool
is_success success = true
is_success other = false

abbrev pub is_wrong_node : NknError → Bool
is_wrong_node wrong_node = true
is_wrong_node other = false

-- `todo!()` where the node is the wrong one.
abbrev pub refuse_error : NknError → Outcome (Unit {0})
refuse_error error =
    if is_success error then ok tt else if is_wrong_node error then panicked else err "Error"

module _ (c : Crypto) (keypair : Bytes) (client_salt : Bytes) where
  open c use {hex_decode, sha256}

  -- `client_salt` is from the random generator.
  abbrev pub answer_challenge : Bytes → Outcome SaltAndSignature
  answer_challenge challenge = do
    signature ← ed25519_sign c (sha256 (challenge ++ client_salt)) keypair
    ok (record { client_salt = client_salt; signature = signature })

  -- The channel for the node has room for one, and that for challenges for 100.
  abbrev pub act : Action → ServerText → ClientState → Handled
  act set_client text s = after (unwrap text.set_client_hash) s (λ hash.
      let t = record s { sig_chain_block_hash = some hash } in
      if s.closed
      then done t
      else after (unwrap s.node) t
          (λ node. put 1 s.connected node t (λ nodes. record t { connected = nodes })))
  act update_sig_chain_block_hash text s =
      after (unwrap text.result) s (λ hash. done (record s { sig_chain_block_hash = some hash }))
  act auth_challenge text s = after (unwrap text.challenge) s (λ challenge.
      after (unwrap (hex_decode challenge)) s (λ bytes.
        after (answer_challenge bytes) s
          (λ signed. put 100 s.challenges signed s (λ queue. record s { challenges = queue }))))
  act other_action text s = done s

  unfoldable pub handle_text : Option ServerText → ClientState → Handled
  handle_text json s = after (unwrap json) s (λ text. after (unwrap text.action) s (λ action.
      after (unwrap text.error) s (λ code.
        after (from code) s (λ error. after (refuse_error error) s (λ u. act action text s)))))

module _ {p : Encoding} (d : Decoding p) where
  -- A text is unpacked, an acknowledgement is empty.
  abbrev pub payload_data : Payload → Outcome Bytes
  payload_data payload =
      if payload.kind == 1
      then unwrap (d.decode_text payload.contents)
      else if payload.kind == 2
      then ok []
      else ok payload.contents

abbrev pub spawn_receipt : Bytes → ClientState → ClientState
spawn_receipt prev_hash s =
    if is_empty_bytes prev_hash then s else (record s { receipts = s.receipts ++ (prev_hash ∷ []) })

-- The channel of the reply, where there is one, gets the message, and is dropped from the map with it.
abbrev pub take_channel : Bytes → Option (Unit {0}) → ClientState → ClientState
take_channel key none s = s
take_channel key (some channel) s = record s { response_channels = remove key s.response_channels }

abbrev pub answer : Bytes → Received → ClientState → ClientState
answer key msg s = take_channel key (lookup key s.response_channels) s

-- The channel for messages has room for one.
abbrev pub deliver : (Bytes → Bytes) → Bytes → Received → ClientState → Handled
deliver hex_encode reply_to_id msg s =
    if not (is_empty_bytes reply_to_id)
    then done (answer (hex_encode reply_to_id) msg s)
    else if s.closed
    then done s
    else put 1 s.messages msg s (λ queue. record s { messages = queue })

abbrev pub received : Bytes → Bool → Payload → Bytes → Received
received src encrypted payload contents = record {
  src = src;
  contents = contents;
  kind = payload.kind;
  encrypted = encrypted;
  message_id = payload.message_id;
  no_reply = payload.no_reply;
}

module _ (c : Crypto) (p : Encoding) (d : Decoding p) (curve_secret_key : Bytes) where
  open d use {decode_client, decode_inbound, decode_message, decode_payload}

  abbrev pub open_inbound : Message → Bytes → Map Bytes Bytes → Outcome (Bytes × Map Bytes Bytes)
  open_inbound msg src keys =
      if msg.encrypted
      then decrypt_payload c p msg src curve_secret_key keys
      else ok (msg.payload, keys)

  -- From the decoding of the payload on.
  unfoldable pub receive : InboundMessage → ClientState → Handled
  receive inbound s = after (unwrap (decode_message inbound.payload)) s (λ msg.
      after (open_inbound msg inbound.src s.shared_keys) s (λ (bytes, keys).
        let t = record s { shared_keys = keys } in
        after (unwrap (decode_payload bytes)) t (λ payload.
          after (payload_data d payload) t (λ contents.
            deliver c.hex_encode payload.reply_to_id
              (received inbound.src msg.encrypted payload contents) t))))

  unfoldable pub handle_inbound : InboundMessage → ClientState → Handled
  unfolding receive
  handle_inbound inbound s = receive inbound (spawn_receipt inbound.prev_hash s)

  abbrev pub by_type : Option ClientMessageType → Bytes → ClientState → Handled
  by_type (some inbound_message) message s =
      after (unwrap (decode_inbound message)) s (λ inbound. handle_inbound inbound s)
  by_type (some outbound_message) message s = done s
  by_type (some receipt) message s = done s
  by_type none message s = done s

  unfoldable pub handle_binary : Bytes → ClientState → Handled
  handle_binary bytes s =
      after (unwrap (decode_client bytes)) s (λ (kind, message). by_type kind message s)

  -- A closed client does nothing.
  unfoldable pub handle_message : Bytes → Bytes → Bool → Bytes → ClientState → Handled
  unfolding handle_text handle_binary
  handle_message keypair client_salt is_text bytes s =
      if s.closed
      then done s
      else if is_text
      then handle_text c keypair client_salt (d.parse_json bytes) s
      else handle_binary bytes s
