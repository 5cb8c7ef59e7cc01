-- ===== src/Inbound/Asking.antt =====
-- `Client::send`, `Client::send_data` and `send_receipt` of src/client.rs.
use nkn_sdk_rust.Prelude.{
  true, Map, ℕ, if◌then◌else◌, Bool, false, not, List, [], ◌∷◌, ◌++◌, Option, none, some, Outcome,
  ok, err, panicked, ◌>>=◌, Bytes, insert, bytes_eq, is_utf8, unwrap,
}
use nkn_sdk_rust.Serialization.Buffers.{BytesMut}
use nkn_sdk_rust.Sigchain.{SigChainElem, serialize_unsigned}
use nkn_sdk_rust.Addresses.Crates.{Crypto}
use nkn_sdk_rust.Addresses.{ed25519_sign}
use nkn_sdk_rust.Client.{Payload, Encoding, Random, ClientMessage, receipt, compression_none}
use nkn_sdk_rust.Client.Messages.{Sender, send_messages}
use nkn_sdk_rust.Inbound.{ClientState, Node, Handled, done, ended}

-- `MessageConfig` of src/message.rs.
pub record MessageConfig : Type 0 where
  pub unencrypted : Bool
  pub no_reply : Bool
  pub max_holding_secs : ℕ
  pub message_id : Bytes
  pub tx_pool : Bool
  pub offset : ℕ
  pub limit : ℕ

abbrev pub default_message_config : MessageConfig
default_message_config = record {
  unencrypted = false;
  no_reply = false;
  max_holding_secs = 10000;
  message_id = [];
  tx_pool = false;
  offset = 0;
  limit = 1000;
}

-- `Client::close`
unfoldable pub close : ClientState → ClientState
close s = record s { closed = true }

-- A channel for the reply, under the text of the message id.
unfoldable pub await_reply : Bytes → Bool → ClientState → Handled
await_reply message_id no_reply s =
    if no_reply
    then done s
    else if is_utf8 message_id
    then done (record s { response_channels = insert message_id tt s.response_channels })
    else (record { state = s; result = ended panicked })

abbrev pub node_pubkey : Option Node → Option Bytes
node_pubkey none = none
node_pubkey (some node) = some node.pubkey

module _ (m : BytesMut) (c : Crypto) (p : Encoding) (get_registrant : Bytes → Option Bytes)
    (stdin_tx : Option (Bytes → Bool)) (nonces : ℕ → ℕ) (rnd : Random) (sender : Sender) where
  -- The client as it sends now.
  abbrev pub sender_now : MessageConfig → ClientState → Sender
  sender_now config s = record sender {
    encrypted = not config.unencrypted;
    max_holding_seconds = config.max_holding_secs;
    node_pubkey = node_pubkey s.node;
    sig_chain_block_hash = s.sig_chain_block_hash;
  }

  -- What went to the socket, and what the call left and returned.
  unfoldable pub send : List Bytes → Payload → MessageConfig → ClientState → List Bytes × Handled
  send dests payload config s =
      elim (send_messages m c p get_registrant stdin_tx nonces rnd (sender_now config s) dests
        payload s.shared_keys) [
          | ok (wrote, keys) ↦ (
            wrote,
            await_reply payload.message_id config.no_reply (record s { shared_keys = keys }),
          )
          | err message ↦ ([], record { state = s; result = ended (err message) })
          | panicked ↦ ([], record { state = s; result = ended panicked })
        ]

  unfoldable pub send_data : List Bytes → Bytes → MessageConfig → ClientState → List Bytes × Handled
  unfolding send
  send_data dests text config s =
      let payload : Payload = record {
        kind = 0;
        message_id = config.message_id;
        contents = text;
        reply_to_id = [];
        no_reply = config.no_reply;
      } in
      send dests payload config s

  -- What becomes of a reply, of which an error is logged.
  abbrev pub replied :
      Outcome (List Bytes × Map Bytes Bytes)
      → Map Bytes Bytes
      → Outcome (List Bytes × Map Bytes Bytes)
  replied (ok sent) keys = ok sent
  replied (err message) keys = ok ([], keys)
  replied panicked keys = panicked

  -- The replies that are taken off their channel, while the node and the block hash are those of
  -- `sender`: where to, what, and whether it is encrypted.
  unfoldable pub handle_reply :
      List (Bytes × (Payload × Bool)) → Map Bytes Bytes → Outcome (List Bytes × Map Bytes Bytes)
  handle_reply [] keys = ok ([], keys)
  handle_reply ((src, (payload, encrypted)) ∷ replies) keys = do
    let answering : Sender = record sender { encrypted = encrypted; max_holding_seconds = 0 }
    (wrote, keys') ←
        replied
          (send_messages m c p get_registrant stdin_tx nonces rnd answering (src ∷ []) payload keys)
          keys
    (more, keys'') ← handle_reply replies keys'
    ok (wrote ++ more, keys'')

abbrev default_element : SigChainElem
default_element = record {
  id = [];
  next_pubkey = [];
  mining = false;
  signature = [];
  sig_algo = 0;
  vrf = [];
  proof = [];
}

-- `encode_receipt` of the previous hash and the signature is `prost`'s; `public_key_of` gives the key
-- of a secret key, where it is one. What a closed socket refuses is an error.
unfoldable pub send_receipt :
    BytesMut
    → Crypto
    → Encoding
    → (Bytes → Bytes → Bytes)
    → (Bytes → Option Bytes)
    → Option (Bytes → Bool)
    → Bytes
    → Bytes
    → Outcome (List Bytes)
send_receipt m c p encode_receipt public_key_of stdin_tx prev_signature private_key = do
  public_key ← unwrap (public_key_of private_key)
  let digest : Bytes = c.sha256 (c.sha256 prev_signature ++ serialize_unsigned m default_element)
  signature ← ed25519_sign c digest (private_key ++ public_key)
  let client_msg : ClientMessage = record {
    message_type = receipt;
    message = encode_receipt prev_signature signature;
    compression_type = compression_none;
  }
  let bytes : Bytes = p.encode_client client_msg
  accepts ← unwrap stdin_tx
  if accepts bytes then ok (bytes ∷ []) else err "send failed because receiver is gone"
