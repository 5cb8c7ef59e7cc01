-- ===== src/Client/Messages.antt =====
-- `create_outbound_message`, `create_client_message` and `send_messages` of src/client.rs. A number
-- stands for what the random generator gives each message as its nonce.
use nkn_sdk_rust.Prelude.{
  ℕ, suc, ◌+◌, ◌%◌, ◌^◌, List, [], ◌∷◌, ◌++◌, Outcome, ok, panicked, ◌>>=◌, ◌>>◌, Bytes, length,
  get_elem?, Map, Bool, true, false, Option, none, some, ltb, if◌then◌else◌, unwrap, refuse_if,
}
use nkn_sdk_rust.Serialization.Buffers.{BytesMut}
use nkn_sdk_rust.Sigchain.{SigChain, SigChainElem, serialize_unsigned, serialize_metadata}
use nkn_sdk_rust.Addresses.Crates.{Crypto}
use nkn_sdk_rust.Addresses.{parse_client_address, ed25519_sign}
use nkn_sdk_rust.Client.{
  Payload, OutboundMessage, ClientMessage, Encoding, Random, outbound_message, compression_zlib,
  compression_none,
}
use nkn_sdk_rust.Client.Payloads.{process_dests, create_payloads}

abbrev pub max_client_message_size : ℕ
max_client_message_size = 4000000

abbrev pub signature_len : ℕ
signature_len = 64

-- What the client is and is connected to.
pub record Sender : Type 0 where
  pub encrypted : Bool
  pub max_holding_seconds : ℕ
  pub public_key : Bytes
  pub private_key : Bytes
  pub address_id : Bytes
  pub curve_secret_key : Bytes
  pub node_pubkey : Option Bytes
  pub sig_chain_block_hash : Option Bytes

-- The lists of the batch at hand, and the batches before it.
pub record Batches : Type 0 where
  pub outbound_msgs : List OutboundMessage
  pub dest_list : List Bytes
  pub payload_list : List Bytes
  pub total_size : ℕ

abbrev pub no_batch : Batches
no_batch = record { outbound_msgs = []; dest_list = []; payload_list = []; total_size = 0 }

-- The size that a message to all of `dests` with one payload has.
unfoldable pub dests_size : ℕ → List Bytes → ℕ
dests_size size [] = size
dests_size size (dest ∷ dests) = dests_size (size + (length dest + signature_len)) dests

abbrev pub add_to_batch : Bytes → Bytes → ℕ → Batches → Batches
add_to_batch dest payload size b = record b {
  dest_list = b.dest_list ++ (dest ∷ []);
  payload_list = b.payload_list ++ (payload ∷ []);
  total_size = b.total_size + size;
}

module _ (m : BytesMut) (c : Crypto) where
  open c use {hex_decode, sha256}

  abbrev node_element : Bytes → SigChainElem
  node_element node_public_key = record {
    id = [];
    next_pubkey = node_public_key;
    mining = false;
    signature = [];
    sig_algo = 0;
    vrf = [];
    proof = [];
  }

  -- `data_size`: the payload of this destination, or the only one.
  unfoldable pub data_size : List Bytes → ℕ → Outcome ℕ
  data_size payloads i = do
    payload ← unwrap (get_elem? payloads (if ltb 1 (length payloads) then i else 0))
    ok (length payload % 2 ^ 32)

  -- The signature for each destination, from the `i`-th on.
  unfoldable pub sign_dests :
      Sender → SigChain → Bytes → List Bytes → ℕ → List Bytes → Outcome (List Bytes)
  sign_dests s chain element_ser payloads i [] = ok []
  sign_dests s chain element_ser payloads i (dest ∷ dests) = do
    (dest_id, (dest_public_key, identifier)) ← parse_client_address c dest
    size ← data_size payloads i
    let addressed : SigChain = record chain {
      dest_id = dest_id;
      dest_pubkey = dest_public_key;
      data_size = size;
    }
    let digest : Bytes = sha256 (sha256 (serialize_metadata m addressed) ++ element_ser)
    signature ← ed25519_sign c digest (s.private_key ++ s.public_key)
    signatures ← sign_dests s chain element_ser payloads (suc i) dests
    ok (signature ∷ signatures)

  -- The hex text of the block hash, where there is one.
  abbrev pub decoded_hash : Option Bytes → Outcome Bytes
  decoded_hash none = ok []
  decoded_hash (some text) = unwrap (hex_decode text)

  unfoldable pub create_outbound_message :
      Sender → ℕ → List Bytes → List Bytes → Outcome OutboundMessage
  create_outbound_message s nonce dests payloads = do
    pubkey ← unwrap s.node_pubkey
    node_public_key ← unwrap (hex_decode pubkey)
    block_hash ← decoded_hash s.sig_chain_block_hash
    let element : SigChainElem = node_element node_public_key
    let chain : SigChain = record {
      nonce = nonce;
      data_size = 0;
      block_hash = block_hash;
      src_id = s.address_id;
      src_pubkey = s.public_key;
      dest_id = [];
      dest_pubkey = [];
      elems = element ∷ [];
    }
    signatures ← sign_dests s chain (serialize_unsigned m element) payloads 0 dests
    let msg : OutboundMessage = record {
      dest = [];
      dests = dests;
      payload = [];
      max_holding_seconds = s.max_holding_seconds;
      nonce = nonce;
      block_hash = block_hash;
      signatures = signatures;
      payloads = payloads;
    }
    ok msg

  module _ (nonces : ℕ → ℕ) (s : Sender) where
    -- `outbound_msgs.push(create_outbound_message(..)?)`
    unfoldable pub push_message : Batches → Outcome (List OutboundMessage)
    push_message b = do
      msg ← create_outbound_message s (nonces (length b.outbound_msgs)) b.dest_list b.payload_list
      ok (b.outbound_msgs ++ (msg ∷ []))

    -- The batch at hand is sent off where the next payload does not fit.
    unfoldable pub flush_batch : ℕ → Batches → Outcome Batches
    flush_batch size b = elim (ltb max_client_message_size (b.total_size + size)) [
      | false ↦ ok b
      | true ↦ do
        msgs ← push_message b
        let flushed : Batches = record {
          outbound_msgs = msgs;
          dest_list = [];
          payload_list = [];
          total_size = 0;
        }
        ok flushed
    ]

    -- `for i in 0..payloads.len()`
    unfoldable pub fill_batches : List Bytes → List Bytes → Batches → Outcome Batches
    fill_batches dests [] b = ok b
    fill_batches [] (payload ∷ payloads) b = panicked
    fill_batches (dest ∷ dests) (payload ∷ payloads) b =
        let size = length payload + length dest + signature_len in
        do
          refuse_if (ltb max_client_message_size size) "message oversize"
          flushed ← flush_batch size b
          fill_batches dests payloads (add_to_batch dest payload size flushed)

    -- The lists of the last message.
    unfoldable pub last_batch : List Bytes → List Bytes → Outcome Batches
    last_batch dests [] = panicked
    last_batch dests (payload ∷ []) = do
      refuse_if (ltb max_client_message_size (dests_size (length payload) dests)) "message oversize"
      let all : Batches = record no_batch { dest_list = dests; payload_list = payload ∷ [] }
      ok all
    last_batch dests (payload ∷ (payload2 ∷ payloads)) =
        fill_batches dests (payload ∷ (payload2 ∷ payloads)) no_batch

    -- The messages of one `send_messages`.
    unfoldable pub outbound_messages : List Bytes → List Bytes → Outcome (List OutboundMessage)
    outbound_messages dests payloads = do batch ← last_batch dests payloads; push_message batch

  module _ (p : Encoding) where
    open p use {encode_outbound, encode_client, zlib}

    unfoldable pub create_client_message : OutboundMessage → ClientMessage
    create_client_message msg =
        if ltb 1 (length msg.payloads)
        then (record {
          message_type = outbound_message;
          compression_type = compression_zlib;
          message = zlib (encode_outbound msg);
        })
        else (record {
          message_type = outbound_message;
          compression_type = compression_none;
          message = encode_outbound msg;
        })

    -- `write_message`: what the socket's channel got. Its errors are logged.
    abbrev write_message : Option (Bytes → Bool) → Bytes → Outcome (List Bytes)
    write_message stdin_tx bytes = do
      accepts ← unwrap stdin_tx
      ok (if accepts bytes then bytes ∷ [] else [])

    abbrev write_messages : Option (Bytes → Bool) → List OutboundMessage → Outcome (List Bytes)
    write_messages stdin_tx [] = ok []
    write_messages stdin_tx (msg ∷ msgs) = do
      wrote ← write_message stdin_tx (encode_client (create_client_message msg))
      more ← write_messages stdin_tx msgs
      ok (wrote ++ more)

    -- What went to the socket, and the cache of shared keys.
    unfoldable pub send_messages :
        (Bytes → Option Bytes)
        → Option (Bytes → Bool)
        → (ℕ → ℕ)
        → Random
        → Sender
        → List Bytes
        → Payload
        → Map Bytes Bytes
        → Outcome (List Bytes × Map Bytes Bytes)
    send_messages get_registrant stdin_tx nonces rnd s dests payload keys = do
      processed ← process_dests get_registrant dests
      elim processed [
        | [] ↦ ok ([], keys)
        | dest ∷ more ↦ do
          (payloads, keys') ←
              create_payloads c p (dest ∷ more) payload s.encrypted rnd s.curve_secret_key keys
          msgs ← outbound_messages nonces s (dest ∷ more) payloads
          wrote ← write_messages stdin_tx msgs
          ok (wrote, keys')
      ]
