-- ===== src/Client/Runs.antt =====
-- src/client.rs at concrete messages.
use nkn_sdk_rust.Prelude.{
  ℕ, ◌+◌, ◌≡◌, refl, inl, true, false, [], ◌∷◌, ◌++◌, ok, none, some, Bytes, Map, bytes_eq,
  replicate, arith, length-replicate,
}
use nkn_sdk_rust.Serialization.Buffers.{big_endian}
use nkn_sdk_rust.Sigchain.{SigChain, IsSized, IsSameMetadata, serialize_metadata-injective}
use nkn_sdk_rust.Addresses.Plain.{plain, hex, tag}
use nkn_sdk_rust.Addresses.Lossy.{from_utf8_lossy}
use nkn_sdk_rust.Addresses.{dot, parse_client_address, get_or_compute_shared_key, encrypt}
use nkn_sdk_rust.Client.{Payload, Encoding, Random}
use nkn_sdk_rust.Client.Payloads.{dest_key, encrypt_for, encrypt_payload}
use nkn_sdk_rust.Client.Sealing.{Sent, encrypt_payload-Sent}
use nkn_sdk_rust.Client.Messages.{Sender, outbound_messages}
use nkn_sdk_rust.Client.Batches.{IsSplit}
use nkn_sdk_rust.Client.Splitting.{outbound_messages-IsSplit}
use nkn_sdk_rust.Client.Returning.{Returns, IsConnected, outbound_messages_returns}

abbrev encoding : Encoding
encoding = record {
  encode_payload = λ payload. payload.contents;
  encode_message = λ msg. msg.payload;
  encode_outbound = λ msg. msg.dest;
  encode_client = λ msg. msg.message;
  zlib = λ bytes. bytes;
}

abbrev random : Random
random = record {
  key = replicate 32 5;
  msg_nonce = replicate 24 6;
  key_nonce = λ i. replicate 24 i;
  length-key = refl;
  length-msg_nonce = refl;
  length-key_nonce = λ i. length-replicate 24 i;
}

abbrev hello : Payload
hello = record {
  kind = 1;
  message_id = 9 ∷ [];
  contents = b'h' ∷ (b'i' ∷ []);
  reply_to_id = [];
  no_reply = false;
}

abbrev alice : Bytes
alice = hex (replicate 32 65)

abbrev bob : Bytes
bob = b'x' ∷ (dot ∷ hex (replicate 32 66))

abbrev secret : Bytes
secret = replicate 32 7

abbrev shared_keys : Map Bytes Bytes
shared_keys = (replicate 32 65, replicate 32 72) ∷ (replicate 32 66, replicate 32 73) ∷ []

abbrev sealed_hello : Bytes
sealed_hello = tag ++ (b'h' ∷ (b'i' ∷ []))

two_sealed :
    encrypt_payload plain encoding hello (alice ∷ bob ∷ []) random secret []
    ≡ ok (sealed_hello ∷ sealed_hello ∷ [], shared_keys)
unfolding encrypt_payload encrypt_for dest_key encrypt parse_client_address
    get_or_compute_shared_key from_utf8_lossy
two_sealed = refl

encrypt_payload-Sent_example :
    Sent plain encoding
      (b'h' ∷ (b'i' ∷ []))
      secret
      []
      (alice ∷ bob ∷ [])
      (sealed_hello ∷ sealed_hello ∷ [])
      shared_keys
encrypt_payload-Sent_example =
    encrypt_payload-Sent plain encoding hello (alice ∷ bob ∷ []) random secret [] two_sealed

abbrev sender : Sender
sender = record {
  encrypted = true;
  max_holding_seconds = 0;
  public_key = replicate 32 65;
  private_key = replicate 32 1;
  address_id = replicate 32 2;
  curve_secret_key = secret;
  node_pubkey = some (hex (3 ∷ []));
  sig_chain_block_hash = none;
}

connected : IsConnected big_endian plain sender
connected = record {
  pubkey = hex (3 ∷ []);
  has_node = refl;
  node_key = 3 ∷ [];
  is_hex = refl;
  hash = [];
  has_hash = refl;
  keypair = λ digest. (_, refl);
}

abbrev nonces : ℕ → ℕ
nonces i = i + 1

alice_parses : Returns (parse_client_address plain alice)
unfolding parse_client_address
alice_parses = (_, refl)

bob_parses : Returns (parse_client_address plain bob)
unfolding parse_client_address
bob_parses = (_, refl)

outbound_messages_returns_example :
    Returns (
      outbound_messages big_endian plain nonces sender
        (alice ∷ bob ∷ [])
        ((1 ∷ []) ∷ (2 ∷ []) ∷ []))
outbound_messages_returns_example =
    outbound_messages_returns big_endian plain nonces sender (alice ∷ bob ∷ [])
      ((1 ∷ []) ∷ (2 ∷ []) ∷ []) connected (alice_parses, (bob_parses, tt))
      (refl, (ground arith, (ground arith, tt)))

made :
    Returns (
      outbound_messages big_endian plain nonces sender
        (alice ∷ bob ∷ [])
        ((1 ∷ []) ∷ (2 ∷ []) ∷ []))
made =
    outbound_messages_returns big_endian plain nonces sender (alice ∷ bob ∷ [])
      ((1 ∷ []) ∷ (2 ∷ []) ∷ []) connected (alice_parses, (bob_parses, tt))
      (refl, (ground arith, (ground arith, tt)))

outbound_messages-IsSplit_example : IsSplit made.0 (alice ∷ bob ∷ []) ((1 ∷ []) ∷ (2 ∷ []) ∷ [])
outbound_messages-IsSplit_example =
    outbound_messages-IsSplit big_endian plain nonces sender (alice ∷ bob ∷ [])
      ((1 ∷ []) ∷ (2 ∷ []) ∷ []) (inl refl) made.1

abbrev chain : SigChain
chain = record {
  nonce = 7;
  data_size = 300;
  block_hash = 1 ∷ [];
  src_id = 2 ∷ (3 ∷ []);
  src_pubkey = 4 ∷ [];
  dest_id = [];
  dest_pubkey = 5 ∷ [];
  elems = [];
}

sized : IsSized chain
sized = record {
  nonce_fits = ground arith;
  data_size_fits = ground arith;
  block_hash_fits = ground arith;
  src_id_fits = ground arith;
  src_pubkey_fits = ground arith;
  dest_id_fits = ground arith;
  dest_pubkey_fits = ground arith;
}

serialize_metadata-injective_example : IsSameMetadata chain (record chain { elems = [] })
serialize_metadata-injective_example =
    serialize_metadata-injective big_endian chain (record chain { elems = [] }) sized sized refl
