-- ===== src/Client.antt =====
-- src/client.rs: the messages that a client sends and opens. This module has the messages of
-- protos/payloads.proto and protos/clientmessage.proto, and what the client takes from the
-- crates `prost`, `flate2` and `rand`.
pub mod Payloads
pub mod Sealing
pub mod Destinations
pub mod Messages
pub mod Batches
pub mod Splitting
pub mod Returning
mod Runs
use nkn_sdk_rust.Prelude.{ℕ, ◌≡◌, Bool, List, Bytes, length}

pub record Payload : Type 0 where
  pub kind : ℕ
  pub message_id : Bytes
  pub contents : Bytes
  pub reply_to_id : Bytes
  pub no_reply : Bool

pub record Message : Type 0 where
  pub payload : Bytes
  pub encrypted : Bool
  pub nonce : Bytes
  pub encrypted_key : Bytes

pub record OutboundMessage : Type 0 where
  pub dest : Bytes
  pub dests : List Bytes
  pub payload : Bytes
  pub max_holding_seconds : ℕ
  pub nonce : ℕ
  pub block_hash : Bytes
  pub signatures : List Bytes
  pub payloads : List Bytes

pub data CompressionType : Type 0 where
  compression_none : CompressionType
  compression_zlib : CompressionType

pub data ClientMessageType : Type 0 where
  outbound_message : ClientMessageType
  inbound_message : ClientMessageType
  receipt : ClientMessageType

pub record ClientMessage : Type 0 where
  pub message_type : ClientMessageType
  pub message : Bytes
  pub compression_type : CompressionType

-- The encodings: `encode` of each message, and zlib.
pub record Encoding : Type 0 where
  pub encode_payload : Payload → Bytes
  pub encode_message : Message → Bytes
  pub encode_outbound : OutboundMessage → Bytes
  pub encode_client : ClientMessage → Bytes
  pub zlib : Bytes → Bytes

-- What `rng.fill` puts into the arrays of one `encrypt_payload`: a key of 32 bytes, and nonces of 24.
pub record Random : Type 0 where
  pub key : Bytes
  pub msg_nonce : Bytes
  pub key_nonce : ℕ → Bytes
  pub length-key : length key ≡ 32
  pub length-msg_nonce : length msg_nonce ≡ 24
  pub length-key_nonce : (i : ℕ) → length (key_nonce i) ≡ 24
