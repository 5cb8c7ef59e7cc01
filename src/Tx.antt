-- ===== src/Tx.antt =====
-- src/tx.rs, src/payload.rs, src/program.rs and src/signature.rs: transactions, what they carry, and
-- how a wallet of src/wallet.rs signs them. This module has the messages of protos/transaction.proto
-- and the functions of src/payload.rs.
pub mod Building
pub mod Reading
pub mod Signing
pub mod Verifying
mod Wire
mod Runs
use nkn_sdk_rust.Prelude.{ℕ, ◌≡◌, Bool, List, Option, some, Bytes}
use nkn_sdk_rust.Prelude.Int.{ℤ}
use nkn_sdk_rust.NanoPay.{NanoPayPayload}

pub data PayloadType : Type 0 where
  coinbase_type : PayloadType
  transfer_asset_type : PayloadType
  sig_chain_txn_type : PayloadType
  register_name_type : PayloadType
  transfer_name_type : PayloadType
  delete_name_type : PayloadType
  subscribe_type : PayloadType
  unsubscribe_type : PayloadType
  generate_id_type : PayloadType
  nano_pay_type : PayloadType
  issue_asset_type : PayloadType
  generate_id2_type : PayloadType

-- What a payload holds, by its message. `asset` stands for `Coinbase` and for `TransferAsset`, which
-- have the same fields.
pub record Asset : Type 0 where
  pub sender : Bytes
  pub recipient : Bytes
  pub amount : ℤ

pub record SigChainTxn : Type 0 where
  pub sig_chain : Bytes
  pub submitter : Bytes

pub record GenerateId : Type 0 where
  pub public_key : Bytes
  pub registration_fee : ℤ
  pub sender : Bytes
  pub version : ℤ

pub record Subscribe : Type 0 where
  pub subscriber : Bytes
  pub identifier : Bytes
  pub topic : Bytes
  pub bucket : ℕ
  pub duration : ℕ
  pub meta : Bytes

pub record Unsubscribe : Type 0 where
  pub subscriber : Bytes
  pub identifier : Bytes
  pub topic : Bytes

pub record IssueAsset : Type 0 where
  pub sender : Bytes
  pub name : Bytes
  pub symbol : Bytes
  pub total_supply : ℤ
  pub precision : ℕ

pub record RegisterName : Type 0 where
  pub registrant : Bytes
  pub name : Bytes
  pub registration_fee : ℤ

pub record TransferName : Type 0 where
  pub name : Bytes
  pub registrant : Bytes
  pub recipient : Bytes

pub record DeleteName : Type 0 where
  pub registrant : Bytes
  pub name : Bytes

pub data PayloadMessage : Type 0 where
  coinbase : Asset → PayloadMessage
  transfer_asset : Asset → PayloadMessage
  sig_chain_txn : SigChainTxn → PayloadMessage
  generate_id : GenerateId → PayloadMessage
  nano_pay : NanoPayPayload → PayloadMessage
  subscribe : Subscribe → PayloadMessage
  unsubscribe : Unsubscribe → PayloadMessage
  issue_asset : IssueAsset → PayloadMessage
  register_name : RegisterName → PayloadMessage
  transfer_name : TransferName → PayloadMessage
  delete_name : DeleteName → PayloadMessage

pub record Payload : Type 0 where
  pub kind : ℕ
  pub contents : Bytes

pub record UnsignedTx : Type 0 where
  pub payload : Option Payload
  pub nonce : ℕ
  pub fee : ℤ
  pub attributes : Bytes

pub record Program : Type 0 where
  pub code : Bytes
  pub parameter : Bytes

-- The protobuf message `Transaction`.
pub record PbTransaction : Type 0 where
  pub unsigned_tx : Option UnsignedTx
  pub programs : List Program

pub record Transaction : Type 0 where
  pub pb_tx : PbTransaction
  pub hash : Bytes
  pub size : ℕ
  pub is_signature_verified : Bool

-- The message that each payload type stands for.
abbrev pub message_type : PayloadMessage → PayloadType
message_type (coinbase m) = coinbase_type
message_type (transfer_asset m) = transfer_asset_type
message_type (sig_chain_txn m) = sig_chain_txn_type
message_type (generate_id m) = generate_id_type
message_type (nano_pay m) = nano_pay_type
message_type (subscribe m) = subscribe_type
message_type (unsubscribe m) = unsubscribe_type
message_type (issue_asset m) = issue_asset_type
message_type (register_name m) = register_name_type
message_type (transfer_name m) = transfer_name_type
message_type (delete_name m) = delete_name_type

-- The crate `prost`: each message is encoded, and decoded as the message of a payload type. What was
-- encoded is decoded as it was.
pub record Prost : Type 0 where
  pub encode_message : PayloadMessage → Bytes
  pub decode_message : PayloadType → Bytes → Option PayloadMessage
  pub encode_tx : PbTransaction → Bytes
  pub decode_tx : Bytes → Option PbTransaction
  pub decode_message-encode_message :
      (m : PayloadMessage) → decode_message (message_type m) (encode_message m) ≡ some m
  pub decode_tx-encode_tx : (tx : PbTransaction) → decode_tx (encode_tx tx) ≡ some tx
