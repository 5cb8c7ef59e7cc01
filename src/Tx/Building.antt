-- ===== src/Tx/Building.antt =====
-- The constructors of src/tx.rs and of src/payload.rs. `attrs` of a transaction without attributes of
-- its own is what the random generator gives.
use nkn_sdk_rust.Prelude.{
  ℕ, List, [], ◌∷◌, Option, some, Outcome, ok, ◌>>=◌, Bytes, replicate, unwrap, get_elem?, false,
}
use nkn_sdk_rust.Prelude.Int.{ℤ, pos}
use nkn_sdk_rust.Tx.{
  PayloadType, coinbase_type, transfer_asset_type, sig_chain_txn_type, register_name_type,
  transfer_name_type, delete_name_type, subscribe_type, unsubscribe_type, generate_id_type,
  nano_pay_type, issue_asset_type, generate_id2_type, PayloadMessage, coinbase, transfer_asset,
  sig_chain_txn, generate_id, nano_pay, subscribe, unsubscribe, issue_asset, register_name,
  transfer_name, delete_name, Payload, PbTransaction, Transaction, Prost,
}

-- `payload_type as i32`
abbrev pub type_number : PayloadType → ℕ
type_number coinbase_type = 0
type_number transfer_asset_type = 1
type_number sig_chain_txn_type = 2
type_number register_name_type = 3
type_number transfer_name_type = 4
type_number delete_name_type = 5
type_number subscribe_type = 6
type_number unsubscribe_type = 7
type_number generate_id_type = 8
type_number nano_pay_type = 9
type_number issue_asset_type = 10
type_number generate_id2_type = 11

-- The payload types in the order of their numbers.
abbrev payload_types : List PayloadType
payload_types =
    coinbase_type ∷ transfer_asset_type ∷ sig_chain_txn_type ∷ register_name_type
    ∷ transfer_name_type ∷ delete_name_type ∷ subscribe_type ∷ unsubscribe_type ∷ generate_id_type
    ∷ nano_pay_type ∷ issue_asset_type ∷ generate_id2_type ∷ []

-- `PayloadType::from_i32`
abbrev pub type_from : ℕ → Option PayloadType
type_from n = get_elem? payload_types n

-- The messages of src/payload.rs.
abbrev pub new_coinbase : Bytes → Bytes → ℤ → PayloadMessage
new_coinbase sender recipient amount =
    coinbase (record { sender = sender; recipient = recipient; amount = amount })

abbrev pub new_transfer_asset_payload : Bytes → Bytes → ℤ → PayloadMessage
new_transfer_asset_payload sender recipient amount =
    transfer_asset (record { sender = sender; recipient = recipient; amount = amount })

abbrev pub new_sigchain_payload : Bytes → Bytes → PayloadMessage
new_sigchain_payload sig_chain submitter =
    sig_chain_txn (record { sig_chain = sig_chain; submitter = submitter })

abbrev pub new_generate_id_payload : Bytes → Bytes → ℤ → ℤ → PayloadMessage
new_generate_id_payload public_key sender registration_fee version = generate_id (record {
  public_key = public_key;
  sender = sender;
  registration_fee = registration_fee;
  version = version;
})

abbrev pub new_nanopay_payload : Bytes → Bytes → ℕ → ℤ → ℕ → ℕ → PayloadMessage
new_nanopay_payload sender recipient id amount txn_expiration nano_pay_expiration =
    nano_pay (record {
      sender = sender;
      recipient = recipient;
      id = id;
      amount = amount;
      txn_expiration = txn_expiration;
      nano_pay_expiration = nano_pay_expiration;
    })

abbrev pub new_subscribe_payload : Bytes → Bytes → Bytes → ℕ → Bytes → PayloadMessage
new_subscribe_payload subscriber identifier topic duration meta = subscribe (record {
  subscriber = subscriber;
  identifier = identifier;
  topic = topic;
  bucket = 0;
  duration = duration;
  meta = meta;
})

abbrev pub new_unsubscribe_payload : Bytes → Bytes → Bytes → PayloadMessage
new_unsubscribe_payload subscriber identifier topic =
    unsubscribe (record { subscriber = subscriber; identifier = identifier; topic = topic })

abbrev pub new_issue_asset : Bytes → Bytes → Bytes → ℕ → ℤ → PayloadMessage
new_issue_asset sender name symbol precision total_supply = issue_asset (record {
  sender = sender;
  name = name;
  symbol = symbol;
  precision = precision;
  total_supply = total_supply;
})

abbrev pub new_register_name : Bytes → Bytes → ℤ → PayloadMessage
new_register_name registrant name registration_fee =
    register_name
      (record { registrant = registrant; name = name; registration_fee = registration_fee })

abbrev pub new_transfer_name : Bytes → Bytes → Bytes → PayloadMessage
new_transfer_name registrant recipient name =
    transfer_name (record { registrant = registrant; recipient = recipient; name = name })

abbrev pub new_delete_name : Bytes → Bytes → PayloadMessage
new_delete_name registrant name = delete_name (record { registrant = registrant; name = name })

unfoldable pub new_msg_tx : Payload → ℕ → ℤ → Bytes → PbTransaction
new_msg_tx payload nonce fee attrs = record {
  unsigned_tx =
      some (record { payload = some payload; nonce = nonce; fee = fee; attributes = attrs });
  programs = [];
}

-- The other fields have their defaults.
abbrev pub from_pb : PbTransaction → Transaction
from_pb tx = record { pb_tx = tx; hash = replicate 20 0; size = 0; is_signature_verified = false }

abbrev pub unpack_payload : Payload → Bytes
unpack_payload payload = payload.contents

module _ (p : Prost) where
  open p use {encode_message, encode_tx, decode_tx}

  unfoldable pub pack_payload : PayloadType → PayloadMessage → Payload
  pack_payload kind m = record { kind = type_number kind; contents = encode_message m }

  unfoldable pub encode : Transaction → Bytes
  encode tx = encode_tx tx.pb_tx

  unfoldable pub decode : Bytes → Outcome Transaction
  decode bytes = do tx ← unwrap (decode_tx bytes); ok (from_pb tx)

  unfoldable pub new_nanopay : Bytes → Bytes → Bytes → ℕ → ℤ → ℕ → ℕ → Transaction
  unfolding pack_payload new_msg_tx
  new_nanopay attrs sender recipient id amount txn_expiration nano_pay_expiration =
      let payload =
        new_nanopay_payload sender recipient id amount txn_expiration nano_pay_expiration in
      from_pb (new_msg_tx (pack_payload nano_pay_type payload) 0 (pos 0) attrs)

  unfoldable pub new_transfer_asset : Bytes → Bytes → ℤ → ℕ → ℤ → Bytes → Transaction
  unfolding pack_payload new_msg_tx
  new_transfer_asset sender recipient amount nonce fee attrs =
      let payload = new_transfer_asset_payload sender recipient amount in
      from_pb (new_msg_tx (pack_payload transfer_asset_type payload) nonce fee attrs)

  unfoldable pub new_sigchain : Bytes → Bytes → Bytes → ℕ → Transaction
  unfolding pack_payload new_msg_tx
  new_sigchain attrs sig_chain submitter nonce =
      let payload = new_sigchain_payload sig_chain submitter in
      from_pb (new_msg_tx (pack_payload sig_chain_txn_type payload) nonce (pos 0) attrs)

  unfoldable pub new_generate_id : Bytes → Bytes → ℤ → ℤ → ℕ → ℤ → Bytes → Transaction
  unfolding pack_payload new_msg_tx
  new_generate_id public_key sender registration_fee version nonce fee attrs =
      let payload = new_generate_id_payload public_key sender registration_fee version in
      from_pb (new_msg_tx (pack_payload generate_id_type payload) nonce fee attrs)

  unfoldable pub new_subscribe : Bytes → Bytes → Bytes → Bytes → ℕ → Bytes → ℕ → ℤ → Transaction
  unfolding pack_payload new_msg_tx
  new_subscribe attrs subscriber identifier topic duration meta nonce fee =
      let payload = new_subscribe_payload subscriber identifier topic duration meta in
      from_pb (new_msg_tx (pack_payload subscribe_type payload) nonce fee attrs)

  unfoldable pub new_unsubscribe : Bytes → Bytes → Bytes → Bytes → ℕ → ℤ → Transaction
  unfolding pack_payload new_msg_tx
  new_unsubscribe attrs subscriber identifier topic nonce fee =
      let payload = new_unsubscribe_payload subscriber identifier topic in
      from_pb (new_msg_tx (pack_payload unsubscribe_type payload) nonce fee attrs)
