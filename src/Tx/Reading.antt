-- ===== src/Tx/Reading.antt =====
-- What a node reads of a transaction that src/tx.rs made: the payload goes by its type number.
use nkn_sdk_rust.Prelude.{ℕ, ◌≡◌, refl, some, Outcome, ok, ◌>>=◌, Bytes, unwrap}
use nkn_sdk_rust.Prelude.Int.{ℤ, pos}
use nkn_sdk_rust.Tx.{
  coinbase_type, transfer_asset_type, sig_chain_txn_type, register_name_type, transfer_name_type,
  delete_name_type, subscribe_type, unsubscribe_type, generate_id_type, nano_pay_type,
  issue_asset_type, generate_id2_type, PayloadType, PayloadMessage, message_type, Payload, Prost,
  nano_pay, transfer_asset, sig_chain_txn, generate_id, subscribe, unsubscribe,
}
use nkn_sdk_rust.Tx.Building.{
  type_number, type_from, pack_payload, unpack_payload, new_msg_tx, encode, decode, new_nanopay,
  new_transfer_asset, new_sigchain, new_generate_id, new_subscribe, new_unsubscribe,
  new_nanopay_payload, new_transfer_asset_payload, new_sigchain_payload, new_generate_id_payload,
  new_subscribe_payload, new_unsubscribe_payload, from_pb,
}

-- The contents of a transaction.
pub record Contents : Type 0 where
  pub message : PayloadMessage
  pub nonce : ℕ
  pub fee : ℤ
  pub attributes : Bytes

abbrev pub contents : PayloadMessage → ℕ → ℤ → Bytes → Contents
contents m nonce fee attrs = record { message = m; nonce = nonce; fee = fee; attributes = attrs }

type_from-type_number : (kind : PayloadType) → type_from (type_number kind) ≡ some kind
type_from-type_number coinbase_type = refl
type_from-type_number transfer_asset_type = refl
type_from-type_number sig_chain_txn_type = refl
type_from-type_number register_name_type = refl
type_from-type_number transfer_name_type = refl
type_from-type_number delete_name_type = refl
type_from-type_number subscribe_type = refl
type_from-type_number unsubscribe_type = refl
type_from-type_number generate_id_type = refl
type_from-type_number nano_pay_type = refl
type_from-type_number issue_asset_type = refl
type_from-type_number generate_id2_type = refl

module _ (p : Prost) where
  open p use {encode_message, decode_message, decode_message-encode_message, decode_tx-encode_tx}

  -- Reading a transaction off its bytes.
  abbrev pub read_payload : Payload → Outcome PayloadMessage
  read_payload payload = do
    kind ← unwrap (type_from payload.kind)
    unwrap (decode_message kind (unpack_payload payload))

  abbrev pub read_contents : Bytes → Outcome Contents
  read_contents bytes = do
    tx ← decode p bytes
    unsigned ← unwrap tx.pb_tx.unsigned_tx
    payload ← unwrap unsigned.payload
    message ← read_payload payload
    ok (contents message unsigned.nonce unsigned.fee unsigned.attributes)

  read_payload-pack_payload :
      (m : PayloadMessage) → read_payload (pack_payload p (message_type m) m) ≡ ok m
  unfolding pack_payload
  read_payload-pack_payload m =
      rw (type_from-type_number (message_type m), decode_message-encode_message m) refl

  -- A message that is packed under its own type is read back with the rest of the transaction.
  read_contents-encode :
      (m : PayloadMessage) (nonce : ℕ) (fee : ℤ) (attrs : Bytes)
      → read_contents
          (encode p (from_pb (new_msg_tx (pack_payload p (message_type m) m) nonce fee attrs)))
        ≡ ok (contents m nonce fee attrs)
  unfolding encode decode new_msg_tx
  read_contents-encode m nonce fee attrs =
      rw (decode_tx-encode_tx (new_msg_tx (pack_payload p (message_type m) m) nonce fee attrs))
        (rw (read_payload-pack_payload m) refl)

  -- The bytes of each transaction that `Transaction` makes are read as a message of the kind of its
  -- constructor, with each argument in the field that it is for, and with its nonce, fee and attributes.
  -- A subscription is to bucket 0, a payment through a channel and a signature chain have no fee, and a
  -- payment no nonce.
  pub read_contents-new :
      (a b d : Bytes) (id n e : ℕ) (amount fee version : ℤ) (meta attrs : Bytes)
      → (read_contents (encode p (new_nanopay p attrs a b id amount n e))
          ≡ ok (
              contents
                (nano_pay (record {
                  sender = a;
                  recipient = b;
                  id = id;
                  amount = amount;
                  txn_expiration = n;
                  nano_pay_expiration = e;
                }))
                0
                (pos 0)
                attrs))
        × (read_contents (encode p (new_transfer_asset p a b amount n fee attrs))
            ≡ ok (
                contents
                  (transfer_asset (record { sender = a; recipient = b; amount = amount }))
                  n
                  fee
                  attrs))
        × (read_contents (encode p (new_sigchain p attrs a b n))
            ≡ ok (
                contents (sig_chain_txn (record { sig_chain = a; submitter = b })) n (pos 0) attrs))
        × (read_contents (encode p (new_generate_id p a b amount version n fee attrs))
            ≡ ok (
                contents
                  (generate_id (record {
                    public_key = a;
                    sender = b;
                    registration_fee = amount;
                    version = version;
                  }))
                  n
                  fee
                  attrs))
        × (read_contents (encode p (new_subscribe p attrs a b d e meta n fee))
            ≡ ok (
                contents
                  (subscribe (record {
                    subscriber = a;
                    identifier = b;
                    topic = d;
                    bucket = 0;
                    duration = e;
                    meta = meta;
                  }))
                  n
                  fee
                  attrs))
        × (read_contents (encode p (new_unsubscribe p attrs a b d n fee))
            ≡ ok (
                contents
                  (unsubscribe (record { subscriber = a; identifier = b; topic = d }))
                  n
                  fee
                  attrs))
  unfolding new_nanopay new_transfer_asset new_sigchain new_generate_id new_subscribe
      new_unsubscribe
  read_contents-new a b d id n e amount fee version meta attrs = (
    read_contents-encode (new_nanopay_payload a b id amount n e) 0 (pos 0) attrs,
    read_contents-encode (new_transfer_asset_payload a b amount) n fee attrs,
    read_contents-encode (new_sigchain_payload a b) n (pos 0) attrs,
    read_contents-encode (new_generate_id_payload a b amount version) n fee attrs,
    read_contents-encode (new_subscribe_payload a b d e meta) n fee attrs,
    read_contents-encode (new_unsubscribe_payload a b d) n fee attrs,
  )
