-- ===== src/Tx/Wire.antt =====
-- A small encoding of the messages of src/tx.rs that keeps what `prost` promises: the fields one
-- after the other, each ended by a zero.
use nkn_sdk_rust.Prelude.{◌≡◌, refl, ap, ◌∙◌, List, [], ◌∷◌, map, Option, none, some, Bytes}
use nkn_sdk_rust.Prelude.Fields.{pack, unpack, unpack-pack, as_nat, get, int, as_int, as_int-int}
use nkn_sdk_rust.Tx.{
  coinbase_type, transfer_asset_type, sig_chain_txn_type, register_name_type, transfer_name_type,
  delete_name_type, subscribe_type, unsubscribe_type, generate_id_type, nano_pay_type,
  issue_asset_type, generate_id2_type, PayloadType, PayloadMessage, GenerateId, coinbase,
  transfer_asset, sig_chain_txn, generate_id, nano_pay, subscribe, unsubscribe, issue_asset,
  register_name, transfer_name, delete_name, message_type, Payload, UnsignedTx, Program,
  PbTransaction, Prost,
}

abbrev fields : PayloadMessage → List Bytes
fields (coinbase m) = m.sender ∷ m.recipient ∷ int m.amount ∷ []
fields (transfer_asset m) = m.sender ∷ m.recipient ∷ int m.amount ∷ []
fields (sig_chain_txn m) = m.sig_chain ∷ m.submitter ∷ []
fields (generate_id m) = m.public_key ∷ int m.registration_fee ∷ m.sender ∷ int m.version ∷ []
fields (nano_pay m) =
    m.sender
    ∷ m.recipient
    ∷ (m.id ∷ [])
    ∷ int m.amount
    ∷ (m.txn_expiration ∷ [])
    ∷ (m.nano_pay_expiration ∷ [])
    ∷ []
fields (subscribe m) =
    m.subscriber ∷ m.identifier ∷ m.topic ∷ (m.bucket ∷ []) ∷ (m.duration ∷ []) ∷ m.meta ∷ []
fields (unsubscribe m) = m.subscriber ∷ m.identifier ∷ m.topic ∷ []
fields (issue_asset m) = m.sender ∷ m.name ∷ m.symbol ∷ int m.total_supply ∷ (m.precision ∷ []) ∷ []
fields (register_name m) = m.registrant ∷ m.name ∷ int m.registration_fee ∷ []
fields (transfer_name m) = m.name ∷ m.registrant ∷ m.recipient ∷ []
fields (delete_name m) = m.registrant ∷ m.name ∷ []

abbrev as_generate_id : List Bytes → GenerateId
as_generate_id fs = record {
  public_key = get 0 fs;
  registration_fee = as_int (get 1 fs);
  sender = get 2 fs;
  version = as_int (get 3 fs);
}

abbrev from_fields : PayloadType → List Bytes → PayloadMessage
from_fields coinbase_type fs =
    coinbase (record { sender = get 0 fs; recipient = get 1 fs; amount = as_int (get 2 fs) })
from_fields transfer_asset_type fs =
    transfer_asset (record { sender = get 0 fs; recipient = get 1 fs; amount = as_int (get 2 fs) })
from_fields sig_chain_txn_type fs =
    sig_chain_txn (record { sig_chain = get 0 fs; submitter = get 1 fs })
from_fields generate_id_type fs = generate_id (as_generate_id fs)
from_fields generate_id2_type fs = generate_id (as_generate_id fs)
from_fields nano_pay_type fs = nano_pay (record {
  sender = get 0 fs;
  recipient = get 1 fs;
  id = as_nat (get 2 fs);
  amount = as_int (get 3 fs);
  txn_expiration = as_nat (get 4 fs);
  nano_pay_expiration = as_nat (get 5 fs);
})
from_fields subscribe_type fs = subscribe (record {
  subscriber = get 0 fs;
  identifier = get 1 fs;
  topic = get 2 fs;
  bucket = as_nat (get 3 fs);
  duration = as_nat (get 4 fs);
  meta = get 5 fs;
})
from_fields unsubscribe_type fs =
    unsubscribe (record { subscriber = get 0 fs; identifier = get 1 fs; topic = get 2 fs })
from_fields issue_asset_type fs = issue_asset (record {
  sender = get 0 fs;
  name = get 1 fs;
  symbol = get 2 fs;
  total_supply = as_int (get 3 fs);
  precision = as_nat (get 4 fs);
})
from_fields register_name_type fs =
    register_name
      (record { registrant = get 0 fs; name = get 1 fs; registration_fee = as_int (get 2 fs) })
from_fields transfer_name_type fs =
    transfer_name (record { name = get 0 fs; registrant = get 1 fs; recipient = get 2 fs })
from_fields delete_name_type fs = delete_name (record { registrant = get 0 fs; name = get 1 fs })

from_fields-fields : (m : PayloadMessage) → from_fields (message_type m) (fields m) ≡ m
from_fields-fields (coinbase m) = rw (as_int-int m.amount) refl
from_fields-fields (transfer_asset m) = rw (as_int-int m.amount) refl
from_fields-fields (sig_chain_txn m) = refl
from_fields-fields (generate_id m) =
    rw (as_int-int m.registration_fee) (rw (as_int-int m.version) refl)
from_fields-fields (nano_pay m) = rw (as_int-int m.amount) refl
from_fields-fields (subscribe m) = refl
from_fields-fields (unsubscribe m) = refl
from_fields-fields (issue_asset m) = rw (as_int-int m.total_supply) refl
from_fields-fields (register_name m) = rw (as_int-int m.registration_fee) refl
from_fields-fields (transfer_name m) = refl
from_fields-fields (delete_name m) = refl

abbrev decode_message : PayloadType → Bytes → Option PayloadMessage
decode_message kind bytes = some (from_fields kind (unpack bytes))

pub decode_message-pack :
    (m : PayloadMessage) → decode_message (message_type m) (pack (fields m)) ≡ some m
decode_message-pack m = rw (unpack-pack (fields m)) (ap some (from_fields-fields m))

abbrev payload_bytes : Option Payload → Bytes
payload_bytes none = []
payload_bytes (some u) = pack ((u.kind ∷ []) ∷ u.contents ∷ [])

abbrev as_payload : List Bytes → Option Payload
as_payload [] = none
as_payload (f ∷ fs) = some (record { kind = as_nat f; contents = get 0 fs })

as_payload-payload_bytes : (o : Option Payload) → as_payload (unpack (payload_bytes o)) ≡ o
as_payload-payload_bytes none = refl
as_payload-payload_bytes (some u) = ap as_payload (unpack-pack ((u.kind ∷ []) ∷ u.contents ∷ []))

abbrev unsigned_bytes : Option UnsignedTx → Bytes
unsigned_bytes none = []
unsigned_bytes (some u) =
    pack (payload_bytes u.payload ∷ (u.nonce ∷ []) ∷ int u.fee ∷ u.attributes ∷ [])

abbrev as_unsigned : List Bytes → Option UnsignedTx
as_unsigned [] = none
as_unsigned (f ∷ fs) = some (record {
  payload = as_payload (unpack f);
  nonce = as_nat (get 0 fs);
  fee = as_int (get 1 fs);
  attributes = get 2 fs;
})

as_unsigned-unsigned_bytes : (o : Option UnsignedTx) → as_unsigned (unpack (unsigned_bytes o)) ≡ o
as_unsigned-unsigned_bytes none = refl
as_unsigned-unsigned_bytes (some u) =
    ap as_unsigned
      (unpack-pack (payload_bytes u.payload ∷ (u.nonce ∷ []) ∷ int u.fee ∷ u.attributes ∷ []))
    ∙ (rw (as_payload-payload_bytes u.payload) (rw (as_int-int u.fee) refl))

abbrev program_bytes : Program → Bytes
program_bytes u = pack (u.code ∷ u.parameter ∷ [])

abbrev as_program : Bytes → Program
as_program bytes = let fs = unpack bytes in record { code = get 0 fs; parameter = get 1 fs }

as_program-program_bytes : (u : Program) → as_program (program_bytes u) ≡ u
as_program-program_bytes u = rw (unpack-pack (u.code ∷ u.parameter ∷ [])) refl

programs_again : (us : List Program) → map as_program (map program_bytes us) ≡ us
programs_again [] = refl
programs_again (u ∷ us) = rw (as_program-program_bytes u) (ap (λ vs. u ∷ vs) (programs_again us))

abbrev tx_bytes : PbTransaction → Bytes
tx_bytes tx = pack (unsigned_bytes tx.unsigned_tx ∷ map program_bytes tx.programs)

abbrev as_tx : List Bytes → Option PbTransaction
as_tx [] = none
as_tx (f ∷ fs) =
    some (record { unsigned_tx = as_unsigned (unpack f); programs = map as_program fs })

pub as_tx-tx_bytes : (tx : PbTransaction) → as_tx (unpack (tx_bytes tx)) ≡ some tx
as_tx-tx_bytes tx =
    ap as_tx (unpack-pack (unsigned_bytes tx.unsigned_tx ∷ map program_bytes tx.programs))
    ∙ (rw (as_unsigned-unsigned_bytes tx.unsigned_tx) (rw (programs_again tx.programs) refl))

abbrev pub wire : Prost
wire = record {
  encode_message = λ m. pack (fields m);
  decode_message = decode_message;
  encode_tx = tx_bytes;
  decode_tx = λ bytes. as_tx (unpack bytes);
  decode_message-encode_message = decode_message-pack;
  decode_tx-encode_tx = as_tx-tx_bytes;
}
