-- ===== src/Inbound/Runs.antt =====
-- src/client.rs at concrete messages that are received.
use nkn_sdk_rust.Prelude.{
  ◌≡◌, ◌⊎◌, refl, ap, ◌∙◌, true, false, none, some, List, [], ◌∷◌, ◌++◌, ok, Bytes, bytes_eq,
  is_utf8, replicate,
}
use nkn_sdk_rust.Prelude.Fields.{
  pack, unpack, unpack-pack, as_nat, get, flag, as_flag, as_flag-flag,
}
use nkn_sdk_rust.Addresses.Plain.{plain, hex, tag}
use nkn_sdk_rust.Addresses.Lossy.{from_utf8_lossy}
use nkn_sdk_rust.Addresses.{parse_client_address, get_or_compute_shared_key, encrypt}
use nkn_sdk_rust.Client.{Payload, Message, Encoding, Random, inbound_message}
use nkn_sdk_rust.Client.Payloads.{dest_key, encrypt_payload}
use nkn_sdk_rust.Inbound.{ClientState, InboundMessage, Decoding, received, done, handle_message}
use nkn_sdk_rust.Inbound.Asking.{await_reply}
use nkn_sdk_rust.Inbound.Delivery.{IsShared, handle_message-encrypt_payload}
use nkn_sdk_rust.Inbound.Replies.{IsWaiting, handle_message-IsWaiting}
use nkn_sdk_rust.Inbound.Frame.{IsFrame, handle_message-Frame}

abbrev payload_fields : Payload → List Bytes
payload_fields u = (u.kind ∷ []) ∷ u.message_id ∷ u.contents ∷ u.reply_to_id ∷ flag u.no_reply ∷ []

abbrev as_payload : List Bytes → Payload
as_payload fs = record {
  kind = as_nat (get 0 fs);
  message_id = get 1 fs;
  contents = get 2 fs;
  reply_to_id = get 3 fs;
  no_reply = as_flag (get 4 fs);
}

abbrev message_fields : Message → List Bytes
message_fields u = u.payload ∷ flag u.encrypted ∷ u.nonce ∷ u.encrypted_key ∷ []

abbrev as_message : List Bytes → Message
as_message fs = record {
  payload = get 0 fs;
  encrypted = as_flag (get 1 fs);
  nonce = get 2 fs;
  encrypted_key = get 3 fs;
}

abbrev encoding : Encoding
encoding = record {
  encode_payload = λ u. pack (payload_fields u);
  encode_message = λ u. pack (message_fields u);
  encode_outbound = λ msg. msg.dest;
  encode_client = λ msg. msg.message;
  zlib = λ bytes. bytes;
}

abbrev decoding : Decoding encoding
decoding = record {
  parse_json = λ bytes. none;
  decode_client = λ bytes. some (some inbound_message, bytes);
  decode_inbound = λ bytes.
      let fs = unpack bytes in
      some (record { src = get 0 fs; payload = get 1 fs; prev_hash = get 2 fs });
  decode_message = λ bytes. some (as_message (unpack bytes));
  decode_payload = λ bytes. some (as_payload (unpack bytes));
  decode_text = λ bytes. some bytes;
  decode_message-encode_message = λ u.
      ap (λ fs. some (as_message fs)) (unpack-pack (message_fields u))
      ∙ ap (λ b. some (record u { encrypted = b })) (as_flag-flag u.encrypted);
  decode_payload-encode_payload = λ u.
      ap (λ fs. some (as_payload fs)) (unpack-pack (payload_fields u))
      ∙ ap (λ b. some (record u { no_reply = b })) (as_flag-flag u.no_reply);
}

abbrev random : Random
random = record {
  key = replicate 32 5;
  msg_nonce = replicate 24 6;
  key_nonce = λ i. replicate 24 i;
  length-key = refl;
  length-msg_nonce = refl;
  length-key_nonce = λ i. refl;
}

-- Keys that are their own secrets.
abbrev alice_key : Bytes
alice_key = replicate 32 1

abbrev bob_key : Bytes
bob_key = replicate 32 2

abbrev alice : Bytes
alice = hex alice_key

abbrev bob : Bytes
bob = hex bob_key

abbrev hello : Payload
hello = record {
  kind = 0;
  message_id = b'm' ∷ [];
  contents = b'h' ∷ b'i' ∷ [];
  reply_to_id = [];
  no_reply = false;
}

abbrev bob_state : ClientState
bob_state = record {
  closed = false;
  node = none;
  sig_chain_block_hash = none;
  shared_keys = [];
  response_channels = [];
  connected = [];
  messages = [];
  challenges = [];
  receipts = [];
}

abbrev shared_key : IsShared plain encoding bob bob_key [] alice alice_key []
unfolding dest_key parse_client_address get_or_compute_shared_key from_utf8_lossy
shared_key = record {
  shared = replicate 32 3;
  sender_keys = (bob_key, replicate 32 3) ∷ [];
  receiver_keys = (alice_key, replicate 32 3) ∷ [];
  sender_finds = refl;
  receiver_finds = refl;
}

abbrev sealed_hello : Message
sealed_hello = record {
  payload = tag ++ pack (payload_fields hello);
  encrypted = true;
  nonce = replicate 24 6;
  encrypted_key = [];
}

abbrev raw : Bytes
raw = pack (message_fields sealed_hello)

sealed :
    encrypt_payload plain encoding hello (bob ∷ []) random alice_key []
    ≡ ok (raw ∷ [], (bob_key, replicate 32 3) ∷ [])
unfolding encrypt_payload dest_key encrypt parse_client_address get_or_compute_shared_key
    from_utf8_lossy
sealed = refl

-- What the node passes on, with a receipt to be given.
abbrev inbound : Bytes
inbound = pack (alice ∷ raw ∷ (7 ∷ []) ∷ [])

handle_message-encrypt_payload_example :
    handle_message plain encoding decoding bob_key [] [] false inbound bob_state
    ≡ done (record bob_state {
      shared_keys = (alice_key, replicate 32 3) ∷ [];
      messages = received alice true hello (b'h' ∷ b'i' ∷ []) ∷ [];
      receipts = (7 ∷ []) ∷ [];
    })
unfolding shared_key
handle_message-encrypt_payload_example =
    handle_message-encrypt_payload plain encoding decoding hello bob alice [] random alice_key
      bob_key [] bob_state [] [] inbound inbound (7 ∷ []) (b'h' ∷ b'i' ∷ []) shared_key sealed refl
      refl refl refl refl refl

-- A plain reply to the message with the id `m`.
abbrev reply : Payload
reply = record {
  kind = 0;
  message_id = b'r' ∷ [];
  contents = b'y' ∷ [];
  reply_to_id = b'm' ∷ [];
  no_reply = true;
}

abbrev plain_reply : Message
plain_reply = record {
  payload = pack (payload_fields reply);
  encrypted = false;
  nonce = [];
  encrypted_key = [];
}

abbrev inbound_reply : InboundMessage
inbound_reply = record { src = bob; payload = pack (message_fields plain_reply); prev_hash = [] }

abbrev inbound_reply_bytes : Bytes
inbound_reply_bytes = pack (bob ∷ pack (message_fields plain_reply) ∷ [] ∷ [])

handle_message-IsWaiting_example :
    IsWaiting
      (b'm' ∷ [])
      []
      (handle_message plain encoding decoding bob_key [] [] false inbound_reply_bytes
        (await_reply (b'm' ∷ []) false bob_state).state).state
unfolding is_utf8
handle_message-IsWaiting_example =
    handle_message-IsWaiting plain encoding decoding bob_key (b'm' ∷ []) bob_state inbound_reply
      plain_reply reply [] [] inbound_reply_bytes inbound_reply_bytes (pack (payload_fields reply))
      (b'y' ∷ []) refl (λ e. absurd (cc)) refl refl refl refl refl refl refl refl refl

handle_message-Frame_example :
    ((bob_state.closed ≡ true)
      × ((handle_message plain encoding decoding bob_key [] [] false inbound bob_state).state
          ≡ bob_state))
    ⊎ ((bob_state.closed ≡ false)
        × IsFrame false bob_state
            (handle_message plain encoding decoding bob_key [] [] false inbound bob_state).state)
handle_message-Frame_example =
    handle_message-Frame plain encoding decoding bob_key [] [] false inbound bob_state
