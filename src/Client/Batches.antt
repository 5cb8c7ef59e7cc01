-- ===== src/Client/Batches.antt =====
-- What one message of src/client.rs holds, and what its size is.
use nkn_sdk_rust.Prelude.{
  ℕ, suc, ◌+◌, ◌≤◌, ◌≡◌, ◌⊎◌, refl, sym, ap, ◌∙◌, List, [], ◌∷◌, ◌++◌, ok, Bytes, length, All,
  arith, append_assoc, append-nil, unwrap, All-append,
}
use nkn_sdk_rust.Prelude.Results.{>>=-eq-ok}
use nkn_sdk_rust.Serialization.Buffers.{BytesMut}
use nkn_sdk_rust.Sigchain.{SigChain}
use nkn_sdk_rust.Addresses.Crates.{Crypto}
use nkn_sdk_rust.Addresses.{parse_client_address, ed25519_sign}
use nkn_sdk_rust.Client.{OutboundMessage}
use nkn_sdk_rust.Client.Messages.{
  Sender, sign_dests, data_size, decoded_hash, create_outbound_message, Batches, push_message,
  max_client_message_size, signature_len,
}

abbrev pub bytes_in : List Bytes → ℕ
bytes_in [] = 0
bytes_in (payload ∷ payloads) = length payload + bytes_in payloads

-- Each destination is sent with a signature.
abbrev pub weight : List Bytes → ℕ
weight [] = 0
weight (dest ∷ dests) = length dest + signature_len + weight dests

pub bytes_in-append : (xs ys : List Bytes) → bytes_in (xs ++ ys) ≡ bytes_in xs + bytes_in ys
bytes_in-append [] ys = omega arith
bytes_in-append (x ∷ xs) ys = omega (arith, bytes_in-append xs ys)

pub weight-append : (xs ys : List Bytes) → weight (xs ++ ys) ≡ weight xs + weight ys
weight-append [] ys = omega arith
weight-append (x ∷ xs) ys = omega (arith, weight-append xs ys)

abbrev pub all_dests : List OutboundMessage → List Bytes
all_dests [] = []
all_dests (msg ∷ msgs) = msg.dests ++ all_dests msgs

abbrev pub all_payloads : List OutboundMessage → List Bytes
all_payloads [] = []
all_payloads (msg ∷ msgs) = msg.payloads ++ all_payloads msgs

all_dests-append :
    (xs ys : List OutboundMessage) → all_dests (xs ++ ys) ≡ all_dests xs ++ all_dests ys
all_dests-append [] ys = refl
all_dests-append (x ∷ xs) ys = rw (all_dests-append xs ys) (sym (append_assoc x.dests _ _))

all_payloads-append :
    (xs ys : List OutboundMessage) → all_payloads (xs ++ ys) ≡ all_payloads xs ++ all_payloads ys
all_payloads-append [] ys = refl
all_payloads-append (x ∷ xs) ys = rw (all_payloads-append xs ys) (sym (append_assoc x.payloads _ _))

-- A message that the node accepts: its size is in bounds, it has a signature for each destination,
-- and one payload for each destination or one for all.
pub record IsSendable (msg : OutboundMessage) : Type 0 where
  pub fits : bytes_in msg.payloads + weight msg.dests ≤ max_client_message_size
  pub signed : length msg.signatures ≡ length msg.dests
  pub paired : (length msg.payloads ≡ length msg.dests) ⊎ (length msg.payloads ≡ 1)

-- A state in which the messages so far and the lists at hand make up `dests` and `payloads`.
pub record IsReady (b : Batches) (dests payloads : List Bytes) : Type 0 where
  pub has_dests : all_dests b.outbound_msgs ++ b.dest_list ≡ dests
  pub has_payloads : all_payloads b.outbound_msgs ++ b.payload_list ≡ payloads
  pub sendable : All IsSendable b.outbound_msgs
  pub small : bytes_in b.payload_list + weight b.dest_list ≤ max_client_message_size
  pub pairs : (length b.payload_list ≡ length b.dest_list) ⊎ (length b.payload_list ≡ 1)

-- Messages that make up `dests` and `payloads`.
pub record IsSplit (msgs : List OutboundMessage) (dests payloads : List Bytes) : Type 0 where
  pub split_dests : all_dests msgs ≡ dests
  pub split_payloads : all_payloads msgs ≡ payloads
  pub split_sendable : All IsSendable msgs

module _ (m : BytesMut) (c : Crypto) where
  open c use {hex_decode}

  length-sign_dests :
      (s : Sender) (chain : SigChain) (ser : Bytes) (payloads : List Bytes) (i : ℕ)
      (dests : List Bytes) {signatures : List Bytes}
      → sign_dests m c s chain ser payloads i dests ≡ ok signatures
      → length signatures ≡ length dests
  unfolding sign_dests
  length-sign_dests s chain ser payloads i [] returned = ground arith
  length-sign_dests s chain ser payloads i (dest ∷ dests) returned =
      let (parsed, e, r) = >>=-eq-ok (parse_client_address c dest) _ returned in
      let (size, e', r') = >>=-eq-ok (data_size m c payloads i) _ r in
      let (signature, signed, rs) = >>=-eq-ok (ed25519_sign c _ _) _ r' in
      let (rest, e'', r'') = >>=-eq-ok (sign_dests m c s chain ser payloads (suc i) dests) _ rs in
      ground (arith, length-sign_dests s chain ser payloads (suc i) dests e'')

  -- A message holds what it was made of.
  record IsMade (msg : OutboundMessage) (dests payloads : List Bytes) : Type 0 where
    made_dests : msg.dests ≡ dests
    made_payloads : msg.payloads ≡ payloads
    made_signatures : length msg.signatures ≡ length dests

  create_outbound_message-IsMade :
      (s : Sender) (nonce : ℕ) (dests payloads : List Bytes) {msg : OutboundMessage}
      → create_outbound_message m c s nonce dests payloads ≡ ok msg
      → IsMade msg dests payloads
  unfolding create_outbound_message
  create_outbound_message-IsMade s nonce dests payloads returned =
      let (pubkey, e, r) = >>=-eq-ok (unwrap s.node_pubkey) _ returned in
      let (key, e', r') = >>=-eq-ok (unwrap (hex_decode pubkey)) _ r in
      let (hash, e'', r'') = >>=-eq-ok (decoded_hash m c s.sig_chain_block_hash) _ r' in
      let (signatures, signed, last) = >>=-eq-ok (sign_dests m c s _ _ payloads 0 dests) _ r'' in
      let size = length-sign_dests s _ _ payloads 0 dests signed in
      record { made_dests = cc; made_payloads = cc; made_signatures = ap (λ x. x) (cc) }

  made-IsSendable :
      (msg : OutboundMessage) (dests payloads : List Bytes)
      → IsMade msg dests payloads
      → bytes_in payloads + weight dests ≤ max_client_message_size
      → (length payloads ≡ length dests) ⊎ (length payloads ≡ 1)
      → IsSendable msg
  made-IsSendable msg dests payloads made small pairs = record {
    fits = rw made.made_dests (rw made.made_payloads small);
    signed = made.made_signatures ∙ ap length (sym made.made_dests);
    paired = rw made.made_dests (rw made.made_payloads pairs);
  }

  -- The last push: the messages make up all that was to be sent.
  pub push_message-IsSplit :
      (nonces : ℕ → ℕ) (s : Sender) (b : Batches) (dests payloads : List Bytes)
      {msgs : List OutboundMessage}
      → IsReady b dests payloads
      → push_message m c nonces s b ≡ ok msgs
      → IsSplit msgs dests payloads
  unfolding push_message
  push_message-IsSplit nonces s b dests payloads {msgs = msgs} ready returned =
      let (msg, e, r) =
        >>=-eq-ok (create_outbound_message m c s _ b.dest_list b.payload_list) _ returned in
      let made = create_outbound_message-IsMade s _ b.dest_list b.payload_list e in
      let same : b.outbound_msgs ++ (msg ∷ []) ≡ msgs = cc in
      let sent : IsSendable msg =
        made-IsSendable msg b.dest_list b.payload_list made ready.small ready.pairs in
      rw (sym same) (record {
        split_dests =
            all_dests-append b.outbound_msgs (msg ∷ [])
            ∙ ap (λ l. all_dests b.outbound_msgs ++ l) (append-nil msg.dests ∙ made.made_dests)
            ∙ ready.has_dests;
        split_payloads =
            all_payloads-append b.outbound_msgs (msg ∷ [])
            ∙ ap (λ l. all_payloads b.outbound_msgs ++ l)
                (append-nil msg.payloads ∙ made.made_payloads)
            ∙ ready.has_payloads;
        split_sendable = All-append IsSendable b.outbound_msgs (msg ∷ []) ready.sendable (sent, tt);
      })
