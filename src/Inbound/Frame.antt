-- ===== src/Inbound/Frame.antt =====
-- What `handle_message` of src/client.rs can do to a client at all.
use nkn_sdk_rust.Prelude.{
  ◌≡◌, ◌≢◌, refl, ap, ◌⊎◌, inl, inr, Bool, true, false, List, [], ◌∷◌, ◌++◌, Outcome, ok, err,
  panicked, some, none, Option, Bytes, Map, lookup, bytes_eq, unwrap, if◌then◌else◌, Bool-cases, ℕ,
  ltb, length,
}
use nkn_sdk_rust.Addresses.Crates.{Crypto}
use nkn_sdk_rust.Client.{Encoding, ClientMessageType, inbound_message, outbound_message, receipt}
use nkn_sdk_rust.Inbound.{
  ClientState, Received, InboundMessage, Decoding, Handled, after, open_inbound, payload_data,
  receive, handle_message, handle_binary, handle_inbound, handle_text, take_channel, spawn_receipt,
  deliver, by_type, act, set_client, update_sig_chain_block_hash, auth_challenge, other_action,
  ServerText, Action, received, refuse_error, put, done, waits_for_room, answer_challenge,
}
use nkn_sdk_rust.Errors.{from}
use nkn_sdk_rust.Inbound.Delivery.{spawn_receipt_same}

-- A list grows by at most one element, and only where it may.
pub data Grows {A : Type 0} (may : A → Type 0) (before : List A) : List A → Type 0 where
  same : {after : List A} → after ≡ before → Grows may before after
  one : {after : List A} (a : A) → may a → after ≡ before ++ (a ∷ []) → Grows may before after

-- What a handler keeps. Only a message of the other kind than a text adds to the messages or the receipts.
pub record IsFrame (is_text : Bool) (s t : ClientState) : Type 0 where
  pub same_closed : t.closed ≡ s.closed
  pub same_node : t.node ≡ s.node
  pub nodes : Grows (λ node. (s.node ≡ some node) × (is_text ≡ true)) s.connected t.connected
  pub challenges : Grows (λ a. is_text ≡ true) s.challenges t.challenges
  pub messages : Grows (λ a. is_text ≡ false) s.messages t.messages
  pub receipts : Grows (λ hash. (hash ≢ []) × (is_text ≡ false)) s.receipts t.receipts

no_change : (is_text : Bool) (s : ClientState) → IsFrame is_text s s
no_change is_text s = record {
  same_closed = refl;
  same_node = refl;
  nodes = same refl;
  challenges = same refl;
  messages = same refl;
  receipts = same refl;
}

-- A value that is missing leaves the state.
after-Frame {ℓ} :
    {A : Type ℓ} (is_text : Bool) (o : Outcome A) (s t : ClientState) (next : A → Handled)
    → IsFrame is_text s t
    → ((a : A) → o ≡ ok a → IsFrame is_text s (next a).state)
    → IsFrame is_text s (after o t next).state
after-Frame is_text (ok value) s t next h k = k value refl
after-Frame is_text (err message) s t next h k = h
after-Frame is_text panicked s t next h k = h

if-Frame :
    (is_text b : Bool) (s : ClientState) (x y : Handled)
    → IsFrame is_text s x.state
    → IsFrame is_text s y.state
    → IsFrame is_text s (if b then x else y).state
if-Frame is_text true s x y hx hy = hx
if-Frame is_text false s x y hx hy = hy

unwrap-ok : {A : Type 0} (o : Option A) {a : A} → unwrap o ≡ ok a → o ≡ some a
unwrap-ok none e = absurd (cc)
unwrap-ok (some b) e = cc

hash_set :
    (hash : Bytes) (s : ClientState)
    → IsFrame true s (record s { sig_chain_block_hash = some hash })
hash_set hash s = record {
  same_closed = refl;
  same_node = refl;
  nodes = same refl;
  challenges = same refl;
  messages = same refl;
  receipts = same refl;
}

-- A send that waits changes nothing.
put-Frame :
    {A : Type 0} (is_text : Bool) (room : ℕ) (queue : List A) (a : A) (s t : ClientState)
    (next : List A → ClientState)
    → IsFrame is_text s t
    → IsFrame is_text s (next (queue ++ (a ∷ [])))
    → IsFrame is_text s (put room queue a t next).state
put-Frame is_text room queue a s t next waiting sent =
    if-Frame is_text (ltb (length queue) room) s (done (next (queue ++ (a ∷ []))))
      (record { state = t; result = waits_for_room }) sent waiting

module _ (c : Crypto) (keypair client_salt : Bytes) where
  act-Frame :
      (action : Action) (text : ServerText) (s : ClientState)
      → IsFrame true s (act c keypair client_salt action text s).state
  act-Frame set_client text s =
      after-Frame true (unwrap text.set_client_hash) s s _ (no_change true s) (λ hash e.
        if-Frame true s.closed s _ _ (hash_set hash s) (
          after-Frame true (unwrap s.node) s _ _ (hash_set hash s) (λ node e'.
            put-Frame true 1 s.connected node s (record s { sig_chain_block_hash = some hash })
              (λ nodes. record s { sig_chain_block_hash = some hash; connected = nodes })
              (hash_set hash s)
              (record {
                same_closed = refl;
                same_node = refl;
                nodes = one node (unwrap-ok s.node e', refl) refl;
                challenges = same refl;
                messages = same refl;
                receipts = same refl;
              }))))
  act-Frame update_sig_chain_block_hash text s =
      after-Frame true (unwrap text.result) s s _ (no_change true s) (λ hash e. hash_set hash s)
  act-Frame auth_challenge text s =
      after-Frame true (unwrap text.challenge) s s _ (no_change true s) (λ challenge e.
        after-Frame true (unwrap (c.hex_decode challenge)) s s _ (no_change true s) (λ bytes e'.
          after-Frame true (answer_challenge c keypair client_salt bytes) s s _ (no_change true s)
            (λ signed e''.
              put-Frame true 100 s.challenges signed s s (λ queue. record s { challenges = queue })
                (no_change true s)
                (record {
                  same_closed = refl;
                  same_node = refl;
                  nodes = same refl;
                  challenges = one _ refl refl;
                  messages = same refl;
                  receipts = same refl;
                }))))
  act-Frame other_action text s = no_change true s

  handle_text-Frame :
      (json : Option ServerText) (s : ClientState)
      → IsFrame true s (handle_text c keypair client_salt json s).state
  unfolding handle_text
  handle_text-Frame json s = after-Frame true (unwrap json) s s _ (no_change true s) (λ text e.
      after-Frame true (unwrap text.action) s s _ (no_change true s) (λ action e.
        after-Frame true (unwrap text.error) s s _ (no_change true s) (λ code e.
          after-Frame true (from code) s s _ (no_change true s) (λ error e.
            after-Frame true (refuse_error error) s s _ (no_change true s)
              (λ u e. act-Frame action text s)))))

-- The steps of a message that is no text, after the receipt.
spawn_receipt-Frame :
    (prev_hash : Bytes) (s : ClientState) → IsFrame false s (spawn_receipt prev_hash s)
spawn_receipt-Frame [] s = no_change false s
spawn_receipt-Frame (b ∷ bs) s = record {
  same_closed = refl;
  same_node = refl;
  nodes = same refl;
  challenges = same refl;
  messages = same refl;
  receipts = one (b ∷ bs) ((λ e. absurd (cc)), refl) refl;
}

-- Where the messages are as they were, what changes keys, channels and messages keeps the frame.
settled :
    (keys : Map Bytes Bytes) (chans : Map Bytes (Unit {0})) (msgs : List Received)
    {s t : ClientState}
    → IsFrame false s t
    → Grows (λ a. false ≡ false) s.messages msgs
    → IsFrame false s (record t { shared_keys = keys; response_channels = chans; messages = msgs })
settled keys chans msgs h grows = record {
  same_closed = h.same_closed;
  same_node = h.same_node;
  nodes = h.nodes;
  challenges = h.challenges;
  messages = grows;
  receipts = h.receipts;
}

take_channel-Frame :
    (key : Bytes) (o : Option (Unit {0})) {s t : ClientState}
    → IsFrame false s t
    → IsFrame false s (take_channel key o t)
take_channel-Frame key none h = h
take_channel-Frame key (some u) {s} {t} h = settled t.shared_keys _ t.messages h h.messages

deliver-Frame :
    (hex_encode : Bytes → Bytes) (reply_to_id : Bytes) (msg : Received) {s t : ClientState}
    → IsFrame false s t
    → t.messages ≡ s.messages
    → IsFrame false s (deliver hex_encode reply_to_id msg t).state
deliver-Frame hex_encode [] msg {s} {t} h fresh = if-Frame false t.closed s (done t) _ h (
    put-Frame false 1 t.messages msg s t (λ queue. record t { messages = queue }) h
      (settled t.shared_keys t.response_channels _ h
        (one msg refl (ap (λ ms. ms ++ (msg ∷ [])) fresh))))
deliver-Frame hex_encode (b ∷ bs) msg {s} {t} h fresh =
    take_channel-Frame (hex_encode (b ∷ bs)) (lookup (hex_encode (b ∷ bs)) t.response_channels) h

module _ (c : Crypto) (p : Encoding) (d : Decoding p) (secret : Bytes) where
  receive-Frame :
      (inbound : InboundMessage) {s t : ClientState}
      → IsFrame false s t
      → t.messages ≡ s.messages
      → IsFrame false s (receive c p d secret inbound t).state
  unfolding receive
  receive-Frame inbound {s} {t} h fresh =
      after-Frame false (unwrap (d.decode_message inbound.payload)) s t _ h (λ msg e.
        after-Frame false (open_inbound c p d secret msg inbound.src t.shared_keys) s t _ h
          (λ (bytes, keys) e.
            let u = settled keys t.response_channels t.messages h h.messages in
            after-Frame false (unwrap (d.decode_payload bytes)) s _ _ u (λ payload e.
              after-Frame false (payload_data d payload) s _ _ u (λ contents e.
                deliver-Frame c.hex_encode payload.reply_to_id
                  (received inbound.src msg.encrypted payload contents) u fresh))))

  by_type-Frame :
      (kind : Option ClientMessageType) (message : Bytes) (s : ClientState)
      → IsFrame false s (by_type c p d secret kind message s).state
  unfolding handle_inbound
  by_type-Frame none message s = no_change false s
  by_type-Frame (some outbound_message) message s = no_change false s
  by_type-Frame (some receipt) message s = no_change false s
  by_type-Frame (some inbound_message) message s =
      after-Frame false (unwrap (d.decode_inbound message)) s s _ (no_change false s) (λ inbound e.
        receive-Frame inbound (spawn_receipt-Frame inbound.prev_hash s)
          (spawn_receipt_same inbound.prev_hash s).2)

  handle_binary-Frame :
      (bytes : Bytes) (s : ClientState) → IsFrame false s (handle_binary c p d secret bytes s).state
  unfolding handle_binary
  handle_binary-Frame bytes s =
      after-Frame false (unwrap (d.decode_client bytes)) s s _ (no_change false s)
        (λ (kind, message) e. by_type-Frame kind message s)

  -- Whatever the node sends, and also where the handler ends with an error or a panic or waits: a closed client
  -- stays as it is. One that is open stays open and with its node, and its channels get at most one entry
  -- each: messages and receipts from binary messages alone, and the node that it is connected to, which is
  -- its own, and the answer to a challenge from texts alone.
  pub handle_message-Frame :
      (keypair salt : Bytes) (is_text : Bool) (bytes : Bytes) (s : ClientState)
      → ((s.closed ≡ true) × ((handle_message c p d secret keypair salt is_text bytes s).state ≡ s))
        ⊎ ((s.closed ≡ false)
            × IsFrame is_text s (handle_message c p d secret keypair salt is_text bytes s).state)
  unfolding handle_message
  handle_message-Frame keypair salt true bytes s = elim (Bool-cases s.closed) [
    | inl shut ↦ inl (shut, rw shut refl)
    | inr is_open ↦ inr (
      is_open,
      if-Frame true s.closed s _ _ (no_change true s)
          (handle_text-Frame c keypair salt (d.parse_json bytes) s),
    )
  ]
  handle_message-Frame keypair salt false bytes s = elim (Bool-cases s.closed) [
    | inl shut ↦ inl (shut, rw shut refl)
    | inr is_open ↦
        inr
          (is_open, if-Frame false s.closed s _ _ (no_change false s) (handle_binary-Frame bytes s))
  ]
