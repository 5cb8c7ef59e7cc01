-- ===== src/Client/Splitting.antt =====
-- How `send_messages` of src/client.rs splits what it sends.
use nkn_sdk_rust.Prelude.{
  ℕ, ◌+◌, ◌≤◌, ◌≡◌, ◌⊎◌, inl, inr, refl, sym, ap, ◌∙◌, List, [], ◌∷◌, ◌++◌, ok, Bytes, length,
  arith, length-append, append_assoc, append-nil, ltb, Bool-cases, refuse_if,
}
use nkn_sdk_rust.Prelude.Results.{>>=-eq-ok}
use nkn_sdk_rust.Serialization.Buffers.{BytesMut}
use nkn_sdk_rust.Addresses.Crates.{Crypto}
use nkn_sdk_rust.Client.{OutboundMessage}
use nkn_sdk_rust.Client.Messages.{
  Sender, Batches, no_batch, push_message, flush_batch, fill_batches, add_to_batch, dests_size,
  last_batch, outbound_messages, max_client_message_size, signature_len,
}
use nkn_sdk_rust.Client.Batches.{
  bytes_in, weight, bytes_in-append, weight-append, all_dests, all_payloads, IsReady, IsSplit,
  push_message-IsSplit,
}

pub dests_size_lem : (size : ℕ) (dests : List Bytes) → dests_size size dests ≡ size + weight dests
unfolding dests_size
dests_size_lem size [] = omega arith
dests_size_lem size (dest ∷ dests) =
    omega (arith, dests_size_lem (size + (length dest + signature_len)) dests)

-- One payload for all, or one for each.
abbrev pub IsPaired : List Bytes → List Bytes → Type 0
IsPaired dests payloads = (length dests ≡ length payloads) ⊎ (length payloads ≡ 1)

-- While the batches are filled: the size is kept, and the lists are as long as each other.
pub record IsFilling (b : Batches) (dests payloads : List Bytes) : Type 0 where
  pub ready : IsReady b dests payloads
  pub sized : b.total_size ≡ bytes_in b.payload_list + weight b.dest_list
  pub paired : length b.payload_list ≡ length b.dest_list

pub no_batch-IsFilling : IsFilling no_batch [] []
no_batch-IsFilling = record {
  ready = record {
    has_dests = refl;
    has_payloads = refl;
    sendable = tt;
    small = omega arith;
    pairs = inl refl;
  };
  sized = refl;
  paired = refl;
}

abbrev flushed : List OutboundMessage → Batches
flushed msgs = record no_batch { outbound_msgs = msgs }

flushed-IsFilling :
    (msgs : List OutboundMessage) (dests payloads : List Bytes)
    → IsSplit msgs dests payloads
    → IsFilling (flushed msgs) dests payloads
flushed-IsFilling msgs dests payloads split = record {
  ready = record {
    has_dests = append-nil (all_dests msgs) ∙ split.split_dests;
    has_payloads = append-nil (all_payloads msgs) ∙ split.split_payloads;
    sendable = split.split_sendable;
    small = omega arith;
    pairs = inl refl;
  };
  sized = refl;
  paired = refl;
}

pub add_to_batch-IsFilling :
    (dest payload : Bytes) (b : Batches) (dests payloads : List Bytes)
    → let size = length payload + length dest + signature_len in
      IsFilling b dests payloads
      → b.total_size + size ≤ max_client_message_size
      → IsFilling
          (add_to_batch dest payload size b)
          (dests ++ (dest ∷ []))
          (payloads ++ (payload ∷ []))
add_to_batch-IsFilling dest payload b dests payloads filling room =
    let paid = bytes_in-append b.payload_list (payload ∷ []) in
    let carried = weight-append b.dest_list (dest ∷ []) in
    let both = length-append b.payload_list (payload ∷ []) in
    let both' = length-append b.dest_list (dest ∷ []) in
    let same : length (b.payload_list ++ (payload ∷ [])) ≡ length (b.dest_list ++ (dest ∷ [])) =
      omega (arith, filling.paired) in
    record {
      ready = record {
        has_dests =
            sym (append_assoc (all_dests b.outbound_msgs) b.dest_list (dest ∷ []))
            ∙ ap (λ l. l ++ (dest ∷ [])) filling.ready.has_dests;
        has_payloads =
            sym (append_assoc (all_payloads b.outbound_msgs) b.payload_list (payload ∷ []))
            ∙ ap (λ l. l ++ (payload ∷ [])) filling.ready.has_payloads;
        sendable = filling.ready.sendable;
        small = omega (arith, filling.sized);
        pairs = inl same;
      };
      sized = omega (arith, filling.sized);
      paired = same;
    }

module _ (m : BytesMut) (c : Crypto) (nonces : ℕ → ℕ) (s : Sender) where
  pub flush_batch-IsFilling :
      (size : ℕ) (b : Batches) (dests payloads : List Bytes) {b' : Batches}
      → IsFilling b dests payloads
      → size ≤ max_client_message_size
      → flush_batch m c nonces s size b ≡ ok b'
      → IsFilling b' dests payloads × (b'.total_size + size ≤ max_client_message_size)
  unfolding flush_batch
  flush_batch-IsFilling size b dests payloads {b' = b'} filling small returned =
      elim (Bool-cases (ltb max_client_message_size (b.total_size + size))) [
        | inl over ↦
            let r = rw (over, flush_batch) at returned in
            let (msgs, e, r') = >>=-eq-ok (push_message m c nonces s b) _ r in
            let split = push_message-IsSplit m c nonces s b dests payloads filling.ready e in
            let same : flushed msgs ≡ b' = cc in
            rw (sym same) (flushed-IsFilling msgs dests payloads split, omega (arith, small))
        | inr fits ↦
            let r = rw (fits, flush_batch) at returned in
            let same : b ≡ b' = cc in rw (sym same) (filling, ground arith)
      ]

  fill_batches-IsReady :
      (more_dests more_payloads : List Bytes) (b : Batches) (dests payloads : List Bytes)
      {b' : Batches}
      → IsFilling b dests payloads
      → length more_dests ≡ length more_payloads
      → fill_batches m c nonces s more_dests more_payloads b ≡ ok b'
      → IsReady b' (dests ++ more_dests) (payloads ++ more_payloads)
  unfolding fill_batches
  fill_batches-IsReady [] [] b dests payloads {b' = b'} filling same returned =
      let done : b ≡ b' = cc in
      rw (append-nil dests) (rw (append-nil payloads) (rw (sym done) filling.ready))
  fill_batches-IsReady (d ∷ ds) [] b dests payloads filling same returned = absurd (omega arith)
  fill_batches-IsReady [] (p ∷ ps) b dests payloads filling same returned = absurd (omega arith)
  fill_batches-IsReady (d ∷ ds) (p ∷ ps) b dests payloads filling same returned =
      let size = length p + length d + signature_len in
      let (u, fits, r) =
        >>=-eq-ok (refuse_if (ltb max_client_message_size size) "message oversize") _ returned in
      let (emptied, e, r') = >>=-eq-ok (flush_batch m c nonces s size b) _ r in
      let (filled, room) = flush_batch-IsFilling size b dests payloads filling (ground arith) e in
      let added = add_to_batch-IsFilling d p emptied dests payloads filled room in
      let rest =
        fill_batches-IsReady ds ps (add_to_batch d p size emptied) (dests ++ (d ∷ []))
          (payloads ++ (p ∷ [])) added (omega (arith, same)) r' in
      rw (append_assoc dests (d ∷ []) ds, append_assoc payloads (p ∷ []) ps) at rest

  pub last_batch-IsReady :
      (dests payloads : List Bytes) {b : Batches}
      → IsPaired dests payloads
      → last_batch m c nonces s dests payloads ≡ ok b
      → IsReady b dests payloads
  unfolding last_batch
  last_batch-IsReady dests [] pairs returned = ground arith
  last_batch-IsReady dests (p ∷ []) {b = b} pairs returned =
      let size = dests_size (length p) dests in
      let (u, fits, r) =
        >>=-eq-ok (refuse_if (ltb max_client_message_size size) "message oversize") _ returned in
      let done : record no_batch { dest_list = dests; payload_list = p ∷ [] } ≡ b = cc in
      let sized = dests_size_lem (length p) dests in
      rw (sym done) (record {
        has_dests = refl;
        has_payloads = refl;
        sendable = tt;
        small = ground arith;
        pairs = inr refl;
      })
  last_batch-IsReady dests (p ∷ (p2 ∷ ps)) pairs returned =
      fill_batches-IsReady dests (p ∷ (p2 ∷ ps)) no_batch [] [] no_batch-IsFilling (ground arith)
        returned

  -- Where there is one payload, or one for each destination, and the messages of `send_messages` are
  -- made, they hold every destination and every payload, once
  -- and in order; each is within the size limit, with its signatures counted, has a signature for
  -- each of its destinations, and one payload for each of them or one for all.
  pub outbound_messages-IsSplit :
      (dests payloads : List Bytes) {msgs : List OutboundMessage}
      → IsPaired dests payloads
      → outbound_messages m c nonces s dests payloads ≡ ok msgs
      → IsSplit msgs dests payloads
  unfolding outbound_messages
  outbound_messages-IsSplit dests payloads pairs returned =
      let (b, e, r) = >>=-eq-ok (last_batch m c nonces s dests payloads) _ returned in
      push_message-IsSplit m c nonces s b dests payloads (last_batch-IsReady dests payloads pairs e)
        r
