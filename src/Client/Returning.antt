-- ===== src/Client/Returning.antt =====
-- When the messages of a `send_messages` of src/client.rs are made at all.
use nkn_sdk_rust.Prelude.{
  ℕ, zero, suc, ◌+◌, ◌≤◌, ◌<◌, ◌≡◌, ◌⊎◌, inl, inr, refl, sym, ap, ◌∙◌, List, [], ◌∷◌, ◌++◌, Outcome,
  ok, some, Bytes, length, get_elem?, All, arith, ltb, Bool-cases, if◌then◌else◌, ◌>>=◌, unwrap,
  refuse_if, All-append,
}
use nkn_sdk_rust.Serialization.Buffers.{BytesMut}
use nkn_sdk_rust.Sigchain.{SigChain}
use nkn_sdk_rust.Addresses.Crates.{Crypto}
use nkn_sdk_rust.Addresses.{parse_client_address, ed25519_sign}
use nkn_sdk_rust.Client.Messages.{
  Sender, Batches, no_batch, sign_dests, data_size, decoded_hash, create_outbound_message,
  push_message, flush_batch, fill_batches, add_to_batch, dests_size, last_batch, outbound_messages,
  max_client_message_size, signature_len,
}
use nkn_sdk_rust.Client.Batches.{all_dests, IsReady, weight}
use nkn_sdk_rust.Client.Splitting.{
  IsFilling, no_batch-IsFilling, add_to_batch-IsFilling, flush_batch-IsFilling, dests_size_lem,
  last_batch-IsReady, IsPaired,
}

All-append-right : (P : Bytes → Type 0) (xs ys : List Bytes) → All P (xs ++ ys) → All P ys
All-append-right P [] ys h = h
All-append-right P (x ∷ xs) ys h = All-append-right P xs ys h.1

get_elem?-some : (xs : List Bytes) (i : ℕ) → i < length xs → (x : Bytes) × (get_elem? xs i ≡ some x)
get_elem?-some [] i h = absurd (omega arith)
get_elem?-some (x ∷ xs) zero h = (x, refl)
get_elem?-some (x ∷ xs) (suc i) h = get_elem?-some xs i (omega arith)

abbrev pub Returns {ℓ} : {A : Type ℓ} → Outcome A → Type ℓ
Returns {A = A} o = (a : A) × (o ≡ ok a)

-- A chain whose first step returned returns if its next step does.
after {ℓ κ} :
    {A : Type ℓ} {B : Type κ} (first : Outcome A) (next : A → Outcome B) {a : A}
    → first ≡ ok a
    → Returns (next a)
    → Returns (first >>= next)
after first next {a = a} e r = (r.0, ap (λ o. o >>= next) e ∙ r.1)

after_all {ℓ κ} :
    {A : Type ℓ} {B : Type κ} {first : Outcome A} {next : A → Outcome B}
    → Returns first
    → ((a : A) → Returns (next a))
    → Returns (first >>= next)
after_all {first = first} {next = next} (a, e) r = after first next e (r a)

-- Every destination with its payload and signature is within the limit.
abbrev pub AllFit : List Bytes → List Bytes → Type 0
AllFit [] payloads = Unit
AllFit (d ∷ ds) [] = Unit
AllFit (d ∷ ds) (p ∷ ps) =
    (length p + length d + signature_len ≤ max_client_message_size) × AllFit ds ps

module _ (m : BytesMut) (c : Crypto) where
  open c use {hex_decode}

  abbrev pub IsAddress : Bytes → Type 0
  IsAddress dest = Returns (parse_client_address c dest)

  -- A sender whose keys are a key pair.
  abbrev pub HasKeypair : Sender → Type 0
  HasKeypair s = (digest : Bytes) → Returns (ed25519_sign c digest (s.private_key ++ s.public_key))

  -- One that is connected to a node, whose key and block hash are in hex.
  pub record IsConnected (s : Sender) : Type 0 where
    pub keypair : HasKeypair s
    pub pubkey : Bytes
    pub has_node : s.node_pubkey ≡ some pubkey
    pub node_key : Bytes
    pub is_hex : hex_decode pubkey ≡ some node_key
    pub hash : Bytes
    pub has_hash : decoded_hash m c s.sig_chain_block_hash ≡ ok hash

  data_size_returns :
      (payloads : List Bytes) (i : ℕ)
      → (length payloads ≡ 1) ⊎ (i < length payloads)
      → Returns (data_size m c payloads i)
  unfolding data_size
  data_size_returns payloads i h =
      let j = if ltb 1 (length payloads) then i else 0 in
      let (x, e) = get_elem?-some payloads j (ground arith) in
      after (unwrap (get_elem? payloads j)) _ (ap unwrap e) (_, refl)

  sign_dests_returns :
      (s : Sender) (chain : SigChain) (ser : Bytes) (payloads : List Bytes) (i : ℕ)
      (dests : List Bytes)
      → HasKeypair s
      → All IsAddress dests
      → (length payloads ≡ 1) ⊎ (i + length dests ≤ length payloads)
      → Returns (sign_dests m c s chain ser payloads i dests)
  unfolding sign_dests
  sign_dests_returns s chain ser payloads i [] signs valid h = ([], refl)
  sign_dests_returns s chain ser payloads i (dest ∷ dests) signs valid h =
      let (parsed, e) = valid.0 in
      let (size, e') = data_size_returns payloads i (ground arith) in
      let (rest, e'') =
        sign_dests_returns s chain ser payloads (suc i) dests signs valid.1 (ground arith) in
      after (parse_client_address c dest) _ e (
        after (data_size m c payloads i) _ e' (
          after_all (signs _) (λ signature.
            after (sign_dests m c s chain ser payloads (suc i) dests) _ e'' (_, refl))))

  module _ (nonces : ℕ → ℕ) (s : Sender) where
    each_payload :
        (payloads dests : List Bytes)
        → (length payloads ≡ length dests) ⊎ (length payloads ≡ 1)
        → (length payloads ≡ 1) ⊎ (0 + length dests ≤ length payloads)
    each_payload payloads dests h = ground arith

    push_message_returns :
        (b : Batches) (dests payloads : List Bytes)
        → IsConnected s
        → All IsAddress dests
        → IsReady b dests payloads
        → Returns (push_message m c nonces s b)
    unfolding push_message create_outbound_message
    push_message_returns b dests payloads con valid ready =
        let known = rw (sym ready.has_dests) at valid in
        let here = All-append-right IsAddress (all_dests b.outbound_msgs) b.dest_list known in
        after_all
          (after (unwrap s.node_pubkey) _ (ap unwrap con.has_node) (
            after (unwrap (hex_decode con.pubkey)) _ (ap unwrap con.is_hex) (
              after (decoded_hash m c s.sig_chain_block_hash) _ con.has_hash (
                after_all
                  (sign_dests_returns s _ _ b.payload_list 0 b.dest_list con.keypair here
                    (each_payload b.payload_list b.dest_list ready.pairs))
                  (λ signatures. (_, refl))))))
          (λ msg. (_, refl))

    flush_batch_returns :
        (size : ℕ) (b : Batches) (dests payloads : List Bytes)
        → IsConnected s
        → All IsAddress dests
        → IsFilling b dests payloads
        → Returns (flush_batch m c nonces s size b)
    unfolding flush_batch
    flush_batch_returns size b dests payloads con valid filling =
        let (msgs, e) = push_message_returns b dests payloads con valid filling.ready in
        elim (Bool-cases (ltb max_client_message_size (b.total_size + size))) [
          | inl over ↦ rw (over, flush_batch) (after (push_message m c nonces s b) _ e (_, refl))
          | inr fits ↦ (b, rw (fits, flush_batch) refl)
        ]

    fill_batches_returns :
        (more_dests more_payloads : List Bytes) (b : Batches) (dests payloads : List Bytes)
        → IsConnected s
        → All IsAddress dests
        → All IsAddress more_dests
        → length more_dests ≡ length more_payloads
        → AllFit more_dests more_payloads
        → IsFilling b dests payloads
        → Returns (fill_batches m c nonces s more_dests more_payloads b)
    unfolding fill_batches
    fill_batches_returns [] [] b dests payloads con valid more same fit filling = (b, refl)
    fill_batches_returns (d ∷ ds) [] b dests payloads con valid more same fit filling =
        absurd (omega arith)
    fill_batches_returns [] (p ∷ ps) b dests payloads con valid more same fit filling =
        absurd (omega arith)
    fill_batches_returns (d ∷ ds) (p ∷ ps) b dests payloads con valid more same fit filling =
        let size = length p + length d + signature_len in
        let accepted : refuse_if (ltb max_client_message_size size) "message oversize" ≡ ok tt =
          ground (arith, fit.0) in
        let (emptied, e) = flush_batch_returns size b dests payloads con valid filling in
        let (filled, room) =
          flush_batch-IsFilling m c nonces s size b dests payloads filling fit.0 e in
        let added = add_to_batch-IsFilling d p emptied dests payloads filled room in
        after (refuse_if (ltb max_client_message_size size) "message oversize") _ accepted (
          after (flush_batch m c nonces s size b) _ e (
            fill_batches_returns ds ps (add_to_batch d p size emptied) (dests ++ (d ∷ []))
              (payloads ++ (p ∷ [])) con (All-append IsAddress dests (d ∷ []) valid (more.0, tt))
              more.1 (omega (arith, same)) fit.1 added))

    -- What `last_batch` accepts.
    abbrev pub FitsAll : List Bytes → List Bytes → Type 0
    FitsAll dests [] = ⊥
    FitsAll dests (p ∷ []) = length p + weight dests ≤ max_client_message_size
    FitsAll dests (p ∷ (p2 ∷ ps)) =
        (length dests ≡ length (p ∷ (p2 ∷ ps))) × AllFit dests (p ∷ (p2 ∷ ps))

    pairs : (dests payloads : List Bytes) → FitsAll dests payloads → IsPaired dests payloads
    pairs dests [] fit = absurd fit
    pairs dests (p ∷ []) fit = inr refl
    pairs dests (p ∷ (p2 ∷ ps)) fit = inl fit.0

    last_batch_returns :
        (dests payloads : List Bytes)
        → IsConnected s
        → All IsAddress dests
        → FitsAll dests payloads
        → Returns (last_batch m c nonces s dests payloads)
    unfolding last_batch
    last_batch_returns dests [] con valid fit = absurd fit
    last_batch_returns dests (p ∷ []) con valid fit =
        let size = dests_size (length p) dests in
        let accepted : refuse_if (ltb max_client_message_size size) "message oversize" ≡ ok tt =
          ground (arith, dests_size_lem (length p) dests) in
        after (refuse_if (ltb max_client_message_size size) "message oversize") _ accepted (_, refl)
    last_batch_returns dests (p ∷ (p2 ∷ ps)) con valid fit =
        fill_batches_returns dests (p ∷ (p2 ∷ ps)) no_batch [] [] con tt valid fit.0 fit.1
          no_batch-IsFilling

    -- A connected sender with a key pair makes the messages: for destinations that are addresses, with a payload for
    -- each that fits into a message, or with one payload that fits with all of them, there is neither
    -- an error nor a panic.
    pub outbound_messages_returns :
        (dests payloads : List Bytes)
        → IsConnected s
        → All IsAddress dests
        → FitsAll dests payloads
        → Returns (outbound_messages m c nonces s dests payloads)
    unfolding outbound_messages
    outbound_messages_returns dests payloads con valid fit =
        let (b, e) = last_batch_returns dests payloads con valid fit in
        after (last_batch m c nonces s dests payloads) _ e (
          push_message_returns b dests payloads con valid
            (last_batch-IsReady m c nonces s dests payloads (pairs dests payloads fit) e))
