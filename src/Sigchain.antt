-- ===== src/Sigchain.antt =====
-- src/sigchain.rs: what a signature chain signs.
use nkn_sdk_rust.Prelude.{
  ℕ, ◌≡◌, sym, ◌∙◌, ap, Bool, List, [], ◌∷◌, ◌++◌, Bytes, ok, Outcome, length, IsU32, IsU64,
  append_assoc,
}
use nkn_sdk_rust.Serialization.Buffers.{BytesMut}
use nkn_sdk_rust.Serialization.{write_bool, write_u32, write_var_bytes, read_u32}
use nkn_sdk_rust.Serialization.Uints.{read_u32-put_u32}
use nkn_sdk_rust.Serialization.Decoder.{write_var_bytes-injective, write_var_bytes-append}

pub record SigChainElem : Type 0 where
  pub id : Bytes
  pub next_pubkey : Bytes
  pub mining : Bool
  pub signature : Bytes
  pub sig_algo : ℕ
  pub vrf : Bytes
  pub proof : Bytes

pub record SigChain : Type 0 where
  pub nonce : ℕ
  pub data_size : ℕ
  pub block_hash : Bytes
  pub src_id : Bytes
  pub src_pubkey : Bytes
  pub dest_id : Bytes
  pub dest_pubkey : Bytes
  pub elems : List SigChainElem

module _ (m : BytesMut) where
  unfoldable pub serialize_unsigned : SigChainElem → Bytes
  serialize_unsigned e =
      write_bool (write_var_bytes m (write_var_bytes m [] e.id) e.next_pubkey) e.mining ++ e.vrf

  unfoldable pub serialize_metadata : SigChain → Bytes
  serialize_metadata s =
      let head = write_u32 m (write_u32 m [] s.nonce) s.data_size in
      let source = write_var_bytes m (write_var_bytes m head s.block_hash) s.src_id in
      let with_key = write_var_bytes m source s.src_pubkey in
      write_var_bytes m (write_var_bytes m with_key s.dest_id) s.dest_pubkey

-- A chain whose words and lengths fit their types.
pub record IsSized (s : SigChain) : Type 0 where
  pub nonce_fits : IsU32 s.nonce
  pub data_size_fits : IsU32 s.data_size
  pub block_hash_fits : IsU64 (length s.block_hash)
  pub src_id_fits : IsU64 (length s.src_id)
  pub src_pubkey_fits : IsU64 (length s.src_pubkey)
  pub dest_id_fits : IsU64 (length s.dest_id)
  pub dest_pubkey_fits : IsU64 (length s.dest_pubkey)

-- The fields that the metadata covers.
pub record IsSameMetadata (s t : SigChain) : Type 0 where
  pub same_nonce : s.nonce ≡ t.nonce
  pub same_data_size : s.data_size ≡ t.data_size
  pub same_block_hash : s.block_hash ≡ t.block_hash
  pub same_src_id : s.src_id ≡ t.src_id
  pub same_src_pubkey : s.src_pubkey ≡ t.src_pubkey
  pub same_dest_id : s.dest_id ≡ t.dest_id
  pub same_dest_pubkey : s.dest_pubkey ≡ t.dest_pubkey

module _ (m : BytesMut) where
  open m use {put_u32}

  u32_injective :
      (v w : ℕ) (rest more : Bytes)
      → IsU32 v
      → IsU32 w
      → put_u32 v ++ rest ≡ put_u32 w ++ more
      → (v ≡ w) × (rest ≡ more)
  u32_injective v w rest more hv hw e =
      let same : ◌≡◌ {A = Outcome (ℕ × Bytes)} (ok (v, rest)) (ok (w, more)) =
        sym (read_u32-put_u32 m v rest hv) ∙ ap (read_u32 m) e ∙ read_u32-put_u32 m w more hw in
      (cc, cc)

  abbrev var_bytes : Bytes → Bytes
  var_bytes = write_var_bytes m []

  -- The metadata as one byte string after the other.
  abbrev tail : List Bytes → Bytes
  tail [] = []
  tail (v ∷ vs) = var_bytes v ++ tail vs

  -- Appending fields one by one, and what the last append leaves.
  abbrev write_fields : Bytes → List Bytes → Bytes
  write_fields bytes [] = bytes
  write_fields bytes (v ∷ vs) = write_fields (write_var_bytes m bytes v) vs

  append_nil : (bytes : Bytes) → bytes ++ [] ≡ bytes
  append_nil [] = λ i. []
  append_nil (b ∷ bs) = ap (◌∷◌ b) (append_nil bs)

  write_fields-tail : (bytes : Bytes) (vs : List Bytes) → write_fields bytes vs ≡ bytes ++ tail vs
  write_fields-tail bytes [] = sym (append_nil bytes)
  write_fields-tail bytes (v ∷ vs) =
      write_fields-tail (write_var_bytes m bytes v) vs
      ∙ ap (λ x. x ++ tail vs) (write_var_bytes-append m bytes v)
      ∙ append_assoc bytes (var_bytes v) (tail vs)

  abbrev fields : SigChain → List Bytes
  fields s = s.block_hash ∷ s.src_id ∷ s.src_pubkey ∷ s.dest_id ∷ s.dest_pubkey ∷ []

  metadata_lem :
      (s : SigChain)
      → serialize_metadata m s ≡ put_u32 s.nonce ++ (put_u32 s.data_size ++ tail (fields s))
  unfolding serialize_metadata write_u32
  metadata_lem s =
      write_fields-tail (put_u32 s.nonce ++ put_u32 s.data_size) (fields s)
      ∙ append_assoc (put_u32 s.nonce) (put_u32 s.data_size) (tail (fields s))

  -- Two chains with the same metadata agree on every field it covers: a signature cannot be moved
  -- to another nonce, size, block, source or destination.
  pub serialize_metadata-injective :
      (s t : SigChain)
      → IsSized s
      → IsSized t
      → serialize_metadata m s ≡ serialize_metadata m t
      → IsSameMetadata s t
  serialize_metadata-injective s t hs ht e =
      let same = sym (metadata_lem s) ∙ e ∙ metadata_lem t in
      let a = u32_injective _ _ _ _ hs.nonce_fits ht.nonce_fits same in
      let b = u32_injective _ _ _ _ hs.data_size_fits ht.data_size_fits a.1 in
      let f = write_var_bytes-injective m _ _ _ _ hs.block_hash_fits ht.block_hash_fits b.1 in
      let g = write_var_bytes-injective m _ _ _ _ hs.src_id_fits ht.src_id_fits f.1 in
      let h = write_var_bytes-injective m _ _ _ _ hs.src_pubkey_fits ht.src_pubkey_fits g.1 in
      let i = write_var_bytes-injective m _ _ _ _ hs.dest_id_fits ht.dest_id_fits h.1 in
      let j = write_var_bytes-injective m _ _ _ _ hs.dest_pubkey_fits ht.dest_pubkey_fits i.1 in
      record {
        same_nonce = a.0;
        same_data_size = b.0;
        same_block_hash = f.0;
        same_src_id = g.0;
        same_src_pubkey = h.0;
        same_dest_id = i.0;
        same_dest_pubkey = j.0;
      }
