-- ===== src/Tx/Verifying.antt =====
-- What the signature of src/wallet.rs on a transaction is worth to who verifies it.
use nkn_sdk_rust.Prelude.{
  ◌≡◌, ◌≢◌, refl, sym, ap, ◌∙◌, true, List, [], ◌∷◌, ◌++◌, Option, none, some, ok, >>=-eq-ok, Bytes,
  length, unwrap, arith,
}
use mathlib.Core.List.{append_cancel_right}
use nkn_sdk_rust.Wallet.Crates.{WalletCrates}
use nkn_sdk_rust.Wallet.{Account, Wallet, from_seed, create_signature_program_code, to_code_hash}
use nkn_sdk_rust.Tx.{UnsignedTx, Program, Transaction, Prost}
use nkn_sdk_rust.Tx.Building.{encode}
use nkn_sdk_rust.Tx.Signing.{
  Ed25519, new_program, set_programs, unsigned_tail, serialize_unsigned,
  create_signature_program_context, get_hash_for_signing, verify_signature, sign_transaction,
  wallet_sign, ed25519_verify, ed25519_sign,
}

module _ (p : Prost) (c : WalletCrates) (e : Ed25519 c.public_key_of) where
  from_seed_parts :
      (seed : Bytes) (account : Account)
      → from_seed c seed ≡ ok account
      → (account.private_key ≡ seed)
        × (account.public_key ≡ c.public_key_of seed)
        × (to_code_hash c (create_signature_program_code c account.public_key)
            ≡ account.program_hash)
  unfolding from_seed
  from_seed_parts seed account made = ground arith

  serialize_unsigned-some :
      (tx : Transaction) (u : UnsignedTx)
      → tx.pb_tx.unsigned_tx ≡ some u
      → serialize_unsigned p tx ≡ ok (encode p tx ++ unsigned_tail u)
  unfolding serialize_unsigned
  serialize_unsigned-some tx u has = rw has refl

  set_programs_undone :
      (tx : Transaction) (ps : List Program)
      → tx.pb_tx.programs ≡ []
      → set_programs [] (set_programs ps tx) ≡ tx
  unfolding set_programs
  set_programs_undone tx ps none_yet =
      ap (λ qs. record tx { pb_tx = record tx.pb_tx { programs = qs } }) (sym none_yet)

  -- The steps of `sign_transaction`, from its signature.
  sign_transaction-signature :
      (w : Wallet) (tx : Transaction) (bytes signature : Bytes)
      → serialize_unsigned p tx ≡ ok bytes
      → e.keypair_sign (w.account.private_key ++ w.account.public_key) (c.sha256 bytes)
        ≡ some signature
      → length signature ≡ 64
      → sign_transaction p c e w tx
        ≡ ok (
            set_programs
              (record {
                code = create_signature_program_code c w.account.public_key;
                parameter = 64 ∷ signature;
              }
                ∷ [])
              tx)
  unfolding sign_transaction wallet_sign ed25519_sign create_signature_program_context new_program
  sign_transaction-signature w tx bytes signature made signed size =
      rw made (rw signed (rw size refl))

  verify_signature-of :
      (tx : Transaction) (bytes public_key signature : Bytes)
      → serialize_unsigned p tx ≡ ok bytes
      → e.verify public_key (c.sha256 bytes) signature ≡ some true
      → verify_signature p c e tx public_key signature ≡ ok true
  unfolding verify_signature ed25519_verify get_hash_for_signing
  verify_signature-of tx bytes public_key signature made verified = rw made (rw verified refl)

  -- An account of a seed signs a transaction that has no programs yet: the signature is that of its
  -- transaction with the programs taken off, under the account's public key, and it becomes the only
  -- program, whose code has the program hash of the account. Nothing else of the transaction changes.
  pub verify_signature-sign_transaction :
      (seed : Bytes) (w : Wallet) (tx : Transaction) (u : UnsignedTx)
      → length seed ≡ 32
      → from_seed c seed ≡ ok w.account
      → tx.pb_tx.unsigned_tx ≡ some u
      → tx.pb_tx.programs ≡ []
      → (signature : Bytes) × (signed : Transaction) × (sign_transaction p c e w tx ≡ ok signed)
        × (set_programs [] signed ≡ tx)
        × (signed.pb_tx.programs
            ≡ record {
              code = create_signature_program_code c w.account.public_key;
              parameter = 64 ∷ signature;
            }
              ∷ [])
        × (to_code_hash c (create_signature_program_code c w.account.public_key)
            ≡ w.account.program_hash)
        × (verify_signature p c e (set_programs [] signed) w.account.public_key signature ≡ ok true)
  unfolding set_programs
  verify_signature-sign_transaction seed w tx u size made has none_yet =
      let (private, public, hash) = from_seed_parts seed w.account made in
      let message = c.sha256 (encode p tx ++ unsigned_tail u) in
      let s = e.verify-keypair_sign seed message size in
      let program : Program = record {
        code = create_signature_program_code c w.account.public_key;
        parameter = 64 ∷ s.signature;
      } in
      let undone = set_programs_undone tx (program ∷ []) none_yet in
      let bytes = serialize_unsigned-some tx u has in
      (
        s.signature,
        set_programs (program ∷ []) tx,
        sign_transaction-signature w tx _ s.signature bytes (rw (private, public) s.made) s.size,
        undone,
        refl,
        hash,
        rw undone (
            verify_signature-of tx _ w.account.public_key s.signature bytes (rw public s.verifies)),
      )

  unwrap-some : {A : Type 0} {o : Option A} {a : A} → unwrap o ≡ ok a → o ≡ some a
  unwrap-some {o = none} same = absurd (cc)
  unwrap-some {o = some b} same = cc

  encode_tells : (a b : Transaction) → encode p a ≡ encode p b → a.pb_tx ≡ b.pb_tx
  unfolding encode
  encode_tells a b same =
      let one : some a.pb_tx ≡ some b.pb_tx =
        sym (p.decode_tx-encode_tx a.pb_tx) ∙ ap p.decode_tx same ∙ p.decode_tx-encode_tx b.pb_tx in
      cc

  -- The bytes to be signed tell what programs there are.
  serialize_unsigned-set_programs :
      (tx : Transaction) (ps : List Program) (u : UnsignedTx)
      → tx.pb_tx.unsigned_tx ≡ some u
      → serialize_unsigned p (set_programs ps tx) ≡ serialize_unsigned p tx
      → ps ≡ tx.pb_tx.programs
  unfolding set_programs
  serialize_unsigned-set_programs tx ps u has same =
      let one =
        sym (serialize_unsigned-some (set_programs ps tx) u has)
        ∙ same
        ∙ serialize_unsigned-some tx u has in
      let all : encode p (set_programs ps tx) ++ unsigned_tail u ≡ encode p tx ++ unsigned_tail u =
        cc in
      ap (λ t. t.programs)
        (encode_tells (set_programs ps tx) tx (append_cancel_right _ _ (unsigned_tail u) all))

  -- But what is signed is not what the signed transaction gives to be verified: its own programs are
  -- part of `serialize_unsigned`.
  pub serialize_unsigned-sign_transaction :
      (w : Wallet) (tx signed : Transaction)
      → tx.pb_tx.programs ≡ []
      → sign_transaction p c e w tx ≡ ok signed
      → serialize_unsigned p signed ≢ serialize_unsigned p tx
  unfolding sign_transaction serialize_unsigned
  serialize_unsigned-sign_transaction w tx signed none_yet done same =
      let (bytes, made, more) = >>=-eq-ok (serialize_unsigned p tx) _ done in
      let (u, has, all) = >>=-eq-ok (unwrap tx.pb_tx.unsigned_tx) _ made in
      let (signature, signs, last) = >>=-eq-ok (wallet_sign p c e w (c.sha256 bytes)) _ more in
      let program =
        new_program (create_signature_program_context p c w.account.public_key) signature in
      let is_signed : signed ≡ set_programs (program ∷ []) tx = cc in
      let programs =
        serialize_unsigned-set_programs tx (program ∷ []) u (unwrap-some has)
          (rw (sym is_signed) same) in
      absurd (cc)
