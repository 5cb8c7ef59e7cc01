-- ===== src/NanoPay/Rising.antt =====
-- The transactions of `increase_amount` of src/nanopay.rs, as the claimer opens them.
use nkn_sdk_rust.Prelude.{
  ℕ, ◌+◌, ◌^◌, ◌<◌, ◌≡◌, ◌⊎◌, refl, false, true, Bytes, Option, some, Outcome, ok, ◌>>=◌, unwrap,
  arith, ap, ◌%◌,
}
use nkn_sdk_rust.Prelude.Int.{pos, from_u64, wrap_i64}
use nkn_sdk_rust.NanoPay.{
  NanoPay, NanoPayPayload, Transaction, add_u32, renewed, is_expired, payment, increase_amount,
}

module _ (encode : NanoPayPayload → Bytes) (decode : Bytes → Option NanoPayPayload) where
  -- The payment in a transaction.
  abbrev pub opened : Transaction → Outcome NanoPayPayload
  opened tx = do payload ← unwrap tx.payload; unwrap (decode payload.contents)

  -- Whether the payment goes on or starts anew.
  abbrev pub Goes : ℕ → ℕ → ℕ → NanoPay → NanoPay → Type 0
  Goes height fresh_id delta n n' =
      ((is_expired height n ≡ false)
        × (n'.id ≡ n.id)
        × (n'.expiration ≡ n.expiration)
        × (n'.amount ≡ n.amount + delta))
      ⊎ ((is_expired height n ≡ true)
          × (n'.id ≡ fresh_id)
          × (n'.expiration ≡ add_u32 height 5)
          × (n'.amount ≡ delta))

  -- An increase gives a transaction that opens to a payment from the payer to the recipient, with the
  -- payer's new id, amount and expiration. While the payment is not about to expire, id and expiration
  -- are the old ones and the amount grows by the increase; else the id is a new one, the expiration is
  -- five blocks ahead, and the amount is the increase alone. The sum fits an `i64`, and what is encoded
  -- is decoded as it was.
  pub increase_amount-opened :
      (height fresh_id delta fee : ℕ) (n : NanoPay)
      → ((m : NanoPayPayload) → decode (encode m) ≡ some m)
      → n.amount + delta < 2 ^ 63
      → (tx : Transaction) × (n' : NanoPay) × (np : NanoPayPayload) × (increase_amount encode
            (some height)
            fresh_id
            delta
            fee
            n
          ≡ ok (tx, n'))
        × (opened tx ≡ ok np)
        × (np.sender ≡ n.program_hash)
        × (np.recipient ≡ n.recipient_program_hash)
        × (np.id ≡ n'.id)
        × (np.amount ≡ pos n'.amount)
        × (np.txn_expiration ≡ n'.expiration)
        × (np.nano_pay_expiration ≡ add_u32 n'.expiration n.duration)
        × Goes height fresh_id delta n n'
  unfolding increase_amount from_u64 wrap_i64
  increase_amount-opened height fresh_id delta fee n law fits =
      let r = renewed height fresh_id n in
      let n' : NanoPay = record r { amount = (r.amount + delta) % 2 ^ 64 } in
      let np : NanoPayPayload = record {
        sender = r.program_hash;
        recipient = r.recipient_program_hash;
        id = r.id;
        amount = from_u64 n'.amount;
        txn_expiration = r.expiration;
        nano_pay_expiration = add_u32 r.expiration r.duration;
      } in
      (
        payment encode n' fee,
        n',
        np,
        refl,
        ap unwrap (law np),
        ground arith,
        ground arith,
        refl,
        ground arith,
        refl,
        ground arith,
        ground arith,
      )
