-- ===== src/NanoPay/Runs.antt =====
-- src/nanopay.rs at concrete payments: the first byte is the id, and the others count the amount.
use nkn_sdk_rust.Prelude.{
  ℕ, ◌≡◌, ◌≢◌, refl, Bool, true, false, [], ◌∷◌, Option, none, some, Outcome, ok, Bytes, length,
  replicate, arith,
}
use nkn_sdk_rust.Prelude.Int.{ℤ, pos, ltb_ℤ, pos_part, wrap_i64, ◌+ℤ◌, ◌-ℤ◌}
use nkn_sdk_rust.NanoPay.{
  NanoPay, NanoPayPayload, Transaction, NanoPayClaimer, claim, flush_fn, payment, increase_amount,
  add_u32, verify,
}
use nkn_sdk_rust.NanoPay.Totals.{flush_fn_once}
use nkn_sdk_rust.NanoPay.Rising.{opened, Goes, increase_amount-opened}
use nkn_sdk_rust.NanoPay.Unverified.{claim-verify}
use nkn_sdk_rust.Prelude.Fields.{pack, unpack, unpack-pack, as_nat, get, int, as_int, as_int-int}

abbrev payee : Bytes
payee = replicate 20 2

abbrev decode : Bytes → Option NanoPayPayload
decode [] = none
decode (b ∷ bs) = some (record {
  sender = replicate 20 1;
  recipient = payee;
  id = b;
  amount = pos (length bs);
  txn_expiration = 100;
  nano_pay_expiration = 200;
})

abbrev encode : NanoPayPayload → Bytes
encode np = np.id ∷ replicate (pos_part np.amount) 0

abbrev payer : NanoPay
payer = record {
  program_hash = replicate 20 1;
  recipient_program_hash = payee;
  fee = pos 1;
  duration = 100;
  id = 7;
  amount = 2;
  expiration = 100;
}

-- The fields of a payment one after the other.
abbrev pack_payment : NanoPayPayload → Bytes
pack_payment np = pack (
    np.sender
    ∷ np.recipient
    ∷ (np.id ∷ [])
    ∷ int np.amount
    ∷ (np.txn_expiration ∷ [])
    ∷ (np.nano_pay_expiration ∷ [])
    ∷ [])

abbrev unpack_payment : Bytes → Option NanoPayPayload
unpack_payment bytes =
    let fs = unpack bytes in
    some (record {
      sender = get 0 fs;
      recipient = get 1 fs;
      id = as_nat (get 2 fs);
      amount = as_int (get 3 fs);
      txn_expiration = as_nat (get 4 fs);
      nano_pay_expiration = as_nat (get 5 fs);
    })

unpack_payment-pack_payment : (np : NanoPayPayload) → unpack_payment (pack_payment np) ≡ some np
unpack_payment-pack_payment np =
    rw
      (unpack-pack (
        np.sender
        ∷ np.recipient
        ∷ (np.id ∷ [])
        ∷ int np.amount
        ∷ (np.txn_expiration ∷ [])
        ∷ (np.nano_pay_expiration ∷ [])
        ∷ []))
      (rw (as_int-int np.amount) refl)

increase_amount-opened_example :
    (tx : Transaction) × (n' : NanoPay) × (np : NanoPayPayload) × (increase_amount pack_payment
        (some 50)
        9
        3
        0
        payer
      ≡ ok (tx, n'))
    × (opened pack_payment unpack_payment tx ≡ ok np)
    × (np.sender ≡ payer.program_hash)
    × (np.recipient ≡ payer.recipient_program_hash)
    × (np.id ≡ n'.id)
    × (np.amount ≡ pos n'.amount)
    × (np.txn_expiration ≡ n'.expiration)
    × (np.nano_pay_expiration ≡ add_u32 n'.expiration payer.duration)
    × Goes pack_payment unpack_payment 50 9 3 payer n'
increase_amount-opened_example =
    increase_amount-opened pack_payment unpack_payment 50 9 3 0 payer unpack_payment-pack_payment
      (ground arith)

abbrev claimer : NanoPayClaimer
claimer = record {
  recipient_program_hash = payee;
  id = some 7;
  min_flush_amount = pos 10;
  amount = pos 2;
  closed = false;
  expiration = 100;
  last_claim_time = 0;
  prev_claimed_amount = pos 4;
  prev_flush_amount = pos 0;
  tx = some (payment encode payer 0);
}

abbrev accepts : Transaction → Bool
accepts tx = true

abbrev valid : Transaction → ℕ → Outcome Bool
valid tx height = ok true

abbrev rich : Bytes → Option ℤ
rich address = some (pos 1000)

abbrev bill : Transaction
bill = record {
  payload = some (record { is_nanopay = true; contents = 7 ∷ replicate 5 0 });
  fee = pos 1;
}

abbrev other_bill : Transaction
other_bill = record {
  payload = some (record { is_nanopay = true; contents = 8 ∷ replicate 1 0 });
  fee = pos 1;
}

nine : (claim decode accepts 0 valid rich (some 50) bill claimer).result ≡ ok (pos 9)
unfolding claim wrap_i64 ◌+ℤ◌
nine = refl

claim-verify_example :
    let r = claim decode accepts 0 verify rich (some 50) bill claimer in
    (r.claimer ≡ claimer) × (r.sent ≡ []) × ((v : ℤ) → r.result ≢ ok v)
claim-verify_example = claim-verify decode accepts 0 rich (some 50) bill claimer

seven : (claim decode accepts 0 valid rich (some 50) other_bill claimer).result ≡ ok (pos 7)
unfolding claim flush_fn wrap_i64 ◌+ℤ◌ ◌-ℤ◌
seven = refl

small : ltb_ℤ (wrap_i64 (pos 2 -ℤ pos 0)) (pos 10) ≡ true
unfolding wrap_i64 ◌-ℤ◌
small = refl

flushes : (flush_fn decode accepts 0 true claimer).sent ≢ []
unfolding flush_fn
flushes e = cc

flush_fn_once_example :
    (flush_fn decode accepts 0 true (flush_fn decode accepts 0 true claimer).claimer).sent ≡ []
flush_fn_once_example = flush_fn_once decode accepts 0 true true claimer flushes
