-- ===== src/NanoPay.antt =====
-- src/nanopay.rs: payments that grow under one id. A `NanoPay` pays by transactions of a rising
-- amount, and a `NanoPayClaimer` accepts them and sends the last one to the chain.
pub mod Totals
pub mod Rising
pub mod Unverified
mod Runs
use nkn_sdk_rust.Prelude.{
  ℕ, ◌+◌, ◌%◌, ◌^◌, ◌==◌, ltb, leb, if◌then◌else◌, Bool, true, false, not, ◌&&◌, ◌||◌, List, [],
  ◌∷◌, ◌++◌, Option, none, some, Outcome, ok, err, panicked, ◌>>=◌, ◌>>◌, Bytes, length, take,
  unwrap, refuse_if,
}
use nkn_sdk_rust.Prelude.Maps.{bytes_beq}
use nkn_sdk_rust.Prelude.Int.{ℤ, pos, ◌+ℤ◌, ◌-ℤ◌, ltb_ℤ, leb_ℤ, wrap_i64, from_u64}

-- The message `NanoPay` of protos/transaction.proto.
pub record NanoPayPayload : Type 0 where
  pub sender : Bytes
  pub recipient : Bytes
  pub id : ℕ
  pub amount : ℤ
  pub txn_expiration : ℕ
  pub nano_pay_expiration : ℕ

-- Of a transaction, its payload and the fee, where the protobuf message has them.
pub record TxPayload : Type 0 where
  pub is_nanopay : Bool
  pub contents : Bytes

pub record Transaction : Type 0 where
  pub payload : Option TxPayload
  pub fee : ℤ

-- The paying side.
pub record NanoPay : Type 0 where
  pub program_hash : Bytes
  pub recipient_program_hash : Bytes
  pub fee : ℤ
  pub duration : ℕ
  pub id : ℕ
  pub amount : ℕ
  pub expiration : ℕ

abbrev pub add_u32 : ℕ → ℕ → ℕ
add_u32 a b = (a + b) % 2 ^ 32

abbrev pub is_expired : ℕ → NanoPay → Bool
is_expired height n = (n.expiration == 0) || ltb n.expiration (add_u32 height 5)

-- A new id where the old payment is about to expire. `fresh_id` is from the random generator.
abbrev pub renewed : ℕ → ℕ → NanoPay → NanoPay
renewed height fresh_id n =
    if is_expired height n
    then (record n { expiration = add_u32 height 5; id = fresh_id; amount = 0 })
    else n

module _ (encode : NanoPayPayload → Bytes) where
  -- The transaction of `Transaction::new_nanopay` with its fee set.
  abbrev pub payment : NanoPay → ℕ → Transaction
  payment n fee = record {
    payload = some (record {
      is_nanopay = true;
      contents = encode (record {
        sender = n.program_hash;
        recipient = n.recipient_program_hash;
        id = n.id;
        amount = from_u64 n.amount;
        txn_expiration = n.expiration;
        nano_pay_expiration = add_u32 n.expiration n.duration;
      });
    });
    fee = if fee == 0 then n.fee else from_u64 fee;
  }

  -- `height` is the answer of `get_height`, `none` its error.
  unfoldable pub increase_amount : Option ℕ → ℕ → ℕ → ℕ → NanoPay → Outcome (Transaction × NanoPay)
  increase_amount none fresh_id delta fee n = err "rpc"
  increase_amount (some height) fresh_id delta fee n =
      let r = renewed height fresh_id n in
      let n' = record r { amount = (r.amount + delta) % 2 ^ 64 } in ok (payment n' fee, n')

-- `Transaction::verify` of src/tx.rs, which is a `todo!()`.
unfoldable pub verify : Transaction → ℕ → Outcome Bool
verify tx height = panicked

-- The receiving side.
pub record NanoPayClaimer : Type 0 where
  pub recipient_program_hash : Bytes
  pub id : Option ℕ
  pub min_flush_amount : ℤ
  pub amount : ℤ
  pub closed : Bool
  pub expiration : ℕ
  pub last_claim_time : ℕ
  pub prev_claimed_amount : ℤ
  pub prev_flush_amount : ℤ
  pub tx : Option Transaction

-- `NanoPayClaimer::amount`
unfoldable pub claimed_amount : NanoPayClaimer → ℤ
claimed_amount c = wrap_i64 (c.prev_claimed_amount +ℤ c.amount)

unfoldable pub close : NanoPayClaimer → NanoPayClaimer
close c = record c { closed = true }

-- What a call did: the claimer after it, also where it was refused, and the transactions it sent.
pub record Call {ℓ} (A : Type ℓ) : Type ℓ where
  pub claimer : NanoPayClaimer
  pub sent : List Transaction
  pub result : Outcome A

abbrev pub lift {ℓ} : {A : Type ℓ} → NanoPayClaimer → Outcome A → Call A
lift c o = record { claimer = c; sent = []; result = o }

abbrev pub go_on {ℓ κ} :
    {A : Type ℓ} {B : Type κ}
    → Outcome A
    → NanoPayClaimer
    → List Transaction
    → (A → NanoPayClaimer → Call B)
    → Call B
go_on (ok a) c sent next =
    let r = next a c in record { claimer = r.claimer; sent = sent ++ r.sent; result = r.result }
go_on (err e) c sent next = record { claimer = c; sent = sent; result = err e }
go_on panicked c sent next = record { claimer = c; sent = sent; result = panicked }

abbrev pub and_call {ℓ κ} :
    {A : Type ℓ} {B : Type κ} → Call A → (A → NanoPayClaimer → Call B) → Call B
and_call call next = go_on call.result call.claimer call.sent next

-- `uint160_from_bytes` of src/utils.rs.
abbrev pub uint160_from_bytes : Bytes → Outcome Bytes
uint160_from_bytes bytes = if leb 20 (length bytes) then ok (take 20 bytes) else panicked

module _ (decode : Bytes → Option NanoPayPayload) (send_raw : Transaction → Bool) (now : ℕ) where
  -- The payload of the transaction that is flushed.
  abbrev pub flushed_payload : Transaction → Outcome NanoPayPayload
  flushed_payload tx = do
    payload ← unwrap tx.payload
    np ← unwrap (decode payload.contents)
    refuse_if (not payload.is_nanopay) "not a NanoPay payload"
    ok np

  abbrev pub send_flush : Transaction → NanoPayPayload → NanoPayClaimer → Call (Unit {0})
  send_flush tx np c =
      if send_raw tx
      then (record {
        claimer = record c {
          tx = none;
          expiration = 0;
          last_claim_time = now;
          prev_flush_amount = np.amount;
        };
        sent = tx ∷ [];
        result = ok tt;
      })
      else lift c (err "rpc")

  abbrev pub is_small : NanoPayClaimer → Bool
  is_small c = ltb_ℤ (wrap_i64 (c.amount -ℤ c.prev_flush_amount)) c.min_flush_amount

  unfoldable pub flush_fn : Bool → NanoPayClaimer → Call (Unit {0})
  flush_fn force c = if not force && is_small c then lift c (ok tt) else elim c.tx [
    | none ↦ lift c (ok tt)
    | some tx ↦ and_call (lift c (flushed_payload tx)) (send_flush tx)
  ]

  -- `verify_tx` is `verify`, or what may be written in its place.
  module _ (verify_tx : Transaction → ℕ → Outcome Bool) (get_balance : Bytes → Option ℤ) where
    -- The tests before the claimer changes, up to `closed`.
    abbrev pub accepted : Option ℕ → Transaction → NanoPayClaimer → Outcome (ℕ × NanoPayPayload)
    accepted none tx c = err "rpc"
    accepted (some height) tx c = do
      payload ← unwrap tx.payload
      refuse_if (not payload.is_nanopay) "not a NanoPay payload"
      np ← unwrap (decode payload.contents)
      recipient ← uint160_from_bytes np.recipient
      refuse_if (not (bytes_beq recipient c.recipient_program_hash)) "wrong recipient"
      valid ← verify_tx tx height
      refuse_if (not valid) "incorrect transaction"
      sender ← uint160_from_bytes np.sender
      refuse_if c.closed "nanopay closed"
      ok (height, np)

    -- Another id than before: what was claimed under the old one is flushed and added up.
    abbrev pub start_id : Unit {0} → NanoPayClaimer → Call (Unit {0})
    start_id u c =
        lift
          (record c {
            id = none;
            prev_claimed_amount = wrap_i64 (c.prev_claimed_amount +ℤ c.amount);
            prev_flush_amount = pos 0;
            amount = pos 0;
          })
          (ok tt)

    abbrev pub match_id : Option ℕ → NanoPayPayload → NanoPayClaimer → Call (Unit {0})
    match_id none np c = lift c (ok tt)
    match_id (some id) np c =
        if id == np.id
        then lift c (refuse_if (leb_ℤ np.amount c.amount) "invalid amount")
        else and_call (flush_fn false c) start_id

    -- The tests of the balance and the expirations.
    abbrev pub affordable : ℕ → NanoPayPayload → NanoPayClaimer → Outcome (Unit {0})
    affordable height np c = elim (get_balance (take 20 np.sender)) [
      | none ↦ err "rpc"
      | some balance ↦ do
        refuse_if (ltb_ℤ (wrap_i64 (balance +ℤ c.prev_flush_amount)) np.amount)
            "insufficient balance"
        refuse_if (leb np.txn_expiration (add_u32 height 3)) "expired nanopay transaction"
        refuse_if (leb np.nano_pay_expiration (add_u32 height 3)) "expired nanopay"
        ok tt
    ]

    abbrev pub take_payment : Transaction → NanoPayPayload → NanoPayClaimer → Call ℤ
    take_payment tx np c =
        lift
          (record c {
            id = some np.id;
            tx = some tx;
            expiration = np.txn_expiration;
            amount = np.amount;
          })
          (ok (wrap_i64 (c.prev_claimed_amount +ℤ np.amount)))

    unfoldable pub claim : Option ℕ → Transaction → NanoPayClaimer → Call ℤ
    unfolding flush_fn
    claim height tx c = and_call (lift c (accepted height tx c)) (λ (h, np) c.
        and_call (match_id c.id np c)
          (λ u c. and_call (lift c (affordable h np c)) (λ u c. take_payment tx np c)))
