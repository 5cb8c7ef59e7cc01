-- ===== src/NanoPay/Unverified.antt =====
-- The claims of src/nanopay.rs with `Transaction::verify` of src/tx.rs as it is.
use nkn_sdk_rust.Prelude.{
  ℕ, Bool, ◌≡◌, ◌≢◌, refl, [], Option, Outcome, ok, err, panicked, Bytes, arith,
}
use nkn_sdk_rust.Prelude.Int.{ℤ}
use nkn_sdk_rust.NanoPay.{
  NanoPayPayload, Transaction, NanoPayClaimer, verify, claim, accepted, Call, and_call, lift,
}

-- What is not accepted changes nothing.
and_call-lift :
    {A : Type 0} (o : Outcome A) (c : NanoPayClaimer) (next : A → NanoPayClaimer → Call ℤ)
    → ((a : A) → o ≢ ok a)
    → let r = and_call (lift c o) next in
      (r.claimer ≡ c) × (r.sent ≡ []) × ((v : ℤ) → r.result ≢ ok v)
and_call-lift (ok a) c next never = absurd (never a refl)
and_call-lift (err e) c next never = (refl, refl, λ v h. absurd (cc))
and_call-lift panicked c next never = (refl, refl, λ v h. absurd (cc))

module _ (decode : Bytes → Option NanoPayPayload) (send_raw : Transaction → Bool) (now : ℕ)
    (get_balance : Bytes → Option ℤ) where
  accepted-verify :
      (height : Option ℕ) (tx : Transaction) (c : NanoPayClaimer) (a : ℕ × NanoPayPayload)
      → accepted decode send_raw now verify get_balance height tx c ≢ ok a
  unfolding verify
  accepted-verify height tx c a h = ground arith

  -- No claim is accepted: each ends with an error or panics, sends nothing and leaves the claimer as it
  -- was, since `verify` is not written.
  pub claim-verify :
      (height : Option ℕ) (tx : Transaction) (c : NanoPayClaimer)
      → let r = claim decode send_raw now verify get_balance height tx c in
        (r.claimer ≡ c) × (r.sent ≡ []) × ((v : ℤ) → r.result ≢ ok v)
  unfolding claim
  claim-verify height tx c =
      and_call-lift (accepted decode send_raw now verify get_balance height tx c) c _
        (accepted-verify height tx c)
