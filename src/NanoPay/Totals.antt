-- ===== src/NanoPay/Totals.antt =====
-- What a claim of src/nanopay.rs does to the amount that was claimed.
use nkn_sdk_rust.Prelude.{
  ℕ, ◌==◌, ◌≡◌, ◌≢◌, ◌⊎◌, inl, inr, refl, Bool, true, List, [], ◌++◌, Option, none, some, Outcome,
  ok, err, panicked, Bytes, ◌∙◌, arith, Bool-cases, ==_iff,
}
use nkn_sdk_rust.Prelude.Int.{ℤ, ltb_ℤ}
use nkn_sdk_rust.NanoPay.{
  NanoPayPayload, Transaction, NanoPayClaimer, claimed_amount, Call, flush_fn, claim, is_small,
  accepted, match_id, affordable, and_call, lift, go_on, take_payment,
}

-- A call that returned took its first step.
go_on-ok {ℓ κ} :
    {A : Type ℓ} {B : Type κ} (o : Outcome A) (c : NanoPayClaimer) (sent : List Transaction)
    (next : A → NanoPayClaimer → Call B) {b : B}
    → (go_on o c sent next).result ≡ ok b
    → (a : A) × (o ≡ ok a)
      × ((next a c).result ≡ ok b)
      × ((go_on o c sent next).claimer ≡ (next a c).claimer)
      × ((go_on o c sent next).sent ≡ sent ++ (next a c).sent)
go_on-ok (ok a) c sent next returned = (a, refl, returned, refl, refl)
go_on-ok panicked c sent next returned = absurd (cc)
go_on-ok (err e) c sent next returned = absurd (cc)

module _ (decode : Bytes → Option NanoPayPayload) (send_raw : Transaction → Bool) (now : ℕ) where
  -- After a flush that sent a transaction, the next flush, forced or not, sends nothing.
  pub flush_fn_once :
      (force again : Bool) (c : NanoPayClaimer)
      → let r = flush_fn decode send_raw now force c in
        r.sent ≢ [] → (flush_fn decode send_raw now again r.claimer).sent ≡ []
  unfolding flush_fn
  flush_fn_once force again c sent = ground arith

  module _ (verify : Transaction → ℕ → Outcome Bool) (get_balance : Bytes → Option ℤ) where
    match_id_rises :
        (id : Option ℕ) (np : NanoPayPayload) (c : NanoPayClaimer)
        → (match_id decode send_raw now verify get_balance id np c).result ≡ ok tt
        → (id ≢ some np.id) ⊎ (ltb_ℤ c.amount np.amount ≡ true)
    match_id_rises none np c h = inl (λ e. cc)
    match_id_rises (some id) np c h = elim (Bool-cases (id == np.id)) [
      | inl same ↦ inr (ground (arith, same))
      | inr other ↦ inl (λ e. ground (arith, ==_iff id np.id))
    ]

    -- What follows the first tests.
    abbrev after_tests : Transaction → NanoPayClaimer → ℕ × NanoPayPayload → Call ℤ
    after_tests tx c (h, np) =
        and_call (match_id decode send_raw now verify get_balance c.id np c) (λ u c.
          and_call (lift c (affordable decode send_raw now verify get_balance h np c))
            (λ u c. take_payment decode send_raw now verify get_balance tx np c))

    -- What a claim that returns `v` did.
    abbrev Raised : Transaction → NanoPayClaimer → ℤ → NanoPayClaimer → Type 0
    Raised tx c v c' =
        (v ≡ claimed_amount c')
        × (c'.tx ≡ some tx)
        × ((c.id ≢ c'.id) ⊎ (ltb_ℤ c.amount c'.amount ≡ true))

    after_tests-Raised :
        (h : ℕ) (np : NanoPayPayload) (tx : Transaction) (c : NanoPayClaimer) {v : ℤ}
        → (after_tests tx c (h, np)).result ≡ ok v
        → Raised tx c v (after_tests tx c (h, np)).claimer
    unfolding claimed_amount
    after_tests-Raised h np tx c {v = v} returned =
        let call = match_id decode send_raw now verify get_balance c.id np c in
        let (u, e, r, same, sends) = go_on-ok call.result call.claimer call.sent _ returned in
        let tests = affordable decode send_raw now verify get_balance h np call.claimer in
        let (u', e', r', same', sends') = go_on-ok tests call.claimer [] _ r in
        let end : (after_tests tx c (h, np)).claimer
            ≡ (take_payment decode send_raw now verify get_balance tx np call.claimer).claimer =
          same ∙ same' in
        rw end (cc, refl, match_id_rises c.id np c e)

    -- A claim that is accepted returns the claimed amount; under the id of the last one it is above the
    -- amount before.
    pub claim_raises :
        (height : Option ℕ) (tx : Transaction) (c : NanoPayClaimer) {v : ℤ}
        → let r = claim decode send_raw now verify get_balance height tx c in
          r.result ≡ ok v
          → (v ≡ claimed_amount r.claimer)
            × (r.claimer.tx ≡ some tx)
            × ((c.id ≢ r.claimer.id) ⊎ (ltb_ℤ c.amount r.claimer.amount ≡ true))
    unfolding claim
    claim_raises height tx c returned =
        let tests = accepted decode send_raw now verify get_balance height tx c in
        let ((h, np), e, r, same, sends) =
          go_on-ok tests c [] (λ a c. after_tests tx c a) returned in
        rw same (after_tests-Raised h np tx c r)

    match_id_small :
        (id : Option ℕ) (np : NanoPayPayload) (c : NanoPayClaimer)
        → is_small decode send_raw now c ≡ true
        → (match_id decode send_raw now verify get_balance id np c).sent ≡ []
    unfolding flush_fn
    match_id_small none np c small = refl
    match_id_small (some id) np c small = ground (arith, small)

    after_tests_small :
        (h : ℕ) (np : NanoPayPayload) (tx : Transaction) (c : NanoPayClaimer) {v : ℤ}
        → is_small decode send_raw now c ≡ true
        → (after_tests tx c (h, np)).result ≡ ok v
        → (after_tests tx c (h, np)).sent ≡ []
    after_tests_small h np tx c small returned =
        let call = match_id decode send_raw now verify get_balance c.id np c in
        let (u, e, r, same, sends) = go_on-ok call.result call.claimer call.sent _ returned in
        let tests = affordable decode send_raw now verify get_balance h np call.claimer in
        let (u', e', r', same', sends') = go_on-ok tests call.claimer [] _ r in
        sends ∙ rw (match_id_small c.id np c small) sends'

    -- While less than the minimum is not flushed yet, an accepted claim sends nothing and puts its
    -- transaction in the place of the one before, also where that one paid under another id.
    claim_unflushed :
        (height : Option ℕ) (tx : Transaction) (c : NanoPayClaimer) {v : ℤ}
        → let r = claim decode send_raw now verify get_balance height tx c in
          is_small decode send_raw now c ≡ true
          → r.result ≡ ok v
          → (r.sent ≡ []) × (r.claimer.tx ≡ some tx)
    unfolding claim
    claim_unflushed height tx c small returned =
        let tests = accepted decode send_raw now verify get_balance height tx c in
        let ((h, np), e, r, same, sends) =
          go_on-ok tests c [] (λ a c. after_tests tx c a) returned in
        (sends ∙ after_tests_small h np tx c small r, (claim_raises height tx c returned).1)
