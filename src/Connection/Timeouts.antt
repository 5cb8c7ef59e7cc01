-- ===== src/Connection/Timeouts.antt =====
-- `check_timeout` of src/connection.rs: which packets go to the resend channel.
use nkn_sdk_rust.Prelude.{
  ℕ, ◌-◌, ◌<◌, ◌≡◌, refl, true, false, Option, none, some, [], ◌∷◌, arith, ◌==◌, if◌then◌else◌, inl,
  inr, ◌⊎◌, All, Map, insert, contains_key, nat_eq, lookup-insert, ltb, Bool-cases, ap,
}
use nkn_sdk_rust.Floats.{F64}
use nkn_sdk_rust.Connection.{Connection}
use nkn_sdk_rust.Connection.Tasks.{Checked, check_timeouts, TimeoutRound, check_timeout_round}

contains_key-insert :
    (k j : ℕ) (m : Map ℕ (Unit {0}))
    → contains_key j (insert k tt m) ≡ (if k == j then true else contains_key j m)
contains_key-insert k j m = ground (arith, lookup-insert k j tt m)

-- What is overdue has a mark.
abbrev pub IsMarked : ℕ → Map ℕ (Unit {0}) → ℕ × ℕ → Type 0
IsMarked threshold resent (seq, t) = t < threshold → contains_key seq resent ≡ true

-- A packet that is overdue, in flight and without a mark.
abbrev pub IsOverdue : ℕ → Map ℕ ℕ → Map ℕ (Unit {0}) → ℕ → Type 0
IsOverdue threshold [] resent seq = ⊥
IsOverdue threshold ((s, t) ∷ rest) resent seq =
    ((s ≡ seq) × (t < threshold) × (contains_key seq resent ≡ false))
    ⊎ IsOverdue threshold rest resent seq

IsMarked-insert :
    (threshold k : ℕ) (resent : Map ℕ (Unit {0})) (entry : ℕ × ℕ)
    → IsMarked threshold resent entry
    → IsMarked threshold (insert k tt resent) entry
IsMarked-insert threshold k resent (seq, t) h late =
    ground (arith, h late, contains_key-insert k seq resent)

-- With a full channel the first packet to resend waits.
check_timeouts_full :
    (threshold v : ℕ) (in_flight : Map ℕ ℕ) (resent : Map ℕ (Unit {0}))
    → (All (IsMarked threshold resent) in_flight
        × (check_timeouts threshold in_flight (some v) resent
            ≡ record { chan = some v; resent = resent; waiting = none }))
      ⊎ ((seq : ℕ) × IsOverdue threshold in_flight resent seq
          × (check_timeouts threshold in_flight (some v) resent
              ≡ record { chan = some v; resent = resent; waiting = some seq }))
unfolding check_timeouts
check_timeouts_full threshold v [] resent = inl (tt, refl)
check_timeouts_full threshold v ((seq, t) ∷ rest) resent =
    elim (Bool-cases (if contains_key seq resent then false else ltb t threshold)) [
      | inl due ↦ inr (seq, inl (refl, ground arith, ground arith), rw (check_timeouts, due) refl)
      | inr other ↦ elim (check_timeouts_full threshold v rest resent) [
        | inl (marked, e) ↦ inl ((λ late. ground arith, marked), rw (check_timeouts, other) e)
        | inr (first, h, e) ↦ inr (first, inr h, rw (check_timeouts, other) e)
      ]
    ]

-- With an empty channel it is sent and marked, and the next one waits.
check_timeouts_empty :
    (threshold : ℕ) (in_flight : Map ℕ ℕ) (resent : Map ℕ (Unit {0}))
    → let r = check_timeouts threshold in_flight none resent in
      (All (IsMarked threshold resent) in_flight
        × (r ≡ record { chan = none; resent = resent; waiting = none }))
      ⊎ ((seq : ℕ) × IsOverdue threshold in_flight resent seq
          × ((All (IsMarked threshold (insert seq tt resent)) in_flight
                × (r ≡ record { chan = some seq; resent = insert seq tt resent; waiting = none }))
              ⊎ ((next : ℕ) × IsOverdue threshold in_flight (insert seq tt resent) next
                  × (r ≡ record {
                    chan = some seq;
                    resent = insert seq tt resent;
                    waiting = some next;
                  }))))
unfolding check_timeouts
check_timeouts_empty threshold [] resent = inl (tt, refl)
check_timeouts_empty threshold ((seq, t) ∷ rest) resent =
    elim (Bool-cases (if contains_key seq resent then false else ltb t threshold)) [
      | inl due ↦ inr (
        seq,
        inl (refl, ground arith, ground arith),
        elim (check_timeouts_full threshold seq rest (insert seq tt resent)) [
          | inl (marked, e) ↦ inl (
            (λ late. ground (arith, contains_key-insert seq seq resent), marked),
            rw (check_timeouts, due) e,
          )
          | inr (next, h, e) ↦ inr (next, inr h, rw (check_timeouts, due) e)
        ],
      )
      | inr other ↦
          let own : IsMarked threshold resent (seq, t) = λ late. ground arith in
          elim (check_timeouts_empty threshold rest resent) [
            | inl (marked, e) ↦ inl ((own, marked), rw (check_timeouts, other) e)
            | inr (first, h, inl (marked, e)) ↦ inr (
              first,
              inr h,
              inl (
                (IsMarked-insert threshold first resent (seq, t) own, marked),
                rw (check_timeouts, other) e,
              ),
            )
            | inr (first, h, inr (next, h', e)) ↦
                inr (first, inr h, inr (next, inr h', rw (check_timeouts, other) e))
          ]
    ]

-- Where every overdue packet has a mark, nothing is resent.
check_timeouts_quiet :
    (threshold : ℕ) (in_flight : Map ℕ ℕ) (chan : Option ℕ) (resent : Map ℕ (Unit {0}))
    → All (IsMarked threshold resent) in_flight
    → check_timeouts threshold in_flight chan resent
      ≡ record { chan = chan; resent = resent; waiting = none }
unfolding check_timeouts
check_timeouts_quiet threshold [] chan resent h = refl
check_timeouts_quiet threshold ((seq, t) ∷ rest) chan resent h =
    elim (Bool-cases (if contains_key seq resent then false else ltb t threshold)) [
      | inl due ↦ absurd (ground (arith, h.0))
      | inr other ↦ rw (check_timeouts, other) (check_timeouts_quiet threshold rest chan resent h.1)
    ]

-- What became of a connection and the resend channel in a round.
abbrev pub Resends : (F : F64) → Connection F → ℕ → Option ℕ → TimeoutRound F → Type 0
Resends F c now chan r =
    let threshold = now - c.retransmission_timeout in
    (All (IsMarked threshold c.resent_seq) c.time_sent_seq
      × (r ≡ record { resend_chan = chan; conn = c; waiting = none }))
    ⊎ ((seq : ℕ) × IsOverdue threshold c.time_sent_seq c.resent_seq seq
        × (((full : ℕ) × (chan ≡ some full)
              × (r ≡ record { resend_chan = chan; conn = c; waiting = some seq }))
            ⊎ ((chan ≡ none)
                × (r.resend_chan ≡ some seq)
                × (r.conn ≡ (record c { resent_seq = insert seq tt c.resent_seq }))
                × (((r.waiting ≡ none)
                      × All (IsMarked threshold r.conn.resent_seq) c.time_sent_seq
                      × ((later : Option ℕ)
                          → check_timeout_round F r.conn now later
                            ≡ record { resend_chan = later; conn = r.conn; waiting = none }))
                    ⊎ ((next : ℕ) × (r.waiting ≡ some next)
                        × IsOverdue threshold c.time_sent_seq r.conn.resent_seq next)))))

-- What a round of `check_timeout` does with the resend channel as it finds it. Where every packet that
-- is in flight longer than the timeout was resent already, it changes nothing. Else a full channel makes
-- it wait with a packet that is overdue and not resent, and changes nothing either; an empty channel
-- gets one such packet, which alone is marked, and then the round ends if that was the last of them, so
-- that another one at the same time changes nothing, and else waits with the next.
pub check_timeout_round-Resends :
    (F : F64) (c : Connection F) (now : ℕ) (chan : Option ℕ)
    → Resends F c now chan (check_timeout_round F c now chan)
unfolding check_timeout_round
check_timeout_round-Resends F c now none =
    let threshold = now - c.retransmission_timeout in
    let round : Checked → TimeoutRound F = λ x. record {
      resend_chan = x.chan;
      conn = record c { resent_seq = x.resent };
      waiting = x.waiting;
    } in
    elim (check_timeouts_empty threshold c.time_sent_seq c.resent_seq) [
      | inl (marked, e) ↦ inl (marked, ap round e)
      | inr (seq, h, inl (marked, e)) ↦ inr (
        seq,
        h,
        inr (
          refl,
          ap (λ x. x.chan) e,
          ap (λ x. (round x).conn) e,
          inl (
            ap (λ x. x.waiting) e,
            rw e marked,
            λ later. rw e (
                ap
                  (λ x. record {
                    resend_chan = x.chan;
                    conn = record c { resent_seq = x.resent };
                    waiting = x.waiting;
                  })
                  (check_timeouts_quiet threshold c.time_sent_seq later (insert seq tt c.resent_seq)
                    marked)),
          ),
        ),
      )
      | inr (seq, h, inr (next, h', e)) ↦ inr (
        seq,
        h,
        inr (
          refl,
          ap (λ x. x.chan) e,
          ap (λ x. (round x).conn) e,
          inr (next, ap (λ x. x.waiting) e, rw e h'),
        ),
      )
    ]
check_timeout_round-Resends F c now (some full) =
    let threshold = now - c.retransmission_timeout in
    let round : Checked → TimeoutRound F = λ x. record {
      resend_chan = x.chan;
      conn = record c { resent_seq = x.resent };
      waiting = x.waiting;
    } in
    elim (check_timeouts_full threshold full c.time_sent_seq c.resent_seq) [
      | inl (marked, e) ↦ inl (marked, ap round e)
      | inr (seq, h, e) ↦ inr (seq, h, inl (full, refl, ap round e))
    ]
