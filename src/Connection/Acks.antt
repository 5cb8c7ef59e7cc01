-- ===== src/Connection/Acks.antt =====
-- `receive_ack` of src/connection.rs, and what `tx` does with a failed send.
use nkn_sdk_rust.Prelude.{
  ℕ, ◌-◌, ◌*◌, ◌≤◌, ◌<◌, ◌≡◌, ◌≢◌, refl, Bool, true, false, none, some, [], ◌∷◌, ok, panicked,
  arith, ◌==◌, if◌then◌else◌, Bytes, Map, lookup, nat_eq, lookup-remove, lookup-insert,
  contains_key,
}
use nkn_sdk_rust.Floats.{F64}
use nkn_sdk_rust.Connection.{Connection, receive_ack, set_window_size, one}
use nkn_sdk_rust.Connection.Tasks.{tx_round, TxRound, mark_sent}

module _ (F : F64) (c : Connection F) (seq now : ℕ) where
  open F use {as_u64-tanh, of_nat, div, mul}

  -- A successful `receive_ack` of a packet in flight takes it, and no other, off the packets in
  -- flight and the resent ones, and leaves a token in the channel.
  pub receive_ack_forgets :
      (by_me : Bool) (sent j : ℕ) {c' : Connection F}
      → lookup seq c.time_sent_seq ≡ some sent
      → receive_ack F c seq by_me now ≡ ok c'
      → (lookup j c'.time_sent_seq ≡ (if seq == j then none else lookup j c.time_sent_seq))
        × (lookup j c'.resent_seq ≡ (if seq == j then none else lookup j c.resent_seq))
        × (c'.send_window_update ≡ true)
  unfolding receive_ack
  receive_ack_forgets true sent j e h =
      ground (arith, lookup-remove seq j c.time_sent_seq, lookup-remove seq j c.resent_seq)
  receive_ack_forgets false sent j e h =
      ground (arith, lookup-remove seq j c.time_sent_seq, lookup-remove seq j c.resent_seq)

  -- While a token is in the channel, the acknowledgement of a packet in flight panics.
  receive_ack_token :
      (by_me : Bool) (sent : ℕ)
      → lookup seq c.time_sent_seq ≡ some sent
      → c.send_window_update ≡ true
      → receive_ack F c seq by_me now ≡ panicked
  unfolding receive_ack
  receive_ack_token true sent e t = ground arith
  receive_ack_token false sent e t = ground arith

  -- An acknowledgement that comes within a third of the retransmission timeout panics.
  receive_ack_early :
      (sent : ℕ)
      → lookup seq c.time_sent_seq ≡ some sent
      → 3 * (now - sent) < c.retransmission_timeout
      → receive_ack F c seq true now ≡ panicked
  unfolding receive_ack
  receive_ack_early sent e t = ground arith

  -- A measured round trip leaves a retransmission timeout of at most one nanosecond.
  receive_ack_timeout :
      (sent : ℕ) {c' : Connection F}
      → lookup seq c.time_sent_seq ≡ some sent
      → receive_ack F c seq true now ≡ ok c'
      → c'.retransmission_timeout ≤ 1
  unfolding receive_ack
  receive_ack_timeout sent e h = ground (
    arith,
    as_u64-tanh (
        mul (div (of_nat (3 * (now - sent) - c.retransmission_timeout)) (of_nat 1_000_000_000))
          (of_nat 100_000_000)),
  )

module _ (F : F64) (c : Connection F) (send_window_data : Map ℕ Bytes) (seq now b : ℕ)
    (bs : Bytes) where
  -- A packet that was sent counts as in flight since its first send and is no longer marked as
  -- resent; the packet goes to the local client id.
  tx_round_sent :
      lookup seq send_window_data ≡ some (b ∷ bs)
      → (r : TxRound F) × (tx_round F c send_window_data seq true now ≡ ok r)
        × (lookup seq r.conn.time_sent_seq
            ≡ elim (lookup seq c.time_sent_seq) [ none ↦ some now | some t ↦ some t ])
        × (lookup seq r.conn.resent_seq ≡ none)
        × (r.sends
            ≡ record { from = c.local_client_id; to = c.local_client_id; buf = b ∷ bs; timeout = 0 }
              ∷ [])
  unfolding tx_round
  tx_round_sent e = (
    record {
      conn = mark_sent F c seq now;
      sends =
          record { from = c.local_client_id; to = c.local_client_id; buf = b ∷ bs; timeout = 0 }
          ∷ [];
    },
    ground arith,
    ground (arith, lookup-insert seq seq now c.time_sent_seq),
    ground (arith, lookup-remove seq seq c.resent_seq),
    refl,
  )

  -- A send that failed leaves its packet out of the packets in flight if it was not among them, so
  -- that no timeout sends it again; in its place number 0 is in flight. The window is halved, but
  -- not below one.
  tx_round_failed :
      lookup seq send_window_data ≡ some (b ∷ bs)
      → seq ≢ 0
      → lookup seq c.time_sent_seq ≡ none
      → (r : TxRound F) × (tx_round F c send_window_data seq false now ≡ ok r)
        × (lookup seq r.conn.time_sent_seq ≡ none)
        × (contains_key 0 r.conn.time_sent_seq ≡ true)
        × (r.conn.window_size ≡ (
            if F.lt (F.div c.window_size (F.of_nat 2)) (one F)
            then one F
            else F.div c.window_size (F.of_nat 2)))
  unfolding tx_round set_window_size
  tx_round_failed e nz fresh =
      let halved : Connection F = set_window_size F c (F.div c.window_size (F.of_nat 2)) (one F) in
      (
        record {
          conn = mark_sent F halved 0 now;
          sends =
              record { from = c.local_client_id; to = c.local_client_id; buf = b ∷ bs; timeout = 0 }
              ∷ [];
        },
        ground arith,
        ground (arith, lookup-insert 0 seq now c.time_sent_seq),
        ground (arith, lookup-insert 0 0 now c.time_sent_seq),
        refl,
      )
